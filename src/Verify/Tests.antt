-- ===== src/Verify/Tests.antt =====
-- The theorems on src/openwright/verify.py at concrete inputs: a report on a ledger of one event.
use openwright.Merkle.Consistency.{verify_consistency, join_first}
use openwright.Crosswalk.Values.{eq_value, get}
use openwright.Merkle.Pow2.{largest_pow2_lt}
use openwright.Witness.{unhex_all}
use openwright.Verify.Checkpoints.{
  verify_consistency_between, signed_by, verify_consistency_between_sound,
}
use openwright.Merkle.Consistency.Sizes.{IsDigest, tree_hash-IsDigest}
use openwright.Signing.{key_id_for}
use openwright.Verify.Logged.{EventLogged, verify_report_logged}
use openwright.Merkle.{leaf_hash, verify_inclusion, tree_hash, node_hash, advance, join}
use openwright.Ledger.Backends.{in_memory}
use openwright.Ledger.{commit, commit_leaf}
use openwright.Verify.Malformed.{verify_report_raises}
use openwright.Verify.Events.{stored_leaf}
use openwright.Dicts.{read_block, iterate, Number, dget, dget_or}
use openwright.Verify.Valid.{Accepts, verify_report_valid}
use openwright.Signing.Toy.{toy_platform, toy_dumps}
use openwright.Verify.Report.{verify_report, events_of}
use openwright.Canonical.{Fields, Items, Value, clean}
use openwright.Crosswalk.Toy.{crosswalk, decision}
use openwright.Verify.Derived.{VerdictsDerived}
use openwright.Verify.Deep.{crosswalk_content_hash}
use openwright.Common.{
  bytes_eq, hex, fromhex, ℕ, ◌≡◌, refl, ◌⊎◌, true, false, Option, none, some, List, [], ◌∷◌, ◌++◌,
  arith, length, take, All, Bytes, Collision, Text, codes, toy_sha256, toy_sha256_sized,
}
use openwright.Verify.{
  start as fresh, Fields, leaf_from_event, VerificationResult, checkpoint_bytes, report_payload,
  head_of, read_block, Number, key_id_for, Libraries,
}
use openwright.Ledger.Toy.{start, one, committed, toy_IsHash, one-InStep}
use openwright.Merkle.Frontier

abbrev signer : Bytes
signer = 9 ∷ []

abbrev toy_libraries : Libraries
toy_libraries = record {
  pem_key = λ s. none;
  validate = λ d. some decision;
  dump_crosswalk = λ c. Value.str c.id;
  builtin = λ v. none;
}

abbrev event_dict : Fields
event_dict =
    Fields.field (codes "event_id") (Value.str (committed start 1).0.event_id)
      (Fields.field (codes "kind") (Value.int 1) Fields.empty)

abbrev only_leaf : Bytes
only_leaf = elim (leaf_from_event toy_platform event_dict) [ none ↦ [] | some h ↦ h ]

abbrev item : Text → Fields
item leaf_hash = Fields.field (codes "event") (Value.dict event_dict) (
    Fields.field (codes "leaf_index") (Value.int 0)
      (Fields.field (codes "leaf_hash") (Value.str leaf_hash) Fields.empty))

abbrev signed : Fields → Option Bytes → Fields
signed d none = d
signed d (some content) = Fields.field (codes "signature") (Value.str (signer ++ content)) d

abbrev head : Fields
head = Fields.field (codes "origin") (Value.str (codes "log")) (
    Fields.field (codes "root_hash") (Value.str (hex (Frontier.root toy_sha256 one.tree))) (
      Fields.field (codes "timestamp") (Value.str (codes "now"))
        (Fields.field (codes "tree_size") (Value.int 1) Fields.empty)))

abbrev cp : Fields
cp = signed head (checkpoint_bytes toy_platform head)

abbrev pinned : Fields → Option Text → Fields
pinned d none = d
pinned d (some hash) =
    Fields.field (codes "crosswalk")
      (Value.dict (Fields.field (codes "content_hash") (Value.str hash) Fields.empty)) d

abbrev controls : Items
controls =
    Items.item
      (Value.dict (
        Fields.field (codes "control_id") (Value.str (codes "art12")) (
          Fields.field (codes "status") (Value.str (codes "satisfied")) (
            Fields.field (codes "evidence_event_ids")
              (Value.list (Items.item (Value.str (committed start 1).0.event_id) Items.nil))
              Fields.empty))))
      Items.nil

abbrev unsigned : Text → Fields
unsigned leaf_hash = Fields.field (codes "checkpoint") (Value.dict cp) (
    Fields.field (codes "events") (Value.list (Items.item (Value.dict (item leaf_hash)) Items.nil))
      (Fields.field (codes "controls") (Value.list controls)
        (pinned Fields.empty (crosswalk_content_hash toy_platform toy_libraries crosswalk))))

abbrev sealed : Fields → Option Bytes → Fields
sealed d none = d
sealed d (some content) =
    Fields.field (codes "signature")
      (Value.dict (Fields.field (codes "signature") (Value.str (signer ++ content)) Fields.empty)) d

abbrev report : Text → Fields
report leaf_hash = sealed (unsigned leaf_hash) (report_payload toy_platform (unsigned leaf_hash))

abbrev good : Fields
good = report (codes "sha256:" ++ hex only_leaf)

abbrev result : VerificationResult
result = elim (verify_report toy_platform toy_libraries true (some crosswalk) good (some signer)) [
  | none ↦ fresh
  | some r ↦ r
]

verified :
    verify_report toy_platform toy_libraries true (some crosswalk) good (some signer) ≡ some result
unfolding verify_report clean bytes_eq fromhex hex Frontier.root commit commit_leaf in_memory
    Frontier.append leaf_hash toy_dumps
verified = refl

valid : result.valid ≡ true
unfolding verify_report clean bytes_eq fromhex hex Frontier.root commit commit_leaf in_memory
    Frontier.append leaf_hash toy_dumps verify_inclusion tree_hash get
valid = refl

verify_report_valid_example :
    (key : Bytes) × ((k : Bytes) → ◌≡◌ {A = Option Bytes} (some signer) (some k) → key ≡ k)
    × Accepts toy_platform key good
    × (true ≡ true → VerdictsDerived toy_platform toy_libraries (some crosswalk) good)
verify_report_valid_example =
    verify_report_valid toy_platform toy_libraries true (some crosswalk) good (some signer) result
      verified valid

same_head : head_of cp ≡ some (Frontier.root toy_sha256 one.tree, (true, length one.leaves))
unfolding head_of checkpoint_bytes bytes_eq clean fromhex hex Frontier.root commit commit_leaf
    in_memory Frontier.append leaf_hash toy_dumps
same_head = refl

is_cp : read_block (dget (codes "checkpoint") good) ≡ some cp
unfolding dget_or report_payload clean bytes_eq checkpoint_bytes crosswalk_content_hash
is_cp = refl

verify_report_logged_example :
    ((items : List Value) × (iterate (events_of good) ≡ some items)
      × All (EventLogged toy_platform in_memory one) items)
    ⊎ Collision toy_sha256
verify_report_logged_example =
    verify_report_logged toy_platform in_memory one toy_libraries true (some crosswalk) good
      (some signer) result cp toy_IsHash one-InStep verified valid is_cp same_head

abbrev first_head : Bytes × Number
first_head = (Frontier.root toy_sha256 one.tree, (true, 1))

bad_cp : read_block (dget (codes "checkpoint") (report (codes "sha256:zz"))) ≡ some cp
unfolding dget_or report_payload clean bytes_eq checkpoint_bytes crosswalk_content_hash
bad_cp = refl

bad_items :
    iterate (events_of (report (codes "sha256:zz")))
    ≡ some (Value.dict (item (codes "sha256:zz")) ∷ [])
unfolding iterate dget_or report_payload clean bytes_eq checkpoint_bytes crosswalk_content_hash
bad_items = refl

bad_leaf :
    stored_leaf (dget_or (codes "leaf_hash") (Value.str []) (item (codes "sha256:zz"))) ≡ none
unfolding stored_leaf dget_or bytes_eq fromhex
bad_leaf = refl

verify_report_raises_example :
    verify_report toy_platform toy_libraries false none (report (codes "sha256:zz")) (some signer)
    ≡ none
unfolding commit clean commit_leaf in_memory
verify_report_raises_example =
    verify_report_raises toy_platform toy_libraries false none (report (codes "sha256:zz")) cp
      signer first_head (Value.dict (item (codes "sha256:zz"))) [] (item (codes "sha256:zz")) bad_cp
      same_head bad_items refl bad_leaf

abbrev leaf : ℕ → Bytes
leaf n = leaf_hash toy_sha256 (n ∷ [])

abbrev log_head : List Bytes → Fields
log_head ls = Fields.field (codes "origin") (Value.str (codes "log")) (
    Fields.field (codes "root_hash") (Value.str (hex (tree_hash toy_sha256 ls))) (
      Fields.field (codes "timestamp") (Value.str (codes "now")) (
        Fields.field (codes "tree_size") (Value.int (length ls)) (
          Fields.field (codes "public_key_id") (Value.str (key_id_for toy_platform signer))
            Fields.empty))))

abbrev log_cp : List Bytes → Fields
log_cp ls = signed (log_head ls) (checkpoint_bytes toy_platform (log_head ls))

abbrev pair : List Bytes
pair = leaf 1 ∷ leaf 2 ∷ []

abbrev triple : List Bytes
triple = leaf 1 ∷ leaf 2 ∷ leaf 3 ∷ []

leaf-IsDigest : (n : ℕ) → IsDigest (leaf n)
unfolding leaf_hash
leaf-IsDigest n = toy_sha256_sized (0x00 ∷ n ∷ [])

extends :
    verify_consistency_between toy_platform
      (log_cp pair)
      (log_cp triple)
      (hex (leaf 3) ∷ [])
      (some signer)
    ≡ some true
unfolding verify_consistency_between bytes_eq clean toy_dumps hex tree_hash node_hash
    largest_pow2_lt leaf_hash eq_value key_id_for fromhex verify_consistency advance join_first join
extends = refl

pair_head : head_of (log_cp pair) ≡ some (tree_hash toy_sha256 pair, (true, 2))
unfolding head_of checkpoint_bytes bytes_eq clean fromhex hex tree_hash node_hash largest_pow2_lt
    leaf_hash
pair_head = refl

triple_head : head_of (log_cp triple) ≡ some (tree_hash toy_sha256 triple, (true, length triple))
unfolding head_of checkpoint_bytes bytes_eq clean fromhex hex tree_hash node_hash largest_pow2_lt
    leaf_hash
triple_head = refl

read_nodes : unhex_all (hex (leaf 3) ∷ []) ≡ some (leaf 3 ∷ [])
unfolding unhex_all fromhex hex leaf_hash
read_nodes = refl

verify_consistency_between_sound_example :
    ((key : Bytes) × (◌≡◌ {A = Option Bytes} (some signer) (some key))
      × (signed_by toy_platform key (log_cp pair) ≡ some true)
      × (signed_by toy_platform key (log_cp triple) ≡ some true))
    × ((tree_hash toy_sha256 pair ≡ tree_hash toy_sha256 (take 2 triple)) ⊎ Collision toy_sha256)
verify_consistency_between_sound_example =
    verify_consistency_between_sound toy_platform toy_sha256_sized (log_cp pair) (log_cp triple)
      (hex (leaf 3) ∷ []) (some signer) 2 triple (tree_hash toy_sha256 pair) (leaf 3 ∷ []) extends
      pair_head triple_head read_nodes (omega arith) (omega arith)
      (leaf-IsDigest 1, (leaf-IsDigest 2, (leaf-IsDigest 3, tt)))
      (tree_hash-IsDigest toy_sha256 toy_sha256_sized pair (leaf-IsDigest 1, (leaf-IsDigest 2, tt)))
      (leaf-IsDigest 3, tt)
