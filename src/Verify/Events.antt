-- ===== src/Verify/Events.antt =====
-- Steps 4, 5 and 6 of `verify_report` in src/openwright/verify.py: events, the whole tree, controls.
use openwright.Merkle.{verify_inclusion, tree_hash}
use openwright.Verify.{
  Surfaced, VerificationResult, leaf_from_event, warn, selective_disclosure, check, full_tree_root,
}
use openwright.Signing.{Platform}
use openwright.Ledger.{last_segment}
use openwright.Canonical.{Value, Fields, Items}
use openwright.Common.{
  bytes_eq, fromhex, ℕ, zero, suc, Bool, true, false, not, ◌&&◌, Option, none, some, List, [], ◌∷◌,
  ◌++◌, ◌==◌, if◌then◌else◌, length, any, Bytes, codes, ◌>>=◌, guard,
}
use openwright.Dicts.{Number, iterate, read_text, dget_or, hashable, dget, read_block, read_dict}
use openwright.Crosswalk.Values.{number, eq_value, truthy}

abbrev same_number : Number → Number → Bool
same_number (true, a) (true, b) = a == b
same_number (false, a) (false, b) = a == b
same_number (true, a) (false, b) = false
same_number (false, a) (true, b) = false

-- `leaves_by_index[idx] = leaf`
unfoldable pub put_leaf : Number → Bytes → List (Number × Bytes) → List (Number × Bytes)
put_leaf idx leaf [] = (idx, leaf) ∷ []
put_leaf idx leaf ((i, h) ∷ rest) =
    if same_number idx i then (idx, leaf) ∷ rest else (i, h) ∷ put_leaf idx leaf rest

unfoldable pub leaf_at : ℕ → List (Number × Bytes) → Option Bytes
leaf_at n [] = none
leaf_at n ((i, h) ∷ rest) = if same_number (true, n) i then some h else leaf_at n rest

-- `[leaves_by_index[i] for i in range(n)]`, when they are all there.
unfoldable pub leaves_upto : ℕ → List (Number × Bytes) → Option (List Bytes)
unfolding leaf_at
leaves_upto zero leaves = some []
leaves_upto (suc n) leaves = do
  before ← leaves_upto n leaves
  leaf ← leaf_at n leaves
  some (before ++ leaf ∷ [])

-- The ordered leaves, when there are n and each index below n has one.
unfoldable pub all_leaves : ℕ → List (Number × Bytes) → Option (List Bytes)
unfolding leaves_upto
all_leaves n leaves = if length leaves == n then leaves_upto n leaves else none

-- What the loop over the events gathers.
pub record Seen : Type 0 where
  pub present_ids : List Value
  pub leaves_by_index : List (Number × Bytes)
  pub leaf_ok_all : Bool
  pub incl_ok_all : Bool

abbrev pub nothing_seen : Seen
nothing_seen = record {
  present_ids = [];
  leaves_by_index = [];
  leaf_ok_all = true;
  incl_ok_all = true;
}

-- `bytes.fromhex(stored.split(":")[-1]) if stored else b""`
unfoldable pub stored_leaf : Value → Option Bytes
unfolding last_segment
stored_leaf v = if not (truthy v) then some [] else read_text v >>= λ s. fromhex (last_segment [] s)

-- `[bytes.fromhex(h) for h in hs]`
unfoldable pub unhex_values : List Value → Option (List Bytes)
unhex_values [] = some []
unhex_values (v ∷ vs) = do s ← read_text v; b ← fromhex s; bs ← unhex_values vs; some (b ∷ bs)

module _ (p : Platform) where
  -- `verify_inclusion` on Python's integers.
  unfoldable pub included : Number → Number → Bytes → List Bytes → Bytes → Bool
  included (true, i) (true, n) leaf proof root = verify_inclusion p.sha256 i n leaf proof root
  included (true, i) (false, n) leaf proof root = false
  included (false, i) size leaf proof root = false

  -- One turn of the loop over the events.
  unfoldable pub check_event : Bytes → Number → Value → Seen → Option Seen
  unfolding dget_or iterate stored_leaf unhex_values included leaf_from_event put_leaf
  check_event root size item seen = do
    it ← read_dict item
    ev ← read_block (dget (codes "event") it)
    _ ← guard (hashable (dget (codes "event_id") ev))
    recomputed ← leaf_from_event p ev
    stored ← stored_leaf (dget_or (codes "leaf_hash") (Value.str []) it)
    hs ← iterate (dget_or (codes "inclusion_proof") (Value.list Items.nil) it)
    proof ← unhex_values hs
    idx ← number (dget (codes "leaf_index") it)
    some (record {
      present_ids = seen.present_ids ++ dget (codes "event_id") ev ∷ [];
      leaves_by_index = put_leaf idx recomputed seen.leaves_by_index;
      leaf_ok_all = seen.leaf_ok_all && bytes_eq recomputed stored;
      incl_ok_all = seen.incl_ok_all && included idx size recomputed proof root;
    })

  unfoldable pub check_events : Bytes → Number → List Value → Seen → Option Seen
  unfolding check_event
  check_events root size [] seen = some seen
  check_events root size (item ∷ items) seen =
      check_event root size item seen >>= λ seen'. check_events root size items seen'

  abbrev pub compare_tree : Bytes → Option (List Bytes) → VerificationResult → VerificationResult
  compare_tree root none res = warn selective_disclosure res
  compare_tree root (some ordered) res =
      check full_tree_root (bytes_eq (tree_hash p.sha256 ordered) root) res

  -- Step 5: the whole tree, when all of its leaves are there.
  unfoldable pub check_full_tree :
      Bytes → Number → List (Number × Bytes) → VerificationResult → VerificationResult
  unfolding all_leaves
  check_full_tree root (false, n) leaves res = warn selective_disclosure res
  check_full_tree root (true, n) leaves res = compare_tree root (all_leaves n leaves) res

-- The identifiers that a control cites are among those of the events.
unfoldable pub cited_present : List Value → List Value → Option Bool
unfolding eq_value
cited_present present [] = some true
cited_present present (eid ∷ eids) = do
  _ ← guard (hashable eid)
  rest ← cited_present present eids
  some (any (eq_value eid) present && rest)

abbrev pub surfaced : Fields → Surfaced
surfaced c = record {
  control_id = dget (codes "control_id") c;
  status = dget (codes "status") c;
  title = dget_or (codes "title") (Value.str []) c;
}

abbrev pub surface : Surfaced → VerificationResult → VerificationResult
surface entry res = record res {
  controls = res.controls ++ entry ∷ [];
  gaps =
      if not (eq_value entry.status (Value.str (codes "satisfied")))
      then res.gaps ++ entry ∷ []
      else res.gaps;
}

-- Step 6: the loop over the controls, with `evidence_ok`.
unfoldable pub check_controls :
    List Value → List Value → Bool → VerificationResult → Option (Bool × VerificationResult)
unfolding cited_present iterate dget_or eq_value
check_controls present [] evidence_ok res = some (evidence_ok, res)
check_controls present (item ∷ items) evidence_ok res = do
  c ← read_dict item
  eids ← iterate (dget_or (codes "evidence_event_ids") (Value.list Items.nil) c)
  found ← cited_present present eids
  check_controls present items (evidence_ok && found) (surface (surfaced c) res)
