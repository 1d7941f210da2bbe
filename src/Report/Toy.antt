-- ===== src/Report/Toy.antt =====
-- A log of two events, a checkpoint of the first and results on it, for the tests.
use openwright.Crosswalk.Counts.{as_fields}
use openwright.Report.Rederived.{AllDifferent}
use openwright.Verify.Deep.{crosswalk_content_hash}
use openwright.Crosswalk.Values.{eq_value, truthy, lookup}
use openwright.Crosswalk.{dump}
use openwright.Dicts.{dget, dget_or}
use openwright.Dicts.{without, dget_or}
use openwright.Crosswalk.Values.{lookup}
use openwright.Common.{
  bytes_eq, ◌≡◌, refl, true, false, Option, none, some, List, [], ◌∷◌, map, if◌then◌else◌, length,
  take, All, Bytes, Text, codes,
}
use openwright.Report.Entries.{IsDump}
use openwright.Report.{without}
use openwright.Report.Content.{Request, Reported, CrosswalkResult}
use openwright.Crosswalk.Evaluate.{evaluate}
use openwright.Crosswalk.Schema.{ControlResult}
use openwright.Crosswalk.Toy.{crosswalk}
use openwright.Ledger.Proofs.{Run, step, stop}
use openwright.Ledger.Backends.{in_memory, in_memory-IsAppendOnly}
use openwright.Ledger.Invariant.{InStep, commit-InStep}
use openwright.Ledger.Toy.{start, toy_IsHash, start-InStep, keep}
use openwright.Ledger.{ComplianceEvent, Ledger, commit, checkpoint, commit_leaf}
use openwright.Signing.Toy.{toy_platform, toy_key, toy_dumps}
use openwright.Signing.{Checkpoint}
use openwright.Verify.{Libraries}
use openwright.Canonical.{Fields, Value, clean}

abbrev pub signer : Bytes
signer = 9 ∷ []

abbrev pub libraries : Libraries
libraries = record {
  pem_key = some;
  validate = λ d. none;
  dump_crosswalk = λ c. Value.str c.id;
  builtin = λ v. none;
}

abbrev decided : Text → ComplianceEvent
decided name = record {
  event_id = name;
  body = Fields.field (codes "kind") (Value.str (codes "decision")) (
      Fields.field (codes "timestamp") (Value.str (codes "09:00")) (
        Fields.field (codes "actor")
          (Value.dict (Fields.field (codes "agent_id") (Value.str (codes "bot")) Fields.empty))
          (Fields.field (codes "risk")
            (Value.dict
              (Fields.field (codes "classification") (Value.str (codes "low")) Fields.empty))
            Fields.empty)));
  ledger = none;
}

abbrev after :
    Ledger (List ComplianceEvent) → Text → ComplianceEvent × Ledger (List ComplianceEvent)
after l name = elim (commit toy_platform in_memory keep l (decided name) (codes "now")) [
  | none ↦ (decided name, l)
  | some done ↦ done
]

abbrev pub past : Ledger (List ComplianceEvent)
past = (after start (codes "evt_1")).1

abbrev pub present : Ledger (List ComplianceEvent)
present = (after past (codes "evt_2")).1

first_commit :
    commit toy_platform in_memory keep start (decided (codes "evt_1")) (codes "now")
    ≡ some (after start (codes "evt_1"))
unfolding commit toy_dumps clean commit_leaf in_memory
first_commit = refl

second_commit :
    commit toy_platform in_memory keep past (decided (codes "evt_2")) (codes "now")
    ≡ some (after past (codes "evt_2"))
unfolding commit toy_dumps clean commit_leaf in_memory
second_commit = refl

pub past-InStep : InStep toy_platform in_memory past
past-InStep =
    (commit-InStep toy_platform in_memory toy_IsHash in_memory-IsAppendOnly keep start
      (decided (codes "evt_1")) (codes "now") (after start (codes "evt_1")).0 past start-InStep
      first_commit).1.in_step

pub grown : Run toy_platform in_memory keep past present
grown =
    step past (decided (codes "evt_2")) (codes "now") (after past (codes "evt_2")).0 present present
      second_commit (stop present)

abbrev no_checkpoint : Checkpoint
no_checkpoint = record {
  origin = [];
  tree_size = 0;
  root_hash = [];
  timestamp = [];
  public_key_id = [];
  signature = [];
}

abbrev pub head : Checkpoint
head = elim (checkpoint toy_platform in_memory (toy_key signer) (codes "log") past (codes "then")) [
  | none ↦ no_checkpoint
  | some cp ↦ cp
]

pub headed :
    checkpoint toy_platform in_memory (toy_key signer) (codes "log") past (codes "then") ≡ some head
unfolding checkpoint clean
headed = refl

dumped : (name : Text) → IsDump (decided name).body
unfolding lookup bytes_eq without dget_or
dumped name = record {
  no_ledger = refl;
  time = codes "09:00";
  agent = codes "bot";
  attributes = Fields.empty;
  timed = refl;
  acted = refl;
  described = refl;
}

pub records_dump :
    All (λ (r : ComplianceEvent). IsDump r.body) (in_memory.iter_records present.store)
unfolding commit commit_leaf in_memory clean toy_dumps
records_dump = (dumped (codes "evt_1"), (dumped (codes "evt_2"), tt))

abbrev evaluated : List ControlResult
evaluated =
    elim (evaluate libraries.dump_crosswalk crosswalk
      (take (length past.leaves) (in_memory.iter_records present.store))) [
        | none ↦ []
        | some rs ↦ rs
      ]

abbrev pub results : CrosswalkResult
results = record {
  crosswalk_id = codes "toy";
  crosswalk_title = codes "Toy";
  crosswalk_version = codes "1";
  crosswalk_content_hash = none;
  source = [];
  reviewed_as_of = [];
  disclaimer = none;
  controls = map (λ (r : ControlResult). record { result = r; reason = codes "because" }) evaluated;
}

pub has_results :
    evaluate libraries.dump_crosswalk crosswalk
      (take (length past.leaves) (in_memory.iter_records present.store))
    ≡ some (map (λ (c : Reported). c.result) results.controls)
unfolding evaluate commit commit_leaf in_memory clean toy_dumps bytes_eq
has_results = refl

abbrev pub request : Request
request = record {
  scope_description = codes "everything";
  agent_ids = none;
  period = none;
  checkpoint = some head;
  report_id = codes "rpt_1";
  generated_at = codes "later";
  principal = none;
  authorizer = false;
}

abbrev read_back : Fields → Option ComplianceEvent
read_back d =
    if eq_value (dget (codes "leaf_index") (as_fields (dget (codes "ledger") d))) (Value.int 0)
    then some (after start (codes "evt_1")).0
    else some (after past (codes "evt_2")).0

abbrev pub deep_libraries : Libraries
deep_libraries = record libraries { validate = read_back }

pub records_read_back :
    All
      (λ (r : ComplianceEvent). deep_libraries.validate (dump r) ≡ some r)
      (in_memory.iter_records present.store)
unfolding commit commit_leaf in_memory clean toy_dumps eq_value bytes_eq lookup dget_or
records_read_back = (refl, (refl, tt))

abbrev pub toy_hash : Text
toy_hash = elim (crosswalk_content_hash toy_platform deep_libraries crosswalk) [
  | none ↦ []
  | some h ↦ h
]

pub hashed : crosswalk_content_hash toy_platform deep_libraries crosswalk ≡ some toy_hash
unfolding crosswalk_content_hash clean toy_dumps
hashed = refl

abbrev pub pinned_results : CrosswalkResult
pinned_results = record results { crosswalk_content_hash = some toy_hash }

pub different : AllDifferent (
    map
      (λ (r : ControlResult). r.control_id)
      (map (λ (c : Reported). c.result) pinned_results.controls))
unfolding AllDifferent evaluate commit commit_leaf in_memory clean toy_dumps bytes_eq
different = (refl, tt)

pub hash_given : truthy (Value.str toy_hash) ≡ true
unfolding crosswalk_content_hash clean toy_dumps
hash_given = refl
