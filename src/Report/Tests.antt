-- ===== src/Report/Tests.antt =====
-- Reports of src/openwright/report.py on a checkpoint of one event, one made when the log has two.
use openwright.Report.Built.{deep_verify-build_report}
use openwright.Report.Toy.{
  deep_libraries, records_read_back, toy_hash, hashed, pinned_results, different, hash_given,
}
use openwright.Crosswalk.Toy.{crosswalk}
use openwright.Merkle.{tree_hash, inclusion_proof}
use openwright.Report.Exports.Oscal.{to_oscal}
use openwright.Report.Exports.Sarif.{to_sarif}
use openwright.Report.Exports.Readers.{told, findings_of, alert, results_of}
use openwright.Report.Exports.Faithful.{to_oscal-build_report}
use openwright.Report.Exports.Alerts.{to_sarif-build_report}
use openwright.Crosswalk.Schema.{ControlStatus}
use openwright.Canonical.Clean.{has_float_fields}
use openwright.Common.{
  bytes_eq, ◌≡◌, refl, true, false, none, some, List, [], ◌∷◌, map, Text, codes,
}
use openwright.Report.Built.{verify_report-build_report}
use openwright.Report.{build_report, checkpoint_for}
use openwright.Report.Content.{Reported, CrosswalkResult}
use openwright.Crosswalk.Toy.{crosswalk}
use openwright.Ledger.Backends.{in_memory, in_memory-IsAppendOnly}
use openwright.Ledger.Toy.{toy_IsHash, keep}
use openwright.Ledger.{commit, commit_leaf, inclusion_proof_hex}
use openwright.Signing.Toy.{toy_platform, toy_key, toy_dumps, toy_Signs}
use openwright.Verify.{VerificationResult}
use openwright.Verify.Report.{verify_report}
use openwright.Canonical.{Fields, Value, clean}
use openwright.Report.Toy.{
  signer, libraries, past, present, past-InStep, grown, head, headed, records_dump, results,
  has_results, request,
}

verify_report-build_report_example :
    (report : Fields) × (build_report toy_platform in_memory present
        (λ raw. raw)
        (toy_key signer)
        (codes "log")
        (codes "later")
        results
        request
      ≡ some report)
    × ((res : VerificationResult) × (verify_report toy_platform libraries false none report
            (some (toy_key signer).public_key_raw)
          ≡ some res)
        × (res.valid ≡ true))
unfolding checkpoint_for has_float_fields
verify_report-build_report_example =
    verify_report-build_report toy_platform in_memory libraries (λ raw. raw) keep (toy_key signer)
      none (codes "log") (codes "log") (codes "later") (codes "then") crosswalk results request past
      present head toy_IsHash in_memory-IsAppendOnly (toy_Signs signer) refl past-InStep grown
      headed refl refl records_dump has_results (refl, tt) (λ d h. cc)

deep_verify-build_report_example :
    (report : Fields) × (build_report toy_platform in_memory present
        (λ raw. raw)
        (toy_key signer)
        (codes "log")
        (codes "later")
        pinned_results
        request
      ≡ some report)
    × ((res : VerificationResult) × (verify_report toy_platform deep_libraries true
            (some crosswalk)
            report
            (some (toy_key signer).public_key_raw)
          ≡ some res)
        × (res.valid ≡ true))
unfolding checkpoint_for has_float_fields
deep_verify-build_report_example =
    deep_verify-build_report toy_platform in_memory deep_libraries (λ raw. raw) keep
      (toy_key signer) (codes "log") (codes "log") (codes "later") (codes "then") crosswalk
      pinned_results request past present head toy_hash toy_IsHash in_memory-IsAppendOnly
      (toy_Signs signer) refl past-InStep grown headed refl refl records_dump has_results (refl, tt)
      (λ d h. cc) refl hash_given hashed records_read_back different

abbrev found : Text → ControlStatus → Reported
found name status = record {
  result = record {
    control_id = name;
    title = codes "Title";
    status = status;
    requirement = codes "Keep logs";
    citation = Fields.empty;
    evaluated_count = 0;
    satisfied_count = 0;
    evidence_event_ids = [];
    gap_event_ids = [];
  };
  reason = codes "because";
}

abbrev mixed : CrosswalkResult
mixed = record results {
  controls =
      found (codes "a") ControlStatus.satisfied
      ∷ found (codes "b") ControlStatus.not_satisfied
      ∷ found (codes "c") ControlStatus.insufficient_evidence
      ∷ [];
}

abbrev mixed_report : Fields
mixed_report =
    elim (build_report toy_platform in_memory past (λ raw. raw) (toy_key signer) (codes "log")
      (codes "now") mixed request) [ none ↦ Fields.empty | some report ↦ report ]

built :
    build_report toy_platform in_memory past
      (λ raw. raw)
      (toy_key signer)
      (codes "log")
      (codes "now")
      mixed
      request
    ≡ some mixed_report
unfolding build_report clean bytes_eq commit commit_leaf in_memory toy_dumps inclusion_proof_hex
    tree_hash inclusion_proof
built = refl

abbrev shown : Value → Text
shown (Value.str s) = s
shown v = []

to_oscal-build_report_example :
    (out : Fields) × (fs : List Value) × (to_oscal shown (λ n. n ∷ []) mixed_report ≡ some out)
    × (findings_of out ≡ some fs)
    × (map told fs
        ≡ some (codes "a", (codes "satisfied", codes "satisfied"))
          ∷ some (codes "b", (codes "not_satisfied", codes "not-satisfied"))
          ∷ some (codes "c", (codes "insufficient_evidence", codes "not-satisfied"))
          ∷ [])
to_oscal-build_report_example =
    to_oscal-build_report toy_platform in_memory past (λ raw. raw) (toy_key signer) (codes "log")
      (codes "now") mixed request shown (λ n. n ∷ []) mixed_report built

to_sarif-build_report_example :
    (out : Fields) × (rs : List Value) × (to_sarif shown mixed_report ≡ some out)
    × (results_of out ≡ some rs)
    × (map alert rs ≡ some (codes "b", codes "error") ∷ some (codes "c", codes "warning") ∷ [])
to_sarif-build_report_example =
    to_sarif-build_report toy_platform in_memory past (λ raw. raw) (toy_key signer) (codes "log")
      (codes "now") mixed request shown mixed_report built
