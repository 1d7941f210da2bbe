-- ===== src/Lib.antt =====
-- A verification library for OpenWright: an append-only evidence ledger for AI agents, whose
-- commitments are Merkle tree heads that are signed, witnessed and checked offline, and an engine
-- that evaluates regulatory controls over the recorded events.
--
-- The parts, and how they interact:
--   Common     what the others share: the library's names, lists measured by native numbers,
--              bytes and digests with `Collision` (two different inputs with one digest), text as
--              the list of its character codes with hex and fromhex, and a small concrete hash
--              for examples.
--   Canonical  src/openwright/canonical.py. Python values as data, `_clean`, `canonical_bytes`,
--              `content_hash`.
--   Merkle     src/openwright/merkle.py. `Merkle` has the hashes, `tree_hash`, the proofs' making
--              and `verify_inclusion`; `Merkle.Consistency` has `verify_consistency`;
--              `Merkle.Frontier` is the class `IncrementalMerkleTree`; `Merkle.Shards` is the
--              super-tree over shard roots. The other modules below Merkle are proofs.
--   Signing    src/openwright/signing.py. Key identifiers, `sign_checkpoint`, `Checkpoint.verify`.
--   Witness    src/openwright/witness.py. `Witness.cosign` as a function of the last endorsed
--              head, with the next one in its result, and `verify_cosignature`.
--   Ledger     src/openwright/ledger.py, with the identifiers and leaf bytes of events.py. The
--              record `Ledger` is the backend's state, the list `_leaves` and the tree `_tree`;
--              `commit` returns the new ledger, and `Ledger.Proofs.Run` is a sequence of commits.
--              `LedgerBackend` is an interface with the laws `IsAppendOnly`, which
--              `Ledger.Backends` meets for the backend in memory. `Ledger.TornTail` is the file
--              of lines and its healing, and `Ledger.Sharded` is `ShardedLedger`, a list of ledgers,
--              whose checkpoint reads their sizes and their roots at two times.
--   Crosswalk  src/openwright/crosswalk.py. `Crosswalk.Schema` is the declarative schema,
--              `Crosswalk.Values` has Python's operators on dumped values and `_get`, `Crosswalk`
--              has `_matches`, `_linked` and `_holds`, `Crosswalk.Counts` has when `int()` reads
--              the drops of a gap marker, and `Crosswalk.Evaluate` has `select_profile` and
--              `evaluate`.
--   Dicts      how the code reads dictionaries that came from outside.
--   Verify     src/openwright/verify.py. `Verify.Report` has `verify_report`, whose steps are in
--              `Verify` (key and signatures), `Verify.Events` (events, tree, controls) and
--              `Verify.Deep` (`_deep_verify`); `Verify.Checkpoints` has
--              `verify_consistency_between`. The other modules below Verify are proofs.
--   Report     src/openwright/report.py: `build_report`, with its parts and `CrosswalkResult` of
--              crosswalk.py in `Report.Content`; `Report.Exports.Oscal` and
--              `Report.Exports.Sarif` have `to_oscal` and `to_sarif`, and
--              `Report.Exports.Readers` has what a reader takes from their documents. The other
--              modules below Report follow its report through the steps of `verify_report`.
--   Ingest     src/openwright/ingest/pipeline.py and durable.py. `Ingest.Spill` is `SpillBuffer`, a
--              file of bytes and a cursor; `Ingest.Pipeline` is the state of `EvidencePipeline`,
--              `DropJournal` and the emission of gap markers in three stages; `Ingest.Worker` has
--              `submit`, `_refill_from_spill` and `_run`, cut into the actions between which
--              other threads may act, and `run` of any sequence of actions. The other modules
--              below Ingest are proofs.
--   Receipt    src/openwright/adapters/receipt.py: signed receipts of other producers, verified and
--              turned into events, with `to_rfc3339` of canonical.py in `Canonical.Timestamp`.
--   Archive    src/openwright/checkpoint_store.py (the local store, with files that a failed write
--              left broken) and scheduler.py.
--   Authz      src/openwright/authz.py.
--   Identity   src/openwright/identity.py.
-- The ledger hashes canonical bytes into Merkle leaves and signs the root; the witness and any
-- verifier check the signature and the proofs; the pipeline commits events and gap markers to the
-- ledger; the scheduler signs its heads from time to time and stores them; the crosswalk engine
-- reads the committed events; a report packs them with its results, their proofs and the signed
-- head, and the verifier reads the report; a receipt becomes an event that may be committed.
--
-- Parameters: hashlib's SHA-256, json.dumps with sorted keys, Ed25519 and base64 are the fields of
-- `Signing.Platform` (or one argument `sha256`); the PEM reader, pydantic's validation and the
-- built-in crosswalks are those of `Verify.Libraries` (of `Receipt` they are arguments, as the
-- calendar of datetime is); `str`, uuid4 and the PEM writer are arguments in `Report`; the JSON of
-- a span is that of `Ingest.Spill.Codec`, and `_normalize` of the pipeline is any function that
-- may raise. Text is text that UTF-8 encodes, so `dumps` is total: lone surrogates are left out.
-- What is relied on is named: digests of 32 bytes, `Ledger.Records.IsHash`, `Ingest.Fifo.IsCodec`
-- (a span is one line that reads back), `Signing.Signs` (a signature is accepted for its public
-- key, decoding undoes encoding). No result assumes that SHA-256 has no collision: it says that
-- one is found.
--
-- Conventions: an exception is `none` or an error value. Sizes and positions are natural numbers,
-- so the code's tests for negative ones have no counterpart. A property `Represents`, `InStep` or
-- `Distinct` that appears below stands in the file of its name's module.
--
-- Fuel: `drain_loop` has one round more than the bytes that are left, and `count_lines` has one
-- for each, and every line has a byte; `tree_fuel`, `inclusion_fuel` and `subproof_fuel` recurse
-- on the number of leaves, which is enough because both halves of a split are smaller;
-- `double_below` has n rounds, and a power of two passes n before; `strip_zeros` and `strip_ones`
-- have fn rounds, and each halves fn.
--
-- Not modelled: the reading and writing of tables and of most files, locks (a section under a
-- lock is one step), pydantic's validation, key storage and PKCS#11, the wall clock (an
-- argument), the texts of control results, checks and errors, the S3 store of
-- checkpoint_store.py, `flush` and the thread of the pipeline; and the parts of the system beside
-- the files above: the receivers of spans and their normalization, the adapters of trace formats,
-- the PDF of a report, anchoring, the command line and the browser verifier.
pub mod Common
pub mod Merkle
pub mod Canonical
pub mod Signing
pub mod Witness
pub mod Crosswalk
pub mod Dicts
pub mod Verify
pub mod Archive
pub mod Authz
pub mod Identity
pub mod Receipt
pub mod Report
pub mod Ingest
pub mod Ledger
