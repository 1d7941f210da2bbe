-- ===== src/Ledger/Backends.antt =====
-- The backends of src/openwright/ledger.py that keep their records in memory and in an SQL table.
use openwright.Ledger.{LedgerBackend, IsAppendOnly, ComplianceEvent}
use openwright.Common.{refl, some, List, [], ◌∷◌, ◌++◌, length, get_elem?}

-- `InMemoryLedgerBackend`, its list of records.
unfoldable pub in_memory : LedgerBackend (List ComplianceEvent)
in_memory = record {
  append_record = λ records r. some (records ++ r ∷ []);
  size = length;
  iter_records = λ records. records;
  get_record = get_elem?;
}

pub in_memory-IsAppendOnly : IsAppendOnly in_memory
unfolding in_memory
in_memory-IsAppendOnly = record {
  appended = λ b r b' h. cc;
  sized = λ b. refl;
  found = λ b i. refl;
}
