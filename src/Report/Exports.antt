-- ===== src/Report/Exports.antt =====
-- What `to_oscal` and `to_sarif` of src/openwright/report.py share. `shown` is Python's `str`, as an
-- f-string calls it.
pub mod Oscal
pub mod Sarif
pub mod Readers
pub mod Faithful
pub mod Alerts
use openwright.Canonical.{Value}
use openwright.Common.{Option, ◌++◌, Text, codes, ◌>>=◌}
use openwright.Crosswalk.Values.{lookup}
use openwright.Dicts.{read_dict}

-- `d[k]` of a value that should be a dictionary.
abbrev pub subscript : Text → Value → Option Value
subscript k v = read_dict v >>= lookup k

module _ (shown : Value → Text) where
  abbrev pub sentence : Value → Value → Value
  sentence v w = Value.str (shown v ++ codes ": " ++ shown w)
