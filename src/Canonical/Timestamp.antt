-- ===== src/Canonical/Timestamp.antt =====
-- src/openwright/canonical.py: `to_rfc3339` of what JSON can hold. `calendar` is the date and the time
-- of a number of whole seconds, with its sign, that datetime gives; `none` is an exception.
use openwright.Canonical.{Value}
use openwright.Common.{
  ℕ, zero, suc, ◌+◌, ◌*◌, ◌/◌, ◌%◌, Bool, true, false, Option, none, some, [], ◌∷◌, ◌++◌, ltb,
  if◌then◌else◌, Text, codes,
}

-- `f"{rem:09d}"`
abbrev pub padded : ℕ → ℕ → Text
padded zero n = []
padded (suc k) n = padded k (n / 10) ++ (48 + n % 10) ∷ []

abbrev pub fraction : ℕ → Text
fraction rem = codes "." ++ padded 9 rem ++ codes "Z"

abbrev pub second : ℕ
second = 1000000000

-- The nanoseconds of an integer that is not negative.
unfoldable pub nanoseconds : ℕ → ℕ
nanoseconds n = if ltb 100000000000000 n then n else n * second

abbrev stamp : Option Text → ℕ → Option Text
stamp none rem = none
stamp (some at) rem = some (at ++ fraction rem)

unfoldable pub to_rfc3339 : (Bool × ℕ → Option Text) → Value → Option Text
unfolding nanoseconds
to_rfc3339 calendar (Value.str s) = some s
to_rfc3339 calendar (Value.int n) =
    stamp (calendar (true, nanoseconds n / second)) (nanoseconds n % second)
to_rfc3339 calendar (Value.minus n) = stamp (calendar (false, n)) 0
to_rfc3339 calendar (Value.bool true) = stamp (calendar (true, 1)) 0
to_rfc3339 calendar (Value.bool false) = stamp (calendar (true, 0)) 0
to_rfc3339 calendar v = none
