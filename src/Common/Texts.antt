-- ===== src/Common/Texts.antt =====
-- Text as the list of its code points, and the hexadecimal digits of bytes.
use Prim.Native.Char.{code}
use Prim.Native.String.{String}
use Prim.Native.Nat.{ℕ, ◌+◌, ◌-◌, ◌*◌, ◌/◌, ◌%◌, ◌<◌}
use mathlib.Core.Path.{◌≡◌, refl}
use mathlib.Core.Bool.{◌&&◌, Bool, true, false, ◌||◌}
use mathlib.Core.List.{List, [], ◌∷◌}
use mathlib.Core.Option.{Option, none, some}
use native.Mathlib.Omega.{arith}
use openwright.Common.Tests.{leb, ltb, if◌then◌else◌, ◌==◌}
use openwright.Common.Lists.{All}

abbrev pub Text : Type 0
Text = List ℕ

abbrev pub codes : String → Text
codes String.[] = []
codes (String.◌∷◌ c s) = code c ∷ codes s

unfoldable pub hex_digit : ℕ → ℕ
hex_digit n = if ltb n 10 then 48 + n else 87 + n

unfoldable pub hex_value : ℕ → Option ℕ
hex_value c =
    if leb 48 c && leb c 57
    then some (c - 48)
    else if leb 97 c && leb c 102
    then some (c - 87)
    else if leb 65 c && leb c 70
    then some (c - 55)
    else none

-- `bytes.hex()`
unfoldable pub hex : List ℕ → Text
unfolding hex_digit
hex [] = []
hex (b ∷ bs) = hex_digit (b / 16) ∷ hex_digit (b % 16) ∷ hex bs

-- ASCII whitespace, which `bytes.fromhex` skips.
unfoldable is_space : ℕ → Bool
is_space c = (leb 9 c && leb c 13) || (c == 32)

abbrev add_byte : ℕ → Option (List ℕ) → Option (List ℕ)
add_byte b (some rest) = some (b ∷ rest)
add_byte b none = none

-- The second digit of a byte, before the rest.
abbrev low_digit : ℕ → Option ℕ → Option (List ℕ) → Option (List ℕ)
low_digit h none rest = none
low_digit h (some l) rest = add_byte (h * 16 + l) rest

-- The bytes of a text, after the first digit of a byte if one is given.
unfoldable hex_from : Option ℕ → Text → Option (List ℕ)
hex_from none [] = some []
hex_from (some h) [] = none
hex_from none (c ∷ s) = elim (is_space c) [
  | true ↦ hex_from none s
  | false ↦ elim (hex_value c) [ none ↦ none | some h ↦ hex_from (some h) s ]
]
hex_from (some h) (c ∷ s) = low_digit h (hex_value c) (hex_from none s)

-- `bytes.fromhex(s)`: whitespace may stand before, between and after bytes, not between the two
-- digits of one; `none` is the ValueError.
unfoldable pub fromhex : Text → Option (List ℕ)
unfolding hex_from hex_value is_space
fromhex s = hex_from none s

abbrev pub IsByte : ℕ → Type 0
IsByte b = b < 256

hex_value-hex_digit : (n : ℕ) → n < 16 → hex_value (hex_digit n) ≡ some n
unfolding hex_value hex_digit
hex_value-hex_digit n h = ground arith

is_space-hex_digit : (n : ℕ) → n < 16 → is_space (hex_digit n) ≡ false
unfolding is_space hex_digit
is_space-hex_digit n h = ground arith

hex_from-low :
    (d h l : ℕ) (s : Text)
    → hex_value d ≡ some l
    → hex_from (some h) (d ∷ s) ≡ add_byte (h * 16 + l) (hex_from none s)
unfolding hex_from
hex_from-low d h l s lo = rw lo refl

hex_from-digits :
    (c d h l : ℕ) (s : Text)
    → is_space c ≡ false
    → hex_value c ≡ some h
    → hex_value d ≡ some l
    → hex_from none (c ∷ d ∷ s) ≡ add_byte (h * 16 + l) (hex_from none s)
unfolding hex_from
hex_from-digits c d h l s solid hi lo = rw (hex_from, solid, hi) (hex_from-low d h l s lo)

-- Reading back what `hex` wrote gives the bytes.
pub fromhex-hex : (bs : List ℕ) → All IsByte bs → fromhex (hex bs) ≡ some bs
unfolding hex fromhex
fromhex-hex [] h = unfold hex_from in refl
fromhex-hex (b ∷ bs) h =
    let hi : b / 16 < 16 = omega arith in
    let lo : b % 16 < 16 = omega arith in
    let whole : b / 16 * 16 + b % 16 ≡ b = omega arith in
    rw
      (
        hex_from-digits (hex_digit (b / 16)) (hex_digit (b % 16)) (b / 16) (b % 16) (hex bs)
            (is_space-hex_digit (b / 16) hi) (hex_value-hex_digit (b / 16) hi)
            (hex_value-hex_digit (b % 16) lo),
        fromhex-hex bs h.1,
        whole,
      )
      refl
