-- ===== src/Common/Toy.antt =====
-- A concrete hash function for tests: 32 copies of a rolling checksum.
use mathlib.Core.Path.{◌≡◌}
use mathlib.Core.List.{[], ◌∷◌}
use Prim.Native.Nat.{ℕ, zero, suc, ◌<◌, ◌+◌, ◌*◌, ◌%◌}
use native.Mathlib.Omega.{arith}
use openwright.Common.Texts.{IsByte}
use openwright.Common.Lists.{All}
use openwright.Common.Lists.{length, replicate, length-replicate}
use openwright.Common.Digests.{Bytes}

abbrev checksum_from : ℕ → Bytes → ℕ
checksum_from h [] = h
checksum_from h (b ∷ bs) = checksum_from ((h * 31 + b + 7) % 256) bs

abbrev checksum : Bytes → ℕ
checksum = checksum_from 5

abbrev pub toy_sha256 : Bytes → Bytes
toy_sha256 content = replicate 32 (checksum content)

pub toy_sha256_sized : (x : Bytes) → length (toy_sha256 x) ≡ 32
toy_sha256_sized x = length-replicate 32 (checksum x)

checksum_from-IsByte : (h : ℕ) (bs : Bytes) → h < 256 → checksum_from h bs < 256
checksum_from-IsByte h [] small = small
checksum_from-IsByte h (b ∷ bs) small =
    checksum_from-IsByte ((h * 31 + b + 7) % 256) bs (omega arith)

replicate-IsByte : (n b : ℕ) → b < 256 → All IsByte (replicate n b)
replicate-IsByte zero b small = tt
replicate-IsByte (suc n) b small = (small, replicate-IsByte n b small)

pub toy_sha256-IsByte : (x : Bytes) → All IsByte (toy_sha256 x)
toy_sha256-IsByte x = replicate-IsByte 32 (checksum x) (checksum_from-IsByte 5 x (omega arith))
