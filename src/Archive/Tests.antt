-- ===== src/Archive/Tests.antt =====
-- The theorem on the history of checkpoints at concrete turns.
use openwright.Archive.History.{latest-ticks}
use openwright.Common.{ℕ, ◌≡◌, refl, true, false, none, some, List, [], ◌∷◌, ◌++◌, arith, codes}
use openwright.Archive.{latest, ticks, scheduler, Turn, put, put_failing, get, tree_sizes}
use openwright.Signing.{Checkpoint}

abbrev sized : ℕ → Checkpoint
sized n = record {
  origin = codes "log";
  tree_size = n;
  root_hash = codes "";
  timestamp = codes "now";
  public_key_id = codes "key";
  signature = codes "";
}

abbrev turns : List Turn
turns = Turn.signed (sized 2) ∷ Turn.failed ∷ Turn.put_failed (sized 5) false ∷ []

latest-ticks_example :
    (newest : Checkpoint) × (latest
        (ticks (turns ++ Turn.signed (sized 5) ∷ []) (scheduler true ((1, none) ∷ []))).store
      ≡ some (some newest))
    × (newest.tree_size ≡ 5)
latest-ticks_example =
    latest-ticks 1 true ((1, none) ∷ []) turns (sized 5) (omega arith, tt)
      (omega arith, (omega arith, (omega arith, tt)))

-- Until then the broken file makes `latest` raise.
broken : latest (ticks turns (scheduler true [])).store ≡ none
unfolding latest ticks put put_failing get tree_sizes
broken = refl
