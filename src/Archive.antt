-- ===== src/Archive.antt =====
-- The history of checkpoints: `CheckpointStore` of src/openwright/checkpoint_store.py and
-- `CheckpointScheduler` of src/openwright/scheduler.py.
pub mod History
mod Tests
use openwright.Common.{
  ℕ, suc, Bool, false, ◌&&◌, Option, none, some, List, [], ◌∷◌, ltb, leb, ◌==◌, if◌then◌else◌,
}
use openwright.Signing.{Checkpoint}

-- `LocalCheckpointStore`: the directory, where the name of a file is made of a tree size. A file
-- holds a checkpoint, or nothing that can be read when `write_text` truncated it and then failed.
abbrev pub Store : Type 0
Store = List (ℕ × Option Checkpoint)

-- The file of the tree size gets a content.
abbrev pub write : ℕ → Option Checkpoint → Store → Store
write n file [] = (n, file) ∷ []
write n file ((m, old) ∷ store) =
    let later = write n file store in if n == m then (n, file) ∷ store else (m, old) ∷ later

unfoldable pub put : Checkpoint → Store → Store
put cp store = write cp.tree_size (some cp) store

-- `put` that raises: whether the text was complete in the file by then.
unfoldable pub put_failing : Checkpoint → Bool → Store → Store
put_failing cp complete store = write cp.tree_size (if complete then some cp else none) store

-- A file that cannot be parsed makes `get` raise.
abbrev read_file : Option Checkpoint → Option (Option Checkpoint)
read_file none = none
read_file (some cp) = some (some cp)

-- `get`; the outer `none` is an exception.
unfoldable pub get : ℕ → Store → Option (Option Checkpoint)
get n [] = some none
get n ((m, file) ∷ store) = let later = get n store in if n == m then read_file file else later

abbrev insert_size : ℕ → List ℕ → List ℕ
insert_size n [] = n ∷ []
insert_size n (m ∷ sizes) =
    let later = insert_size n sizes in if leb n m then n ∷ m ∷ sizes else m ∷ later

-- `sorted`, of the sizes in the names of the files.
unfoldable pub tree_sizes : Store → List ℕ
tree_sizes [] = []
tree_sizes ((n, file) ∷ store) = insert_size n (tree_sizes store)

-- `max`, of a list that is not empty.
abbrev pub largest : ℕ → List ℕ → ℕ
largest n [] = n
largest n (m ∷ sizes) = largest (if ltb n m then m else n) sizes

abbrev latest_of : List ℕ → Store → Option (Option Checkpoint)
latest_of [] store = some none
latest_of (n ∷ sizes) store = get (largest n sizes) store

unfoldable pub latest : Store → Option (Option Checkpoint)
unfolding tree_sizes get
latest store = latest_of (tree_sizes store) store

pub record Scheduler : Type 0 where
  pub store : Store
  pub skip_if_unchanged : Bool
  pub count : ℕ
  pub last_size : Option ℕ

-- `cp.tree_size == self._last_size`
abbrev pub same_size : ℕ → Option ℕ → Bool
same_size n none = false
same_size n (some m) = n == m

-- `__init__`
abbrev pub scheduler : Bool → Store → Scheduler
scheduler skip store = record {
  store = store;
  skip_if_unchanged = skip;
  count = 0;
  last_size = none;
}

-- How a turn goes: the ledger raises, or the store does before it touches the file; `put` raises
-- once the file is truncated, if it is called; or nothing raises.
pub data Turn : Type 0 where
  failed : Turn
  put_failed : Checkpoint → Bool → Turn
  signed : Checkpoint → Turn

abbrev pub skips : Checkpoint → Scheduler → Bool
skips cp s = s.skip_if_unchanged && same_size cp.tree_size s.last_size

-- `tick`, in which `_run` catches what is raised; the second part is what it returns. An exception
-- of the callback changes nothing.
unfoldable pub tick : Turn → Scheduler → Scheduler × Option Checkpoint
unfolding put put_failing
tick Turn.failed s = (s, none)
tick (Turn.put_failed cp complete) s =
    if skips cp s then (s, none) else (record s { store = put_failing cp complete s.store }, none)
tick (Turn.signed cp) s = if skips cp s then (s, none) else (
  record s { store = put cp s.store; last_size = some cp.tree_size; count = suc s.count },
  some cp,
)

-- The turns of the loop of `_run`.
unfoldable pub ticks : List Turn → Scheduler → Scheduler
unfolding tick
ticks [] s = s
ticks (now ∷ rest) s = ticks rest (tick now s).0
