-- ===== src/Archive/History.antt =====
-- What a scheduler of src/openwright/scheduler.py has in its store.
use openwright.Common.{
  ℕ, ◌≤◌, ◌≡◌, refl, sym, ap, ◌∙◌, subst, ◌≢◌, inl, inr, Bool, true, false, ◌||◌, Option, none,
  some, List, [], ◌∷◌, ◌++◌, arith, ltb, leb, ◌==◌, if◌then◌else◌, ==→eq, Bool-cases,
  some-injective, All, any,
}
use openwright.Archive.{
  Store, put, get, latest, tree_sizes, Scheduler, tick, largest, insert_size, latest_of, write,
  same_size, ticks, scheduler, Turn, skips, put_failing,
}
use openwright.Signing.{Checkpoint}

-- The sizes of the checkpoints do not fall, from a size on.
abbrev pub Grows : ℕ → List Turn → Type 0
Grows n [] = Unit
Grows n (Turn.failed ∷ rest) = Grows n rest
Grows n (Turn.put_failed cp complete ∷ rest) = (n ≤ cp.tree_size) × Grows cp.tree_size rest
Grows n (Turn.signed cp ∷ rest) = (n ≤ cp.tree_size) × Grows cp.tree_size rest

abbrev Below : ℕ → Store → Type 0
Below n = All (λ (e : ℕ × Option Checkpoint). e.0 ≤ n)

abbrev AtMost : ℕ → List ℕ → Type 0
AtMost n = All (λ (m : ℕ). m ≤ n)

largest_lem :
    (n m : ℕ) (sizes : List ℕ)
    → m ≤ n
    → AtMost n sizes
    → (n == m || any (λ (k : ℕ). n == k) sizes) ≡ true
    → largest m sizes ≡ n
largest_lem n m [] le h e = ground (arith, e)
largest_lem n m (k ∷ sizes) le h e =
    largest_lem n (if ltb m k then k else m) sizes (ground (arith, le, h.0)) h.1
      (ground (arith, e, le, h.0))

insert_size-AtMost :
    (n m : ℕ) (sizes : List ℕ) → m ≤ n → AtMost n sizes → AtMost n (insert_size m sizes)
insert_size-AtMost n m [] le h = (le, tt)
insert_size-AtMost n m (k ∷ sizes) le h = elim (Bool-cases (leb m k)) [
  | inl first ↦ rw first (le, h)
  | inr later ↦ rw later (h.0, insert_size-AtMost n m sizes le h.1)
]

any-insert_size :
    (n m : ℕ) (sizes : List ℕ)
    → any (λ (k : ℕ). n == k) (insert_size m sizes) ≡ (n == m || any (λ (k : ℕ). n == k) sizes)
any-insert_size n m [] = refl
any-insert_size n m (k ∷ sizes) = ground (arith, any-insert_size n m sizes)

tree_sizes-AtMost : (n : ℕ) (store : Store) → Below n store → AtMost n (tree_sizes store)
unfolding tree_sizes
tree_sizes-AtMost n [] h = tt
tree_sizes-AtMost n ((m, cp) ∷ store) h =
    insert_size-AtMost n m (tree_sizes store) h.0 (tree_sizes-AtMost n store h.1)

get-tree_sizes :
    (n : ℕ) (store : Store) (cp : Checkpoint)
    → get n store ≡ some (some cp)
    → any (λ (k : ℕ). n == k) (tree_sizes store) ≡ true
unfolding get tree_sizes
get-tree_sizes n [] cp h = cc
get-tree_sizes n ((m, old) ∷ store) cp h =
    any-insert_size n m (tree_sizes store) ∙ (elim (Bool-cases (n == m)) [
      | inl here ↦ ground (arith, here)
      | inr there ↦
          let kept : get n store ≡ some (some cp) = sym (rw there refl) ∙ h in
          ground (arith, there, get-tree_sizes n store cp kept)
    ])

latest_of_sizes :
    (n : ℕ) (sizes : List ℕ) (store : Store)
    → AtMost n sizes
    → any (λ (k : ℕ). n == k) sizes ≡ true
    → latest_of sizes store ≡ get n store
latest_of_sizes n [] store h e = cc
latest_of_sizes n (m ∷ sizes) store h e =
    ap (λ (k : ℕ). get k store) (largest_lem n m sizes h.0 h.1 e)

latest-get :
    (n : ℕ) (store : Store) (cp : Checkpoint)
    → Below n store
    → get n store ≡ some (some cp)
    → latest store ≡ some (some cp)
unfolding latest
latest-get n store cp h found =
    latest_of_sizes n (tree_sizes store) store (tree_sizes-AtMost n store h)
      (get-tree_sizes n store cp found)
    ∙ found

get-write :
    (n : ℕ) (cp : Checkpoint) (store : Store) → get n (write n (some cp) store) ≡ some (some cp)
unfolding get
get-write n cp [] = ground arith
get-write n cp ((m, old) ∷ store) = ground (arith, get-write n cp store)

get-write_other :
    (m n : ℕ) (file : Option Checkpoint) (store : Store)
    → m ≢ n
    → get m (write n file store) ≡ get m store
unfolding get
get-write_other m n file [] h = ground (arith, h)
get-write_other m n file ((k, old) ∷ store) h = ground (arith, h, get-write_other m n file store h)

write-Below :
    (n m : ℕ) (file : Option Checkpoint) (store : Store)
    → m ≤ n
    → Below n store
    → Below n (write m file store)
write-Below n m file [] le h = (le, tt)
write-Below n m file ((k, old) ∷ store) le h = elim (Bool-cases (m == k)) [
  | inl here ↦ rw here (le, h.1)
  | inr there ↦ rw there (h.0, write-Below n m file store le h.1)
]

Below-weaken : (n m : ℕ) (store : Store) → n ≤ m → Below n store → Below m store
Below-weaken n m [] le h = tt
Below-weaken n m (e ∷ store) le h = (omega (arith, le, h.0), Below-weaken n m store le h.1)

-- The file of a size holds a checkpoint of that size.
abbrev Holds : ℕ → Store → Type 0
Holds m store = (newest : Checkpoint) × (get m store ≡ some (some newest)) × (newest.tree_size ≡ m)

-- What a last size says of the store, when unchanged checkpoints are skipped.
abbrev Keeps : ℕ → Scheduler → Type 0
Keeps n s =
    Below n s.store
    × ((m : ℕ) → s.skip_if_unchanged ≡ true → s.last_size ≡ some m → Holds m s.store)

same_size-some : (n : ℕ) (o : Option ℕ) → same_size n o ≡ true → o ≡ some n
same_size-some n none h = cc
same_size-some n (some m) h = ap some (sym (==→eq n m h))

Keeps-weaken : (n m : ℕ) (s : Scheduler) → n ≤ m → Keeps n s → Keeps m s
Keeps-weaken n m s le k = (Below-weaken n m s.store le k.0, k.1)

-- A checkpoint that is not skipped has another size than the last one, if any may be skipped.
not_last :
    (m : ℕ) (cp : Checkpoint) (s : Scheduler)
    → skips cp s ≡ false
    → s.skip_if_unchanged ≡ true
    → s.last_size ≡ some m
    → m ≢ cp.tree_size
not_last m cp s other skipping last same =
    let unequal : same_size cp.tree_size (some m) ≡ false =
      subst (λ (o : Option ℕ). same_size cp.tree_size o ≡ false) last
        (ground (arith, other, skipping)) in
    ground (arith, unequal, same)

put_failed-Keeps :
    (n : ℕ) (cp : Checkpoint) (complete : Bool) (s : Scheduler)
    → n ≤ cp.tree_size
    → Keeps n s
    → Keeps cp.tree_size (tick (Turn.put_failed cp complete) s).0
unfolding tick put_failing
put_failed-Keeps n cp complete s le k =
    let file : Option Checkpoint = if complete then some cp else none in
    elim (Bool-cases (skips cp s)) [
      | inl skipped ↦ rw skipped (Keeps-weaken n cp.tree_size s le k)
      | inr other ↦ rw other (
        write-Below cp.tree_size cp.tree_size file s.store (omega arith)
            (Below-weaken n cp.tree_size s.store le k.0),
        λ m skipping last.
            let (newest, held, sized) = k.1 m skipping last in
            (
              newest,
              get-write_other m cp.tree_size file s.store (not_last m cp s other skipping last)
                  ∙ held,
              sized,
            ),
      )
    ]

signed-Holds :
    (n : ℕ) (cp : Checkpoint) (s : Scheduler)
    → n ≤ cp.tree_size
    → Keeps n s
    → Keeps cp.tree_size (tick (Turn.signed cp) s).0
      × Holds cp.tree_size (tick (Turn.signed cp) s).0.store
unfolding tick put
signed-Holds n cp s le k = elim (Bool-cases (skips cp s)) [
  | inl skipped ↦
      let last = same_size-some cp.tree_size s.last_size (ground (arith, skipped)) in
      rw skipped
        (Keeps-weaken n cp.tree_size s le k, k.1 cp.tree_size (ground (arith, skipped)) last)
  | inr other ↦
      let stored = get-write cp.tree_size cp s.store in
      rw other (
        (
          write-Below cp.tree_size cp.tree_size (some cp) s.store (omega arith)
              (Below-weaken n cp.tree_size s.store le k.0),
          λ m skipping last.
              subst (λ (j : ℕ). Holds j (write cp.tree_size (some cp) s.store))
                (some-injective last) (cp, stored, refl),
        ),
        (cp, stored, refl),
      )
]

ticks-latest :
    (n : ℕ) (turns : List Turn) (cp : Checkpoint) (s : Scheduler)
    → Grows n (turns ++ Turn.signed cp ∷ [])
    → Keeps n s
    → (newest : Checkpoint) × (latest (ticks (turns ++ Turn.signed cp ∷ []) s).store
        ≡ some (some newest))
      × (newest.tree_size ≡ cp.tree_size)
unfolding ticks
ticks-latest n [] cp s g k =
    let (kept, (newest, held, sized)) = signed-Holds n cp s g.0 k in
    (newest, latest-get cp.tree_size _ newest kept.0 held, sized)
ticks-latest n (Turn.failed ∷ turns) cp s g k = unfold tick in ticks-latest n turns cp s g k
ticks-latest n (Turn.put_failed now complete ∷ turns) cp s g k =
    ticks-latest now.tree_size turns cp (tick (Turn.put_failed now complete) s).0 g.1
      (put_failed-Keeps n now complete s g.0 k)
ticks-latest n (Turn.signed now ∷ turns) cp s g k =
    ticks-latest now.tree_size turns cp (tick (Turn.signed now) s).0 g.1
      (signed-Holds n now s g.0 k).0

-- Let a scheduler be started on a store whose sizes are at most n, over a log whose sizes from n on
-- do not fall, and let any turns pass, also ones in which the ledger raises or a write breaks off
-- in a file. After one more turn, that signs a checkpoint and raises nothing, `latest` returns a
-- checkpoint of that size, whether unchanged ones are skipped or not.
pub latest-ticks :
    (n : ℕ) (skip : Bool) (store : Store) (turns : List Turn) (cp : Checkpoint)
    → All (λ (e : ℕ × Option Checkpoint). e.0 ≤ n) store
    → Grows n (turns ++ Turn.signed cp ∷ [])
    → (newest : Checkpoint) × (latest
          (ticks (turns ++ Turn.signed cp ∷ []) (scheduler skip store)).store
        ≡ some (some newest))
      × (newest.tree_size ≡ cp.tree_size)
latest-ticks n skip store turns cp below g =
    ticks-latest n turns cp (scheduler skip store) g (below, λ m skipping last. cc)
