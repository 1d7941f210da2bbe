-- ===== src/Crosswalk/Status.antt =====
-- The events that satisfy a control of src/openwright/crosswalk.py.
use openwright.Crosswalk.Schema.{Condition}
use openwright.Crosswalk.Evaluate.{among, passing}
use openwright.Crosswalk.{Entry, Condition, holds}
use openwright.Common.{
  ◌≡◌, refl, sym, ap, ◌∙◌, subst, inl, inr, Bool, true, false, ◌||◌, some, List, [], ◌∷◌, arith,
  if◌then◌else◌, Bool-cases, Option-cases, some-injective, All, filter,
}

pub All-both {ℓ κ} :
    {A : Type ℓ} (P Q R : A → Type κ) (xs : List A)
    → ((x : A) → P x → Q x → R x)
    → All P xs
    → All Q xs
    → All R xs
All-both P Q R [] f hp hq = tt
All-both P Q R (x ∷ xs) f hp hq = (f x hp.0 hq.0, All-both P Q R xs f hp.1 hq.1)

All-filter {ℓ κ} :
    {A : Type ℓ} (P : A → Type κ) (f : A → Bool) (xs : List A) → All P xs → All P (filter f xs)
All-filter P f [] h = tt
All-filter P f (x ∷ xs) h =
    elim (f x) as (λ b. All P (if b then x ∷ filter f xs else filter f xs)) [
      | true ↦ (h.0, All-filter P f xs h.1)
      | false ↦ All-filter P f xs h.1
    ]

-- No event of the list is another one of it, or equal to another one.
unfoldable pub Distinct : List Entry → Type 0
Distinct [] = Unit
Distinct (e ∷ es) = (among e es ≡ false) × All (λ q. among q (e ∷ []) ≡ false) es × Distinct es

or_split : (a b : Bool) → (a || b) ≡ false → (a ≡ false) × (b ≡ false)
or_split true b h = cc
or_split false b h = (refl, h)

or_join : (a b : Bool) → a ≡ false → (a || b) ≡ b
or_join a b h = rw h refl

or_single : (a : Bool) → a ≡ (a || false)
or_single true = refl
or_single false = refl

among-cons : (e q : Entry) (es : List Entry) → among e (q ∷ es) ≡ among e (q ∷ []) || among e es
unfolding among
among-cons e q es = ap (λ b. b || among e es) (or_single _)

among-nil : (e : Entry) → among e [] ≡ false
unfolding among
among-nil e = refl

-- `among` of a list whose head is not the event.
among_out :
    (e q : Entry) (es : List Entry)
    → among e (q ∷ es) ≡ false
    → (among e (q ∷ []) ≡ false) × (among e es ≡ false)
among_out e q es h = or_split (among e (q ∷ [])) (among e es) (sym (among-cons e q es) ∙ h)

among_skip :
    (e q : Entry) (es : List Entry) → among e (q ∷ []) ≡ false → among e (q ∷ es) ≡ among e es
among_skip e q es h = among-cons e q es ∙ or_join (among e (q ∷ [])) (among e es) h

among-filter :
    (e : Entry) (f : Entry → Bool) (es : List Entry)
    → among e es ≡ false
    → among e (filter f es) ≡ false
among-filter e f [] h = among-nil e
among-filter e f (q ∷ es) h =
    let (apart, later) = among_out e q es h in
    elim (Bool-cases (f q)) [
      | inl kept ↦ rw kept (among_skip e q _ apart ∙ among-filter e f es later)
      | inr gone ↦ rw gone (among-filter e f es later)
    ]

pub Distinct-filter : (f : Entry → Bool) (es : List Entry) → Distinct es → Distinct (filter f es)
unfolding Distinct
Distinct-filter f [] d = tt
Distinct-filter f (e ∷ es) d = elim (Bool-cases (f e)) [
  | inl kept ↦ rw kept (
    among-filter e f es d.0,
    All-filter (λ q. among q (e ∷ []) ≡ false) f es d.1,
    Distinct-filter f es d.2,
  )
  | inr gone ↦ rw gone (Distinct-filter f es d.2)
]

-- What a turn of `passing` that returns has computed.
passing-cons :
    (events : List Entry) (cond : Condition) (e : Entry) (es ps : List Entry)
    → passing events cond (e ∷ es) ≡ some ps
    → (b : Bool) × (qs : List Entry) × (holds events e cond ≡ some b)
      × (passing events cond es ≡ some qs)
      × ((if b then e ∷ qs else qs) ≡ ps)
unfolding passing
passing-cons events cond e es ps h = elim (Option-cases (holds events e cond)) [
  | inl raised ↦ ground arith
  | inr (b, held) ↦ elim (Option-cases (passing events cond es)) [
    | inl raised ↦ ground arith
    | inr (qs, rest) ↦ (b, qs, held, rest, some-injective (sym (rw (passing, held, rest) refl) ∙ h))
  ]
]

passing-among :
    (events : List Entry) (cond : Condition) (e : Entry) (es ps : List Entry)
    → passing events cond es ≡ some ps
    → among e es ≡ false
    → among e ps ≡ false
unfolding passing
passing-among events cond e [] ps h out =
    let none_pass : [] ≡ ps = some-injective h in rw (← none_pass) (among-nil e)
passing-among events cond e (q ∷ es) ps h out =
    let (b, qs, held, rest, made) = passing-cons events cond q es ps h in
    let (apart, out') = among_out e q es out in
    let later = passing-among events cond e es qs rest out' in
    elim (Bool-cases b) [
      | inl held_true ↦
          let kept : (q ∷ qs) ≡ ps = rw held_true at made in
          rw (← kept) (among_skip e q qs apart ∙ later)
      | inr held_false ↦ let kept : qs ≡ ps = rw held_false at made in rw (← kept) later
    ]

-- Among distinct events, one that is found among the passing ones satisfies the condition.
pub passing-holds :
    (events : List Entry) (cond : Condition) (es ps : List Entry)
    → passing events cond es ≡ some ps
    → Distinct es
    → All (λ e. among e ps ≡ true → holds events e cond ≡ some true) es
unfolding Distinct
passing-holds events cond [] ps h d = tt
passing-holds events cond (e ∷ es) ps h d =
    let (b, qs, held, rest, made) = passing-cons events cond e es ps h in
    let later = passing-holds events cond es qs rest d.2 in
    elim (Bool-cases b) [
      | inl held_true ↦
          let kept : (e ∷ qs) ≡ ps = rw held_true at made in
          subst
            (λ (xs : List Entry).
              All (λ q. among q xs ≡ true → holds events q cond ≡ some true) (e ∷ es))
            kept
            (
              (λ found. held ∙ ap some held_true),
              All-both (λ q. among q (e ∷ []) ≡ false)
                  (λ q. among q qs ≡ true → holds events q cond ≡ some true)
                  (λ q. among q (e ∷ qs) ≡ true → holds events q cond ≡ some true) es
                  (λ q apart held_later found. held_later (sym (among_skip q e qs apart) ∙ found))
                  d.1 later,
            )
      | inr held_false ↦
          let kept : qs ≡ ps = rw held_false at made in
          subst
            (λ (xs : List Entry).
              All (λ q. among q xs ≡ true → holds events q cond ≡ some true) (e ∷ es))
            kept ((λ found. let out = passing-among events cond e es qs rest d.0 in cc), later)
    ]
