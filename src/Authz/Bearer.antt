-- ===== src/Authz/Bearer.antt =====
-- Who gets through `authorize_bearer` of src/openwright/authz.py.
use openwright.Common.{
  bytes_eq, ◌≡◌, refl, ap, ◌∙◌, ◌≢◌, inl, inr, true, false, none, some, [], ◌∷◌, ◌++◌, map, arith,
  Bool-cases, All, bytes_eq→eq, bytes_eq_refl, Text, codes,
}
use openwright.Authz.{
  Principal, find, authorize_bearer, principal_for, TokenAuthority, Capability, token_of, has,
  is_space, after_prefix, lstrip, rstrip, strip, lower, stripped,
}

-- A text whose first and last characters are not blank.
abbrev Ends : Text → Type 0
Ends [] = ⊥
Ends (c ∷ []) = is_space c ≡ false
Ends (c ∷ d ∷ text) = Ends (d ∷ text)

abbrev Starts : Text → Type 0
Starts [] = ⊥
Starts (c ∷ text) = is_space c ≡ false

abbrev pub IsTrimmed : Text → Type 0
IsTrimmed text = Starts text × Ends text

abbrev pub IsBlank : Text → Type 0
IsBlank = All (λ c. is_space c ≡ true)

after_prefix_lem :
    (prefix text : Text) → after_prefix (map lower prefix) (prefix ++ text) ≡ some text
unfolding after_prefix
after_prefix_lem [] text = refl
after_prefix_lem (c ∷ prefix) text = ground (arith, after_prefix_lem prefix text)

lstrip_lem : (blank text : Text) → IsBlank blank → Starts text → lstrip (blank ++ text) ≡ text
unfolding lstrip
lstrip_lem [] [] h k = absurd k
lstrip_lem [] (c ∷ text) h k = rw k refl
lstrip_lem (b ∷ blank) text h k = rw h.0 (lstrip_lem blank text h.1 k)

rstrip_blank : (blank : Text) → IsBlank blank → rstrip blank ≡ []
unfolding rstrip
rstrip_blank [] h = refl
rstrip_blank (b ∷ blank) h = rw (rstrip_blank blank h.1, h.0) refl

rstrip_lem : (text blank : Text) → Ends text → IsBlank blank → rstrip (text ++ blank) ≡ text
unfolding rstrip
rstrip_lem [] blank k h = absurd k
rstrip_lem (c ∷ []) blank k h = rw (rstrip_blank blank h, k) refl
rstrip_lem (c ∷ d ∷ text) blank k h = rw (rstrip_lem (d ∷ text) blank k h) refl

Starts-append : (text more : Text) → Starts text → Starts (text ++ more)
Starts-append [] more k = absurd k
Starts-append (c ∷ text) more k = k

token_of_lem :
    (prefix before token after : Text)
    → map lower prefix ≡ codes "bearer "
    → IsBlank before
    → IsTrimmed token
    → IsBlank after
    → token_of (some (prefix ++ (before ++ (token ++ after)))) ≡ token
unfolding token_of strip
token_of_lem prefix before token after is_prefix b t a =
    let text = before ++ (token ++ after) in
    let found : after_prefix (codes "bearer ") (prefix ++ text) ≡ some text =
      rw (← is_prefix) (after_prefix_lem prefix text) in
    ap stripped found
    ∙ (rw
        (
          lstrip_lem before (token ++ after) b (Starts-append token after t.0),
          rstrip_lem token after t.1 a,
        )
        refl)

find_newest :
    (newer older : TokenAuthority) (token : Text) (p : Principal)
    → All (λ (e : Text × Principal). token ≢ e.0) newer
    → find token (newer ++ (token, p) ∷ older) ≡ some p
unfolding find
find_newest [] older token p h = rw (bytes_eq_refl token) refl
find_newest ((t, q) ∷ newer) older token p h = elim (Bool-cases (bytes_eq token t)) [
  | inl same ↦ absurd (h.0 (bytes_eq→eq token t same))
  | inr other ↦ rw other (find_newest newer older token p h.1)
]

find_unknown :
    (tokens : TokenAuthority) (token : Text)
    → All (λ (e : Text × Principal). token ≢ e.0) tokens
    → find token tokens ≡ none
unfolding find
find_unknown [] token h = refl
find_unknown ((t, q) ∷ tokens) token h = elim (Bool-cases (bytes_eq token t)) [
  | inl same ↦ absurd (h.0 (bytes_eq→eq token t same))
  | inr other ↦ rw other (find_unknown tokens token h.1)
]

principal_for-find :
    (token : Text) (tokens : TokenAuthority)
    → Starts token
    → principal_for token tokens ≡ find token tokens
unfolding principal_for
principal_for-find [] tokens k = absurd k
principal_for-find (c ∷ token) tokens k = refl

-- Let a header be a prefix that reads `bearer ` in lower case, a token whose first and last
-- characters are not blank, and blanks around the token. It is let through as the principal of the
-- token's newest entry has the capability or not, whatever the older entries are; against the newer
-- entries alone, which do not hold the token, it is refused.
pub authorize_bearer_lem :
    (newer older : TokenAuthority) (principal : Principal) (cap : Capability)
    (prefix before token after : Text)
    → All (λ (e : Text × Principal). token ≢ e.0) newer
    → map lower prefix ≡ codes "bearer "
    → IsBlank before
    → IsTrimmed token
    → IsBlank after
    → (authorize_bearer
          (newer ++ (token, principal) ∷ older)
          (some (prefix ++ (before ++ (token ++ after))))
          cap
        ≡ has principal cap)
      × (authorize_bearer newer (some (prefix ++ (before ++ (token ++ after)))) cap ≡ false)
unfolding authorize_bearer
authorize_bearer_lem newer older principal cap prefix before token after h is_prefix b t a =
    let read = token_of_lem prefix before token after is_prefix b t a in
    let tokens = newer ++ (token, principal) ∷ older in
    (
      rw (read, principal_for-find token tokens t.0, find_newest newer older token principal h)
          refl,
      rw (read, principal_for-find token newer t.0, find_unknown newer token h) refl,
    )
