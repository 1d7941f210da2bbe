-- ===== src/Authz/Tests.antt =====
-- The theorem on bearer tokens at a concrete header.
use openwright.Authz.Bearer.{authorize_bearer_lem}
use openwright.Authz.{
  TokenAuthority, authorize_bearer, add, Capability, Principal, token_of, principal_for, find,
  after_prefix, strip, lstrip, rstrip,
}
use openwright.Common.{bytes_eq, ◌≡◌, refl, true, false, some, [], ◌∷◌, ◌++◌, codes}

abbrev tokens : TokenAuthority
tokens =
    add (codes "s3cret")
      (record { id = codes "collector"; capabilities = Capability.write_evidence ∷ [] }) []

abbrev newer : TokenAuthority
newer = (codes "other", record { id = codes "reader"; capabilities = [] }) ∷ []

abbrev collector : Principal
collector = record { id = codes "collector"; capabilities = Capability.write_evidence ∷ [] }

authorize_bearer_lem_example :
    (authorize_bearer
        (newer ++ (codes "s3cret", collector) ∷ [])
        (some (codes "Bearer " ++ (codes " " ++ (codes "s3cret" ++ codes " "))))
        Capability.write_evidence
      ≡ true)
    × (authorize_bearer newer
          (some (codes "Bearer " ++ (codes " " ++ (codes "s3cret" ++ codes " "))))
          Capability.write_evidence
        ≡ false)
authorize_bearer_lem_example =
    authorize_bearer_lem newer [] collector Capability.write_evidence (codes "Bearer ") (codes " ")
      (codes "s3cret") (codes " ") ((λ e. cc), tt) refl (refl, tt) (refl, refl) (refl, tt)

let_through :
    authorize_bearer tokens (some (codes "Bearer s3cret ")) Capability.write_evidence ≡ true
unfolding authorize_bearer token_of principal_for find after_prefix strip lstrip rstrip bytes_eq
let_through = refl

kept_out : authorize_bearer tokens (some (codes "Basic s3cret")) Capability.write_evidence ≡ false
unfolding authorize_bearer token_of principal_for find after_prefix strip lstrip rstrip bytes_eq
kept_out = refl
