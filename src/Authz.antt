-- ===== src/Authz.antt =====
-- src/openwright/authz.py: who may write evidence, and who may generate reports.
pub mod Bearer
mod Tests
use openwright.Common.{
  bytes_eq, ℕ, ◌+◌, Bool, true, false, ◌&&◌, ◌||◌, Option, none, some, List, [], ◌∷◌, leb, ◌==◌,
  if◌then◌else◌, any, Text, codes,
}

pub data Capability : Type 0 where
  write_evidence generate_report admin : Capability

abbrev same_capability : Capability → Capability → Bool
same_capability Capability.write_evidence Capability.write_evidence = true
same_capability Capability.generate_report Capability.generate_report = true
same_capability Capability.admin Capability.admin = true
same_capability _ _ = false

pub record Principal : Type 0 where
  pub id : Text
  pub capabilities : List Capability

-- `cap in self.capabilities`
abbrev pub includes : Capability → List Capability → Bool
includes cap caps = any (same_capability cap) caps

abbrev pub has : Principal → Capability → Bool
has p cap = includes Capability.admin p.capabilities || includes cap p.capabilities

-- `Authorizer.require` returns; otherwise it raises `AuthorizationError`.
abbrev pub require : Option Principal → Capability → Bool
require none cap = true
require (some p) cap = has p cap

-- `TokenAuthority`: its dictionary, with the newest entry first.
abbrev pub TokenAuthority : Type 0
TokenAuthority = List (Text × Principal)

abbrev pub add : Text → Principal → TokenAuthority → TokenAuthority
add token p tokens = (token, p) ∷ tokens

unfoldable pub find : Text → TokenAuthority → Option Principal
unfolding bytes_eq
find token [] = none
find token ((t, p) ∷ tokens) =
    let later = find token tokens in if bytes_eq token t then some p else later

-- `principal_for`, of a token that is there.
unfoldable pub principal_for : Text → TokenAuthority → Option Principal
unfolding find
principal_for [] tokens = none
principal_for (c ∷ token) tokens = find (c ∷ token) tokens

-- `lower` on the characters that it can turn into those of the prefix.
abbrev pub lower : ℕ → ℕ
lower c = if leb 65 c && leb c 90 then c + 32 else c

-- What follows the prefix, when the text begins with it in any case of its letters.
unfoldable pub after_prefix : Text → Text → Option Text
after_prefix [] text = some text
after_prefix (c ∷ prefix) [] = none
after_prefix (c ∷ prefix) (d ∷ text) =
    let later = after_prefix prefix text in if lower d == c then later else none

-- `str.isspace` of a character.
abbrev pub is_space : ℕ → Bool
is_space c =
    leb 9 c && leb c 13
    || leb 28 c && leb c 32
    || c == 133
    || c == 160
    || c == 5760
    || leb 8192 c && leb c 8202
    || c == 8232
    || c == 8233
    || c == 8239
    || c == 8287
    || c == 12288

unfoldable pub lstrip : Text → Text
lstrip [] = []
lstrip (c ∷ text) = let later = lstrip text in if is_space c then later else c ∷ text

-- `rstrip`: the blanks at the end go.
unfoldable pub rstrip : Text → Text
rstrip [] = []
rstrip (c ∷ text) = elim (rstrip text) [
  | [] ↦ if is_space c then [] else c ∷ []
  | d ∷ rest ↦ c ∷ d ∷ rest
]

unfoldable pub strip : Text → Text
unfolding lstrip rstrip
strip text = rstrip (lstrip text)

abbrev pub stripped : Option Text → Text
stripped none = []
stripped (some token) = strip token

-- The token of the header.
unfoldable pub token_of : Option Text → Text
unfolding after_prefix strip
token_of none = []
token_of (some header) = stripped (after_prefix (codes "bearer ") header)

abbrev pub allowed : Option Principal → Capability → Bool
allowed none cap = false
allowed (some p) cap = has p cap

unfoldable pub authorize_bearer : TokenAuthority → Option Text → Capability → Bool
unfolding token_of principal_for
authorize_bearer tokens header cap = allowed (principal_for (token_of header) tokens) cap
