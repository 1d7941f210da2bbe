-- ===== src/Signing/Toy.antt =====
-- A concrete platform and key for tests: signatures are the key followed by the message.
use openwright.Signing.{Platform, KeySource, Signs}
use openwright.Canonical.{Value, Items, Fields}
use openwright.Common.{bytes_eq, refl, some, [], ◌∷◌, ◌++◌, Bytes, bytes_eq_refl, toy_sha256}

unfoldable mutual
  pub toy_dumps : Value → Bytes
  toy_dumps Value.null = 0 ∷ []
  toy_dumps (Value.bool b) = 1 ∷ []
  toy_dumps (Value.int n) = 2 ∷ n ∷ []
  toy_dumps (Value.minus n) = 3 ∷ n ∷ []
  toy_dumps (Value.float r) = 4 ∷ r
  toy_dumps (Value.str s) = 5 ∷ s
  toy_dumps (Value.list vs) = 6 ∷ toy_dumps_items vs
  toy_dumps (Value.dict fs) = 7 ∷ toy_dumps_fields fs

  toy_dumps_items : Items → Bytes
  toy_dumps_items Items.nil = []
  toy_dumps_items (Items.item v vs) = toy_dumps v ++ toy_dumps_items vs

  toy_dumps_fields : Fields → Bytes
  toy_dumps_fields Fields.empty = []
  toy_dumps_fields (Fields.field k v fs) = k ++ toy_dumps v ++ toy_dumps_fields fs

abbrev pub toy_platform : Platform
toy_platform = record {
  sha256 = toy_sha256;
  dumps = toy_dumps;
  ed25519_verify = λ pk sig content. bytes_eq sig (pk ++ content);
  b64encode = λ content. content;
  b64decode = some;
}

abbrev pub toy_key : Bytes → KeySource
toy_key pk = record { sign = λ content. pk ++ content; public_key_raw = pk }

pub toy_Signs : (pk : Bytes) → Signs toy_platform (toy_key pk)
toy_Signs pk = record {
  accepted = λ content. bytes_eq_refl (pk ++ content);
  decoded = λ content. refl;
}
