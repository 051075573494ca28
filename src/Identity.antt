-- ===== src/Identity.antt =====
-- internal/identity/identity.go: the public id of a user, derived from the private subject. Package
-- crypto/hmac, crypto/rand and encoding/base64 are parameters.
use reporting_and_mapping.Prelude.{ℕ, String, Option, none, some, List, [], ◌∷◌, ◌==◌}
use reporting_and_mapping.Prelude.{if◌then◌else◌}
use reporting_and_mapping.Db.Monad.{Result, ok, err, failure}

pub record Crypto : Type 0 where
  -- base64.RawURLEncoding
  pub encode : List ℕ → String
  pub decode : String → Option (List ℕ)
  -- HMAC-SHA256 of a message under a key
  pub hmac_sha256 : List ℕ → List ℕ → List ℕ
  -- []byte(s)
  pub utf8 : String → List ℕ

abbrev pub seed_config_key : String
seed_config_key = "user_id_hash_seed"

module _ ⦃cr : Crypto⦄ where
  -- What rand.Read filled the 32 bytes with; `none` is its error.
  unfoldable pub new_seed : Option (List ℕ) → Result String
  new_seed none = err (failure "generate user id hash seed")
  new_seed (some b) = ok (cr.encode b)

  abbrev derive : List ℕ → String → Result String
  derive [] subject = err (failure "user id hash seed is empty")
  derive (k ∷ key) subject =
      if subject == ""
      then err (failure "cannot derive an opaque id from an empty subject")
      else ok (cr.encode (cr.hmac_sha256 (k ∷ key) (cr.utf8 subject)))

  unfoldable pub opaque_user_id : String → String → Result String
  opaque_user_id encoded_seed subject = elim (cr.decode encoded_seed) [
    | none ↦ err (failure "decode user id hash seed")
    | some key ↦ derive key subject
  ]
