-- ===== src/Store/Users/Spared.antt =====
-- Resolving a user and setting a role spare the reports.
use reporting_and_mapping.Prelude.{String, arith}
use reporting_and_mapping.Platform.{Sqlite}
use reporting_and_mapping.Identity.{Crypto}
use reporting_and_mapping.Db.{Time}
use reporting_and_mapping.Db.Monad.{Result}
use reporting_and_mapping.Store.Users.{resolve_with, upsert_user, set_user_role}
use reporting_and_mapping.Db.Spared.{Spares}

module _ {F : Type 0} ⦃sq : Sqlite F⦄ ⦃cr : Crypto⦄ where
  pub resolve_with-Spares :
      (seed : Result String) (subject : String) (now : Time)
      → Spares (resolve_with {F = F} seed subject now)
  unfolding resolve_with upsert_user
  resolve_with-Spares seed subject now old db v = ground arith

module _ {F : Type 0} where
  pub set_user_role-Spares : (o role : String) → Spares (set_user_role {F = F} o role)
  unfolding set_user_role
  set_user_role-Spares o role old db v = ground arith
