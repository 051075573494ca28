-- ===== src/Tests/Starts.antt =====
-- The theorems on the start of the server at concrete inputs.
use reporting_and_mapping.Prelude.{◌≡◌, refl, String, some, [], ◌∷◌, ◌||◌, In, here, there}
use reporting_and_mapping.Platform.Fixed.{fixed_floats, counting_rows}
use reporting_and_mapping.Identity.{opaque_user_id}
use reporting_and_mapping.Db.Monad.{ok}
use reporting_and_mapping.Store.Users.{has_permission}
use reporting_and_mapping.Startup.{
  default_role_permissions, seed_role_permissions, lists, has_permission-seed_role_permissions,
}
use reporting_and_mapping.Startup.Restart.{open_database}
use reporting_and_mapping.Startup.Restart.Again.{open_database_again}
use reporting_and_mapping.Startup.Identities.{
  drop_user_identities, with_opaque, set_opaque_ids, set_opaque_id, rehash,
}
use reporting_and_mapping.Startup.Identities.Rehashed.{drop_user_identities_rehashed}
use reporting_and_mapping.Tests.Data.{toy_crypto, bob, town, legacy}

has_permission-seed_role_permissions_example :
    has_permission (seed_role_permissions default_role_permissions town).1 "editor" "gossip"
    ≡ has_permission town "editor" "gossip" || lists default_role_permissions "editor" "gossip"
has_permission-seed_role_permissions_example =
    has_permission-seed_role_permissions default_role_permissions town "editor" "gossip"

open_database_again_example :
    let db' = (open_database (some (1 ∷ [])) default_role_permissions 60_000_000_000 legacy).1 in
    open_database (some (2 ∷ [])) default_role_permissions 70_000_000_000 db' ≡ (ok tt, db')
unfolding open_database opaque_user_id
open_database_again_example =
    open_database_again (1 ∷ []) (2 ∷ []) default_role_permissions default_role_permissions
      60_000_000_000 70_000_000_000 legacy refl (λ a b. refl)

drop_user_identities_rehashed_example :
    (o : String) × (opaque_user_id "seed" "bob" ≡ ok o)
    × In
        (with_opaque o (record bob { opaque_id = "old-id" }))
        (drop_user_identities "seed" legacy).1.users
unfolding drop_user_identities rehash set_opaque_ids set_opaque_id opaque_user_id
drop_user_identities_rehashed_example =
    drop_user_identities_rehashed "seed" legacy refl (refl, tt) (here refl) (there (here refl)) refl
