-- ===== src/Store.antt =====
-- internal/store: the datastore's operations, each an action on the database. The server's
-- `store.Store` is the cached seed alone, since the handle *sql.DB is the database itself.
pub mod Config
pub mod Queries
pub mod Users
pub mod Sightings
pub mod Reputation
pub mod Mapping
pub mod Reconciliation
pub mod Lists
pub mod Events
pub mod History
pub mod Import
use reporting_and_mapping.Prelude.{String, Option}
use reporting_and_mapping.Db.Monad.{Result}

-- `seed` holds what the first call of `hashSeed` read, an error included; `none` before it.
pub record Store : Type 0 where
  pub seed : Option (Result String)
