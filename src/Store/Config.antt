-- ===== src/Store/Config.antt =====
-- internal/store/config.go: the config table.
pub mod Written
use reporting_and_mapping.Prelude.{
  String, [], ◌∷◌, ◌++◌, ◌==◌, any, find, update_where, if◌then◌else◌,
}
use reporting_and_mapping.Prelude.{Option, List}
use reporting_and_mapping.Db.{Time, rfc3339, ConfigRow}
use reporting_and_mapping.Db.Monad.{Action, not_found, or_raise, modify, pure, ◌>>=◌}

-- SELECT value FROM config WHERE key = ?
unfoldable pub config_row : String → List ConfigRow → Option ConfigRow
config_row key rows = find (λ r. r.key == key) rows

module _ {F : Type 0} where
  unfoldable pub config : String → Action F String
  unfolding config_row
  config key = do row ← (λ db. or_raise (config_row key db.config) not_found db); pure (row.value)

  -- INSERT … ON CONFLICT(key) DO UPDATE
  unfoldable pub set_config : String → String → Time → Action F (Unit {0})
  set_config key value now = modify λ db. record db {
    config =
        if any (λ r. r.key == key) db.config
        then update_where (λ r. r.key == key)
            (λ r. record r { value = value; updated_at = rfc3339 now }) db.config
        else db.config ++ record { key = key; value = value; updated_at = rfc3339 now } ∷ [];
  }
