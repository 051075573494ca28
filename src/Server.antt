-- ===== src/Server.antt =====
-- cmd/server/main.go: how the server's environment and flag become the configuration of the
-- authentication. Listening, shutdown and the logs are not modelled.
pub mod Headers
use reporting_and_mapping.Prelude.{
  String, Option, none, some, List, [], ◌∷◌, map, not, rows_where, if◌then◌else◌,
}
use reporting_and_mapping.Api.Auth.{Config, default_config}
use reporting_and_mapping.Importer.Text.{Text, is_empty, trim_space, split}

-- The names between the commas, trimmed, those that are empty left out.
unfoldable pub split_csv : Text → List Text
split_csv s = rows_where (λ t. not (is_empty t)) (map trim_space (split 44 s))

-- What main reads: os.Getenv("AUTH_HEADERS"), os.Getenv("DEV_SUBJECT"), and the flag
-- -bypassed-auth-email, `none` where it is not passed.
pub record Environment : Type 0 where
  pub auth_headers : Text
  pub dev_subject : String
  pub bypassed_auth_email : Option String

abbrev flag_or : Option String → String → String
flag_or none default = default
flag_or (some value) default = value

-- `string` is a text as Go's string.
unfoldable pub auth_config : (Text → String) → Environment → Config
unfolding split_csv
auth_config string env = record {
  identity_headers =
      if is_empty env.auth_headers
      then default_config.identity_headers
      else map string (split_csv env.auth_headers);
  dev_subject = flag_or env.bypassed_auth_email env.dev_subject;
}
