-- ===== src/System.antt =====
-- The programs on one datastore: the server starts and answers requests, and the tools of cmd run
-- beside it. A history is any sequence of these, by whatever users and at whatever times.
pub mod Tools
pub mod Reached
pub mod Interleaved
pub mod Newcomer
use reporting_and_mapping.Prelude.{ℕ, String, Option, none, List}
use reporting_and_mapping.Platform.{Float64, Sqlite}
use reporting_and_mapping.Geo.{PlusCodes}
use reporting_and_mapping.Identity.{Crypto}
use reporting_and_mapping.Db.{Time, Database}
use reporting_and_mapping.Startup.Restart.{open_database}
use reporting_and_mapping.Store.{Store}
use reporting_and_mapping.Store.Import.{Markup}
use reporting_and_mapping.Api.Params.{Times}
use reporting_and_mapping.Api.Auth.{Config}
use reporting_and_mapping.Http.{HttpRequest}
use reporting_and_mapping.Http.Serve.{Decoders, serve_http}
use reporting_and_mapping.RoleTool.{role_tool}
use reporting_and_mapping.Importer.Text.{Unicode}
use reporting_and_mapping.Importer.Records.{Formats}
use reporting_and_mapping.Importer.Source.{Outside}
use reporting_and_mapping.Importer.Run.Main.{Flags, run_importer}

-- The server's store with its cached seed, and the database.
pub record State (F : Type 0) : Type 0 where
  pub store : Store
  pub db : Database F

module _ {F : Type 0} ⦃fl : Float64 F⦄ ⦃ts : Times⦄ ⦃sq : Sqlite F⦄ ⦃pc : PlusCodes F⦄ ⦃cr : Crypto⦄
    ⦃de : Decoders F⦄ ⦃mk : Markup⦄ ⦃un : Unicode⦄ ⦃fm : Formats F⦄ ⦃out : Outside⦄ where
  -- A new process has an empty cache; the tools share the database with the server and nothing else.
  -- A start whose opening fails ends the process; that no request follows it is not said here.
  pub data Step : State F → State F → Type 0 where
    start :
        (random : Option (List ℕ)) (entries : List (String × List String)) (now : Time)
        (s : State F)
        → Step s (record {
          store = record { seed = none };
          db = (open_database random entries now s.db).1;
        })
    request :
        (trim : String → String) (cfg : Config) (req : HttpRequest) (now : Time) (s : State F)
        → Step s (record {
          store = (serve_http trim cfg req now s.store s.db).1;
          db = (serve_http trim cfg req now s.store s.db).2;
        })
    set_roles :
        (random : Option (List ℕ)) (entries : List (String × List String)) (now : Time)
        (args : List String) (s : State F)
        → Step s (record s { db = (role_tool random entries now args s.db).1 })
    import :
        (entries : List (String × List String)) (flags : Flags) (random : Option (List ℕ))
        (now : Time) (s : State F)
        → Step s (record s { db = (run_importer entries flags random now s.db).1 })

  infixr 5 ◌then◌
  pub data Reaches : State F → State F → Type 0 where
    stay : (s : State F) → Reaches s s
    ◌then◌ : {s t u : State F} → Step s t → Reaches t u → Reaches s u
