-- ===== src/Tests/Histories.antt =====
-- The theorems on histories at concrete inputs.
use reporting_and_mapping.Prelude.{◌≡◌, refl, none, some, [], ◌∷◌, if◌then◌else◌, ℕ, inl, inr}
use reporting_and_mapping.Platform.Fixed.{Fixed, fixed_floats, counting_rows}
use reporting_and_mapping.Db.Monad.{ok, ◌>>=◌}
use reporting_and_mapping.Startup.{default_role_permissions}
use reporting_and_mapping.Startup.Restart.{open_database}
use reporting_and_mapping.RoleTool.{role_tool}
use reporting_and_mapping.Identity.{opaque_user_id}
use reporting_and_mapping.Store.Users.{new_user}
use reporting_and_mapping.Api.{write_json, created_id}
use reporting_and_mapping.Api.Contribute.{rejection, input_of}
use reporting_and_mapping.Http.{HttpRequest, answered}
use reporting_and_mapping.System.Newcomer.{newcomer_reports}
use reporting_and_mapping.Tests.Data.{
  toy_crypto, toy_times, toy_codes, town, town-IsValid, post_a_sighting, toy_decoders, idle, form,
  new_place,
}
use reporting_and_mapping.Db.Invariant.{IsValid}
use reporting_and_mapping.Db.AppendOnly.{IsAppended}
use reporting_and_mapping.Api.Auth.{default_config}
use reporting_and_mapping.System.{State, start, request, set_roles, stay, ◌then◌}
use reporting_and_mapping.Db.Registered.{HasUsersOf}
use reporting_and_mapping.Http.Serve.{serve_http}
use reporting_and_mapping.Store.Queries.{bool_to_int}
use reporting_and_mapping.Store.Sightings.{ensure_location, existence, insert_at_location}
use reporting_and_mapping.Store.Sightings.Recorded.{IsRecorded}
use reporting_and_mapping.System.Interleaved.{insert_sighting_interleaved}
use reporting_and_mapping.System.Reached.{Reaches-IsValid}
use reporting_and_mapping.Tests.Imports.{ascii, toy_formats, no_markup, toy_world}

-- The server starts, somebody reports a sign, and the role tool runs.
abbrev started : State Fixed
started = record {
  store = record { seed = none };
  db = (open_database (some (1 ∷ [])) default_role_permissions 60 town).1;
}

abbrev served : State Fixed
served = record {
  store =
      (serve_http (λ s. s) default_config post_a_sighting 60_000_000_000 started.store
        started.db).1;
  db =
      (serve_http (λ s. s) default_config post_a_sighting 60_000_000_000 started.store
        started.db).2;
}

abbrev changed : State Fixed
changed = record served {
  db =
      (role_tool (some (2 ∷ [])) default_role_permissions 61 ("set" ∷ "bob-id" ∷ "muted" ∷ [])
        served.db).1;
}

Reaches-IsValid_example :
    IsValid changed.db × IsAppended town changed.db × HasUsersOf town changed.db
Reaches-IsValid_example =
    Reaches-IsValid {s = record { store = record { seed = none }; db = town }} {t = changed}
      (start (some (1 ∷ [])) default_role_permissions 60
          (record { store = record { seed = none }; db = town })
        then request (λ s. s) default_config post_a_sighting 60_000_000_000 started
        then set_roles (some (2 ∷ [])) default_role_permissions 61 ("set" ∷ "bob-id" ∷ "muted" ∷ [])
            served
        then stay changed)
      town-IsValid

-- A report of a new place, with a start of the server between its two statements.
abbrev placed : State Fixed
placed = record { store = idle; db = (ensure_location new_place town).1 }

abbrev restarted : State Fixed
restarted = record {
  store = record { seed = none };
  db = (open_database (some (3 ∷ [])) default_role_permissions 55 placed.db).1;
}

insert_sighting_interleaved_example :
    let (r, db') = (existence "sighted" >>= insert_at_location new_place) restarted.db in
    ((ensure_location new_place town).0 ≡ ok tt)
    × (id : ℕ) × (r ≡ ok id)
    × IsRecorded new_place 1 restarted.db.sightings db' id
    × (db' ≡ record restarted.db { sightings = db'.sightings })
unfolding bool_to_int
insert_sighting_interleaved_example =
    insert_sighting_interleaved new_place idle town restarted refl (inl refl) (inr (refl, refl))
      (start (some (3 ∷ [])) default_role_permissions 55 placed then stay restarted)

-- Somebody whose subject is "cyd" reports after the start of the server.
abbrev post_by_cyd : HttpRequest
post_by_cyd = record post_a_sighting { headers = λ name. "cyd" }

newcomer_reports_example :
    let (answer, st, db') =
      serve_http {F = Fixed}
        (λ s. s)
        default_config
        post_by_cyd
        60_000_000_000
        (record { seed = none })
        started.db in
    (n : ℕ) × (answer ≡ answered (write_json 201 (created_id n)))
    × IsRecorded
        (input_of (new_user 3 "cyd-id" 60_000_000_000) (form "sighted") 60_000_000_000)
        1
        started.db.sightings
        db'
        n
unfolding bool_to_int open_database opaque_user_id serve_http rejection
newcomer_reports_example =
    newcomer_reports (some (1 ∷ [])) 60 60_000_000_000 60_000_000_000 town (λ s. s) default_config
      post_by_cyd (new_user 3 "cyd-id" 60_000_000_000) (form "sighted") refl refl refl (refl, refl)
      refl refl refl refl (inr (refl, refl))
