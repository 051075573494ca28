-- ===== src/System/Reached.antt =====
-- What is true of every history.
use reporting_and_mapping.Prelude.{sym, ◌∙◌}
use mathlib.Core.List.{append-nil, []}
use reporting_and_mapping.Platform.{Float64, Sqlite}
use reporting_and_mapping.Geo.{PlusCodes}
use reporting_and_mapping.Identity.{Crypto}
use reporting_and_mapping.Db.{Database}
use reporting_and_mapping.Db.Invariant.{IsValid}
use reporting_and_mapping.Db.AppendOnly.{IsAppended, IsAppended-refl, IsAppended-trans}
use reporting_and_mapping.Db.Spared.{HasReportsOf, HasReportsOf-refl}
use reporting_and_mapping.Db.Registered.{HasUsersOf}
use reporting_and_mapping.Startup.Restart.{open_database-IsValid}
use reporting_and_mapping.Startup.Spared.{open_database-Spares}
use reporting_and_mapping.Startup.Registered.{open_database-KeepsUsers}
use reporting_and_mapping.Store.Users.{hash_seed, resolve_user}
use reporting_and_mapping.Store.Users.Invariant.{resolve_user-IsValid, set_user_role-Keeps}
use reporting_and_mapping.Store.Users.Spared.{resolve_with-Spares, set_user_role-Spares}
use reporting_and_mapping.Store.Users.Registered.{resolve_with-KeepsUsers, set_user_role-KeepsUsers}
use reporting_and_mapping.Store.Import.{Markup}
use reporting_and_mapping.Api.Params.{Times}
use reporting_and_mapping.Api.Requests.Invariant.{
  IsValid-IsPreserved, IsAppended-IsPreserved, HasUsersOf-IsPreserved,
}
use reporting_and_mapping.Http.Serve.{Decoders}
use reporting_and_mapping.Http.Serve.Preserved.{serve_http-preserves}
use reporting_and_mapping.Importer.Text.{Unicode}
use reporting_and_mapping.Importer.Records.{Formats}
use reporting_and_mapping.Importer.Source.{Outside}
use reporting_and_mapping.System.{
  State, Step, start, request, set_roles, import, Reaches, stay, ◌then◌,
}
use reporting_and_mapping.System.Tools.{IsMaintained, role_tool-preserves, run_importer-preserves}

-- Nothing reported is nothing lost.
HasReportsOf-IsAppended : {F : Type 0} (a b : Database F) → HasReportsOf a b → IsAppended a b
HasReportsOf-IsAppended a b (l, s, f, n) = record {
  locations = ([], l ∙ sym (append-nil a.locations));
  sightings = ([], s ∙ sym (append-nil a.sightings));
  flags = ([], f ∙ sym (append-nil a.user_flags));
  notes = ([], n ∙ sym (append-nil a.reputation_notes));
}

module _ {F : Type 0} ⦃fl : Float64 F⦄ ⦃sq : Sqlite F⦄ ⦃cr : Crypto⦄ where
  IsValid-IsMaintained : IsMaintained {F = F} IsValid
  IsValid-IsMaintained = record {
    requests = IsValid-IsPreserved;
    resolved = resolve_user-IsValid;
    opened = open_database-IsValid;
    roles = set_user_role-Keeps;
  }

  pub HasUsersOf-IsMaintained : (old : Database F) → IsMaintained (HasUsersOf old)
  unfolding resolve_user
  HasUsersOf-IsMaintained old = record {
    requests = HasUsersOf-IsPreserved old;
    resolved = λ st subject now db. resolve_with-KeepsUsers (hash_seed st db).0 subject now old db;
    opened = λ random entries now. open_database-KeepsUsers random entries now old;
    roles = λ o role. set_user_role-KeepsUsers o role old;
  }

  spared : (old a b : Database F) → IsAppended old a → HasReportsOf a b → IsAppended old b
  spared old a b h s = IsAppended-trans h (HasReportsOf-IsAppended a b s)

  pub IsAppended-IsMaintained : (old : Database F) → IsMaintained (IsAppended old)
  unfolding resolve_user
  IsAppended-IsMaintained old = record {
    requests = IsAppended-IsPreserved old;
    resolved = λ st subject now db h.
        spared old db _ h
          (resolve_with-Spares (hash_seed st db).0 subject now db db (HasReportsOf-refl db));
    opened = λ random entries now db h.
        spared old db _ h (open_database-Spares random entries now db db (HasReportsOf-refl db));
    roles =
        λ o role db h. spared old db _ h (set_user_role-Spares o role db db (HasReportsOf-refl db));
  }

module _ {F : Type 0} ⦃fl : Float64 F⦄ ⦃ts : Times⦄ ⦃sq : Sqlite F⦄ ⦃pc : PlusCodes F⦄ ⦃cr : Crypto⦄
    ⦃de : Decoders F⦄ ⦃mk : Markup⦄ ⦃un : Unicode⦄ ⦃fm : Formats F⦄ ⦃out : Outside⦄ where
  Step-preserves :
      (P : Database F → Type 0) (k : IsMaintained P) {s t : State F} → Step s t → P s.db → P t.db
  Step-preserves P k (start random entries now s) = k.opened random entries now s.db
  Step-preserves P k (request trim cfg req now s) =
      serve_http-preserves P k.requests k.resolved trim cfg req now s.store s.db
  Step-preserves P k (set_roles random entries now args s) =
      role_tool-preserves P k random entries now args s.db
  Step-preserves P k (import entries flags random now s) =
      run_importer-preserves P k entries flags random now s.db

  pub Reaches-preserves :
      (P : Database F → Type 0) (k : IsMaintained P) {s t : State F} → Reaches s t → P s.db → P t.db
  Reaches-preserves P k (stay s) h = h
  Reaches-preserves P k (step then rest) h = Reaches-preserves P k rest (Step-preserves P k step h)

  -- However the server's starts, HTTP requests of any kind and the tools follow each other, a valid
  -- database stays valid, no location, sighting, flag or note that was there is changed or removed,
  -- and nobody who was registered is unregistered.
  pub Reaches-IsValid :
      {s t : State F}
      → Reaches s t
      → IsValid s.db
      → IsValid t.db × IsAppended s.db t.db × HasUsersOf s.db t.db
  Reaches-IsValid {s = s} {t = t} h v = (
    Reaches-preserves IsValid IsValid-IsMaintained h v,
    Reaches-preserves (IsAppended s.db) (IsAppended-IsMaintained s.db) h (IsAppended-refl s.db),
    Reaches-preserves (HasUsersOf s.db) (HasUsersOf-IsMaintained s.db) h (λ i k. k),
  )
