-- ===== src/System/Tools.antt =====
-- What the tools of cmd keep true of the database: what opening it, resolving a user and the store's
-- actions keep true.
use reporting_and_mapping.Prelude.{
  ℕ, sym, inl, inr, String, Option, none, some, List, [], ◌∷◌, ◌==◌, Bool, Bool-cases,
}
use mathlib.Core.Path.{subst}
use reporting_and_mapping.Platform.{Float64, Sqlite}
use reporting_and_mapping.Identity.{Crypto}
use reporting_and_mapping.Db.{Time, UserRow, Database}
use reporting_and_mapping.Db.Monad.{Result, ok, err, ◌>>=◌}
use reporting_and_mapping.Db.Invariant.Rules.{Result-cases}
use reporting_and_mapping.Startup.Restart.{open_database}
use reporting_and_mapping.Store.{Store}
use reporting_and_mapping.Store.Users.{resolve_user, set_user_role}
use reporting_and_mapping.Store.Import.{ImportRecord, Markup}
use reporting_and_mapping.Store.Import.Refused.{import_source_records_fails}
use reporting_and_mapping.RoleTool.{handle_set, command, handle_list, role_tool}
use reporting_and_mapping.Api.Requests.Effects.{IsPreserved}
use reporting_and_mapping.Http.Serve.Preserved.{IsKeptByResolve}
use reporting_and_mapping.Importer.Text.{Unicode}
use reporting_and_mapping.Importer.Records.{KmlDoc, RunSummary, Formats, build_records}
use reporting_and_mapping.Importer.Source.{Bytes, Outside, load_raw, unwrap_kmz}
use reporting_and_mapping.Importer.Run.{import_date, import_by, import_built, import_map}
use reporting_and_mapping.Importer.Run.Main.{Flags, run_doc, run_kml, run_raw, run_importer}

-- Everything that a program does to the database through the store keeps it.
pub record IsMaintained {F : Type 0} ⦃fl : Float64 F⦄ ⦃sq : Sqlite F⦄ ⦃cr : Crypto⦄
    (P : Database F → Type 0) : Type 0 where
  pub requests : IsPreserved P
  pub resolved : IsKeptByResolve P
  pub opened :
      (random : Option (List ℕ)) (entries : List (String × List String)) (now : Time)
      (db : Database F)
      → P db
      → P (open_database random entries now db).1
  pub roles : (o role : String) (db : Database F) → P db → P (set_user_role o role db).1

module _ {F : Type 0} ⦃fl : Float64 F⦄ ⦃sq : Sqlite F⦄ ⦃cr : Crypto⦄ (P : Database F → Type 0)
    (k : IsMaintained P) where
  handle_set-preserves : (args : List String) (db : Database F) → P db → P (handle_set args db).1
  unfolding handle_set
  handle_set-preserves [] db v = v
  handle_set-preserves (o ∷ []) db v = v
  handle_set-preserves (o ∷ role ∷ a ∷ args) db v = v
  handle_set-preserves (o ∷ role ∷ []) db v = k.roles o role db v

  command-preserves : (args : List String) (db : Database F) → P db → P (command args db).1
  unfolding command handle_list
  command-preserves [] db v = v
  command-preserves (cmd ∷ args) db v = elim (Bool-cases (cmd == "list")) [
    | inl e ↦ rw e v
    | inr e ↦ elim (Bool-cases (cmd == "set")) [
      | inl k ↦ rw (e, k) (handle_set-preserves args db v)
      | inr k ↦ rw (e, k) v
    ]
  ]

  pub role_tool-preserves :
      (random : Option (List ℕ)) (entries : List (String × List String)) (now : Time)
      (args : List String) (db : Database F)
      → P db
      → P (role_tool random entries now args db).1
  unfolding role_tool
  role_tool-preserves random entries now args db v =
      let opened = k.opened random entries now db v in
      elim (Result-cases (open_database {F = F} random entries now db).0) [
        | inr (x, e) ↦ rw (role_tool, e) opened
        | inl (t, e) ↦
            rw (role_tool, e)
              (command-preserves args (open_database random entries now db).1 opened)
      ]

module _ {F : Type 0} ⦃fl : Float64 F⦄ ⦃sq : Sqlite F⦄ ⦃cr : Crypto⦄ ⦃mk : Markup⦄
    (P : Database F → Type 0) (k : IsMaintained P) where
  import_by-preserves :
      (resolved : Result UserRow) (recs : List (ImportRecord F)) (dry_run : Bool) (db : Database F)
      → P db
      → P (import_by resolved recs dry_run db).1
  import_by-preserves (err x) recs dry_run db v = v
  import_by-preserves (ok u) recs dry_run db v =
      subst P (sym (import_source_records_fails u.id import_date recs dry_run db).0) v

  import_built-preserves :
      (entries : List (String × List String)) (importer : String) (dry_run : Bool)
      (random : Option (List ℕ)) (now : Time) (recs : List (ImportRecord F)) (sum : RunSummary)
      (db : Database F)
      → P db
      → P (import_built entries importer dry_run random now (recs, sum) db).1
  unfolding import_built
  import_built-preserves entries importer dry_run random now [] sum db v = v
  import_built-preserves entries importer dry_run random now (r ∷ rs) sum db v =
      let d = (open_database random entries now db).1 in
      let opened = k.opened random entries now db v in
      let cache : Store = record { seed = none } in
      elim (Result-cases (open_database {F = F} random entries now db).0) [
        | inr (x, e) ↦ rw (e, ◌>>=◌) opened
        | inl (t, e) ↦
            rw (e, ◌>>=◌)
              (import_by-preserves (resolve_user cache importer now d).0 (r ∷ rs) dry_run
                (resolve_user cache importer now d).2 (k.resolved cache importer now d opened))
      ]

module _ {F : Type 0} ⦃fl : Float64 F⦄ ⦃sq : Sqlite F⦄ ⦃cr : Crypto⦄ ⦃mk : Markup⦄ ⦃un : Unicode⦄
    ⦃fm : Formats F⦄ ⦃out : Outside⦄ (P : Database F → Type 0) (k : IsMaintained P) where
  run_doc-preserves :
      (entries : List (String × List String)) (flags : Flags) (random : Option (List ℕ))
      (now : Time) (doc : Option KmlDoc) (db : Database F)
      → P db
      → P (run_doc entries flags random now doc db).1
  unfolding import_map
  run_doc-preserves entries flags random now none db v = v
  run_doc-preserves entries flags random now (some doc) db v =
      let (recs, sum) = build_records {F = F} doc flags.source import_date in
      import_built-preserves P k entries flags.importer flags.dry_run random now recs sum db v

  run_kml-preserves :
      (entries : List (String × List String)) (flags : Flags) (random : Option (List ℕ))
      (now : Time) (kml : Option Bytes) (db : Database F)
      → P db
      → P (run_kml entries flags random now kml db).1
  run_kml-preserves entries flags random now none db v = v
  run_kml-preserves entries flags random now (some kml) db v =
      run_doc-preserves entries flags random now (out.unmarshal kml) db v

  run_raw-preserves :
      (entries : List (String × List String)) (flags : Flags) (random : Option (List ℕ))
      (now : Time) (raw : Option Bytes) (db : Database F)
      → P db
      → P (run_raw entries flags random now raw db).1
  run_raw-preserves entries flags random now none db v = v
  run_raw-preserves entries flags random now (some raw) db v =
      run_kml-preserves entries flags random now (unwrap_kmz raw) db v

  pub run_importer-preserves :
      (entries : List (String × List String)) (flags : Flags) (random : Option (List ℕ))
      (now : Time) (db : Database F)
      → P db
      → P (run_importer entries flags random now db).1
  unfolding run_importer
  run_importer-preserves entries flags random now db =
      run_raw-preserves entries flags random now (load_raw flags.file flags.url flags.mid).0 db
