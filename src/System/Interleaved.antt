-- ===== src/System/Interleaved.antt =====
-- internal/store/store.go: the two statements of `InsertSighting` are no transaction, so that other
-- requests, and the tools, may run between them.
use reporting_and_mapping.Prelude.{ℕ, ◌≡◌, refl, ap, ◌∙◌, true, ◌==◌, any, any-append, List}
use reporting_and_mapping.Platform.{Float64, Sqlite}
use reporting_and_mapping.Geo.{PlusCodes}
use reporting_and_mapping.Identity.{Crypto}
use reporting_and_mapping.Db.{LocationRow, Database, has_user}
use reporting_and_mapping.Db.Monad.{ok, ◌>>=◌}
use reporting_and_mapping.Db.AppendOnly.{IsAppended, IsAppended-refl, IsExtension}
use reporting_and_mapping.Db.Registered.{HasUsersOf}
use reporting_and_mapping.Db.Invariant.Rules.{>>=-ok}
use reporting_and_mapping.Store.{Store}
use reporting_and_mapping.Store.Import.{Markup}
use reporting_and_mapping.Store.Queries.{bool_to_int}
use reporting_and_mapping.Store.Sightings.{
  SightingInput, existence, is_at, ensure_location, insert_at_location,
}
use reporting_and_mapping.Store.Sightings.Recorded.{
  IsReportable, IsPlaceable, IsRecorded, existence_lem, ensure_location_lem,
  insert_at_location-IsRecorded,
}
use reporting_and_mapping.Api.Params.{Times}
use reporting_and_mapping.Http.Serve.{Decoders}
use reporting_and_mapping.Importer.Text.{Unicode}
use reporting_and_mapping.Importer.Records.{Formats}
use reporting_and_mapping.Importer.Source.{Outside}
use reporting_and_mapping.System.{State, Reaches}
use reporting_and_mapping.System.Reached.{
  Reaches-preserves, IsAppended-IsMaintained, HasUsersOf-IsMaintained,
}

module _ {F : Type 0} ⦃fl : Float64 F⦄ ⦃ts : Times⦄ ⦃sq : Sqlite F⦄ ⦃pc : PlusCodes F⦄ ⦃cr : Crypto⦄
    ⦃de : Decoders F⦄ ⦃mk : Markup⦄ ⦃un : Unicode⦄ ⦃fm : Formats F⦄ ⦃out : Outside⦄ where
  still_at :
      (i : SightingInput F) (a b : List (LocationRow F))
      → IsExtension a b
      → any (is_at i.lat i.lon) a ≡ true
      → any (is_at i.lat i.lon) b ≡ true
  still_at i a b (new, e) h = rw (e, any-append (is_at i.lat i.lon) a new, h) refl

  -- A placeable report by a registered user of something sighted, missed or removed is recorded
  -- with one new sighting, whatever requests, starts and runs of the tools happen after its location
  -- statement and before its sighting statement: the location statement succeeds, and what follows
  -- it answers the new sighting's id and leaves the rest of the database as it then is.
  pub insert_sighting_interleaved :
      (i : SightingInput F) (st : Store) (db : Database F) (t : State F)
      → has_user db i.user_id ≡ true
      → IsReportable i.transpired
      → IsPlaceable i db
      → Reaches (record { store = st; db = (ensure_location i db).1 }) t
      → let (r, db') = (existence i.transpired >>= insert_at_location i) t.db in
        ((ensure_location i db).0 ≡ ok tt)
        × (id : ℕ) × (r ≡ ok id)
        × IsRecorded i (bool_to_int (i.transpired == "sighted")) t.db.sightings db' id
        × (db' ≡ record t.db { sightings = db'.sightings })
  insert_sighting_interleaved i st db t user reportable placeable between =
      let (ls, e, found) = ensure_location_lem i db user placeable in
      let mid : Database F = (ensure_location i db).1 in
      let appended =
        Reaches-preserves (IsAppended mid) (IsAppended-IsMaintained mid) between
          (IsAppended-refl mid) in
      let users =
        Reaches-preserves (HasUsersOf mid) (HasUsersOf-IsMaintained mid) between (λ j k. k) in
      let there : any (is_at i.lat i.lon) mid.locations ≡ true =
        ap (λ r. any (is_at i.lat i.lon) r.1.locations) e ∙ found in
      let known : has_user mid i.user_id ≡ true = ap (λ r. has_user r.1 i.user_id) e ∙ user in
      let place = still_at i mid.locations t.db.locations appended.locations there in
      let (n, d, same) = existence_lem i.transpired t.db reportable in
      let (id, r, recorded, frame) =
        insert_at_location-IsRecorded i n t.db (users i.user_id known) place in
      rw (>>=-ok (existence i.transpired) (insert_at_location i) t.db d, same)
        (ap (λ x. x.0) e, id, r, recorded, frame)
