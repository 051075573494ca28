-- ===== src/Api/Requests/Effects.antt =====
-- What a request may do to the database, whoever sends it.
use reporting_and_mapping.Prelude.{
  ℕ, String, Bool, Option, none, some, Bool-cases, Option-cases, inl, inr, arith,
}
use reporting_and_mapping.Prelude.Int.{ℤ, pos, negsuc}
use reporting_and_mapping.Platform.{Float64, Sqlite}
use reporting_and_mapping.Geo.{PlusCodes}
use reporting_and_mapping.Db.{Time, UserRow, Database}
use reporting_and_mapping.Db.Monad.{Action}
use reporting_and_mapping.Db.Invariant.Rules.{Result-cases}
use reporting_and_mapping.Store.Users.{has_permission, set_user_called}
use reporting_and_mapping.Store.Sightings.{insert_sighting, insert_canonical}
use reporting_and_mapping.Store.Reconciliation.{insert_reconciliation, insert_reconciliation_fails}
use reporting_and_mapping.Store.Reputation.{set_insincere, add_note}
use reporting_and_mapping.Api.{Handler, Response, require, respond, event_list, write_json}
use reporting_and_mapping.Api.Params.{
  Times, Query, parse_bbox, parse_since, include_insincere, include_missing,
}
use reporting_and_mapping.Store.Mapping.{map_data}
use reporting_and_mapping.Api.{created_id, write_json, flag_value, nothing}
use reporting_and_mapping.Api.Contribute.{
  SightingBody, chosen_called, observed_time, rejection, input_of, create_sighting, create_location,
  reconcile, send_map, handle_update_me, decoded_sighting,
}
use reporting_and_mapping.Store.Lists.{sightings_since}
use reporting_and_mapping.Store.Events.{audit_events_since}
use reporting_and_mapping.Store.History.{location_history}
use reporting_and_mapping.Store.History.Shown.{location_history_unchanged}
use reporting_and_mapping.Api.Review.{
  Horizon, starts, refused, send_sightings, send_events, send_history,
}
use reporting_and_mapping.Api.Moderate.{set_flags, send_note, is_one, chosen_value}

-- The store's actions that the handlers call.
pub record IsPreserved {F : Type 0} ⦃fl : Float64 F⦄ ⦃sq : Sqlite F⦄ (P : Database F → Type 0)
    : Type 0 where
  pub called : (i : ℕ) (c : String) (db : Database F) → P db → P (set_user_called i c db).1
  pub sighting : (i : _) (db : Database F) → P db → P (insert_sighting i db).1
  pub canonical :
      (i : ℕ) (lat lon : F) (now : Time) (db : Database F)
      → P db
      → P (insert_canonical i lat lon now db).1
  pub insincere :
      (i : ℕ) (o : String) (b : Bool) (now : Time) (db : Database F)
      → P db
      → P (set_insincere i o b now db).1
  pub note :
      (i : ℕ) (o n : String) (now : Time) (db : Database F) → P db → P (add_note i o n now db).1

module _ {F : Type 0} ⦃fl : Float64 F⦄ ⦃sq : Sqlite F⦄ (P : Database F → Type 0) where
  pub require-after :
      (permission : String) (rest : Handler F) (u : UserRow) (db : Database F)
      → P db
      → P (rest u db).1
      → P (require permission rest u db).1
  unfolding require
  require-after permission rest u db before after =
      elim (Bool-cases (has_permission db u.role permission)) [
        | inl e ↦ rw e after
        | inr e ↦ rw e before
      ]

  pub respond-after :
      {A : Type 0} (m : Action F A) (answer : A → Response F) (db : Database F)
      → P (m db).1
      → P (respond m answer db).1
  respond-after m answer db h = elim (Result-cases (m db).0) [
    | inl (a, e) ↦ rw (e, respond) h
    | inr (x, e) ↦ rw (e, respond) h
  ]

module _ {F : Type 0} ⦃fl : Float64 F⦄ ⦃sq : Sqlite F⦄ ⦃ts : Times⦄ ⦃pc : PlusCodes F⦄
    (P : Database F → Type 0) (k : IsPreserved P) where
  pub handle_update_me-preserves :
      (q : Query) (body : Option (Option String)) (u : UserRow) (db : Database F)
      → P db
      → P (handle_update_me q body u db).1
  unfolding handle_update_me
  handle_update_me-preserves q none u db h = h
  handle_update_me-preserves q (some body) u db h =
      respond-after P (set_user_called u.id (chosen_called q body)) _ db (k.called _ _ db h)

  create_sighting-preserves :
      (b : SightingBody F) (now : Time) (u : UserRow) (db : Database F)
      → P db
      → P (create_sighting b now u db).1
  unfolding create_sighting
  create_sighting-preserves b now u db h = elim (Option-cases (rejection b)) [
    | inr (message, e) ↦ rw (create_sighting, e) h
    | inl e ↦ elim (Option-cases (observed_time b.observed_at now)) [
      | inl f ↦ rw (create_sighting, e, f) h
      | inr (observed, f) ↦
          rw (create_sighting, e, f)
            (respond-after P (insert_sighting (input_of u b observed)) _ db
              (k.sighting (input_of u b observed) db h))
    ]
  ]

  pub create_location-preserves :
      (body : Option (F × F)) (now : Time) (u : UserRow) (db : Database F)
      → P db
      → P (create_location body now u db).1
  create_location-preserves none now u db h = h
  create_location-preserves (some (lat, lon)) now u db h =
      let run =
        respond-after P (insert_canonical u.id lat lon now) (λ i. write_json 201 (created_id i)) db
          (k.canonical u.id lat lon now db h) in
      ground arith

  pub reconcile-preserves :
      (body : Option (ℤ × ℤ)) (u : UserRow) (db : Database F) → P db → P (reconcile body u db).1
  reconcile-preserves none u db h = h
  reconcile-preserves (some (s, l)) u db h =
      let (e, same, _) = insert_reconciliation_fails s l db in
      let run =
        respond-after P (insert_reconciliation s l) (λ i. write_json 201 (created_id i)) db
          (rw same h) in
      ground arith

  pub set_flags-preserves :
      (target : String) (body : Option (String × Option ℤ)) (now : Time) (u : UserRow)
      (db : Database F)
      → P db
      → P (set_flags target body now u db).1
  set_flags-preserves target none now u db h = h
  set_flags-preserves target (some (flag_type, given)) now u db h =
      let run =
        respond-after P (set_insincere u.id target (is_one (chosen_value given)) now)
          (λ _. write_json 200 (flag_value (chosen_value given))) db (k.insincere _ _ _ _ db h) in
      ground arith

  pub send_note-preserves :
      (target : String) (body : Option String) (now : Time) (u : UserRow) (db : Database F)
      → P db
      → P (send_note target body now u db).1
  send_note-preserves target none now u db h = h
  send_note-preserves target (some n) now u db h =
      let run =
        respond-after P (add_note u.id target n now) (λ _. write_json 201 nothing) db
          (k.note _ _ _ _ db h) in
      ground arith

  pub decoded_sighting-preserves :
      (body : Option (SightingBody F)) (now : Time) (u : UserRow) (db : Database F)
      → P db
      → P (decoded_sighting body now u db).1
  decoded_sighting-preserves none now u db h = h
  decoded_sighting-preserves (some b) now u db h = create_sighting-preserves b now u db h

  pub send_map-preserves :
      (q : Query) (now : Time) (u : UserRow) (db : Database F) → P db → P (send_map q now u db).1
  send_map-preserves q now u db h = elim (Option-cases (parse_bbox {F = F} q)) [
    | inl e ↦ rw (send_map, e) h
    | inr (box, e) ↦
        elim (Option-cases (
          map_data (parse_since q (fl.decimal (pos 90) 0) now) (include_insincere q)
            (include_missing q) box db)) [
              | inl f ↦ rw (send_map, e, f) h
              | inr (ms, f) ↦ rw (send_map, e, f) h
            ]
  ]

  pub send_sightings-preserves :
      (start : Horizon) (u : UserRow) (db : Database F) → P db → P (send_sightings start u db).1
  unfolding sightings_since
  send_sightings-preserves (refused message) u db h = h
  send_sightings-preserves (starts since) u db h = respond-after P (sightings_since since) _ db h

  pub send_events-preserves :
      (start : Horizon) (u : UserRow) (db : Database F) → P db → P (send_events start u db).1
  unfolding audit_events_since
  send_events-preserves (refused message) u db h = h
  send_events-preserves (starts since) u db h =
      respond-after P (audit_events_since since) (λ es. write_json 200 (event_list es)) db h

  pub send_history-preserves :
      (id : Option ℤ) (q : Query) (now : Time) (u : UserRow) (db : Database F)
      → P db
      → P (send_history id q now u db).1
  send_history-preserves none q now u db h = h
  send_history-preserves (some (negsuc n)) q now u db h = h
  send_history-preserves (some (pos i)) q now u db h =
      let since = parse_since q (fl.decimal (pos 365) 0) now in
      respond-after P (location_history i since (include_insincere q)) _ db
        (rw (location_history_unchanged i since (include_insincere q) db) h)
