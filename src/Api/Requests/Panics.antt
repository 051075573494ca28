-- ===== src/Api/Requests/Panics.antt =====
-- No endpoint panics once its user is known.
use reporting_and_mapping.Prelude.{
  ◌≡◌, ◌≢◌, refl, false, String, Option, none, some, Bool-cases, Option-cases, inl, inr, arith,
}
use reporting_and_mapping.Prelude.Int.{ℤ, pos, negsuc}
use reporting_and_mapping.Platform.{Float64, Sqlite}
use reporting_and_mapping.Geo.{PlusCodes}
use reporting_and_mapping.Db.{Time, UserRow, Database}
use reporting_and_mapping.Db.Monad.{Action, StoreError, not_found, failure}
use reporting_and_mapping.Db.Invariant.Rules.{Result-cases}
use reporting_and_mapping.Store.Users.{has_permission, set_user_called}
use reporting_and_mapping.Store.Sightings.{insert_sighting, insert_canonical}
use reporting_and_mapping.Store.Reconciliation.{insert_reconciliation}
use reporting_and_mapping.Store.Reputation.{set_insincere, add_note, list_notes, list_user_flags}
use reporting_and_mapping.Store.Mapping.{map_data}
use reporting_and_mapping.Store.Lists.{sightings_by_opaque_user, sightings_since}
use reporting_and_mapping.Store.Events.{audit_events_since}
use reporting_and_mapping.Store.History.{location_history}
use reporting_and_mapping.Api.{
  Handler, Response, is_panic, map_store_err, require, respond, created_id, write_json, flag_value,
  nothing,
}
use reporting_and_mapping.Api.Params.{Times, Query, parse_bbox, parse_since, include_insincere}
use reporting_and_mapping.Api.Contribute.{
  SightingBody, chosen_called, observed_time, rejection, input_of, create_sighting, create_location,
  reconcile, send_map, handle_update_me, decoded_sighting, handle_me, handle_create_sighting,
  handle_create_location, handle_reconcile, handle_map,
}
use reporting_and_mapping.Api.Review.{
  Horizon, starts, refused, send_sightings, send_events, send_history, horizon,
  handle_list_sightings, handle_audit_sightings, handle_list_events, handle_location_history,
}
use reporting_and_mapping.Api.Moderate.{
  set_flags, send_note, is_one, chosen_value, chosen_flag, handle_flag_insincere, handle_set_flags,
  handle_add_note, handle_list_notes, handle_list_flags,
}
use reporting_and_mapping.Api.Requests.{
  Request, route, get_me, post_me, post_sighting, post_location, post_reconciliation, get_map,
  get_flags, post_flags, post_insincere, post_note, get_notes, get_ping, get_sightings,
  get_user_sightings, get_events, get_history,
}

-- The handler sends a response.
abbrev Answers : {F : Type 0} → Response F × Database F → Type 0
Answers sent = is_panic (sent.0).body ≡ false

map_store_err-is_panic :
    (F : Type 0) (e : StoreError) → is_panic (map_store_err {F = F} e).body ≡ false
unfolding map_store_err
map_store_err-is_panic F not_found = refl
map_store_err-is_panic F (failure m) = refl

module _ {F : Type 0} where
  require-Answers :
      (permission : String) (rest : Handler F) (u : UserRow) (db : Database F)
      → Answers (rest u db)
      → Answers (require permission rest u db)
  unfolding require
  require-Answers permission rest u db h = elim (Bool-cases (has_permission db u.role permission)) [
    | inl e ↦ rw e h
    | inr e ↦ rw e refl
  ]

  respond-Answers :
      {A : Type 0} (m : Action F A) (answer : A → Response F) (db : Database F)
      → ((a : A) → is_panic (answer a).body ≡ false)
      → Answers (respond m answer db)
  respond-Answers m answer db h = elim (Result-cases (m db).0) [
    | inl (a, e) ↦ rw (respond, e) (h a)
    | inr (x, e) ↦ rw (respond, e) (map_store_err-is_panic F x)
  ]

  handle_update_me-Answers :
      (q : Query) (body : Option (Option String)) (u : UserRow) (db : Database F)
      → Answers (handle_update_me q body u db)
  unfolding handle_update_me
  handle_update_me-Answers q none u db = refl
  handle_update_me-Answers q (some body) u db =
      respond-Answers (set_user_called u.id (chosen_called q body)) _ db (λ _. refl)

module _ {F : Type 0} ⦃sq : Sqlite F⦄ where
  set_flags-Answers :
      (target : String) (body : Option (String × Option ℤ)) (now : Time) (u : UserRow)
      (db : Database F)
      → Answers (set_flags target body now u db)
  set_flags-Answers target none now u db = refl
  set_flags-Answers target (some (flag_type, given)) now u db =
      let run =
        respond-Answers (set_insincere u.id target (is_one (chosen_value given)) now)
          (λ _. write_json 200 (flag_value (chosen_value given))) db (λ _. refl) in
      ground arith

  send_note-Answers :
      (target : String) (body : Option String) (now : Time) (u : UserRow) (db : Database F)
      → Answers (send_note target body now u db)
  send_note-Answers target none now u db = refl
  send_note-Answers target (some n) now u db =
      let run =
        respond-Answers (add_note u.id target n now) (λ _. write_json 201 nothing) db (λ _. refl) in
      ground arith

module _ {F : Type 0} ⦃fl : Float64 F⦄ ⦃ts : Times⦄ ⦃sq : Sqlite F⦄ where
  reconcile-Answers :
      (body : Option (ℤ × ℤ)) (u : UserRow) (db : Database F) → Answers (reconcile body u db)
  reconcile-Answers none u db = refl
  reconcile-Answers (some (s, l)) u db =
      let run =
        respond-Answers (insert_reconciliation s l) (λ i. write_json 201 (created_id i)) db
          (λ _. refl) in
      ground arith

  create_sighting-Answers :
      (b : SightingBody F) (now : Time) (u : UserRow) (db : Database F)
      → Answers (create_sighting b now u db)
  unfolding create_sighting
  create_sighting-Answers b now u db = elim (Option-cases (rejection b)) [
    | inr (message, e) ↦ rw (create_sighting, e) refl
    | inl e ↦ elim (Option-cases (observed_time b.observed_at now)) [
      | inl f ↦ rw (create_sighting, e, f) refl
      | inr (observed, f) ↦
          rw (create_sighting, e, f)
            (respond-Answers (insert_sighting (input_of u b observed)) _ db (λ _. refl))
    ]
  ]

  decoded_sighting-Answers :
      (body : Option (SightingBody F)) (now : Time) (u : UserRow) (db : Database F)
      → Answers (decoded_sighting body now u db)
  decoded_sighting-Answers none now u db = refl
  decoded_sighting-Answers (some b) now u db = create_sighting-Answers b now u db

  create_location-Answers :
      (body : Option (F × F)) (now : Time) (u : UserRow) (db : Database F)
      → Answers (create_location body now u db)
  create_location-Answers none now u db = refl
  create_location-Answers (some (lat, lon)) now u db =
      let run =
        respond-Answers (insert_canonical u.id lat lon now) (λ i. write_json 201 (created_id i)) db
          (λ _. refl) in
      ground arith

module _ {F : Type 0} ⦃fl : Float64 F⦄ ⦃ts : Times⦄ ⦃sq : Sqlite F⦄ ⦃pc : PlusCodes F⦄ where
  -- The box that MapData gets is never nil.
  parse_bbox_lem : (q : Query) → parse_bbox {F = F} q ≢ some none
  unfolding parse_bbox
  parse_bbox_lem q h = ground arith

  send_map-Answers :
      (q : Query) (now : Time) (u : UserRow) (db : Database F) → Answers (send_map q now u db)
  unfolding map_data
  send_map-Answers q now u db = elim (Option-cases (parse_bbox {F = F} q)) [
    | inl e ↦ rw (send_map, e) (map_store_err-is_panic F (failure "invalid bounding box"))
    | inr (none, e) ↦ absurd (parse_bbox_lem q e)
    | inr (some box, e) ↦ rw (send_map, e) refl
  ]

  send_sightings-Answers :
      (start : Horizon) (u : UserRow) (db : Database F) → Answers (send_sightings start u db)
  send_sightings-Answers (refused message) u db = refl
  send_sightings-Answers (starts since) u db =
      respond-Answers (sightings_since since) _ db (λ _. refl)

  send_events-Answers :
      (start : Horizon) (u : UserRow) (db : Database F) → Answers (send_events start u db)
  send_events-Answers (refused message) u db = refl
  send_events-Answers (starts since) u db =
      respond-Answers (audit_events_since since) _ db (λ _. refl)

  send_history-Answers :
      (id : Option ℤ) (q : Query) (now : Time) (u : UserRow) (db : Database F)
      → Answers (send_history id q now u db)
  send_history-Answers none q now u db = refl
  send_history-Answers (some (negsuc n)) q now u db =
      map_store_err-is_panic F (failure "converting NULL to int64 is unsupported")
  send_history-Answers (some (pos i)) q now u db =
      respond-Answers
        (location_history i (parse_since q (fl.decimal (pos 365) 0) now) (include_insincere q)) _ db
        (λ _. refl)

  -- Every endpoint sends a response to a user who is known.
  pub route-Answers :
      (r : Request F) (now : Time) (u : UserRow) (db : Database F) → Answers (route r now u db)
  unfolding route handle_list_events handle_location_history handle_list_sightings
      handle_audit_sightings handle_me handle_create_sighting handle_create_location
      handle_reconcile handle_map handle_list_flags handle_set_flags handle_flag_insincere
      handle_add_note handle_list_notes
  route-Answers get_me now u db = refl
  route-Answers (post_me q body) now u db = handle_update_me-Answers q body u db
  route-Answers (post_sighting body) now u db =
      require-Answers _ _ u db (decoded_sighting-Answers body now u db)
  route-Answers (post_location body) now u db =
      require-Answers _ _ u db (create_location-Answers body now u db)
  route-Answers (post_reconciliation body) now u db =
      require-Answers _ _ u db (reconcile-Answers body u db)
  route-Answers (get_map q) now u db = require-Answers _ _ u db (send_map-Answers q now u db)
  route-Answers (get_flags target) now u db =
      require-Answers _ _ u db (respond-Answers (list_user_flags target) _ db (λ _. refl))
  route-Answers (post_flags target body) now u db =
      require-Answers _ _ u db (set_flags-Answers target body now u db)
  route-Answers (post_insincere target body) now u db =
      require-Answers _ _ u db
        (respond-Answers (set_insincere u.id target (chosen_flag body) now) _ db (λ _. refl))
  route-Answers (post_note target body) now u db =
      require-Answers _ _ u db (send_note-Answers target body now u db)
  route-Answers (get_notes target) now u db =
      require-Answers _ _ u db (respond-Answers (list_notes target) _ db (λ _. refl))
  route-Answers get_ping now u db = refl
  route-Answers (get_sightings q) now u db =
      require-Answers _ _ u db (send_sightings-Answers (horizon F q now) u db)
  route-Answers (get_user_sightings target) now u db =
      require-Answers _ _ u db (respond-Answers (sightings_by_opaque_user target) _ db (λ _. refl))
  route-Answers (get_events q) now u db =
      require-Answers _ _ u db (send_events-Answers (horizon F q now) u db)
  route-Answers (get_history id q) now u db =
      require-Answers _ _ u db (send_history-Answers id q now u db)
