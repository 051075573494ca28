-- ===== src/Tests/Examples.antt =====
-- The theorems at concrete inputs.
use mathlib.Core.Path.{subst}
use reporting_and_mapping.Prelude.{
  ℕ, ◌≡◌, ◌≢◌, refl, sym, true, false, some, List, [], ◌∷◌, ◌++◌, ◌⊎◌, inl, inr, In, here, there,
  All, ◌<◌, arith,
}
use reporting_and_mapping.Prelude.Int.{pos, ◌+ℤ◌, negsuc}
use reporting_and_mapping.Prelude.Order.{IsOrdered}
use reporting_and_mapping.Platform.Fixed.{Fixed, degrees, fixed_floats, counting_rows}
use reporting_and_mapping.Identity.{opaque_user_id}
use reporting_and_mapping.Db.{UserRow, LocationRow, SightingRow}
use reporting_and_mapping.Db.Monad.{ok, err, not_found}
use reporting_and_mapping.Store.Queries.{bool_to_int}
use reporting_and_mapping.Store.Users.{resolve_user, seen, hash_seed, has_permission}
use reporting_and_mapping.Store.Users.Resolve.{IsUpserted, resolve_user-IsUpserted}
use reporting_and_mapping.Store.Users.Returning.{resolve_user-again}
use reporting_and_mapping.Store.Sightings.{insert_sighting}
use reporting_and_mapping.Store.Sightings.Recorded.{IsRecorded}
use reporting_and_mapping.Store.Sightings.Lost.{insert_sighting_lost}
use reporting_and_mapping.Store.Reconciliation.{
  has_sighting, insert_reconciliation, insert_reconciliation_fails,
}
use reporting_and_mapping.Store.Reputation.{Note, set_insincere, insincerity, add_note, list_notes}
use reporting_and_mapping.Store.Reputation.Insincerity.{
  insincerity-set_insincere, flag_in_turn, insincerity-flag_in_turn,
}
use reporting_and_mapping.Store.Reputation.Listing.{list_notes-add_note}
use reporting_and_mapping.Store.Mapping.{MapMarker, map_data, markers_order, marker}
use reporting_and_mapping.Store.Mapping.Markers.{IsShown, map_data_sound, map_data_newest}
use mathlib.Core.List.{Perm}
use reporting_and_mapping.Prelude.{rows_where, leb}
use reporting_and_mapping.Store.Lists.{ListedSighting, sightings_since, sightings_order}
use reporting_and_mapping.Store.Lists.Complete.{AreListed, sightings_since_lem}
use reporting_and_mapping.Api.{write_json, write_err, created_id}
use reporting_and_mapping.Api.Params.{clamp, clamp_bounds}
use reporting_and_mapping.Api.Contribute.{input_of, rejection}
use reporting_and_mapping.Api.Requests.{route, required, post_sighting, post_note}
use reporting_and_mapping.Api.Requests.Access.{route_refuses}
use reporting_and_mapping.Api.Requests.Report.{post_sighting_created}
use reporting_and_mapping.Tests.Data.{
  town-IsValid, toy_crypto, toy_codes, toy_times, ann, bob, corner, first_seen, seen_later, town,
  idle, unlucky, around, form,
}

post_sighting_created_example :
    let (response, db') = route (post_sighting (some (form "sighted"))) 60_000_000_000 bob town in
    (id : ℕ) × (response ≡ write_json 201 (created_id id))
    × IsRecorded (input_of bob (form "sighted") 60_000_000_000) 1 town.sightings db' id
    × (db' ≡ record town { locations = db'.locations; sightings = db'.sightings })
unfolding has_permission rejection bool_to_int
post_sighting_created_example =
    post_sighting_created (form "sighted") 60_000_000_000 60_000_000_000 bob town refl refl refl
      refl (inr (refl, refl))

route_refuses_example :
    route (post_note "ann-id" (some "rude")) 60_000_000_000 bob town
    ≡ (write_err 403 "missing permission: gossip", town)
unfolding required has_permission
route_refuses_example =
    route_refuses (post_note "ann-id" (some "rude")) 60_000_000_000 bob town "gossip" refl refl

insert_sighting_lost_example :
    let (r, db') = insert_sighting unlucky town in
    (r ≡ ok 77)
    × (db'.sightings ≡ town.sightings)
    × (l : LocationRow Fixed) × (db'.locations ≡ town.locations ++ l ∷ [])
insert_sighting_lost_example = insert_sighting_lost unlucky town refl (inl refl) refl refl refl

resolve_user-IsUpserted_example :
    (u : UserRow) × ((resolve_user idle "bob" 60_000_000_000 town).0 ≡ ok u)
    × IsUpserted "bob-id" 60_000_000_000 town (resolve_user idle "bob" 60_000_000_000 town).2 u
unfolding hash_seed opaque_user_id
resolve_user-IsUpserted_example =
    resolve_user-IsUpserted idle "bob" 60_000_000_000 town {seed = "seed"} {o = "bob-id"} refl refl

resolve_user-again_example :
    let (_, st', db') = resolve_user idle "bob" 60_000_000_000 town in
    (resolve_user st' "bob" 70_000_000_000 db').0
    ≡ ok (seen 70_000_000_000 (seen 60_000_000_000 bob))
unfolding resolve_user opaque_user_id
resolve_user-again_example = resolve_user-again idle "bob" 60_000_000_000 70_000_000_000 town refl

insert_reconciliation_fails_example :
    (e : _) × (insert_reconciliation (pos 2) (negsuc 0) town ≡ (err e, town))
    × ((e ≢ not_found) ⊎ (has_sighting (pos 2) town ≡ false))
insert_reconciliation_fails_example = insert_reconciliation_fails (pos 2) (negsuc 0) town

insincerity-set_insincere_example :
    let (r, db') = set_insincere 1 "bob-id" true 60_000_000_000 town in
    (r ≡ ok tt) × (insincerity db' 2 ≡ insincerity town 2 +ℤ pos 1)
insincerity-set_insincere_example =
    insincerity-set_insincere 1 "bob-id" true 60_000_000_000 town 2 {u = bob} refl refl

insincerity-flag_in_turn_example :
    insincerity (flag_in_turn 1 "bob-id" (true ∷ true ∷ false ∷ []) 60_000_000_000 town) 2
    ≡ insincerity town 2 +ℤ pos 1
unfolding ◌+ℤ◌
insincerity-flag_in_turn_example =
    insincerity-flag_in_turn 1 "bob-id" (true ∷ true ∷ false ∷ []) 60_000_000_000 town {u = bob}
      refl refl

list_notes-add_note_example :
    let db' = (add_note 1 "bob-id" "kind" 60_000_000_000 town).1 in
    (ns : List Note) × ((list_notes "bob-id" db').0 ≡ ok ns)
    × (n : Note) × In n ns
    × (n.note ≡ "kind")
    × (n.author_opaque_id ≡ "ann-id")
    × (n.created_at ≡ 60)
list_notes-add_note_example =
    list_notes-add_note 1 "bob-id" "kind" 60_000_000_000 town {u = bob} {a = ann} refl refl

map_data_sound_example :
    (ms : List (MapMarker Fixed)) × (map_data 25_000_000_000 false false (some around) town
      ≡ some ms)
    × IsOrdered markers_order ms
    × All (IsShown town 25 false false around) ms
map_data_sound_example = map_data_sound 25_000_000_000 false false around town

newest_lem :
    (t : SightingRow)
    → In t (first_seen ∷ seen_later ∷ [])
    → (t ≡ seen_later) ⊎ (t.observed_at < seen_later.observed_at)
newest_lem t (here e) = inr (subst (λ (s : SightingRow). s.observed_at < 40) (sym e) (omega arith))
newest_lem t (there (here e)) = inl e
newest_lem t (there (there m)) = elim m [ ]

map_data_newest_example :
    (ms : List (MapMarker Fixed)) × (map_data 25_000_000_000 false false (some around) town
      ≡ some ms)
    × In (marker corner 2 seen_later) ms
unfolding insincerity
map_data_newest_example =
    map_data_newest 25_000_000_000 false false around town corner seen_later (here refl) refl
      (there (here refl)) newest_lem refl

clamp_bounds_example :
    (fixed_floats.le
        (degrees (pos 0) 0)
        (clamp (degrees (pos 7) 0) (degrees (pos 0) 0) (degrees (pos 5) 0))
      ≡ true)
    × (fixed_floats.le
          (clamp (degrees (pos 7) 0) (degrees (pos 0) 0) (degrees (pos 5) 0))
          (degrees (pos 5) 0)
        ≡ true)
clamp_bounds_example =
    clamp_bounds (degrees (pos 7) 0) (degrees (pos 0) 0) (degrees (pos 5) 0) refl refl refl refl

sightings_since_lem_example :
    (ls : List (ListedSighting Fixed)) × (ss : List SightingRow) × (sightings_since 35_000_000_000
        town
      ≡ (ok ls, town))
    × Perm ss (rows_where (λ s. leb 35 s.observed_at) town.sightings)
    × IsOrdered sightings_order ss
    × AreListed town ls ss
sightings_since_lem_example =
    sightings_since_lem 35_000_000_000 town town-IsValid (omega arith, (omega arith, tt))
