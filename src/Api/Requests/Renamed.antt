-- ===== src/Api/Requests/Renamed.antt =====
-- POST /api/me from the request to the database: the note that users give themselves a name by.
use reporting_and_mapping.Prelude.{
  ℕ, ◌≡◌, refl, sym, ap, ◌∙◌, true, String, Option, none, some, List, [], ◌∷◌, ◌==◌, eqb, eq_iff,
  eqb_refl, eqb_iff, find_sound, any_of_In, any, update_where, if◌then◌else◌, In, here, there, inl,
  inr, Bool-cases, Option-cases, ◌≢◌, ◌⊎◌,
}
use mathlib.Core.Option
use reporting_and_mapping.Prelude.Unique.{IsUnique}
use reporting_and_mapping.Platform.{Float64, Sqlite}
use reporting_and_mapping.Geo.{PlusCodes}
use reporting_and_mapping.Db.{Time, UserRow, Database}
use reporting_and_mapping.Db.Monad.{Action, ok}
use reporting_and_mapping.Db.Invariant.{IsValid, same_user_id}
use reporting_and_mapping.Store.Users.{user_with_opaque, set_user_called}
use reporting_and_mapping.Api.{Response, user, write_json, respond}
use reporting_and_mapping.Api.Params.{Times, Query}
use reporting_and_mapping.Api.Contribute.{chosen_called, handle_update_me}
use reporting_and_mapping.Api.Requests.{route, post_me}

-- The row with a new note, if it is the one with the id.
abbrev renamed_if : ℕ → String → UserRow → UserRow
renamed_if i called v = if eqb v.id i then record v { called = called } else v

find-renamed :
    (i : ℕ) (called o : String) (us : List UserRow)
    → user_with_opaque o (update_where (λ v. eqb v.id i) (λ v. record v { called = called }) us)
      ≡ Option.map (renamed_if i called) (user_with_opaque o us)
find-renamed i called o [] = refl
find-renamed i called o (v ∷ us) =
    let rest = find-renamed i called o us in
    elim (Bool-cases (eqb v.id i)) [
      | inl e ↦ elim (Bool-cases (v.opaque_id == o)) [
        | inl f ↦ rw (e, f, renamed_if, e) refl
        | inr f ↦ rw (e, f) rest
      ]
      | inr e ↦ elim (Bool-cases (v.opaque_id == o)) [
        | inl f ↦ rw (e, f, renamed_if, e) refl
        | inr f ↦ rw (e, f) rest
      ]
    ]

same_row :
    (us : List UserRow) {a b : UserRow}
    → IsUnique same_user_id us
    → In a us
    → In b us
    → a.id ≡ b.id
    → a ≡ b
same_row [] h m n e = elim m [ ]
same_row (u ∷ us) {a} {b} (h, hs) (here p) (here q) e = p ∙ sym q
same_row (u ∷ us) {a} {b} (h, hs) (here p) (there n) e =
    let same : eqb u.id b.id ≡ true =
      (eqb_iff u.id b.id).1 (sym (ap (λ (x : UserRow). x.id) p) ∙ e) in
    let among = any_of_In (λ (x : UserRow). eqb u.id x.id) n same in cc
same_row (u ∷ us) {a} {b} (h, hs) (there m) (here q) e =
    let same : eqb u.id a.id ≡ true =
      (eqb_iff u.id a.id).1 (sym (ap (λ (x : UserRow). x.id) q) ∙ sym e) in
    let among = any_of_In (λ (x : UserRow). eqb u.id x.id) m same in cc
same_row (u ∷ us) (h, hs) (there m) (there n) e = same_row us hs m n e

-- The user is found with the new note, and everybody else as before.
lookup_lem :
    (us : List UserRow) (u : UserRow) (called o : String)
    → IsUnique same_user_id us
    → user_with_opaque u.opaque_id us ≡ some u
    → Option.map (renamed_if u.id called) (user_with_opaque o us)
      ≡ (if u.opaque_id == o then some (record u { called = called }) else user_with_opaque o us)
lookup_lem us u called o unique found = elim (Bool-cases (u.opaque_id == o)) [
  | inl t ↦
      let at : user_with_opaque o us ≡ some u =
        ap (λ x. user_with_opaque x us) (sym ((eq_iff u.opaque_id o).0 t)) ∙ found in
      rw (t, at, renamed_if, eqb_refl u.id) refl
  | inr t ↦ elim (Option-cases (user_with_opaque o us)) [
    | inl e ↦ rw (t, e) refl
    | inr (v, e) ↦
        let (named, m) = find_sound (λ (x : UserRow). x.opaque_id == o) us e in
        let (_, n) = find_sound (λ (x : UserRow). x.opaque_id == u.opaque_id) us found in
        elim (Bool-cases (eqb v.id u.id)) [
          | inr d ↦ rw (t, e, renamed_if, d) refl
          | inl d ↦
              let is : v ≡ u = same_row us unique m n ((eqb_iff v.id u.id).0 d) in
              let k : (u.opaque_id == o) ≡ true =
                sym (ap (λ (x : UserRow). x.opaque_id == o) is) ∙ named in
              cc
        ]
  ]
]

set_user_called_lem :
    {F : Type 0} (i : ℕ) (called : String) (db : Database F)
    → any (λ (x : UserRow). eqb x.id i) db.users ≡ true
    → set_user_called i called db ≡ (
      ok tt,
      record db {
        users = update_where (λ v. eqb v.id i) (λ v. record v { called = called }) db.users;
      },
    )
unfolding set_user_called
set_user_called_lem i called db h = rw h refl

respond-ok :
    {F A : Type 0} (m : Action F A) (answer : A → Response F) (db : Database F) {a : A}
    {d : Database F}
    → m db ≡ (ok a, d)
    → respond m answer db ≡ (answer a, d)
respond-ok m answer db h = rw (respond, ap (λ x. x.0) h, ap (λ x. x.1) h) refl

-- The note is the body's, or the query's if the body has none or an empty one.
abbrev pub IsGiven : Query → Option String → String → Type 0
IsGiven q given called =
    ((given ≡ some called) × (called ≢ ""))
    ⊎ (((given ≡ none) ⊎ (given ≡ some "")) × (called ≡ q "called"))

chosen_called-IsGiven :
    (q : Query) (given : Option String) → IsGiven q given (chosen_called q given)
chosen_called-IsGiven q none = inr (inl refl, refl)
chosen_called-IsGiven q (some c) = elim (Bool-cases (c == "")) [
  | inl e ↦ inr (inr (ap some ((eq_iff c "").0 e)), rw (chosen_called, e) refl)
  | inr e ↦
      let same : chosen_called q (some c) ≡ c = rw (chosen_called, e) refl in
      inl (ap some (sym same), λ k. let f = (eq_iff c "").1 (sym same ∙ k) in cc)
]

module _ {F : Type 0} ⦃fl : Float64 F⦄ ⦃ts : Times⦄ ⦃sq : Sqlite F⦄ ⦃pc : PlusCodes F⦄ where
  -- In a valid database, a user who is there and sends a note, in a body that decodes or in the query,
  -- is answered 200 with the note, which is the body's unless that is empty or left out. Whoever is
  -- looked up afterwards is found as before, but for this user, who has the note; nothing but the users
  -- has changed.
  pub post_me_renames :
      (q : Query) (given : Option String) (now : Time) (u : UserRow) (db : Database F)
      → IsValid db
      → user_with_opaque u.opaque_id db.users ≡ some u
      → let (answer, db') = route (post_me q (some given)) now u db in
        (called : String) × IsGiven q given called
        × (answer ≡ write_json 200 (user (record u { called = called })))
        × ((o : String)
            → user_with_opaque o db'.users ≡ (
                if u.opaque_id == o
                then some (record u { called = called })
                else user_with_opaque o db.users))
        × (db' ≡ record db { users = db'.users })
  unfolding route handle_update_me
  post_me_renames q given now u db v found =
      let (_, m) = find_sound (λ (x : UserRow). x.opaque_id == u.opaque_id) db.users found in
      let known = any_of_In (λ (x : UserRow). eqb x.id u.id) m (eqb_refl u.id) in
      let c = chosen_called q given in
      let d : Database F = record db {
        users = update_where (λ x. eqb x.id u.id) (λ x. record x { called = c }) db.users;
      } in
      let e : route (post_me q (some given)) now u db
          ≡ (write_json 200 (user (record u { called = c })), d) =
        respond-ok (set_user_called u.id c) _ db (set_user_called_lem u.id c db known) in
      let after = ap (λ r. r.1) e in
      (
        c,
        chosen_called-IsGiven q given,
        ap (λ r. r.0) e,
        (λ o.
            ap (λ (x : Database F). user_with_opaque o x.users) after
            ∙ find-renamed u.id c o db.users
            ∙ lookup_lem db.users u c o v.user_ids found),
        after ∙ ap (λ (x : Database F). record db { users = x.users }) (sym after),
      )
