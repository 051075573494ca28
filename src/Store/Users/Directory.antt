-- ===== src/Store/Users/Directory.antt =====
-- The user table seen from outside: a directory of profiles by opaque id, without the internal ids
-- and the order of the rows. The table's operations refine those of the directory.
use mathlib.Core.Option
use reporting_and_mapping.Prelude.{
  ◌≡◌, refl, ap, ◌∙◌, String, Bool, true, false, Option, none, some, List, [], ◌∷◌, ◌==◌, eq_iff,
  Option-cases, Bool-cases, inl, inr, if◌then◌else◌, any_of_find-none, any_of_find-some,
  update_where,
}
use reporting_and_mapping.Platform.{Sqlite}
use reporting_and_mapping.Db.{Time, Stamp, rfc3339, UserRow, Database}
use reporting_and_mapping.Db.Monad.{StoreError, Result, ok, err, not_found}
use reporting_and_mapping.Store.Users.{user_with_opaque, upsert_user, set_user_role}
use reporting_and_mapping.Store.Users.Resolve.{IsFrom, upsert_user-IsUpserted, find-update_opaque}

-- What json.Encode shows of a user, but for the id.
pub record Profile : Type 0 where
  pub role : String
  pub registered_at : Stamp
  pub last_seen_at : Stamp
  pub called : String

abbrev pub Directory : Type 0
Directory = String → Option Profile

-- ResolveUser of a subject with this opaque id, and SetUserRole.
pub data Command : Type 0 where
  arrive : String → Time → Command
  assign : String → String → Command

pub data Answer : Type 0 where
  profile : Profile → Answer
  done : Answer
  refused : StoreError → Answer

-- The specification.
abbrev pub update : Directory → String → Profile → Directory
update d o a p = if o == p then some a else d p

abbrev pub arrived : Time → Option Profile → Profile
arrived now none = record {
  role = "reporter";
  registered_at = rfc3339 now;
  last_seen_at = rfc3339 now;
  called = "";
}
arrived now (some a) = record a { last_seen_at = rfc3339 now }

abbrev pub assigned : Directory → String → String → Option Profile → Answer × Directory
assigned d o role none = (refused not_found, d)
assigned d o role (some a) = (done, update d o (record a { role = role }))

abbrev pub promise : Command → Directory → Answer × Directory
promise (arrive o now) d = (profile (arrived now (d o)), update d o (arrived now (d o)))
promise (assign o role) d = assigned d o role (d o)

pub promises : List Command → Directory → List Answer × Directory
promises [] d = ([], d)
promises (c ∷ cs) d =
    let (a, d') = promise c d in let (rest, d'') = promises cs d' in (a ∷ rest, d'')

-- The code.
abbrev pub view : UserRow → Profile
view u = record {
  role = u.role;
  registered_at = u.registered_at;
  last_seen_at = u.last_seen_at;
  called = u.called;
}

abbrev pub directory : {F : Type 0} → Database F → Directory
directory db p = Option.map view (user_with_opaque p db.users)

abbrev pub profile_answer : Result UserRow → Answer
profile_answer (ok u) = profile (view u)
profile_answer (err e) = refused e

abbrev pub done_answer : Result (Unit {0}) → Answer
done_answer (ok t) = done
done_answer (err e) = refused e

module _ {F : Type 0} ⦃sq : Sqlite F⦄ where
  pub execute : Command → Database F → Answer × Database F
  execute (arrive o now) db = let (r, db') = upsert_user o now db in (profile_answer r, db')
  execute (assign o role) db = let (r, db') = set_user_role o role db in (done_answer r, db')

  pub executes : List Command → Database F → List Answer × Database F
  executes [] db = ([], db)
  executes (c ∷ cs) db =
      let (a, db') = execute c db in let (rest, db'') = executes cs db' in (a ∷ rest, db'')

view_lem :
    (now : Time) (t : Option UserRow) (u : UserRow)
    → IsFrom now t u
    → u.last_seen_at ≡ rfc3339 now
    → view u ≡ arrived now (Option.map view t)
view_lem now none u (r, g, c) h =
    λ i. record { role = r i; registered_at = g i; last_seen_at = h i; called = c i }
view_lem now (some v) u e h = ap view e

map-if :
    (b : Bool) (u : UserRow) (t : Option UserRow)
    → Option.map view (if b then some u else t) ≡ (if b then some (view u) else Option.map view t)
map-if true u t = refl
map-if false u t = refl

module _ {F : Type 0} ⦃sq : Sqlite F⦄ where
  arrive_lem :
      (o : String) (now : Time) (db : Database F)
      → ((execute (arrive o now) db).0 ≡ (promise (arrive o now) (directory db)).0)
        × (directory (execute (arrive o now) db).1 ≡ (promise (arrive o now) (directory db)).1)
  unfolding execute
  arrive_lem o now db =
      let (u, r, is) = upsert_user-IsUpserted o now db in
      let same : view u ≡ arrived now (directory db o) =
        view_lem now (user_with_opaque o db.users) u is.origin is.heartbeat in
      (
        ap profile_answer r ∙ ap profile same,
        λ i p.
            (ap (Option.map view) (is.lookup p)
                ∙ map-if (o == p) u (user_with_opaque p db.users)
                ∙ ap (λ a. update (directory db) o a p) same)
              i,
      )

  assign_lem :
      (o role : String) (db : Database F)
      → ((execute (assign o role) db).0 ≡ (promise (assign o role) (directory db)).0)
        × (directory (execute (assign o role) db).1 ≡ (promise (assign o role) (directory db)).1)
  unfolding execute set_user_role
  assign_lem o role db = elim (Option-cases (user_with_opaque o db.users)) [
    | inl e ↦ rw (any_of_find-none _ db.users e, e) (refl, refl)
    | inr (u, e) ↦ rw (any_of_find-some _ db.users e, e) (refl, λ i p. (moved p u e) i)
  ]
    where
      moved :
          (p : String) (u : UserRow)
          → user_with_opaque o db.users ≡ some u
          → Option.map view (
              user_with_opaque p
                (update_where (λ v. v.opaque_id == o) (λ v. record v { role = role }) db.users))
            ≡ update (directory db) o (record (view u) { role = role }) p
      moved p u e =
          ap (Option.map view)
            (find-update_opaque o p (λ v. record v { role = role }) db.users (λ v. refl))
          ∙ elim (Bool-cases (o == p)) [
            | inr t ↦ rw t refl
            | inl t ↦ rw (t, ← (eq_iff o p).0 t, e) refl
          ]

  -- Any sequence of arrivals and assignments gets the answers that the directory promises, and ends
  -- in a table that reads as the directory does: neither the ids nor the order of the rows matter.
  pub executes_refines :
      (cs : List Command) (db : Database F)
      → ((executes cs db).0 ≡ (promises cs (directory db)).0)
        × (directory (executes cs db).1 ≡ (promises cs (directory db)).1)
  unfolding executes promises
  executes_refines [] db = (refl, refl)
  executes_refines (arrive o now ∷ cs) db =
      let (a, d) = arrive_lem o now db in
      let (as_before, after) = executes_refines cs (execute (arrive o now) db).1 in
      (
        λ i. a i ∷ (as_before ∙ ap (λ d. (promises cs d).0) d) i,
        after ∙ ap (λ d. (promises cs d).1) d,
      )
  executes_refines (assign o role ∷ cs) db =
      let (a, d) = assign_lem o role db in
      let (as_before, after) = executes_refines cs (execute (assign o role) db).1 in
      (
        λ i. a i ∷ (as_before ∙ ap (λ d. (promises cs d).0) d) i,
        after ∙ ap (λ d. (promises cs d).1) d,
      )
