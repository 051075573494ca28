-- ===== src/Store/Reputation/Listing.antt =====
-- What flags and notes leave in the database, and what the audit lists of them.
use reporting_and_mapping.Prelude.{
  ℕ, ◌≡◌, refl, sym, ap, ◌∙◌, Bool, true, false, String, some, List, [], ◌∷◌, ◌++◌, map, eqb,
  eqb_refl, eqb_iff, any_of_find-some, any_of_In, find_sound, arith, Option-cases, inl, inr, In,
  here, there, In-append_right, In-of_rows_where, rows_where,
}
use reporting_and_mapping.Prelude.Order.{IsOrdered, order_by, order_by-IsOrdered, In-order_by}
use reporting_and_mapping.Platform.{Float64, Sqlite}
use reporting_and_mapping.Db.{Time, Stamp, rfc3339, UserRow, NoteRow, Database, has_user}
use reporting_and_mapping.Db.AppendOnly.{
  Appends, >>=-Appends, IsAppended-refl, insert_flag-Appends, insert_note-Appends,
}
use reporting_and_mapping.Db.Invariant.{Keeps}
use reporting_and_mapping.Db.Invariant.Inserts.{insert_flag-Keeps, insert_note-Keeps}
use reporting_and_mapping.Db.Invariant.Rules.{Result-cases, >>=-ok, >>=-Keeps}
use reporting_and_mapping.Db.Monad.{Result, ok, pure, gets, ◌>>=◌, ◌>>◌}
use reporting_and_mapping.Db.Tables.{insert_flag, insert_note}
use reporting_and_mapping.Store.Users.{user_with_opaque, user_by_opaque}
use reporting_and_mapping.Store.Reputation.{
  Note, set_insincere, add_note, list_notes, list_user_flags, newest_first, notes_order, join_user,
  user_with_id, note_of,
}
use reporting_and_mapping.Store.Reputation.Insincerity.{flag}

abbrev note_row : ℕ → String → Time → ℕ → NoteRow
note_row author note now target = record {
  id = 0;
  target_user_id = target;
  author_user_id = author;
  note = note;
  created_at = rfc3339 now;
}

-- The order in which the lists are sent is newest first, ties by the larger id.
pub newest_first_total :
    {A : Type 0} (at : A → Stamp) (id : A → ℕ) (a b : A)
    → newest_first at id a b ≡ false
    → newest_first at id b a ≡ true
newest_first_total at id a b h = ground arith

pub newest_first_trans :
    {A : Type 0} (at : A → Stamp) (id : A → ℕ) (a b c : A)
    → newest_first at id a b ≡ true
    → newest_first at id b c ≡ true
    → newest_first at id a c ≡ true
newest_first_trans at id a b c h k = ground arith

module _ {F : Type 0} where
  pub user_by_opaque_unchanged : (o : String) (db : Database F) → (user_by_opaque o db).1 ≡ db
  unfolding user_by_opaque
  user_by_opaque_unchanged o db = ground arith

  pub list_notes_unchanged : (o : String) (db : Database F) → (list_notes o db).1 ≡ db
  unfolding list_notes
  list_notes_unchanged o db = elim (Result-cases (user_by_opaque o db).0) [
    | inl (t, e) ↦ rw (e, ◌>>=◌) (user_by_opaque_unchanged o db)
    | inr (x, e) ↦ rw (e, ◌>>=◌) (user_by_opaque_unchanged o db)
  ]

  pub list_user_flags_unchanged : (o : String) (db : Database F) → (list_user_flags o db).1 ≡ db
  unfolding list_user_flags
  list_user_flags_unchanged o db = elim (Result-cases (user_by_opaque o db).0) [
    | inl (t, e) ↦ rw (e, ◌>>=◌) (user_by_opaque_unchanged o db)
    | inr (x, e) ↦ rw (e, ◌>>=◌) (user_by_opaque_unchanged o db)
  ]

module _ {F : Type 0} ⦃fl : Float64 F⦄ ⦃sq : Sqlite F⦄ where
  pub set_insincere-Keeps :
      (by : ℕ) (o : String) (b : Bool) (now : Time) → Keeps {F = F} (set_insincere by o b now)
  unfolding set_insincere
  set_insincere-Keeps by o b now =
      >>=-Keeps (user_by_opaque o) (λ t. insert_flag (flag by t b now 0) >> pure (tt {0}))
        (λ db v. rw (user_by_opaque_unchanged o db) v)
        (λ t.
          >>=-Keeps (insert_flag (flag by t b now 0)) (λ _. pure (tt {0}))
            (insert_flag-Keeps (flag by t b now 0)) (λ a d w. w))

  pub add_note-Keeps :
      (by : ℕ) (o note : String) (now : Time) → Keeps {F = F} (add_note by o note now)
  unfolding add_note
  add_note-Keeps by o note now =
      >>=-Keeps (user_by_opaque o) (λ t. insert_note (note_row by note now t) >> pure (tt {0}))
        (λ db v. rw (user_by_opaque_unchanged o db) v)
        (λ t.
          >>=-Keeps (insert_note (note_row by note now t)) (λ _. pure (tt {0}))
            (insert_note-Keeps (note_row by note now t)) (λ a d w. w))

  pub set_insincere-Appends :
      (by : ℕ) (o : String) (b : Bool) (now : Time) → Appends {F = F} (set_insincere by o b now)
  unfolding set_insincere
  set_insincere-Appends by o b now =
      >>=-Appends (user_by_opaque o) (λ t. insert_flag (flag by t b now 0) >> pure (tt {0}))
        (λ db. rw (user_by_opaque_unchanged o db) (IsAppended-refl db))
        (λ t.
          >>=-Appends (insert_flag (flag by t b now 0)) (λ _. pure (tt {0}))
            (insert_flag-Appends (flag by t b now 0)) (λ a d. IsAppended-refl d))

  pub add_note-Appends :
      (by : ℕ) (o note : String) (now : Time) → Appends {F = F} (add_note by o note now)
  unfolding add_note
  add_note-Appends by o note now =
      >>=-Appends (user_by_opaque o) (λ t. insert_note (note_row by note now t) >> pure (tt {0}))
        (λ db. rw (user_by_opaque_unchanged o db) (IsAppended-refl db))
        (λ t.
          >>=-Appends (insert_note (note_row by note now t)) (λ _. pure (tt {0}))
            (insert_note-Appends (note_row by note now t)) (λ a d. IsAppended-refl d))

In-join_user :
    {A B : Type 0} (users : List UserRow) (key : A → ℕ) (make : A → UserRow → B) {r : A}
    {u : UserRow} {rs : List A}
    → user_with_id users (key r) ≡ some u
    → In r rs
    → In (make r u) (join_user users key make rs)
unfolding join_user
In-join_user users key make {u} e (here {x} {xs} same) =
    let at : user_with_id users (key x) ≡ some u =
      ap (λ a. user_with_id users (key a)) (sym same) ∙ e in
    rw (at, join_user) (here (ap (λ a. make a u) same))
In-join_user users key make e (there {x} {xs} m) =
    elim (Option-cases (user_with_id users (key x))) [
      | inl n ↦ rw (n, join_user) (In-join_user users key make e m)
      | inr (v, n) ↦ rw (n, join_user) (there (In-join_user users key make e m))
    ]

module _ {F : Type 0} where
  pub user_by_opaque_lem :
      (o : String) (db : Database F) {u : UserRow}
      → user_with_opaque o db.users ≡ some u
      → user_by_opaque o db ≡ (ok u.id, db)
  unfolding user_by_opaque
  user_by_opaque_lem o db e = rw (user_by_opaque, e) refl

  abbrev notes_about : ℕ → Database F → List Note
  notes_about target db = order_by notes_order (
      join_user db.users (λ (n : NoteRow). n.author_user_id) note_of
        (rows_where (λ n. eqb n.target_user_id target) db.reputation_notes))

  list_notes_runs :
      (o : String) (db : Database F) {u : UserRow}
      → user_with_opaque o db.users ≡ some u
      → list_notes o db ≡ (ok (notes_about u.id db), db)
  unfolding list_notes
  list_notes_runs o db e =
      >>=-ok (user_by_opaque o) (λ t. gets (notes_about t)) db (user_by_opaque_lem o db e)

  -- The notes about a known user are listed newest first, each note by a known author among them
  -- under its author's opaque id, and listing changes nothing.
  pub list_notes_lem :
      (o : String) (db : Database F) {u : UserRow}
      → user_with_opaque o db.users ≡ some u
      → (ns : List Note) × (list_notes o db ≡ (ok ns, db))
        × IsOrdered notes_order ns
        × ((n : NoteRow) (a : UserRow)
            → In n db.reputation_notes
            → n.target_user_id ≡ u.id
            → user_with_id db.users n.author_user_id ≡ some a
            → In (note_of n a) ns)
  list_notes_lem o db {u} e = (
    notes_about u.id db,
    list_notes_runs o db e,
    order_by-IsOrdered notes_order
        (newest_first_total (λ (n : Note). n.created_at) (λ (n : Note). n.id))
        (newest_first_trans (λ (n : Note). n.created_at) (λ (n : Note). n.id))
        (join_user db.users (λ (n : NoteRow). n.author_user_id) note_of
          (rows_where (λ n. eqb n.target_user_id u.id) db.reputation_notes)),
    λ n a m t k. In-order_by notes_order (
        In-join_user db.users (λ (n : NoteRow). n.author_user_id) note_of k
          (In-of_rows_where (λ n. eqb n.target_user_id u.id) m ((eqb_iff _ _).1 t))),
  )

module _ {F : Type 0} ⦃sq : Sqlite F⦄ where
  insert_note_lem :
      (n : NoteRow) (db : Database F)
      → has_user db n.target_user_id ≡ true
      → has_user db n.author_user_id ≡ true
      → let id = sq.fresh (map (λ (r : NoteRow). r.id) db.reputation_notes) in
        insert_note n db
        ≡ (ok id, record db { reputation_notes = db.reputation_notes ++ record n { id = id } ∷ [] })
  unfolding insert_note
  insert_note_lem n db t b = rw (t, b) refl

  add_note_runs :
      (author : ℕ) (o note : String) (now : Time) (db : Database F) {u : UserRow}
      → user_with_opaque o db.users ≡ some u
      → has_user db author ≡ true
      → let id = sq.fresh (map (λ (r : NoteRow). r.id) db.reputation_notes) in
        add_note author o note now db ≡ (
          ok tt,
          record db {
            reputation_notes =
                db.reputation_notes ++ record (note_row author note now u.id) { id = id } ∷ [];
          },
        )
  unfolding add_note
  add_note_runs author o note now db {u} e b =
      let known : has_user db u.id ≡ true =
        any_of_In (λ (v : UserRow). eqb v.id u.id) (find_sound _ db.users e).1 (eqb_refl u.id) in
      >>=-ok (user_by_opaque o) (λ t. insert_note (note_row author note now t) >> pure (tt {0})) db
        (user_by_opaque_lem o db e)
      ∙ >>=-ok (insert_note (note_row author note now u.id)) (λ _. pure (tt {0})) db
          (insert_note_lem (note_row author note now u.id) db known b)

  -- A note that a known author adds about a known user is among the notes that are listed about
  -- that user afterwards, with its text, its author's opaque id and its time.
  pub list_notes-add_note :
      (author : ℕ) (o note : String) (now : Time) (db : Database F) {u a : UserRow}
      → user_with_opaque o db.users ≡ some u
      → user_with_id db.users author ≡ some a
      → let db' = (add_note author o note now db).1 in
        (ns : List Note) × ((list_notes o db').0 ≡ ok ns)
        × (n : Note) × In n ns
        × (n.note ≡ note)
        × (n.author_opaque_id ≡ a.opaque_id)
        × (n.created_at ≡ rfc3339 now)
  list_notes-add_note author o note now db {u} {a} e k =
      let id : ℕ = sq.fresh (map (λ (r : NoteRow). r.id) db.reputation_notes) in
      let row : NoteRow = record (note_row author note now u.id) { id = id } in
      let next : Database F = record db { reputation_notes = db.reputation_notes ++ row ∷ [] } in
      let (ns, listed, ordered, complete) = list_notes_lem o next e in
      rw (add_note_runs author o note now db e (any_of_find-some _ db.users k)) (
        ns,
        ap (λ (p : Result (List Note) × Database F). p.0) listed,
        note_of row a,
        complete row a (In-append_right db.reputation_notes (here refl)) refl k,
        refl,
        refl,
        refl,
      )
