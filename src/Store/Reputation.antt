-- ===== src/Store/Reputation.antt =====
-- internal/store/store.go: insincere flags and reputation notes, which are only ever added, and
-- the lists of them that the audit reads.
pub mod Insincerity
pub mod Listing
use reporting_and_mapping.Prelude.{
  ℕ, Bool, String, Option, none, some, List, [], ◌∷◌, ◌&&◌, ◌||◌, ◌==◌, eqb, leb, ltb, find,
  rows_where, if◌then◌else◌,
}
use reporting_and_mapping.Prelude.Int.{ℤ, pos, negsuc, ◌+ℤ◌}
use reporting_and_mapping.Prelude.Order.{order_by}
use reporting_and_mapping.Platform.{Sqlite}
use reporting_and_mapping.Db.{Time, Stamp, rfc3339, UserRow, FlagRow, NoteRow, Database}
use reporting_and_mapping.Db.Monad.{Action, pure, gets, ◌>>=◌, ◌>>◌}
use reporting_and_mapping.Db.Tables.{insert_flag, insert_note}
use reporting_and_mapping.Store.Users.{user_by_opaque}

pub record Note : Type 0 where
  pub id : ℕ
  pub author_opaque_id : String
  pub note : String
  pub created_at : Stamp

pub record UserFlag : Type 0 where
  pub id : ℕ
  pub flag_type : String
  pub value : ℤ
  pub flagged_by_opaque_id : String
  pub created_at : Stamp

module _ {F : Type 0} ⦃sq : Sqlite F⦄ where
  unfoldable pub set_insincere : ℕ → String → Bool → Time → Action F (Unit {0})
  set_insincere by target insincere now = do
    target_id ← user_by_opaque target
    insert_flag (record {
      id = 0;
      target_user_id = target_id;
      flag_type = "insincere";
      value = if insincere then pos 1 else negsuc 0;
      flagged_by = by;
      created_at = rfc3339 now;
    })
    pure tt

  unfoldable pub add_note : ℕ → String → String → Time → Action F (Unit {0})
  add_note author target note now = do
    target_id ← user_by_opaque target
    insert_note (record {
      id = 0;
      target_user_id = target_id;
      author_user_id = author;
      note = note;
      created_at = rfc3339 now;
    })
    pure tt

-- ORDER BY created_at DESC, id DESC
abbrev pub newest_first : {A : Type 0} → (A → Stamp) → (A → ℕ) → A → A → Bool
newest_first at id a b = ltb (at b) (at a) || eqb (at b) (at a) && leb (id b) (id a)

-- JOIN users a ON a.id = ?: at most one row, since users.id is the primary key.
abbrev pub user_with_id : List UserRow → ℕ → Option UserRow
user_with_id users i = find (λ u. eqb u.id i) users

abbrev pub notes_order : Note → Note → Bool
notes_order = newest_first (λ (n : Note). n.created_at) (λ (n : Note). n.id)

abbrev pub flags_order : UserFlag → UserFlag → Bool
flags_order = newest_first (λ (f : UserFlag). f.created_at) (λ (f : UserFlag). f.id)

abbrev note_of : NoteRow → UserRow → Note
note_of n a = record {
  id = n.id;
  author_opaque_id = a.opaque_id;
  note = n.note;
  created_at = n.created_at;
}

abbrev flag_of : FlagRow → UserRow → UserFlag
flag_of f a = record {
  id = f.id;
  flag_type = f.flag_type;
  value = f.value;
  flagged_by_opaque_id = a.opaque_id;
  created_at = f.created_at;
}

-- An inner join on a user id, row by row.
unfoldable pub join_user :
    {A B : Type 0} → List UserRow → (A → ℕ) → (A → UserRow → B) → List A → List B
join_user users key make [] = []
join_user users key make (r ∷ rs) =
    let rest = join_user users key make rs in
    elim (user_with_id users (key r)) [ none ↦ rest | some u ↦ make r u ∷ rest ]

module _ {F : Type 0} where
  unfoldable pub list_notes : String → Action F (List Note)
  unfolding join_user
  list_notes target = do
    target_id ← user_by_opaque target
    gets λ db. order_by notes_order (
        join_user db.users (λ (n : NoteRow). n.author_user_id) note_of
          (rows_where (λ n. eqb n.target_user_id target_id) db.reputation_notes))

  unfoldable pub list_user_flags : String → Action F (List UserFlag)
  unfolding join_user
  list_user_flags target = do
    target_id ← user_by_opaque target
    gets λ db. order_by flags_order (
        join_user db.users (λ (f : FlagRow). f.flagged_by) flag_of
          (rows_where (λ f. eqb f.target_user_id target_id) db.user_flags))

abbrev pub is_insincere_flag : ℕ → FlagRow → Bool
is_insincere_flag user f = eqb f.target_user_id user && f.flag_type == "insincere"

abbrev pub sum_of_flags : ℕ → List FlagRow → ℤ
sum_of_flags user [] = pos 0
sum_of_flags user (f ∷ fs) =
    if is_insincere_flag user f then f.value +ℤ sum_of_flags user fs else sum_of_flags user fs

-- coalesce((select sum(uf.value) from user_flags uf where uf.target_user_id = ? and
-- uf.flag_type = 'insincere'), 0)
unfoldable pub insincerity : {F : Type 0} → Database F → ℕ → ℤ
insincerity db user = sum_of_flags user db.user_flags
