-- ===== src/Prelude/Order.antt =====
-- ORDER BY: a table's rows in a given order, each as often as before.
use Prim.Native.Nat.{ℕ, zero, suc}
use mathlib.Core.Path.{◌≡◌}
use mathlib.Core.Logic.{inl, inr}
use mathlib.Core.Bool.{Bool, true, false}
use mathlib.Core.List.{List, [], ◌∷◌}
use mathlib.Core.List.{Perm}
use mathlib.Core.List.Perm
use reporting_and_mapping.Prelude.Tests.{if◌then◌else◌, Bool-cases}
use reporting_and_mapping.Prelude.Lists.{All, In, here, there, take, drop}

module _ {ℓ} {A : Type ℓ} where
  abbrev pub insert_by : (A → A → Bool) → A → List A → List A
  insert_by before x [] = x ∷ []
  insert_by before x (y ∷ ys) =
      let later = insert_by before x ys in if before x y then x ∷ y ∷ ys else y ∷ later

  unfoldable pub order_by : (A → A → Bool) → List A → List A
  order_by before [] = []
  order_by before (x ∷ xs) = insert_by before x (order_by before xs)

  abbrev pub IsOrdered : (A → A → Bool) → List A → Type ℓ
  IsOrdered before [] = Unit
  IsOrdered before (x ∷ xs) = All (λ y. before x y ≡ true) xs × IsOrdered before xs

module _ {ℓ} {A : Type ℓ} (before : A → A → Bool) where
  insert_by-perm : (x : A) (xs : List A) → Perm (insert_by before x xs) (x ∷ xs)
  insert_by-perm x [] = Perm.refl _
  insert_by-perm x (y ∷ ys) = elim (Bool-cases (before x y)) [
    | inl e ↦ rw e (Perm.refl _)
    | inr e ↦ rw e (Perm.trans (Perm.cons y (insert_by-perm x ys)) (Perm.swap x y ys))
  ]

  pub order_by-perm : (xs : List A) → Perm (order_by before xs) xs
  unfolding order_by
  order_by-perm [] = Perm.refl _
  order_by-perm (x ∷ xs) =
      Perm.trans (insert_by-perm x (order_by before xs)) (Perm.cons x (order_by-perm xs))

  insert_by-All {κ} :
      (P : A → Type κ) (x : A) (xs : List A) → P x → All P xs → All P (insert_by before x xs)
  insert_by-All P x [] p h = (p, tt)
  insert_by-All P x (y ∷ ys) p (q, h) = elim (Bool-cases (before x y)) [
    | inl e ↦ rw e (p, (q, h))
    | inr e ↦ rw e (q, insert_by-All P x ys p h)
  ]

  pub order_by-All {κ} : (P : A → Type κ) (xs : List A) → All P xs → All P (order_by before xs)
  unfolding order_by
  order_by-All P [] h = tt
  order_by-All P (x ∷ xs) (p, h) = insert_by-All P x _ p (order_by-All P xs h)

  In-insert_by : (x : A) {a : A} (xs : List A) → In a (x ∷ xs) → In a (insert_by before x xs)
  In-insert_by x [] h = h
  In-insert_by x {a} (y ∷ ys) h = elim (Bool-cases (before x y)) [
    | inl e ↦ rw e h
    | inr e ↦ rw e (later h (In-insert_by x ys))
  ]
    where
      later :
          In a (x ∷ y ∷ ys)
          → (In a (x ∷ ys) → In a (insert_by before x ys))
          → In a (y ∷ insert_by before x ys)
      later (here e) ih = there (ih (here e))
      later (there (here e)) ih = here e
      later (there (there m)) ih = there (ih (there m))

  pub In-order_by : {a : A} {xs : List A} → In a xs → In a (order_by before xs)
  unfolding order_by
  In-order_by (here {x} {xs} e) = In-insert_by x (order_by before xs) (here e)
  In-order_by (there {x} {xs} m) = In-insert_by x (order_by before xs) (there (In-order_by m))

  In-of_insert_by : (x : A) {a : A} (xs : List A) → In a (insert_by before x xs) → In a (x ∷ xs)
  In-of_insert_by x [] h = h
  In-of_insert_by x {a} (y ∷ ys) h = elim (Bool-cases (before x y)) [
    | inl e ↦ rw e at h
    | inr e ↦ later (rw e at h) (In-of_insert_by x ys)
  ]
    where
      later :
          In a (y ∷ insert_by before x ys)
          → (In a (insert_by before x ys) → In a (x ∷ ys))
          → In a (x ∷ y ∷ ys)
      later (here e) ih = there (here e)
      later (there m) ih = past (ih m)
        where
          past : In a (x ∷ ys) → In a (x ∷ y ∷ ys)
          past (here e) = here e
          past (there n) = there (there n)

  pub In-of_order_by : {a : A} (xs : List A) → In a (order_by before xs) → In a xs
  unfolding order_by
  In-of_order_by [] h = h
  In-of_order_by {a} (x ∷ xs) h =
      back (In-of_insert_by x (order_by before xs) h) (In-of_order_by xs)
    where
      back : In a (x ∷ order_by before xs) → (In a (order_by before xs) → In a xs) → In a (x ∷ xs)
      back (here e) ih = here e
      back (there m) ih = there (ih m)

  module _ (total : (x y : A) → before x y ≡ false → before y x ≡ true)
      (trans : (x y z : A) → before x y ≡ true → before y z ≡ true → before x z ≡ true) where
    All-trans :
        (x y : A) (zs : List A)
        → before x y ≡ true
        → All (λ z. before y z ≡ true) zs
        → All (λ z. before x z ≡ true) zs
    All-trans x y [] e h = tt
    All-trans x y (z ∷ zs) e (p, h) = (trans x y z e p, All-trans x y zs e h)

    insert_by-IsOrdered :
        (x : A) (xs : List A) → IsOrdered before xs → IsOrdered before (insert_by before x xs)
    insert_by-IsOrdered x [] h = (tt, tt)
    insert_by-IsOrdered x (y ∷ ys) (below, h) = elim (Bool-cases (before x y)) [
      | inl e ↦ rw e ((e, All-trans x y ys e below), (below, h))
      | inr e ↦ rw e (
        insert_by-All (λ z. before y z ≡ true) x ys (total x y e) below,
        insert_by-IsOrdered x ys h,
      )
    ]

    -- A total order that is transitive leaves the rows in that order.
    pub order_by-IsOrdered : (xs : List A) → IsOrdered before (order_by before xs)
    unfolding order_by
    order_by-IsOrdered [] = tt
    order_by-IsOrdered (x ∷ xs) = insert_by-IsOrdered x (order_by before xs) (order_by-IsOrdered xs)

module _ {ℓ κ} {A : Type ℓ} (P : A → Type κ) where
  All-take : (n : ℕ) (xs : List A) → All P xs → All P (take n xs)
  All-take zero xs h = tt
  All-take (suc n) [] h = tt
  All-take (suc n) (x ∷ xs) (p, h) = (p, All-take n xs h)

  All-drop : (n : ℕ) (xs : List A) → All P xs → All P (drop n xs)
  All-drop zero xs h = h
  All-drop (suc n) [] h = tt
  All-drop (suc n) (x ∷ xs) (p, h) = All-drop n xs h

module _ {ℓ} {A : Type ℓ} (before : A → A → Bool) where
  -- The rows that LIMIT keeps come before those that it drops.
  pub IsOrdered-take : (n : ℕ) (xs : List A) → IsOrdered before xs → IsOrdered before (take n xs)
  IsOrdered-take zero xs h = tt
  IsOrdered-take (suc n) [] h = tt
  IsOrdered-take (suc n) (x ∷ xs) (below, h) =
      (All-take (λ y. before x y ≡ true) n xs below, IsOrdered-take n xs h)

  pub IsOrdered-drop :
      (n : ℕ) (xs : List A)
      → IsOrdered before xs
      → All (λ r. All (λ e. before e r ≡ true) (take n xs)) (drop n xs)
  IsOrdered-drop zero xs h = none_before xs
    where
      none_before : (ys : List A) → All (λ r. All (λ e. before e r ≡ true) []) ys
      none_before [] = tt
      none_before (y ∷ ys) = (tt, none_before ys)
  IsOrdered-drop (suc n) [] h = tt
  IsOrdered-drop (suc n) (x ∷ xs) (below, h) =
      both (take n xs) (drop n xs) (All-drop (λ y. before x y ≡ true) n xs below)
        (IsOrdered-drop n xs h)
    where
      both :
          (es rs : List A)
          → All (λ y. before x y ≡ true) rs
          → All (λ r. All (λ e. before e r ≡ true) es) rs
          → All (λ r. All (λ e. before e r ≡ true) (x ∷ es)) rs
      both es [] p q = tt
      both es (r ∷ rs) (p, ps) (q, qs) = ((p, q), both es rs ps qs)
