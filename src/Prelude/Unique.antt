-- ===== src/Prelude/Unique.antt =====
-- UNIQUE and PRIMARY KEY: no two rows of a table have the same key.
use Prim.Native.Nat.{ℕ}
use mathlib.Core.Path.{◌≡◌, refl, ◌∙◌}
use mathlib.Core.Bool.{Bool, false}
use mathlib.Core.Logic.{inl, inr}
use mathlib.Core.List.{List, [], ◌∷◌, ◌++◌, map}
use native.Mathlib.Omega.{arith}
use reporting_and_mapping.Prelude.Tests.{eqb, Bool-cases}
use reporting_and_mapping.Prelude.Lists.{All, any, any-append, update_where}

module _ {ℓ} {A : Type ℓ} where
  abbrev pub IsUnique : (A → A → Bool) → List A → Type 0
  IsUnique same [] = Unit
  IsUnique same (x ∷ xs) = (any (same x) xs ≡ false) × IsUnique same xs

module _ {ℓ} {A : Type ℓ} (same : A → A → Bool) where
  pub IsUnique-append :
      (xs : List A) (x : A)
      → IsUnique same xs
      → any (λ y. same y x) xs ≡ false
      → IsUnique same (xs ++ x ∷ [])
  IsUnique-append [] x h k = (refl, tt)
  IsUnique-append (y ∷ ys) x (h, hs) k =
      (rw (any-append (same y) ys (x ∷ [])) (ground arith), IsUnique-append ys x hs (ground arith))

  -- An update that leaves the keys alone leaves them distinct.
  module _ (f : A → A) (left : (a b : A) → same (f a) b ≡ same a b)
      (right : (a b : A) → same a (f b) ≡ same a b) where
    any-update_where :
        (p : A → Bool) (a : A) (xs : List A) → any (same a) (update_where p f xs) ≡ any (same a) xs
    any-update_where p a [] = refl
    any-update_where p a (x ∷ xs) = elim (Bool-cases (p x)) [
      | inl e ↦ rw (e, right a x, any-update_where p a xs) refl
      | inr e ↦ rw (e, any-update_where p a xs) refl
    ]

    pub IsUnique-update_where :
        (p : A → Bool) (xs : List A) → IsUnique same xs → IsUnique same (update_where p f xs)
    IsUnique-update_where p [] h = tt
    IsUnique-update_where p (x ∷ xs) (h, hs) =
        let rest = IsUnique-update_where p xs hs in
        elim (Bool-cases (p x)) [
          | inl e ↦ rw e (any-update_where p (f x) xs ∙ any_left x xs ∙ h, rest)
          | inr e ↦ rw e (any-update_where p x xs ∙ h, rest)
        ]
      where
        any_left : (x : A) (ys : List A) → any (same (f x)) ys ≡ any (same x) ys
        any_left x [] = refl
        any_left x (y ∷ ys) = rw (left x y, any_left x ys) refl

module _ {ℓ} {A : Type ℓ} (p : A → Bool) (f : A → A) (q : A → Bool) where
  -- A test that an update does not change finds the same rows after it.
  pub any-update_where_same :
      ((a : A) → q (f a) ≡ q a) → (xs : List A) → any q (update_where p f xs) ≡ any q xs
  any-update_where_same h [] = refl
  any-update_where_same h (x ∷ xs) = elim (Bool-cases (p x)) [
    | inl e ↦ rw (e, h x, any-update_where_same h xs) refl
    | inr e ↦ rw (e, any-update_where_same h xs) refl
  ]

module _ {ℓ} {A : Type ℓ} (key : A → ℕ) where
  -- A number that is not among the keys equals no row's key.
  pub any-key : (k : ℕ) (xs : List A) → any (eqb k) (map key xs) ≡ any (λ x. eqb (key x) k) xs
  any-key k [] = refl
  any-key k (x ∷ xs) = ground (arith, any-key k xs)

module _ {ℓ κ μ} {A : Type ℓ} (P : A → Type κ) (Q : A → Type μ) (f : (a : A) → P a → Q a) where
  pub All-mono : (xs : List A) → All P xs → All Q xs
  All-mono [] h = tt
  All-mono (x ∷ xs) (p, h) = (f x p, All-mono xs h)
