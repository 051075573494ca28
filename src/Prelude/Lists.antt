-- ===== src/Prelude/Lists.antt =====
-- Lists as tables: the rows that pass a test, membership, and a table in a given order.
use Prim.Native.Nat.{ℕ, zero, suc, ◌+◌, ◌≤◌}
use mathlib.Core.Path.{◌≡◌, refl, sym, ap, ◌∙◌}
use mathlib.Core.Logic.{◌⊎◌, inl, inr}
use mathlib.Core.Bool.{Bool, true, false, ◌&&◌, ◌||◌}
use mathlib.Core.Option.{Option, none, some}
use mathlib.Core.List.{List, [], ◌∷◌, ◌++◌, map}
use native.Mathlib.Omega.{arith}
use reporting_and_mapping.Prelude.Tests.{if◌then◌else◌, Bool-cases}

module _ {ℓ} {A : Type ℓ} where
  abbrev pub length : List A → ℕ
  length [] = 0
  length (x ∷ xs) = suc (length xs)

  pub length-append : (xs ys : List A) → length (xs ++ ys) ≡ length xs + length ys
  length-append [] ys = omega arith
  length-append (x ∷ xs) ys = omega (arith, length-append xs ys)

  -- The rows that pass a WHERE clause.
  abbrev pub rows_where : (A → Bool) → List A → List A
  rows_where p [] = []
  rows_where p (x ∷ xs) = if p x then x ∷ rows_where p xs else rows_where p xs

  -- The rows that an inner join makes, where there are any.
  abbrev pub rows_from {κ} : {B : Type κ} → (A → Option B) → List A → List B
  rows_from f [] = []
  rows_from f (x ∷ xs) = let rest = rows_from f xs in elim (f x) [ none ↦ rest | some b ↦ b ∷ rest ]

  -- LIMIT n
  abbrev pub take : ℕ → List A → List A
  take zero xs = []
  take (suc n) [] = []
  take (suc n) (x ∷ xs) = x ∷ take n xs

  abbrev pub drop : ℕ → List A → List A
  drop zero xs = xs
  drop (suc n) [] = []
  drop (suc n) (x ∷ xs) = drop n xs

  pub take-drop : (n : ℕ) (xs : List A) → take n xs ++ drop n xs ≡ xs
  take-drop zero xs = refl
  take-drop (suc n) [] = refl
  take-drop (suc n) (x ∷ xs) = ap (λ l. x ∷ l) (take-drop n xs)

  pub length-take : (n : ℕ) (xs : List A) → length (take n xs) ≤ n
  length-take zero xs = omega arith
  length-take (suc n) [] = omega arith
  length-take (suc n) (x ∷ xs) = omega (arith, length-take n xs)

  -- What a limit leaves out, it leaves out only when it is reached.
  pub drop_cases : (n : ℕ) (xs : List A) → (drop n xs ≡ []) ⊎ (length (take n xs) ≡ n)
  drop_cases zero xs = inr refl
  drop_cases (suc n) [] = inl refl
  drop_cases (suc n) (x ∷ xs) = elim (drop_cases n xs) [ inl e ↦ inl e | inr e ↦ inr (ap suc e) ]

  pub length-take_all : (n : ℕ) (xs : List A) → length xs ≤ n → take n xs ≡ xs
  length-take_all zero [] h = refl
  length-take_all zero (x ∷ xs) h = absurd (omega arith)
  length-take_all (suc n) [] h = refl
  length-take_all (suc n) (x ∷ xs) h = ap (λ l. x ∷ l) (length-take_all n xs (omega arith))

  -- EXISTS (SELECT 1 FROM … WHERE …)
  abbrev pub any : (A → Bool) → List A → Bool
  any p [] = false
  any p (x ∷ xs) = p x || any p xs

  abbrev pub all : (A → Bool) → List A → Bool
  all p [] = true
  all p (x ∷ xs) = p x && all p xs

  -- The first row that passes a test.
  abbrev pub find : (A → Bool) → List A → Option A
  find p [] = none
  find p (x ∷ xs) = if p x then some x else find p xs

  -- UPDATE … WHERE …
  abbrev pub update_where : (A → Bool) → (A → A) → List A → List A
  update_where p f [] = []
  update_where p f (x ∷ xs) = (if p x then f x else x) ∷ update_where p f xs

pub data In {ℓ} {A : Type ℓ} (a : A) : List A → Type ℓ where
  here : {x : A} {xs : List A} → a ≡ x → In a (x ∷ xs)
  there : {x : A} {xs : List A} → In a xs → In a (x ∷ xs)

module _ {ℓ} {A : Type ℓ} where
  pub In-append_left : {a : A} {xs : List A} (ys : List A) → In a xs → In a (xs ++ ys)
  In-append_left ys (here e) = here e
  In-append_left ys (there h) = there (In-append_left ys h)

  pub In-append_right : {a : A} (xs : List A) {ys : List A} → In a ys → In a (xs ++ ys)
  In-append_right [] h = h
  In-append_right (x ∷ xs) h = there (In-append_right xs h)

  -- What `find` and `any` tell of the rows.
  pub find_sound :
      (p : A → Bool) (xs : List A) {a : A} → find p xs ≡ some a → (p a ≡ true) × In a xs
  find_sound p [] e = cc
  find_sound p (x ∷ xs) {a} e = elim (Bool-cases (p x)) [
    | inl t ↦ let same : x ≡ a = ground arith in (rw (← same) t, here (sym same))
    | inr t ↦ let (q, m) = find_sound p xs (rw t at e) in (q, there m)
  ]

  pub any_of_In : (p : A → Bool) {a : A} {xs : List A} → In a xs → p a ≡ true → any p xs ≡ true
  any_of_In p (here {x} {xs} e) h = ground (arith, ap p e)
  any_of_In p (there {x} {xs} m) h = ground (arith, any_of_In p m h)

  pub any-append : (p : A → Bool) (xs ys : List A) → any p (xs ++ ys) ≡ (any p xs || any p ys)
  any-append p [] ys = refl
  any-append p (x ∷ xs) ys = ground (arith, any-append p xs ys)

  pub rows_where-append :
      (p : A → Bool) (xs ys : List A) → rows_where p (xs ++ ys) ≡ rows_where p xs ++ rows_where p ys
  rows_where-append p [] ys = refl
  rows_where-append p (x ∷ xs) ys = ground (arith, rows_where-append p xs ys)

  -- A table without a row that passes has none to show.
  pub rows_where-none : (p : A → Bool) (xs : List A) → any p xs ≡ false → rows_where p xs ≡ []
  rows_where-none p [] h = refl
  rows_where-none p (x ∷ xs) h = ground (arith, rows_where-none p xs)

  pub find-none : (p : A → Bool) (xs : List A) → any p xs ≡ false → find p xs ≡ none
  find-none p [] h = refl
  find-none p (x ∷ xs) h = ground (arith, find-none p xs)

  pub any_of_find-none : (p : A → Bool) (xs : List A) → find p xs ≡ none → any p xs ≡ false
  any_of_find-none p [] e = refl
  any_of_find-none p (x ∷ xs) e = ground (arith, any_of_find-none p xs)

  pub any_of_find-some : (p : A → Bool) (xs : List A) {a : A} → find p xs ≡ some a → any p xs ≡ true
  any_of_find-some p [] e = cc
  any_of_find-some p (x ∷ xs) e = elim (Bool-cases (p x)) [
    | inl t ↦ rw t refl
    | inr t ↦ rw t (any_of_find-some p xs (rw t at e))
  ]

  pub In-rows_where :
      (p : A → Bool) (xs : List A) {a : A} → In a (rows_where p xs) → (p a ≡ true) × In a xs
  In-rows_where p [] h = elim h [ ]
  In-rows_where p (x ∷ xs) {a} h = elim (Bool-cases (p x)) [
    | inl t ↦ kept t (In-rows_where p xs) (rw t at h)
    | inr t ↦ let (q, m) = In-rows_where p xs (rw t at h) in (q, there m)
  ]
    where
      kept :
          p x ≡ true
          → (In a (rows_where p xs) → (p a ≡ true) × In a xs)
          → In a (x ∷ rows_where p xs)
          → (p a ≡ true) × In a (x ∷ xs)
      kept t ih (here e) = (rw e t, here e)
      kept t ih (there m) = let (q, n) = ih m in (q, there n)

  pub In-of_rows_where :
      (p : A → Bool) {a : A} {xs : List A} → In a xs → p a ≡ true → In a (rows_where p xs)
  In-of_rows_where p (here {x} {xs} e) h = rw (sym (ap p e) ∙ h) (here e)
  In-of_rows_where p (there {x} {xs} m) h = elim (Bool-cases (p x)) [
    | inl t ↦ rw t (there (In-of_rows_where p m h))
    | inr t ↦ rw t (In-of_rows_where p m h)
  ]

module _ {ℓ κ} {A : Type ℓ} {B : Type κ} (f : A → B) where
  pub In-map : {b : B} (xs : List A) → In b (map f xs) → (a : A) × In a xs × (f a ≡ b)
  In-map [] h = elim h [ ]
  In-map {b} (x ∷ xs) h = split h (In-map xs)
    where
      split :
          In b (f x ∷ map f xs)
          → (In b (map f xs) → (a : A) × In a xs × (f a ≡ b))
          → (a : A) × In a (x ∷ xs) × (f a ≡ b)
      split (here e) ih = (x, here refl, sym e)
      split (there m) ih = let (a, n, e) = ih m in (a, there n, e)

  -- Rows that pass are there to pick from.
  pub map-rows_where-none :
      (p : A → Bool) (xs : List A) → map f (rows_where p xs) ≡ [] → any p xs ≡ false
  map-rows_where-none p [] h = refl
  map-rows_where-none p (x ∷ xs) h = elim (Bool-cases (p x)) [
    | inl t ↦ let k = rw t at h in cc
    | inr t ↦ rw t (map-rows_where-none p xs (rw t at h))
  ]

module _ {ℓ κ} {A : Type ℓ} (P : A → Type κ) where
  abbrev pub All : List A → Type κ
  All [] = Unit
  All (x ∷ xs) = P x × All xs

  pub All-append : (xs ys : List A) → All xs → All ys → All (xs ++ ys)
  All-append [] ys h k = k
  All-append (x ∷ xs) ys (p, h) k = (p, All-append xs ys h k)

  pub All-of_In : (xs : List A) → ((a : A) → In a xs → P a) → All xs
  All-of_In [] h = tt
  All-of_In (x ∷ xs) h = (h x (here refl), All-of_In xs (λ a m. h a (there m)))

  pub All-rows_where : (p : A → Bool) (xs : List A) → All xs → All (rows_where p xs)
  All-rows_where p [] h = tt
  All-rows_where p (x ∷ xs) (q, h) = elim (Bool-cases (p x)) [
    | inl e ↦ rw e (q, All-rows_where p xs h)
    | inr e ↦ rw e (All-rows_where p xs h)
  ]

  pub All-In : {a : A} {xs : List A} → In a xs → All xs → P a
  All-In (here {x} {xs} e) h = rw e (h.0)
  All-In (there {x} {xs} m) h = All-In m (h.1)
