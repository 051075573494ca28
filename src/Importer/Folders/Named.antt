-- ===== src/Importer/Folders/Named.antt =====
-- Which words of a folder's name decide how its placemarks are reported.
use reporting_and_mapping.Prelude.{
  ◌≡◌, refl, ◌↔◌, ◌⊎◌, inl, inr, Bool, true, false, String, ◌||◌, if◌then◌else◌,
}
use reporting_and_mapping.Importer.Text.{
  Text, Unicode, codes, contains, to_lower, Occurs, contains-Occurs, contains-of_Occurs,
}
use reporting_and_mapping.Importer.Folders.{Class, exists, gone, discard, unknown, classify}

-- The name has the word in it, in lower case.
abbrev pub Says : ⦃un : Unicode⦄ → String → Text → Type 0
Says word name = Occurs (codes word) (to_lower name)

abbrev pub IsDiscarded : ⦃un : Unicode⦄ → Text → Type 0
IsDiscarded name = Says "billboard" name ⊎ Says "questionable legality" name

abbrev pub IsGone : ⦃un : Unicode⦄ → Text → Type 0
IsGone name = Says "plunder" name ⊎ Says "removed" name

contains_iff : (s sub : Text) → (contains s sub ≡ true) ↔ Occurs sub s
contains_iff s sub =
    (contains-Occurs s sub, λ o. let (pre, post, e) = o in rw e (contains-of_Occurs pre sub post))

either_iff :
    {A B : Type 0} (a b : Bool) → ((a ≡ true) ↔ A) → ((b ≡ true) ↔ B) → ((a || b) ≡ true) ↔ (A ⊎ B)
either_iff true b f g = (λ h. inl (f.0 refl), λ s. refl)
either_iff false true f g = (λ h. inr (g.0 refl), λ s. refl)
either_iff false false f g = (λ h. cc, λ s. elim s [ inl x ↦ f.1 x | inr y ↦ g.1 y ])

-- A switch of three tests.
abbrev switch : Bool → Bool → Bool → Class
switch a b c = if a then discard else if b then gone else if c then exists else unknown

switch_lem :
    {A B C : Type 0} (a b c : Bool)
    → ((a ≡ true) ↔ A)
    → ((b ≡ true) ↔ B)
    → ((c ≡ true) ↔ C)
    → ((switch a b c ≡ discard) ↔ A)
      × ((switch a b c ≡ gone) ↔ (¬ A × B))
      × ((switch a b c ≡ exists) ↔ (¬ A × ¬ B × C))
switch_lem true b c f g h = (
  (λ e. f.0 refl, λ x. refl),
  (λ e. cc, λ p. elim (p.0 (f.0 refl)) [ ]),
  (λ e. cc, λ p. elim (p.0 (f.0 refl)) [ ]),
)
switch_lem false true c f g h = (
  (λ e. cc, λ x. let k = f.1 x in cc),
  (λ e. (λ x. let k = f.1 x in cc, g.0 refl), λ p. refl),
  (λ e. cc, λ p. elim (p.1 (g.0 refl)) [ ]),
)
switch_lem false false true f g h = (
  (λ e. cc, λ x. let k = f.1 x in cc),
  (λ e. cc, λ p. let k = g.1 p.1 in cc),
  (λ e. (λ x. let k = f.1 x in cc, λ y. let k = g.1 y in cc, h.0 refl), λ p. refl),
)
switch_lem false false false f g h = (
  (λ e. cc, λ x. let k = f.1 x in cc),
  (λ e. cc, λ p. let k = g.1 p.1 in cc),
  (λ e. cc, λ p. let k = h.1 p.2 in cc),
)

-- The words that discard a folder win over those that report its signs gone, and those over the word
-- that reports them to exist.
pub classify_lem :
    ⦃un : Unicode⦄ (name : Text)
    → ((classify name ≡ discard) ↔ IsDiscarded name)
      × ((classify name ≡ gone) ↔ (¬ IsDiscarded name × IsGone name))
      × ((classify name ≡ exists) ↔ (¬ IsDiscarded name × ¬ IsGone name × Says "reported" name))
unfolding classify
classify_lem ⦃un⦄ name =
    let n = to_lower name in
    let says = λ (w : String). contains_iff n (codes w) in
    switch_lem _ _ _ (either_iff _ _ (says "billboard") (says "questionable legality"))
      (either_iff _ _ (says "plunder") (says "removed")) (says "reported")
