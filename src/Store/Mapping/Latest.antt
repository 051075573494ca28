-- ===== src/Store/Mapping/Latest.antt =====
-- The row that a group shows is one of its latest.
use reporting_and_mapping.Prelude.{
  ◌≡◌, ◌≤◌, ◌<◌, ◌⊎◌, refl, sym, ap, ◌∙◌, true, false, none, some, List, [], ◌∷◌, eqb, eqb_iff,
  arith, In, All, All-In, In-map, In-rows_where, any, any_of_In, find, find_sound, rows_where,
  map-rows_where-none, any_of_find-none, Option-cases, inl, inr,
}
use mathlib.Core.Path.{subst}
use mathlib.Core.Option.{some-injective}
use reporting_and_mapping.Prelude.Unique.{All-mono}
use reporting_and_mapping.Platform.{Sqlite}
use reporting_and_mapping.Db.{Stamp, SightingRow}
use reporting_and_mapping.Store.Mapping.{latest_stamp, latest, sighting_ids}

abbrev pub AreNoLater : Stamp → List SightingRow → Type 0
AreNoLater t = All (λ s. s.observed_at ≤ t)

latest_stamp_bound : (ss : List SightingRow) → AreNoLater (latest_stamp ss) ss
unfolding latest_stamp
latest_stamp_bound [] = tt
latest_stamp_bound (s ∷ ss) = (
  ground arith,
  All-mono (λ r. r.observed_at ≤ latest_stamp ss) _ (λ r h. ground arith) ss
      (latest_stamp_bound ss),
)

latest_stamp_attained :
    (s : SightingRow) (ss : List SightingRow)
    → any (λ r. eqb r.observed_at (latest_stamp (s ∷ ss))) (s ∷ ss) ≡ true
unfolding latest_stamp
latest_stamp_attained s [] = ground arith
latest_stamp_attained s (t ∷ ss) = ground (arith, latest_stamp_attained t ss)

module _ (F : Type 0) ⦃sq : Sqlite F⦄ where
  pub latest_lem :
      (s : SightingRow) (ss : List SightingRow)
      → (r : SightingRow) × (latest F (s ∷ ss) ≡ some r)
        × In r (s ∷ ss)
        × AreNoLater r.observed_at (s ∷ ss)
  unfolding latest
  latest_lem s ss =
      let all = s ∷ ss in
      let greatest = rows_where (λ r. eqb r.observed_at (latest_stamp all)) all in
      elim (Option-cases (sq.any_of (sighting_ids greatest))) [
        | inl e ↦
            let empty =
              map-rows_where-none (λ (r : SightingRow). r.id)
                (λ r. eqb r.observed_at (latest_stamp all)) all (sq.any_of-none _ e) in
            let full = latest_stamp_attained s ss in let bad : true ≡ false = sym full ∙ empty in cc
        | inr (i, e) ↦
            let (m, among, same) = In-map (λ (r : SightingRow). r.id) greatest (sq.any_of-In _ e) in
            elim (Option-cases (find (λ r. eqb r.id i) greatest)) [
              | inl n ↦
                  let bad : true ≡ false =
                    sym
                      (any_of_In (λ (r : SightingRow). eqb r.id i) among ((eqb_iff m.id i).1 same))
                    ∙ any_of_find-none _ greatest n in
                  cc
              | inr (r, f) ↦
                  let (top, known) =
                    In-rows_where (λ (r : SightingRow). eqb r.observed_at (latest_stamp all)) all
                      (find_sound _ greatest f).1 in
                  (
                    r,
                    rw (e, latest, f) refl,
                    known,
                    subst (λ k. AreNoLater k all)
                        (sym ((eqb_iff r.observed_at (latest_stamp all)).0 top))
                        (latest_stamp_bound all),
                  )
            ]
      ]

  latest_empty : latest F [] ≡ none
  unfolding latest
  latest_empty = elim (Option-cases (sq.any_of [])) [
    | inl e ↦ rw (latest, e) refl
    | inr (i, e) ↦ rw (latest, e) refl
  ]

  pub latest-In :
      (ss : List SightingRow) {s : SightingRow}
      → latest F ss ≡ some s
      → In s ss × AreNoLater s.observed_at ss
  latest-In [] e = let k = sym latest_empty ∙ e in cc
  latest-In (t ∷ ss) {s} e =
      let (r, f, known, top) = latest_lem t ss in
      subst (λ k. In k (t ∷ ss) × AreNoLater k.observed_at (t ∷ ss))
        (some-injective _ _ (sym f ∙ e)) (known, top)

  -- A row that is later than every other row of its group is the one shown.
  pub latest_of_strict :
      (s : SightingRow) (ss : List SightingRow)
      → In s ss
      → ((t : SightingRow) → In t ss → (t ≡ s) ⊎ (t.observed_at < s.observed_at))
      → latest F ss ≡ some s
  latest_of_strict s [] m strict = elim m [ ]
  latest_of_strict s (t ∷ ss) m strict =
      let (r, e, known, top) = latest_lem t ss in
      elim (strict r known) [
        | inl same ↦ e ∙ ap some same
        | inr before ↦
            absurd
              (omega (arith, All-In (λ (x : SightingRow). x.observed_at ≤ r.observed_at) m top))
      ]
