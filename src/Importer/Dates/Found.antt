-- ===== src/Importer/Dates/Found.antt =====
-- What the date of a description is.
use reporting_and_mapping.Prelude.{
  ℕ, ◌+◌, ◌-◌, ◌≤◌, ◌<◌, ◌≡◌, refl, ◌⊎◌, inl, inr, true, false, Option, none, some, List, [], ◌∷◌,
  sym, take, Option-cases, ltb, Bool-cases, arith, All, ◌++◌,
}
use mathlib.Core.Path.{subst}
use mathlib.Core.List.{reverse}
use reporting_and_mapping.Db.{Time}
use reporting_and_mapping.Importer.Text.{Text, trim_space, is_empty}
use reporting_and_mapping.Importer.Dates.Matches.{FindsAll, find_dates-FindsAll}
use reporting_and_mapping.Importer.Dates.{
  Date, lines, parse_date, dates_in, last, date_of_line, date_of_lines, at_420, epoch, dated,
  observation_date_from_description,
}

-- The lines that are looked at, the last line first.
abbrev pub last_lines : Text → List Text
last_lines description = take 5 (reverse (lines description))

-- The last match of a line is a date of the calendar.
abbrev pub IsLineDate : Text → Date → Type 0
IsLineDate line d =
    (before : List Text) × (found : Text) × FindsAll false (trim_space line) (before ++ found ∷ [])
    × (parse_date found ≡ some d)

-- A line has no match, or its last one is no date of the calendar.
abbrev pub IsUndated : Text → Type 0
IsUndated line =
    FindsAll false (trim_space line) []
    ⊎ ((before : List Text) × (found : Text) × FindsAll false (trim_space line)
          (before ++ found ∷ [])
        × (parse_date found ≡ none))

-- The date of a description: the one of the last of its last five lines that is dated.
abbrev pub IsDated : Text → Date → Type 0
IsDated description d =
    (line : Text) × (later : List Text) × (earlier : List Text) × (last_lines description
      ≡ later ++ line ∷ earlier)
    × All IsUndated later
    × IsLineDate line d

last_cases :
    (ms : List Text)
    → ((ms ≡ []) × (last ms ≡ none))
      ⊎ ((before : List Text) × (found : Text) × (ms ≡ before ++ found ∷ [])
          × (last ms ≡ some found))
last_cases [] = inl (refl, refl)
last_cases (m ∷ ms) = elim (last_cases ms) [
  | inl (e, f) ↦ inr ([], m, (λ i. m ∷ e i), rw (last, f) refl)
  | inr (before, found, e, f) ↦ inr (m ∷ before, found, (λ i. m ∷ e i), rw (last, f) refl)
]

nothing_found : FindsAll false [] []
nothing_found = find_dates-FindsAll []

empty_lem : (s : Text) → is_empty s ≡ true → s ≡ []
empty_lem [] h = refl
empty_lem (c ∷ cs) h = cc

dated_bound : (t : Time) (d : Option Date) → t ≤ (dated t d).0
dated_bound t none = omega arith
dated_bound t (some d) = ground arith

pub observation_date_bound :
    (t : Time) (description : Text) → t ≤ (observation_date_from_description t description).0
unfolding observation_date_from_description
observation_date_bound t description = dated_bound t _

-- What a line is read as.
date_of_line_lem :
    (line : Text)
    → ((date_of_line line ≡ none) × IsUndated line)
      ⊎ ((d : Date) × (date_of_line line ≡ some d) × IsLineDate line d)
date_of_line_lem line =
    let all = find_dates-FindsAll (trim_space line) in
    elim (Bool-cases (is_empty (trim_space line))) [
      | inl e ↦
          inl
            (rw e refl, inl (subst (λ x. FindsAll false x []) (sym (empty_lem _ e)) nothing_found))
      | inr e ↦ elim (last_cases (dates_in (trim_space line))) [
        | inl (f, g) ↦
            inl (rw (e, g) refl, inl (subst (λ x. FindsAll false (trim_space line) x) f all))
        | inr (before, found, f, g) ↦
            let finds = subst (λ x. FindsAll false (trim_space line) x) f all in
            elim (Option-cases (parse_date found)) [
              | inl p ↦ inl (rw (e, g, p) refl, inr (before, found, finds, p))
              | inr (d, p) ↦ inr (d, rw (e, g, p) refl, (before, found, finds, p))
            ]
      ]
    ]

date_of_lines_lem :
    (ls : List Text)
    → ((date_of_lines ls ≡ none) × All IsUndated ls)
      ⊎ ((d : Date) × (date_of_lines ls ≡ some d)
          × (line : Text) × (later : List Text) × (earlier : List Text) × (ls
              ≡ later ++ line ∷ earlier)
          × All IsUndated later
          × IsLineDate line d)
unfolding date_of_lines
date_of_lines_lem [] = inl (refl, tt)
date_of_lines_lem (l ∷ ls) = elim (date_of_line_lem l) [
  | inr (d, e, dated_so) ↦ inr (d, rw (date_of_lines, e) refl, l, [], ls, refl, tt, dated_so)
  | inl (e, undated) ↦ elim (date_of_lines_lem ls) [
    | inl (f, rest) ↦ inl (rw (date_of_lines, e, f) refl, (undated, rest))
    | inr (d, f, line, later, earlier, shape, none_later, dated_so) ↦ inr (
      d,
      rw (date_of_lines, e, f) refl,
      line,
      l ∷ later,
      earlier,
      (λ i. l ∷ shape i),
      (undated, none_later),
      dated_so,
    )
  ]
]

later_lem : (t e c : ℕ) → ltb (t + e) c ≡ true → (t < c - e) × (c - e + e ≡ c)
later_lem t e c h = let k : t + e < c = ground arith in (omega arith, omega arith)

sooner_lem : (t e c : ℕ) → ltb (t + e) c ≡ false → c ≤ t + e
sooner_lem t e c h = ground arith

-- A sighting has the default time if none of the last five lines of the description is dated. Else the
-- last dated one of them has a date, and the sighting has the time 04:20 of it if that is later than
-- the default, the default time if it is not. The date of a line is its last match mm/dd/yy between
-- word boundaries, of the leftmost that do not overlap; a line is dated if that is a date of the
-- calendar.
pub observation_date_lem :
    (t : Time) (description : Text)
    → let seen = observation_date_from_description t description in
      ((seen ≡ (t, false)) × All IsUndated (last_lines description))
      ⊎ ((d : Date) × IsDated description d
          × (((seen ≡ (t, false)) × (at_420 d ≤ t + epoch))
              ⊎ ((w : Time) × (seen ≡ (w, true)) × (t < w) × (w + epoch ≡ at_420 d))))
unfolding observation_date_from_description
observation_date_lem t description = elim (date_of_lines_lem (last_lines description)) [
  | inl (e, undated) ↦ inl (rw e refl, undated)
  | inr (d, e, line, later, earlier, shape, none_later, dated_so) ↦
      let dated_by : IsDated description d = (line, later, earlier, shape, none_later, dated_so) in
      elim (Bool-cases (ltb (t + epoch) (at_420 d))) [
        | inr h ↦ inr (d, dated_by, inl (rw (e, h) refl, sooner_lem t epoch (at_420 d) h))
        | inl h ↦
            let (lt, eq) = later_lem t epoch (at_420 d) h in
            inr (d, dated_by, inr (at_420 d - epoch, rw (e, h) refl, lt, eq))
      ]
]
