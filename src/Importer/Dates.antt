-- ===== src/Importer/Dates.antt =====
-- observationDateFromDescription of cmd/import-pirate-map/main.go: the date mm/dd/yy that one of the
-- last five lines of a description ends with. Go's package regexp finds the leftmost matches that do
-- not overlap; both expressions are written out as the scanners they stand for.
pub mod Matches
pub mod Found
use mathlib.Core.Option
use mathlib.Core.List.{reverse}
use reporting_and_mapping.Prelude.{
  ℕ, ◌+◌, ◌-◌, ◌*◌, ◌/◌, Bool, true, false, Option, none, some, List, [], ◌∷◌, ◌&&◌, ◌||◌, not, eqb,
  leb, ltb, take, zero, suc, if◌then◌else◌,
}
use Prim.Native.Nat.{◌%◌}
use reporting_and_mapping.Db.{Time}
use reporting_and_mapping.Importer.Text.{Text, is_empty, trim_space, prepend}

-- \s
abbrev is_blank : ℕ → Bool
is_blank c = leb 9 c && leb c 10 || leb 12 c && leb c 13 || eqb c 32

-- How many characters ">" takes at the start of a text.
abbrev close_length : Text → Option ℕ
close_length [] = none
close_length (c ∷ cs) = if eqb c 62 then some 1 else none

-- \s*/?>
abbrev tail_length : Text → Option ℕ
tail_length [] = none
tail_length (c ∷ cs) =
    let rest = tail_length cs in
    if is_blank c
    then Option.map suc rest
    else if eqb c 47
    then Option.map suc (close_length cs)
    else close_length (c ∷ cs)

-- (?i)<br\s*/?>
abbrev pub break_length : Text → Option ℕ
break_length (a ∷ b ∷ r ∷ cs) =
    if eqb a 60 && (eqb b 98 || eqb b 66) && (eqb r 114 || eqb r 82)
    then Option.map (λ n. 3 + n) (tail_length cs)
    else none
break_length _ = none

-- The parts between the breaks, after `skip` more characters of the last break.
abbrev split_breaks : ℕ → Text → List Text
split_breaks skip [] = [] ∷ []
split_breaks (suc skip) (c ∷ cs) = split_breaks skip cs
split_breaks zero (c ∷ cs) = elim (break_length (c ∷ cs)) [
  | none ↦ prepend c (split_breaks 0 cs)
  | some n ↦ [] ∷ split_breaks (n - 1) cs
]

-- htmlLineBreak.Split(description, -1)
abbrev pub lines : Text → List Text
lines = split_breaks 0

abbrev pub is_digit : ℕ → Bool
is_digit c = leb 48 c && leb c 57

-- \w, which \b looks at
abbrev pub is_word : ℕ → Bool
is_word c = is_digit c || leb 65 c && leb c 90 || eqb c 95 || leb 97 c && leb c 122

abbrev pub starts_word : Text → Bool
starts_word [] = false
starts_word (c ∷ cs) = is_word c

-- 0[1-9]|1[0-2]
abbrev pub is_month : ℕ → ℕ → Bool
is_month a b = eqb a 48 && (leb 49 b && leb b 57) || eqb a 49 && (leb 48 b && leb b 50)

-- 0[1-9]|[12][0-9]|3[01]
abbrev pub is_day : ℕ → ℕ → Bool
is_day a b =
    eqb a 48 && (leb 49 b && leb b 57)
    || (eqb a 49 || eqb a 50) && is_digit b
    || eqb a 51 && (leb 48 b && leb b 49)

-- dateMmddyyMatcher at the start of a text that no word character stands before
abbrev pub starts_date : Text → Bool
starts_date (a ∷ b ∷ s ∷ c ∷ d ∷ t ∷ e ∷ f ∷ rest) =
    is_month a b
    && eqb s 47
    && is_day c d
    && eqb t 47
    && is_digit e
    && is_digit f
    && not (starts_word rest)
starts_date _ = false

-- dateMmddyyMatcher.FindAllString(line, -1), with whether a word character stands before the text and
-- the number of characters that the last match still takes
abbrev pub find_dates : Bool → ℕ → Text → List Text
find_dates before skip [] = []
find_dates before (suc skip) (c ∷ cs) = find_dates (is_word c) skip cs
find_dates before zero (c ∷ cs) =
    let later = find_dates (is_word c) 0 cs in
    let after = find_dates (is_word c) 7 cs in
    if not before && starts_date (c ∷ cs) then take 8 (c ∷ cs) ∷ after else later

abbrev pub dates_in : Text → List Text
dates_in = find_dates false 0

pub record Date : Type 0 where
  pub year : ℕ
  pub month : ℕ
  pub day : ℕ

abbrev pub two_digits : ℕ → ℕ → ℕ
two_digits a b = 10 * (a - 48) + (b - 48)

-- Two digits of a year: 69 and later are in the 20th century.
abbrev pub full_year : ℕ → ℕ
full_year y = if leb 69 y then 1900 + y else 2000 + y

-- From 1969 to 2068 every fourth year is a leap year.
abbrev is_leap : ℕ → Bool
is_leap y = eqb (y % 4) 0

abbrev pub days_in_month : ℕ → ℕ → ℕ
days_in_month y m =
    if eqb m 2
    then (if is_leap y then 29 else 28)
    else if eqb m 4 || eqb m 6 || eqb m 9 || eqb m 11
    then 30
    else 31

-- time.Parse("01/02/06", …) of what the matcher finds: the day must be one of its month.
abbrev pub parse_date : Text → Option Date
parse_date (a ∷ b ∷ s ∷ c ∷ d ∷ t ∷ e ∷ f ∷ []) =
    let y = full_year (two_digits e f) in
    let m = two_digits a b in
    let n = two_digits c d in
    if leb n (days_in_month y m) then some (record { year = y; month = m; day = n }) else none
parse_date _ = none

abbrev days_before_month : ℕ → ℕ → ℕ
days_before_month y zero = 0
days_before_month y (suc zero) = 0
days_before_month y (suc (suc m)) = days_before_month y (suc m) + days_in_month y (suc m)

abbrev days_before_year : ℕ → ℕ
days_before_year y = 365 * (y - 1969) + (y - 1969) / 4

-- time.Date(year, month, day, 4, 20, 0, 0, time.UTC) in nanoseconds since the start of 1969.
abbrev pub at_420 : Date → ℕ
at_420 d =
    (days_before_year d.year + days_before_month d.year d.month + (d.day - 1)) * 86_400_000_000_000
    + 15_600_000_000_000

-- 1970 begins that much later.
abbrev pub epoch : ℕ
epoch = 31_536_000_000_000_000

abbrev pub last : List Text → Option Text
last [] = none
last (d ∷ ds) = let rest = last ds in elim rest [ none ↦ some d | some e ↦ some e ]

-- The date that a line is read as: its last match. `none` goes on with the line before.
abbrev pub date_of_line : Text → Option Date
date_of_line l =
    let line = trim_space l in
    if is_empty line
    then none
    else elim (last (dates_in line)) [ none ↦ none | some match ↦ parse_date match ]

-- The loop over the last lines; the first one with a date decides.
unfoldable pub date_of_lines : List Text → Option Date
date_of_lines [] = none
date_of_lines (l ∷ ls) =
    let rest = date_of_lines ls in elim (date_of_line l) [ none ↦ rest | some d ↦ some d ]

-- candidate.After(defaultWhen.UTC())
abbrev pub dated : Time → Option Date → Time × Bool
dated default_when none = (default_when, false)
dated default_when (some d) =
    if ltb (default_when + epoch) (at_420 d)
    then (at_420 d - epoch, true)
    else (default_when, false)

unfoldable pub observation_date_from_description : Time → Text → Time × Bool
observation_date_from_description default_when description =
    dated default_when (date_of_lines (take 5 (reverse (lines description))))
