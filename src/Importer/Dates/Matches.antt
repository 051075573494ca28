-- ===== src/Importer/Dates/Matches.antt =====
-- What dateMmddyyMatcher.FindAllString finds, described on its own: the leftmost matches that do not
-- overlap, each a date mm/dd/yy between word boundaries.
use reporting_and_mapping.Prelude.{
  ℕ, ◌+◌, ◌-◌, ◌*◌, ◌≤◌, ◌≡◌, refl, inl, inr, Bool, true, false, List, [], ◌∷◌, ◌++◌, ◌∙◌, ap, sym,
  take, take-drop, drop, length, zero, suc, not, ◌&&◌, Bool-cases, arith, eqb,
}
use mathlib.Core.Path.{subst}
use reporting_and_mapping.Importer.Text.{Text}
use reporting_and_mapping.Importer.Dates.{
  starts_date, starts_word, find_dates, is_word, is_digit, is_month, is_day,
}

-- Two digits that stand for a number between two others.
abbrev pub AreDigits : ℕ → ℕ → ℕ → ℕ → Type 0
AreDigits low high a b =
    (48 ≤ a)
    × (a ≤ 57)
    × (48 ≤ b)
    × (b ≤ 57)
    × (low ≤ 10 * (a - 48) + (b - 48))
    × (10 * (a - 48) + (b - 48) ≤ high)

-- mm/dd/yy: a month from 1 to 12, a day from 1 to 31 and any year.
pub record IsDateText (m : Text) : Type 0 where
  pub digits : ℕ × ℕ × ℕ × ℕ × ℕ × ℕ
  pub shape : let (a, b, c, d, e, f) = digits in m ≡ a ∷ b ∷ 47 ∷ c ∷ d ∷ 47 ∷ e ∷ f ∷ []
  pub month : AreDigits 1 12 digits.0 digits.1
  pub day : AreDigits 1 31 digits.2 digits.3
  pub year : AreDigits 0 99 digits.4 digits.5

-- Whether a word character stands at the end of a text, or before it if it is empty.
abbrev pub ends_word : Bool → Text → Bool
ends_word before [] = before
ends_word before (c ∷ cs) = ends_word (is_word c) cs

-- A date with no word character before and none after it.
abbrev pub IsMatch : Bool → Text → Text → Type 0
IsMatch before m rest = (before ≡ false) × IsDateText m × (starts_word rest ≡ false)

-- Every match of a text begins at a place or after it.
abbrev pub BeginsFrom : Bool → Text → ℕ → Type 0
BeginsFrom before s n =
    (a m b : Text) → s ≡ a ++ (m ++ b) → IsMatch (ends_word before a) m b → n ≤ length a

-- The matches of a text in turn: the first that begins anywhere, then those of what follows it; in the
-- end none is left.
abbrev pub FindsAll : Bool → Text → List Text → Type 0
FindsAll before s [] = (a m b : Text) → s ≡ a ++ (m ++ b) → ¬ (IsMatch (ends_word before a) m b)
FindsAll before s (m ∷ ms) =
    (skip : Text) × (rest : Text) × (s ≡ skip ++ (m ++ rest))
    × IsMatch (ends_word before skip) m rest
    × BeginsFrom before s (length skip)
    × FindsAll (ends_word before (skip ++ m)) rest ms

is_month-AreDigits : (a b : ℕ) → is_month a b ≡ true → AreDigits 1 12 a b
is_month-AreDigits a b h = ground arith

is_month_of : (a b : ℕ) → AreDigits 1 12 a b → is_month a b ≡ true
is_month_of a b h = ground arith

is_day-AreDigits : (a b : ℕ) → is_day a b ≡ true → AreDigits 1 31 a b
is_day-AreDigits a b h = ground arith

is_day_of : (a b : ℕ) → AreDigits 1 31 a b → is_day a b ≡ true
is_day_of a b h = ground arith

is_digit-AreDigits : (a b : ℕ) → is_digit a ≡ true → is_digit b ≡ true → AreDigits 0 99 a b
is_digit-AreDigits a b h k = ground arith

is_digit_of : (a b : ℕ) → AreDigits 0 99 a b → (is_digit a ≡ true) × (is_digit b ≡ true)
is_digit_of a b h = ground arith

-- Where a date starts, and what follows it.
starts_date_sound :
    (s : Text) → starts_date s ≡ true → IsDateText (take 8 s) × (starts_word (drop 8 s) ≡ false)
starts_date_sound [] h = cc
starts_date_sound (a ∷ []) h = cc
starts_date_sound (a ∷ b ∷ []) h = cc
starts_date_sound (a ∷ b ∷ s ∷ []) h = cc
starts_date_sound (a ∷ b ∷ s ∷ c ∷ []) h = cc
starts_date_sound (a ∷ b ∷ s ∷ c ∷ d ∷ []) h = cc
starts_date_sound (a ∷ b ∷ s ∷ c ∷ d ∷ t ∷ []) h = cc
starts_date_sound (a ∷ b ∷ s ∷ c ∷ d ∷ t ∷ e ∷ []) h = cc
starts_date_sound (a ∷ b ∷ s ∷ c ∷ d ∷ t ∷ e ∷ f ∷ rest) h =
    let (month, slash, day, slash', e_digit, f_digit, ends) =
      parts (is_month a b) (eqb s 47) (is_day c d) (eqb t 47) (is_digit e) (is_digit f)
        (starts_word rest) h in
    let same : s ≡ 47 = ground arith in
    let same' : t ≡ 47 = ground arith in
    (
      record {
        digits = (a, b, c, d, e, f);
        shape = λ i. a ∷ b ∷ same i ∷ c ∷ d ∷ same' i ∷ e ∷ f ∷ [];
        month = is_month-AreDigits a b month;
        day = is_day-AreDigits c d day;
        year = is_digit-AreDigits e f e_digit f_digit;
      },
      ends,
    )
  where
    parts :
        (x y z u v w e : Bool)
        → (x && y && z && u && v && w && not e) ≡ true
        → (x ≡ true) × (y ≡ true) × (z ≡ true) × (u ≡ true) × (v ≡ true) × (w ≡ true) × (e ≡ false)
    parts x y z u v w e h = ground arith

starts_date_of :
    (m rest : Text) → IsDateText m → starts_word rest ≡ false → starts_date (m ++ rest) ≡ true
starts_date_of m rest date ends =
    let (a, b, c, d, e, f) = date.digits in
    let (e_digit, f_digit) = is_digit_of e f date.year in
    let month = is_month_of a b date.month in
    let day = is_day_of c d date.day in
    ap (λ x. starts_date (x ++ rest)) date.shape ∙ rw (month, day, e_digit, f_digit, ends) refl

empty_unmatched : (before : Bool) → FindsAll before [] []
empty_unmatched before [] m b e (_, date, _) = let is = e ∙ ap (λ x. x ++ b) date.shape in cc
empty_unmatched before (x ∷ xs) m b e k = cc

unmatched :
    (before : Bool) (s m b : Text)
    → (not before && starts_date s) ≡ false
    → s ≡ m ++ b
    → ¬ (IsMatch before m b)
unmatched before s m b h e (clear, date, ends) =
    let starts : starts_date s ≡ true = ap starts_date e ∙ starts_date_of m b date ends in
    let k = rw (clear, starts) at h in cc

-- Where none starts at a text, those of the text are those of its tail.
shifted :
    (before : Bool) (c : ℕ) (cs : Text)
    → (not before && starts_date (c ∷ cs)) ≡ false
    → (a m b : Text) → c ∷ cs ≡ a ++ (m ++ b)
    → IsMatch (ends_word before a) m b
    → (a' : Text) × (a ≡ c ∷ a') × (cs ≡ a' ++ (m ++ b)) × IsMatch (ends_word (is_word c) a') m b
shifted before c cs h [] m b e k = absurd (unmatched before (c ∷ cs) m b h e k)
shifted before c cs h (x ∷ xs) m b e k =
    let same : x ≡ c = cc in
    let tails : cs ≡ xs ++ (m ++ b) = cc in
    (xs, (λ i. same i ∷ xs), tails, subst (λ y. IsMatch (ends_word (is_word y) xs) m b) same k)

FindsAll-cons :
    (before : Bool) (c : ℕ) (cs : Text) (ms : List Text)
    → (not before && starts_date (c ∷ cs)) ≡ false
    → FindsAll (is_word c) cs ms
    → FindsAll before (c ∷ cs) ms
FindsAll-cons before c cs [] h done = λ a m b e k.
    let (a', shape, tails, k') = shifted before c cs h a m b e k in done a' m b tails k'
FindsAll-cons before c cs (found ∷ ms) h (skip, rest, e, match, first, more) = (
  c ∷ skip,
  rest,
  (λ i. c ∷ e i),
  match,
  (λ a m b e' k.
      let (a', shape, tails, k') = shifted before c cs h a m b e' k in
      let le = first a' m b tails k' in rw shape (omega arith)),
  more,
)

-- The scanner finds them all, from the characters on that it skips.
find_dates_from :
    (before : Bool) (skip : ℕ) (s : Text)
    → FindsAll (ends_word before (take skip s)) (drop skip s) (find_dates before skip s)
find_dates_from before zero [] = empty_unmatched before
find_dates_from before (suc skip) [] = empty_unmatched before
find_dates_from before (suc skip) (c ∷ cs) = find_dates_from (is_word c) skip cs
find_dates_from before zero (c ∷ cs) =
    let later = find_dates_from (is_word c) 0 cs in
    let after = find_dates_from (is_word c) 7 cs in
    elim (Bool-cases (not before && starts_date (c ∷ cs))) [
      | inr h ↦ rw (find_dates, h) (FindsAll-cons before c cs (find_dates (is_word c) 0 cs) h later)
      | inl h ↦
          let (date, ends) = starts_date_sound (c ∷ cs) (ground arith) in
          rw (find_dates, h)
            (
              [],
              drop 7 cs,
              sym (take-drop 8 (c ∷ cs)),
              ((ground arith), date, ends),
              (λ a m b e k. omega arith),
              after,
            )
    ]

pub find_dates-FindsAll : (s : Text) → FindsAll false s (find_dates false 0 s)
find_dates-FindsAll s = find_dates_from false 0 s
