-- ===== src/Platform/Fixed.antt =====
-- A platform on which the theorems are evaluated: coordinates as whole billionths of a degree with a
-- NaN, row ids counted upwards, and the first of several rows picked.
use Prim.Native.Nat.{◌^◌}
use reporting_and_mapping.Prelude.{
  ℕ, zero, suc, ◌+◌, ◌-◌, ◌*◌, ◌/◌, ◌≡◌, ◌≤◌, refl, Bool, true, false, not, Option, none, some,
  List, [], ◌∷◌, ◌==◌, any, eqb, ltb, if◌then◌else◌, In, here, arith, String,
}
use reporting_and_mapping.Prelude.Int.{ℤ, pos, negsuc, ◌+ℤ◌, leb_ℤ}
use reporting_and_mapping.Platform.{Float64, Sqlite}

pub data Fixed : Type 0 where
  nan : Fixed
  units : ℤ → Fixed

abbrev scale : ℤ → ℕ → ℤ
scale (pos n) k = pos (n * k)
scale (negsuc n) k = if eqb k 0 then pos 0 else negsuc ((n + 1) * k - 1)

-- `degrees m e` is m / 10^e.
abbrev pub degrees : ℤ → ℕ → Fixed
degrees m e = units (scale m (10 ^ (9 - e)))

abbrev compare_by : (ℤ → ℤ → Bool) → Fixed → Fixed → Bool
compare_by test nan b = false
compare_by test (units a) nan = false
compare_by test (units a) (units b) = test a b

abbrev eqb_ℤ : ℤ → ℤ → Bool
eqb_ℤ (pos a) (pos b) = eqb a b
eqb_ℤ (negsuc a) (negsuc b) = eqb a b
eqb_ℤ _ _ = false

abbrev is_units : Fixed → Bool
is_units nan = false
is_units (units a) = true

abbrev negate : ℤ → ℤ
negate (pos zero) = pos 0
negate (pos (suc n)) = negsuc n
negate (negsuc n) = pos (suc n)

abbrev lift₂ : (ℤ → ℤ → ℤ) → Fixed → Fixed → Fixed
lift₂ f nan b = nan
lift₂ f (units a) nan = nan
lift₂ f (units a) (units b) = units (f a b)

-- To the nearest multiple of k, a half away from zero.
abbrev round_to : ℕ → ℤ → ℤ
round_to k (pos n) = pos ((n + k / 2) / k * k)
round_to k (negsuc n) = negate (pos ((n + 1 + k / 2) / k * k))

abbrev round_digits : Fixed → ℕ → Fixed
round_digits nan d = nan
round_digits (units a) d = units (round_to (10 ^ (9 - d)) a)

pub fixed_le_refl : (a : Fixed) → is_units a ≡ true → compare_by leb_ℤ a a ≡ true
fixed_le_refl nan h = cc
fixed_le_refl (units a) h = ground arith

pub fixed_le_of_lt :
    (a b : Fixed) → compare_by (λ a b. not (leb_ℤ b a)) a b ≡ true → compare_by leb_ℤ a b ≡ true
fixed_le_of_lt nan b h = cc
fixed_le_of_lt (units a) nan h = cc
fixed_le_of_lt (units a) (units b) h = ground arith

pub fixed_le_of_not_lt :
    (a b : Fixed)
    → is_units a ≡ true
    → is_units b ≡ true
    → compare_by (λ a b. not (leb_ℤ b a)) a b ≡ false
    → compare_by leb_ℤ b a ≡ true
fixed_le_of_not_lt nan b ha hb h = cc
fixed_le_of_not_lt (units a) nan ha hb h = cc
fixed_le_of_not_lt (units a) (units b) ha hb h = ground arith

pub fixed_le-is_number : (a b : Fixed) → compare_by leb_ℤ a b ≡ true → is_units a ≡ true
fixed_le-is_number nan b h = h
fixed_le-is_number (units a) b h = refl

pub fixed_le_trans :
    (a b c : Fixed)
    → compare_by leb_ℤ a b ≡ true
    → compare_by leb_ℤ b c ≡ true
    → compare_by leb_ℤ a c ≡ true
fixed_le_trans nan b c h k = h
fixed_le_trans (units a) nan c h k = cc
fixed_le_trans (units a) (units b) nan h k = k
fixed_le_trans (units a) (units b) (units c) h k = ground arith

-- A few texts of numbers; another text that is not empty is read as NaN.
abbrev parse_fixed : String → Option Fixed
parse_fixed s =
    if s == ""
    then none
    else if s == "0"
    then some (degrees (pos 0) 0)
    else if s == "5"
    then some (degrees (pos 5) 0)
    else if s == "50"
    then some (degrees (pos 50) 0)
    else if s == "60"
    then some (degrees (pos 60) 0)
    else some nan

instance abbrev pub fixed_floats : Float64 Fixed
fixed_floats = record {
  decimal = degrees;
  le = compare_by leb_ℤ;
  lt = compare_by (λ a b. not (leb_ℤ b a));
  eq = compare_by eqb_ℤ;
  add = lift₂ ◌+ℤ◌;
  sub = lift₂ (λ a b. a +ℤ negate b);
  mul = λ a b. nan;
  div = λ a b. nan;
  sin = λ a. nan;
  cos = λ a. nan;
  sqrt = λ a. nan;
  atan2 = λ a b. nan;
  pi = degrees (pos 3141592653) 9;
  parse = parse_fixed;
  days_to_ns = λ d. 0;
  is_number = is_units;
  decimal-is_number = λ m e. refl;
  le_refl = fixed_le_refl;
  le_of_lt = fixed_le_of_lt;
  le_of_not_lt = fixed_le_of_not_lt;
  le-is_number = fixed_le-is_number;
  le_trans = fixed_le_trans;
}

-- One more than the greatest id in use.
abbrev next_id : List ℕ → ℕ
next_id [] = 1
next_id (i ∷ is) = let rest = next_id is in if ltb i rest then rest else i + 1

above : (k : ℕ) (is : List ℕ) → next_id is ≤ k → any (eqb k) is ≡ false
above k [] h = refl
above k (i ∷ is) h = ground (arith, above k is)

abbrev first_id : List ℕ → Option ℕ
first_id [] = none
first_id (i ∷ is) = some i

pub first_id-In : (ids : List ℕ) {i : ℕ} → first_id ids ≡ some i → In i ids
first_id-In [] e = cc
first_id-In (j ∷ ids) {i} e = here (ground arith)

pub first_id-none : (ids : List ℕ) → first_id ids ≡ none → ids ≡ []
first_id-none [] e = refl
first_id-none (j ∷ ids) e = cc

pub next_id-fresh : (ids : List ℕ) → any (eqb (next_id ids)) ids ≡ false
next_id-fresh ids = above (next_id ids) ids (omega arith)

instance abbrev pub counting_rows : Sqlite Fixed
counting_rows = record {
  fresh = next_id;
  fresh_new = next_id-fresh;
  any_of = first_id;
  any_of-In = first_id-In;
  any_of-none = first_id-none;
  round = round_digits;
  stale_rowid = 77;
}
