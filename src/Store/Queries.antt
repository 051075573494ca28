-- ===== src/Store/Queries.antt =====
-- internal/store/queries.go: fragments that the queries share.
use Prim.Native.String.{◌++◌ as ◌+++◌}
use reporting_and_mapping.Prelude.{ℕ, Bool, true, false, String, ◌==◌, not, ◌&&◌, if◌then◌else◌}

unfoldable pub bool_to_int : Bool → ℕ
bool_to_int true = 1
bool_to_int false = 0

-- `msg.Len() > 0`
abbrev is_written : String → Bool
is_written s = not (s == "")

-- A trait that is known is written after a space, unless it is the first.
abbrev spaced : String → String
spaced msg = if is_written msg then msg +++ " " else msg

abbrev names_message : String → Bool
names_message s = not (s == "unknown") && not (s == "other") && not (s == "")

abbrev names_trait : String → Bool
names_trait s = not (s == "unknown") && not (s == "")

unfoldable pub title_from_sign_traits : String → String → String → String
title_from_sign_traits message medium height =
    let first = if names_message message then message else "" in
    let second = if names_trait medium then spaced first +++ medium else first in
    let third =
      if names_trait height then (spaced second +++ "at height ") +++ height else second in
    if third == "" then "mysterious!" else third
