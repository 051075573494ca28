-- ===== src/Api/Params.antt =====
-- internal/api/server.go and util.go: query parameters and coordinates.
use reporting_and_mapping.Prelude.{
  ◌-◌, Bool, true, String, Option, none, some, ◌&&◌, ◌||◌, ◌==◌, ◌≡◌, if◌then◌else◌, arith,
}
use reporting_and_mapping.Prelude.Int.{pos, negsuc}
use reporting_and_mapping.Platform.{Float64}
use reporting_and_mapping.Geo.{BBox}
use reporting_and_mapping.Db.{Time}

-- time.Parse(time.RFC3339, s), `none` for its error
pub record Times : Type 0 where
  pub parse_rfc3339 : String → Option Time

-- r.URL.Query().Get(name), the empty text where the parameter is not there
abbrev pub Query : Type 0
Query = String → String

module _ {F : Type 0} ⦃fl : Float64 F⦄ where
  unfoldable pub valid_lat_lon : F → F → Bool
  valid_lat_lon lat lon =
      fl.le (fl.decimal (negsuc 89) 0) lat
      && fl.le lat (fl.decimal (pos 90) 0)
      && fl.le (fl.decimal (negsuc 179) 0) lon
      && fl.le lon (fl.decimal (pos 180) 0)

  unfoldable pub clamp : F → F → F → F
  clamp v lo hi = if fl.lt v lo then lo else if fl.lt hi v then hi else v

  -- parseBBox: an error where a bound does not parse or the bounds are out of order.
  abbrev ordered_bbox : F → F → F → F → Option (Option (BBox F))
  ordered_bbox min_lat max_lat min_lon max_lon =
      if fl.lt max_lat min_lat || fl.lt max_lon min_lon
      then none
      else some (
          some (record {
            min_lat = clamp min_lat (fl.decimal (negsuc 89) 0) (fl.decimal (pos 90) 0);
            max_lat = clamp max_lat (fl.decimal (negsuc 89) 0) (fl.decimal (pos 90) 0);
            min_lon = clamp min_lon (fl.decimal (negsuc 179) 0) (fl.decimal (pos 180) 0);
            max_lon = clamp max_lon (fl.decimal (negsuc 179) 0) (fl.decimal (pos 180) 0);
          }))

  abbrev with_bound : Query → String → (F → Option (Option (BBox F))) → Option (Option (BBox F))
  with_bound q name k = elim (fl.parse (q name)) [ none ↦ none | some v ↦ k v ]

  -- `none` is an error; a box may be nil, which is `some none`.
  unfoldable pub parse_bbox : Query → Option (Option (BBox F))
  unfolding clamp
  parse_bbox q = with_bound q "min_lat" λ min_lat. with_bound q "max_lat" λ max_lat.
      with_bound q "min_lon"
        λ min_lon. with_bound q "max_lon" λ max_lon. ordered_bbox min_lat max_lat min_lon max_lon

  -- A positive number of days, or the default.
  abbrev chosen_days : Query → F → F
  chosen_days q default_days = if q "days" == "" then default_days else elim (fl.parse (q "days")) [
    | none ↦ default_days
    | some v ↦ if fl.lt (fl.decimal (pos 0) 0) v then v else default_days
  ]

  abbrev at_least : F → F → F
  at_least least v = if fl.lt v least then least else v

  abbrev pub at_most : F → F → F
  at_most most v = if fl.lt most v then most else v

  -- The window's length in days, within [0.001, 3650].
  unfoldable pub window_days : Query → F → F
  window_days q default_days =
      at_most (fl.decimal (pos 3650) 0)
        (at_least (fl.decimal (pos 1) 3) (chosen_days q default_days))

  -- parseSince: since= if it parses, else now less the window.
  unfoldable pub parse_since : ⦃ts : Times⦄ → Query → F → Time → Time
  unfolding window_days
  parse_since ⦃ts⦄ q default_days now =
      let back = now - fl.days_to_ns (window_days q default_days) in
      if q "since" == ""
      then back
      else elim (ts.parse_rfc3339 (q "since")) [ none ↦ back | some t ↦ t ]

unfoldable pub include_insincere : Query → Bool
include_insincere q = q "include_insincere" == "1" || q "include_insincere" == "true"

unfoldable pub include_missing : Query → Bool
include_missing q = q "include_gones" == "1" || q "include_gones" == "true"

-- A number clamped between two numbers lies between them.
pub clamp_bounds :
    {F : Type 0} ⦃fl : Float64 F⦄ (v lo hi : F)
    → fl.is_number v ≡ true
    → fl.is_number lo ≡ true
    → fl.is_number hi ≡ true
    → fl.le lo hi ≡ true
    → (fl.le lo (clamp v lo hi) ≡ true) × (fl.le (clamp v lo hi) hi ≡ true)
unfolding clamp
clamp_bounds ⦃fl⦄ v lo hi nv nl nh h =
    ground (arith, fl.le_of_not_lt v lo, fl.le_of_not_lt hi v, fl.le_refl lo, fl.le_refl hi)
