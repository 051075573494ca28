-- ===== src/Geo.antt =====
-- internal/geo/geo.go: distances, bounding boxes and plus codes. `plus_code` is Encode of the package
-- github.com/google/open-location-code at length 11, which is not in the repository.
use reporting_and_mapping.Prelude.{ℕ, String, Bool, ◌&&◌, if◌then◌else◌}
use reporting_and_mapping.Prelude.Int.{pos}
use reporting_and_mapping.Platform.{Float64}

pub record PlusCodes (F : Type 0) : Type 0 where
  pub encode : F → F → ℕ → String

pub record BBox (F : Type 0) : Type 0 where
  pub min_lat : F
  pub max_lat : F
  pub min_lon : F
  pub max_lon : F

module _ {F : Type 0} ⦃fl : Float64 F⦄ where
  abbrev radians : F → F
  radians x = fl.div (fl.mul x fl.pi) (fl.decimal (pos 180) 0)

  abbrev half : F → F
  half x = fl.div x (fl.decimal (pos 2) 0)

  unfoldable pub distance_meters : F → F → F → F → F
  distance_meters lat1 lon1 lat2 lon2 =
      let p1 = radians lat1 in
      let p2 = radians lat2 in
      let d_phi = radians (fl.sub lat2 lat1) in
      let d_lambda = radians (fl.sub lon2 lon1) in
      let a = fl.add (fl.mul (fl.sin (half d_phi)) (fl.sin (half d_phi))) (
        fl.mul (fl.mul (fl.mul (fl.cos p1) (fl.cos p2)) (fl.sin (half d_lambda)))
          (fl.sin (half d_lambda))) in
      let one = fl.decimal (pos 1) 0 in
      let c = fl.mul (fl.decimal (pos 2) 0) (fl.atan2 (fl.sqrt a) (fl.sqrt (fl.sub one a))) in
      fl.mul (fl.decimal (pos 6371000) 0) c

  unfoldable pub bounding_box : F → F → F → BBox F
  bounding_box lat lon radius =
      let metres = fl.decimal (pos 111320) 0 in
      let d_lat = fl.div radius metres in
      let cos = fl.cos (radians lat) in
      let least = fl.decimal (pos 1) 6 in
      let cos_lat = if fl.lt cos least then least else cos in
      let d_lon = fl.div radius (fl.mul metres cos_lat) in
      record {
        min_lat = fl.sub lat d_lat;
        max_lat = fl.add lat d_lat;
        min_lon = fl.sub lon d_lon;
        max_lon = fl.add lon d_lon;
      }

  -- lat BETWEEN ? AND ? AND lon BETWEEN ? AND ?
  abbrev pub in_box : BBox F → F → F → Bool
  in_box b lat lon =
      fl.le b.min_lat lat && fl.le lat b.max_lat && fl.le b.min_lon lon && fl.le lon b.max_lon

module _ {F : Type 0} ⦃pc : PlusCodes F⦄ where
  unfoldable pub plus_code : F → F → String
  plus_code lat lon = pc.encode lat lon 11
