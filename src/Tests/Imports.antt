-- ===== src/Tests/Imports.antt =====
-- The theorems on the importer, the role tool and the server's configuration at concrete inputs.
use reporting_and_mapping.Prelude.{
  ◌+◌, ◌-◌, ◌≡◌, ◌≢◌, ◌<◌, ◌⊎◌, refl, true, false, String, Option, none, some, [], ◌∷◌, In, here,
  leb, ◌&&◌, length, if◌then◌else◌, All, ◌≤◌, map, ◌++◌, List, inr, inl, not, rows_where,
}
use reporting_and_mapping.Prelude.Int.{pos}
use reporting_and_mapping.Platform.Fixed.{Fixed, degrees, fixed_floats, counting_rows}
use reporting_and_mapping.Db.{Time, UserRow}
use reporting_and_mapping.Db.Monad.{StoreError, ok, err}
use reporting_and_mapping.Startup.{default_role_permissions}
use reporting_and_mapping.Startup.Restart.{open_database}
use reporting_and_mapping.Store.Users.{user_with_opaque, has_permission}
use reporting_and_mapping.Store.Import.{Markup, no_stats, ImportRecord, import_source_records}
use reporting_and_mapping.Store.Import.Refused.{import_source_records_fails}
use reporting_and_mapping.Importer.Text.{Text, Unicode, codes}
use reporting_and_mapping.Importer.Folders.{exists, classify}
use reporting_and_mapping.Importer.Dates.{
  Date, at_420, epoch, date_of_lines, observation_date_from_description,
}
use reporting_and_mapping.Importer.Dates.Found.{
  IsDated, IsUndated, observation_date_lem, last_lines,
}
use reporting_and_mapping.Importer.Records.{
  RunSummary, KmlPlace, KmlFolder, KmlDoc, Formats, build_records, record_at, add, add_folders,
  add_places, parse_lon_lat, valid_lat_lon,
}
use reporting_and_mapping.Importer.Records.Placed.{places_in, records_of_all, stat_of}
use reporting_and_mapping.Importer.Records.Built.{build_records_counted, loose_stats}
use reporting_and_mapping.Importer.Records.Sound.{StandsFor, Reports, build_records_sound}
use reporting_and_mapping.Importer.Source.{Outside}
use reporting_and_mapping.Importer.Run.{imported, import_date}
use reporting_and_mapping.Db.Spared.{HasReportsOf}
use reporting_and_mapping.Importer.Run.Main.{Flags, run_importer, run_importer_fails}
use reporting_and_mapping.RoleTool.{assigned, role_tool}
use reporting_and_mapping.RoleTool.Granted.{role_tool_grants, role_tool_reports}
use reporting_and_mapping.Server.{split_csv}
use reporting_and_mapping.Importer.Text.{join, is_empty}
use reporting_and_mapping.Server.Headers.{Entry, written, split_csv-join}
use reporting_and_mapping.Tests.Data.{toy_crypto, toy_times, toy_codes, town, bob, toy_decoders}
use reporting_and_mapping.System.{◌then◌}

instance abbrev pub ascii : Unicode
ascii = record { lower = λ c. if leb 65 c && leb c 90 then c + 32 else c }

-- Whole degrees of one digit.
abbrev degree_of : Text → Option Fixed
degree_of [] = none
degree_of (c ∷ cs) = some (degrees (pos (c - 48)) 0)

instance abbrev pub toy_formats : Formats Fixed
toy_formats = record { parse_float = degree_of; fixed_6 = λ x. codes "0"; sha256 = λ t. t }

instance abbrev pub no_markup : Markup
no_markup = record { without_title = λ t. t; image_source = λ t. none; without_images = λ t. t }

abbrev dated_sign : KmlPlace
dated_sign = record {
  name = codes "sign";
  description = codes "A sticker<br>07/25/26<BR/>More text";
  coordinates = codes " 4,3,0 ";
}

abbrev misplaced : KmlPlace
misplaced = record { name = codes "lost"; description = []; coordinates = codes "onlyone" }

abbrev pirate_map : KmlDoc
pirate_map = record {
  name = codes "Pirate Map";
  folders =
      record { name = codes "Reported Signs"; placemarks = dated_sign ∷ misplaced ∷ [] }
      ∷ record { name = codes "Billboards"; placemarks = dated_sign ∷ [] }
      ∷ [];
  placemarks = misplaced ∷ [];
}

-- 2026-07-25 04:20 UTC
later_date :
    observation_date_from_description import_date dated_sign.description
    ≡ (1_784_953_200_000_000_000, true)
unfolding observation_date_from_description date_of_lines
later_date = refl

observation_date_lem_example :
    let seen = observation_date_from_description import_date dated_sign.description in
    ((seen ≡ (import_date, false)) × All IsUndated (last_lines dated_sign.description))
    ⊎ ((d : Date) × IsDated dated_sign.description d
        × (((seen ≡ (import_date, false)) × (at_420 d ≤ import_date + epoch))
            ⊎ ((w : Time) × (seen ≡ (w, true)) × (import_date < w) × (w + epoch ≡ at_420 d))))
observation_date_lem_example = observation_date_lem import_date dated_sign.description

build_records_counted_example :
    let (recs, sum) = build_records {F = Fixed} pirate_map (codes "pirate-map") import_date in
    (recs ≡ records_of_all (codes "pirate-map") import_date pirate_map.folders)
    × (sum.folders ≡ map stat_of pirate_map.folders ++ loose_stats pirate_map.placemarks)
    × (length recs + sum.discarded + sum.bad_coords
        ≡ places_in pirate_map.folders + length pirate_map.placemarks)
build_records_counted_example =
    build_records_counted Fixed pirate_map (codes "pirate-map") import_date

abbrev sign_record : ImportRecord Fixed
sign_record =
    record_at (codes "pirate-map") import_date (codes "Reported Signs") exists dated_sign
      (degrees (pos 3) 0) (degrees (pos 4) 0)

build_records_sound_example :
    (f : KmlFolder) × (pm : KmlPlace) × In f pirate_map.folders
    × In pm f.placemarks
    × StandsFor (codes "pirate-map") import_date pm sign_record
    × Reports f true
unfolding build_records add add_folders classify add_places parse_lon_lat valid_lat_lon
build_records_sound_example =
    build_records_sound pirate_map (codes "pirate-map") import_date {r = sign_record} (here refl)

import_source_records_fails_example :
    let (r, db') = import_source_records 2 import_date (sign_record ∷ []) false town in
    (db' ≡ town)
    × (((sign_record ∷ [] ≡ []) × (r ≡ ok no_stats)) ⊎ ((e : StoreError) × (r ≡ err e)))
import_source_records_fails_example =
    import_source_records_fails 2 import_date (sign_record ∷ []) false town

-- Every file reads as the map.
instance abbrev pub toy_world : Outside
toy_world = record {
  read_file = λ name. some [];
  fetch_url = λ url. none;
  entries = λ raw. none;
  base = λ name. name;
  equal_fold = λ a b. false;
  unmarshal = λ raw. some pirate_map;
}

abbrev from_file : Flags
from_file = record {
  mid = [];
  url = [];
  file = codes "map.kml";
  source = codes "pirate-map";
  importer = "import:pirate-map";
  dry_run = false;
}

abbrev hoped_for : RunSummary
hoped_for = record { folders = []; discarded = 2; bad_coords = 1 }

run_importer_fails_example :
    let (o, db') =
      run_importer {F = Fixed} default_role_permissions from_file (some (1 ∷ [])) 60 town in
    HasReportsOf town db' × (o ≢ imported hoped_for no_stats)
run_importer_fails_example =
    run_importer_fails default_role_permissions from_file (some (1 ∷ [])) 60 town hoped_for no_stats

role_tool_grants_example :
    let (out, db') =
      role_tool
        (some (1 ∷ []))
        default_role_permissions
        60
        ("set" ∷ "bob-id" ∷ "editor" ∷ [])
        town in
    (out ≡ assigned "bob-id" "editor")
    × (user_with_opaque "bob-id" db'.users ≡ some (record bob { role = "editor" }))
    × (has_permission db' "editor" "gossip" ≡ true)
unfolding open_database default_role_permissions
role_tool_grants_example =
    role_tool_grants (some (1 ∷ [])) default_role_permissions 60 "bob-id" "editor" "gossip" town
      {u = bob} refl refl refl

role_tool_reports_example :
    let d = (open_database (some (1 ∷ [])) default_role_permissions 60 town).1 in
    let (out, db') =
      role_tool
        (some (1 ∷ []))
        default_role_permissions
        60
        ("set" ∷ "dan-id" ∷ "editor" ∷ [])
        town in
    (db' ≡ d)
    ⊎ ((o : String) × (role : String) × (u : UserRow) × ("set" ∷ "dan-id" ∷ "editor" ∷ []
          ≡ "set" ∷ o ∷ role ∷ [])
        × (user_with_opaque o d.users ≡ some u)
        × (out ≡ assigned o role))
unfolding open_database
role_tool_reports_example =
    role_tool_reports (some (1 ∷ [])) default_role_permissions 60 ("set" ∷ "dan-id" ∷ "editor" ∷ [])
      town refl

-- " X-User , ,X-Mail"
abbrev header_entries : List Entry
header_entries =
    record { left = codes " "; name = codes "X-User"; right = codes " " }
    ∷ record { left = codes " "; name = []; right = [] }
    ∷ record { left = []; name = codes "X-Mail"; right = [] }
    ∷ []

split_csv-join_example :
    split_csv (join 44 (map written header_entries))
    ≡ rows_where (λ t. not (is_empty t)) (map (λ (e : Entry). e.name) header_entries)
split_csv-join_example = split_csv-join header_entries (
  (
    (refl, tt),
    (refl, tt),
    (refl, (refl, (refl, (refl, (refl, (refl, tt)))))),
    inr ((88, codes "-User", refl, refl), (codes "X-Use", 114, refl, refl)),
  ),
  (
    ((refl, tt), tt, tt, inl refl),
    (
      (
        tt,
        tt,
        (refl, (refl, (refl, (refl, (refl, (refl, tt)))))),
        inr ((88, codes "-Mail", refl, refl), (codes "X-Mai", 108, refl, refl)),
      ),
      tt,
    ),
  ),
)

read_headers : split_csv (codes " X-User , ,X-Mail") ≡ codes "X-User" ∷ codes "X-Mail" ∷ []
unfolding split_csv
read_headers = refl
