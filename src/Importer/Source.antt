-- ===== src/Importer/Source.antt =====
-- loadRaw and unwrapKMZ of cmd/import-pirate-map/main.go. Reading a file, the HTTP request, the ZIP
-- archive and the XML decoder are parameters.
use mathlib.Core.List.{reverse}
use reporting_and_mapping.Prelude.{
  ℕ, Bool, Option, none, some, List, [], ◌∷◌, ◌++◌, ◌||◌, if◌then◌else◌,
}
use reporting_and_mapping.Importer.Text.{Text, Unicode, codes, has_prefix, to_lower, is_empty}
use reporting_and_mapping.Importer.Records.{KmlDoc}

abbrev pub Bytes : Type 0
Bytes = List ℕ

-- An entry of an archive; `none` where it cannot be opened or read.
pub record ZipEntry : Type 0 where
  pub name : Text
  pub content : Option Bytes

pub record Outside : Type 0 where
  -- os.ReadFile
  pub read_file : Text → Option Bytes
  -- fetchURL: a GET that is answered 200
  pub fetch_url : Text → Option Bytes
  -- zip.NewReader and its files
  pub entries : Bytes → Option (List ZipEntry)
  -- path.Base
  pub base : Text → Text
  -- strings.EqualFold
  pub equal_fold : Text → Text → Bool
  -- xml.Unmarshal into a kmlDoc
  pub unmarshal : Bytes → Option KmlDoc

-- strings.HasSuffix
abbrev pub has_suffix : Text → Text → Bool
has_suffix s suffix = has_prefix (reverse s) (reverse suffix)

module _ ⦃out : Outside⦄ where
  -- What was read, and where it came from.
  unfoldable pub load_raw : Text → Text → Text → Option Bytes × Text
  load_raw file url mid =
      let default = codes "https://www.google.com/maps/d/kml?mid=" ++ mid ++ codes "&forcekml=1" in
      let chosen = if is_empty url then default else url in
      if is_empty file
      then (out.fetch_url chosen, chosen)
      else (out.read_file file, codes "file " ++ file)

module _ ⦃out : Outside⦄ ⦃un : Unicode⦄ where
  abbrev is_kml : Text → Bool
  is_kml name =
      out.equal_fold (out.base name) (codes "doc.kml") || has_suffix (to_lower name) (codes ".kml")

  -- The loop over the files of the archive.
  unfoldable pub first_kml : List ZipEntry → Option Bytes
  first_kml [] = none
  first_kml (e ∷ es) = let rest = first_kml es in if is_kml e.name then e.content else rest

  abbrev kml_in : Option (List ZipEntry) → Option Bytes
  kml_in none = none
  kml_in (some es) = first_kml es

  unfoldable pub unwrap_kmz : Bytes → Option Bytes
  unfolding first_kml
  unwrap_kmz raw =
      if has_prefix raw (80 ∷ 75 ∷ 3 ∷ 4 ∷ []) then kml_in (out.entries raw) else some raw
