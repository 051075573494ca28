-- ===== src/Importer/Records/Built.antt =====
-- What buildRecords keeps of a document, and what it counts.
use mathlib.Core.List.{append_assoc, append-nil}
use reporting_and_mapping.Prelude.{
  ℕ, ◌+◌, ◌≡◌, refl, sym, ap, ◌∙◌, List, [], ◌∷◌, ◌++◌, length, map, rows_from, arith,
}
use reporting_and_mapping.Platform.{Float64}
use reporting_and_mapping.Db.{Time}
use reporting_and_mapping.Store.Import.{ImportRecord}
use reporting_and_mapping.Importer.Text.{Text, Unicode, codes}
use reporting_and_mapping.Importer.Folders.{Class, exists, gone, discard, unknown, classify}
use reporting_and_mapping.Importer.Records.{
  KmlPlace, KmlFolder, KmlDoc, FolderStat, Formats, Building, add_places, discard_places, add,
  add_folders, add_loose, nothing_built, build_records,
}
use reporting_and_mapping.Importer.Records.Placed.{
  places_in, record_of, records_of, records_of_all, Ran, add_places_lem, stat_of,
}

-- The line of the summary for placemarks in no folder, where there are some.
abbrev pub loose_stats : List KmlPlace → List FolderStat
loose_stats [] = []
loose_stats (pm ∷ pms) =
    record {
      name = codes "(placemarks with no folder)";
      class = unknown;
      count = length (pm ∷ pms);
    }
    ∷ []

module _ {F : Type 0} ⦃fl : Float64 F⦄ ⦃un : Unicode⦄ ⦃fm : Formats F⦄ where
  -- The branches that keep no placemark.
  discard_lem :
      (stat : FolderStat) (pms : List KmlPlace) (b : Building F)
      → Ran [] (stat ∷ []) (length pms) b (
          discard_places pms
            (record b { sum = record b.sum { folders = b.sum.folders ++ stat ∷ [] } }))
  discard_lem stat pms b = record {
    kept = sym (append-nil b.recs);
    listed = refl;
    all = omega arith;
  }

  keep_lem :
      (source : Text) (default_when : Time) (cls : Class) (stat : FolderStat) (f : KmlFolder)
      (b : Building F)
      → Ran
          (rows_from (record_of source default_when f.name cls) f.placemarks)
          (stat ∷ [])
          (length f.placemarks)
          b
          (add_places source default_when f.name cls f.placemarks
            (record b { sum = record b.sum { folders = b.sum.folders ++ stat ∷ [] } }))
  keep_lem source default_when cls stat f b =
      let run =
        add_places_lem source default_when f.name cls f.placemarks
          (record b { sum = record b.sum { folders = b.sum.folders ++ stat ∷ [] } }) in
      record {
        kept = run.kept;
        listed = run.listed ∙ append-nil (b.sum.folders ++ stat ∷ []);
        all = run.all;
      }

  add_lem :
      (source : Text) (default_when : Time) (cls : Class) (f : KmlFolder) (b : Building F)
      → Ran
          (records_of source default_when cls f)
          (record { name = f.name; class = cls; count = length f.placemarks } ∷ [])
          (length f.placemarks)
          b
          (add source default_when f.name cls f.placemarks b)
  unfolding add
  add_lem source default_when discard f b = discard_lem _ f.placemarks b
  add_lem source default_when unknown f b = discard_lem _ f.placemarks b
  add_lem source default_when exists f b = keep_lem source default_when exists _ f b
  add_lem source default_when gone f b = keep_lem source default_when gone _ f b

  Ran-both :
      {r₁ r₂ : List (ImportRecord F)} {s₁ s₂ : List FolderStat} {n₁ n₂ : ℕ} {b c d : Building F}
      → Ran r₁ s₁ n₁ b c
      → Ran r₂ s₂ n₂ c d
      → Ran (r₁ ++ r₂) (s₁ ++ s₂) (n₁ + n₂) b d
  Ran-both {r₁} {r₂} {s₁} {s₂} {b = b} first second = record {
    kept = second.kept ∙ ap (λ l. l ++ r₂) first.kept ∙ append_assoc b.recs r₁ r₂;
    listed = second.listed ∙ ap (λ l. l ++ s₂) first.listed ∙ append_assoc b.sum.folders s₁ s₂;
    all = let h = first.all in let k = second.all in omega arith;
  }

  add_folders_lem :
      (source : Text) (default_when : Time) (fs : List KmlFolder) (b : Building F)
      → Ran
          (records_of_all source default_when fs)
          (map stat_of fs)
          (places_in fs)
          b
          (add_folders source default_when fs b)
  unfolding add_folders
  add_folders_lem source default_when [] b = record {
    kept = sym (append-nil b.recs);
    listed = sym (append-nil b.sum.folders);
    all = omega arith;
  }
  add_folders_lem source default_when (f ∷ fs) b =
      Ran-both (add_lem source default_when (classify f.name) f b) (
        add_folders_lem source default_when fs
          (add source default_when f.name (classify f.name) f.placemarks b))

  loose_counted :
      (source : Text) (default_when : Time) (pms : List KmlPlace) (b : Building F)
      → Ran [] (loose_stats pms) (length pms) b (add_loose source default_when pms b)
  unfolding add
  loose_counted source default_when [] b = record {
    kept = sym (append-nil b.recs);
    listed = sym (append-nil b.sum.folders);
    all = omega arith;
  }
  loose_counted source default_when (pm ∷ pms) b = discard_lem _ (pm ∷ pms) b

  built_lem :
      (doc : KmlDoc) (source : Text) (default_when : Time)
      → Ran {F = F}
          (records_of_all source default_when doc.folders ++ [])
          (map stat_of doc.folders ++ loose_stats doc.placemarks)
          (places_in doc.folders + length doc.placemarks)
          nothing_built
          (add_loose source default_when doc.placemarks
            (add_folders source default_when doc.folders nothing_built))
  built_lem doc source default_when =
      Ran-both (add_folders_lem source default_when doc.folders nothing_built) (
        loose_counted source default_when doc.placemarks
          (add_folders source default_when doc.folders nothing_built))

  -- The records of a document, folder by folder.
  pub build_records_lem :
      (doc : KmlDoc) (source : Text) (default_when : Time)
      → (build_records {F = F} doc source default_when).0
        ≡ records_of_all source default_when doc.folders
  unfolding build_records
  build_records_lem doc source default_when =
      (built_lem doc source default_when).kept
      ∙ append-nil (records_of_all source default_when doc.folders)

-- The records are those of the folders in turn: of a folder whose class is to exist or to be gone, one
-- for each placemark whose coordinates are numbers in range, and of any other folder and of the
-- placemarks in no folder, none. The summary lists each folder with its class and size, and every
-- placemark is counted once: as a record, as discarded, or for its bad coordinates.
pub build_records_counted :
    (F : Type 0) ⦃fl : Float64 F⦄ ⦃un : Unicode⦄ ⦃fm : Formats F⦄ (doc : KmlDoc) (source : Text)
    (default_when : Time)
    → let (recs, sum) = build_records {F = F} doc source default_when in
      (recs ≡ records_of_all source default_when doc.folders)
      × (sum.folders ≡ map stat_of doc.folders ++ loose_stats doc.placemarks)
      × (length recs + sum.discarded + sum.bad_coords
          ≡ places_in doc.folders + length doc.placemarks)
unfolding build_records
build_records_counted F doc source default_when =
    let built = built_lem {F = F} doc source default_when in
    (build_records_lem doc source default_when, built.listed, let n = built.all in omega arith)
