-- ===== src/Importer.antt =====
-- cmd/import-pirate-map/main.go: placemarks of a KML export become records for the store's import.
-- Reading the file, the archive and the XML are outside; what they give is a KmlDoc.
pub mod Text
pub mod Folders
pub mod Dates
pub mod Records
pub mod Run
pub mod Source
