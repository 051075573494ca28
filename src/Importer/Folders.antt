-- ===== src/Importer/Folders.antt =====
-- classify, messageForFolder and mediumForDescription of cmd/import-pirate-map/main.go.
pub mod Named
use reporting_and_mapping.Prelude.{Bool, String, ◌||◌, if◌then◌else◌}
use reporting_and_mapping.Importer.Text.{Text, Unicode, codes, contains, to_lower}

-- The constants classExists, classGone, classDiscard and classUnknown
pub data Class : Type 0 where
  exists : Class
  gone : Class
  discard : Class
  unknown : Class

module _ ⦃un : Unicode⦄ where
  unfoldable pub classify : Text → Class
  classify folder_name =
      let n = to_lower folder_name in
      if contains n (codes "billboard") || contains n (codes "questionable legality")
      then discard
      else if contains n (codes "plunder") || contains n (codes "removed")
      then gone
      else if contains n (codes "reported")
      then exists
      else unknown

  unfoldable pub message_from_description : Text → String
  message_from_description description =
      let d = to_lower description in
      if contains d (codes "jesus is coming")
      then "jicr"
      else if contains d (codes "jesus saves")
      then "js"
      else if contains d (codes "believe in jesus")
      then "bij"
      else "unknown"

  unfoldable pub message_for_folder : Text → Text → String
  message_for_folder folder_name description =
      let n = to_lower folder_name in
      if contains n (codes "jicr")
      then "jicr"
      else if contains n (codes "js")
      then "js"
      else message_from_description description

  unfoldable pub medium_for_description : Text → String
  medium_for_description description =
      if contains (to_lower description) (codes "sticker")
      then "sticker"
      else if contains (to_lower description) (codes "barnacle")
      then "sticker"
      else "placard"
