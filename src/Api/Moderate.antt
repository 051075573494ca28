-- ===== src/Api/Moderate.antt =====
-- internal/api/handlers.go: flags and notes about users.
use reporting_and_mapping.Prelude.{
  Bool, true, false, String, Option, none, some, ◌==◌, ◌||◌, not, eqb, if◌then◌else◌,
}
use reporting_and_mapping.Prelude.Int.{ℤ, pos, negsuc}
use reporting_and_mapping.Platform.{Sqlite}
use reporting_and_mapping.Db.{Time}
use reporting_and_mapping.Store.Reputation.{set_insincere, add_note, list_notes, list_user_flags}
use reporting_and_mapping.Api.{
  Handler, nothing, insincere, flag_value, flags, notes, undecodable, is_zero, write_json,
  write_err, require, respond,
}

abbrev pub is_one : ℤ → Bool
is_one (pos n) = eqb n 1
is_one (negsuc n) = false

-- A flag that the body leaves out is set.
abbrev pub chosen_flag : Option Bool → Bool
chosen_flag none = true
chosen_flag (some b) = b

abbrev pub chosen_value : Option ℤ → ℤ
chosen_value none = pos 1
chosen_value (some v) = v

module _ {F : Type 0} ⦃sq : Sqlite F⦄ where
  -- The body is optional: `none` is a body without the field, or one that does not decode.
  abbrev pub flag_insincere : String → Option Bool → Time → Handler F
  flag_insincere target body now u db =
      respond (set_insincere u.id target (chosen_flag body) now)
        (λ _. write_json 200 (insincere (chosen_flag body))) db

  unfoldable pub handle_flag_insincere : String → Option Bool → Time → Handler F
  handle_flag_insincere target body now = require "flag_insincere" (flag_insincere target body now)

  abbrev pub set_flags : String → Option (String × Option ℤ) → Time → Handler F
  set_flags target none now u db = (write_json 400 undecodable, db)
  set_flags target (some (flag_type, given)) now u db =
      if not (flag_type == "insincere")
      then (write_err 400 "unsupported flag_type", db)
      else if not (is_zero (chosen_value given) || is_one (chosen_value given))
      then (write_err 400 "value must be 0 or 1", db)
      else respond (set_insincere u.id target (is_one (chosen_value given)) now)
          (λ _. write_json 200 (flag_value (chosen_value given))) db

  unfoldable pub handle_set_flags : String → Option (String × Option ℤ) → Time → Handler F
  handle_set_flags target body now = require "set-user-flags" (set_flags target body now)

  abbrev pub send_note : String → Option String → Time → Handler F
  send_note target none now u db = (write_json 400 undecodable, db)
  send_note target (some note) now u db =
      if note == ""
      then (write_err 400 "note required", db)
      else respond (add_note u.id target note now) (λ _. write_json 201 nothing) db

  unfoldable pub handle_add_note : String → Option String → Time → Handler F
  handle_add_note target body now = require "gossip" (send_note target body now)

module _ {F : Type 0} where
  abbrev pub send_notes : String → Handler F
  send_notes target u db = respond (list_notes target) (λ ns. write_json 200 (notes ns)) db

  unfoldable pub handle_list_notes : String → Handler F
  handle_list_notes target = require "audit" (send_notes target)

  abbrev pub send_flags : String → Handler F
  send_flags target u db = respond (list_user_flags target) (λ fs. write_json 200 (flags fs)) db

  unfoldable pub handle_list_flags : String → Handler F
  handle_list_flags target = require "audit" (send_flags target)
