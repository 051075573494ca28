-- ===== src/Api/Auth.antt =====
-- internal/auth/auth.go: the configuration, and the subject that the headers of a request name.
-- strings.TrimSpace is the argument `trim`. Middleware is in Http/Serve.
use reporting_and_mapping.Prelude.{
  ◌≡◌, refl, String, List, [], ◌∷◌, ◌==◌, eq_iff, if◌then◌else◌, In, here, there,
}

-- auth.Config
pub record Config : Type 0 where
  pub identity_headers : List String
  pub dev_subject : String

abbrev pub default_config : Config
default_config = record {
  identity_headers = "X-Forwarded-Email" ∷ "X-Forwarded-User" ∷ [];
  dev_subject = "";
}

-- r.Header.Get(name), the empty text where the header is not there
abbrev pub Headers : Type 0
Headers = String → String

-- The first header with text in it, else the development subject.
unfoldable pub extract_subject : (String → String) → Headers → List String → String → String
extract_subject trim get [] dev = dev
extract_subject trim get (h ∷ hs) dev =
    let rest = extract_subject trim get hs dev in if trim (get h) == "" then rest else trim (get h)

pub extract_subject_nobody :
    (trim : String → String) (get : Headers) (hs : List String) (dev : String)
    → ((h : String) → In h hs → trim (get h) ≡ "")
    → dev ≡ ""
    → extract_subject trim get hs dev ≡ ""
unfolding extract_subject
extract_subject_nobody trim get [] dev none e = e
extract_subject_nobody trim get (h ∷ hs) dev none e =
    rw ((eq_iff _ "").1 (none h (here refl)))
      (extract_subject_nobody trim get hs dev (λ g m. none g (there m)) e)
