-- ===== src/Server/Headers.antt =====
-- The names of headers in AUTH_HEADERS.
use reporting_and_mapping.Prelude.{
  ℕ, ◌≡◌, refl, ap, ◌∙◌, ◌⊎◌, inl, inr, Bool, true, false, List, [], ◌∷◌, ◌++◌, map, not, ◌&&◌, eqb,
  rows_where, All, if◌then◌else◌, arith,
}
use reporting_and_mapping.Importer.Text.{
  Text, is_space, is_empty, trim_space, trim_left, trim_right, split, join,
}
use reporting_and_mapping.Server.{split_csv}

-- The separator is not in the text.
abbrev pub Lacks : ℕ → Text → Type 0
Lacks sep = All (λ c. eqb c sep ≡ false)

abbrev pub IsBlank : Text → Type 0
IsBlank = All (λ c. is_space c ≡ true)

abbrev pub StartsClear : Text → Type 0
StartsClear t = (c : ℕ) × (rest : Text) × (t ≡ c ∷ rest) × (is_space c ≡ false)

abbrev pub EndsClear : Text → Type 0
EndsClear t = (init : Text) × (c : ℕ) × (t ≡ init ++ c ∷ []) × (is_space c ≡ false)

-- What stands between two commas: a name, which may be empty, with blanks around it.
pub record Entry : Type 0 where
  pub left : Text
  pub name : Text
  pub right : Text

abbrev pub written : Entry → Text
written e = e.left ++ (e.name ++ e.right)

-- Only blanks surround the name, no space begins or ends it, and no comma is in it.
abbrev pub IsEntry : Entry → Type 0
IsEntry e =
    IsBlank e.left
    × IsBlank e.right
    × Lacks 44 e.name
    × ((e.name ≡ []) ⊎ (StartsClear e.name × EndsClear e.name))

split-one : (sep : ℕ) (t : Text) → Lacks sep t → split sep t ≡ t ∷ []
split-one sep [] h = refl
split-one sep (c ∷ cs) (h, hs) = rw (h, split-one sep cs hs) refl

split-append :
    (sep : ℕ) (t rest : Text)
    → Lacks sep t
    → eqb sep sep ≡ true
    → split sep (t ++ sep ∷ rest) ≡ t ∷ split sep rest
split-append sep [] rest h r = rw r refl
split-append sep (c ∷ cs) rest (h, hs) r = rw (h, split-append sep cs rest hs r) refl

Lacks-append : (s t : Text) → Lacks 44 s → Lacks 44 t → Lacks 44 (s ++ t)
Lacks-append [] t h k = k
Lacks-append (c ∷ cs) t (h, hs) k = (h, Lacks-append cs t hs k)

-- A comma is no space.
IsBlank-Lacks : (t : Text) → IsBlank t → Lacks 44 t
IsBlank-Lacks [] h = tt
IsBlank-Lacks (c ∷ cs) (h, hs) = (ground arith, IsBlank-Lacks cs hs)

trim_left-append : (l t : Text) → IsBlank l → trim_left (l ++ t) ≡ trim_left t
trim_left-append [] t h = refl
trim_left-append (c ∷ cs) t (h, hs) = rw h (trim_left-append cs t hs)

trim_left-blank : (t : Text) → IsBlank t → trim_left t ≡ []
trim_left-blank [] h = refl
trim_left-blank (c ∷ cs) (h, hs) = rw h (trim_left-blank cs hs)

trim_right-blank : (t : Text) → IsBlank t → trim_right t ≡ []
trim_right-blank [] h = refl
trim_right-blank (c ∷ cs) (h, hs) = rw (h, trim_right-blank cs hs) refl

is_empty-append : (init : Text) (c : ℕ) → is_empty (init ++ c ∷ []) ≡ false
is_empty-append [] c = refl
is_empty-append (x ∷ xs) c = refl

append_assoc : (xs ys zs : Text) → (xs ++ ys) ++ zs ≡ xs ++ (ys ++ zs)
append_assoc [] ys zs = refl
append_assoc (x ∷ xs) ys zs = ap (λ l. x ∷ l) (append_assoc xs ys zs)

trim_right-append :
    (init : Text) (c : ℕ) (r : Text)
    → is_space c ≡ false
    → IsBlank r
    → trim_right (init ++ c ∷ r) ≡ init ++ c ∷ []
trim_right-append [] c r h k = rw (h, trim_right-blank r k) refl
trim_right-append (x ∷ xs) c r h k =
    rw (trim_right-append xs c r h k, is_empty-append xs c) (either (is_space x))
  where
    either : (b : Bool) → (if b && false then [] else x ∷ (xs ++ c ∷ [])) ≡ x ∷ (xs ++ c ∷ [])
    either true = refl
    either false = refl

trim_right-name : (t r : Text) → EndsClear t → IsBlank r → trim_right (t ++ r) ≡ t
trim_right-name t r (init, c, e, h) k =
    rw e (ap trim_right (append_assoc init (c ∷ []) r) ∙ trim_right-append init c r h k)

trim_left-name : (t r : Text) → StartsClear t → trim_left (t ++ r) ≡ t ++ r
trim_left-name t r (c, rest, e, h) = rw (e, h) refl

-- Trimming leaves the name.
trim_space-written : (e : Entry) → IsEntry e → trim_space (written e) ≡ e.name
trim_space-written e (left, right, lacks, inl none) =
    ap trim_right (trim_left-append e.left (e.name ++ e.right) left)
    ∙ rw none (ap trim_right (trim_left-blank e.right right))
trim_space-written e (left, right, lacks, inr (starts, ends)) =
    ap trim_right
      (trim_left-append e.left (e.name ++ e.right) left ∙ trim_left-name e.name e.right starts)
    ∙ trim_right-name e.name e.right ends right

written-Lacks : (e : Entry) → IsEntry e → Lacks 44 (written e)
written-Lacks e (left, right, lacks, _) =
    Lacks-append e.left _ (IsBlank-Lacks e.left left)
      (Lacks-append e.name e.right lacks (IsBlank-Lacks e.right right))

-- The parts that split_csv keeps.
abbrev pub named : List Text → List Text
named = rows_where (λ t. not (is_empty t))

split_csv-parts :
    (es : List Entry) (e : Entry)
    → All IsEntry (e ∷ es)
    → map trim_space (split 44 (join 44 (map written (e ∷ es))))
      ≡ map (λ (x : Entry). x.name) (e ∷ es)
split_csv-parts [] e (h, _) =
    rw (split-one 44 (written e) (written-Lacks e h), trim_space-written e h) refl
split_csv-parts (f ∷ es) e (h, hs) =
    rw
      (
        split-append 44 (written e) (join 44 (map written (f ∷ es))) (written-Lacks e h) refl,
        trim_space-written e h,
      )
      (ap (λ ns. e.name ∷ ns) (split_csv-parts es f hs))

-- Names written with blanks around them and commas between them are read as those names, in their
-- order and without the blanks, less those that are empty.
pub split_csv-join :
    (es : List Entry)
    → All IsEntry es
    → split_csv (join 44 (map written es))
      ≡ rows_where (λ t. not (is_empty t)) (map (λ (e : Entry). e.name) es)
unfolding split_csv
split_csv-join [] h = refl
split_csv-join (e ∷ es) h = ap (rows_where (λ t. not (is_empty t))) (split_csv-parts es e h)
