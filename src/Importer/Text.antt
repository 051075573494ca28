-- ===== src/Importer/Text.antt =====
-- The functions of Go's package strings that the importer and the server call, on lists of code
-- points. Lower case is a parameter: the Unicode table of unicode.ToLower.
use Prim.Native.Char.{code}
use reporting_and_mapping.Prelude.{
  ℕ, ◌≡◌, refl, Bool, true, false, String, List, [], ◌∷◌, ◌++◌, map, ◌&&◌, ◌||◌, eqb, leb,
  if◌then◌else◌, Bool-cases, inl, inr, eqb_refl, arith,
}

abbrev pub Text : Type 0
Text = List ℕ

abbrev pub codes : String → Text
codes String.[] = []
codes (String.◌∷◌ c s) = code c ∷ codes s

pub record Unicode : Type 0 where
  -- unicode.ToLower
  pub lower : ℕ → ℕ

-- strings.HasPrefix
abbrev pub has_prefix : Text → Text → Bool
has_prefix s [] = true
has_prefix [] (p ∷ ps) = false
has_prefix (c ∷ cs) (p ∷ ps) = eqb c p && has_prefix cs ps

-- strings.Contains
abbrev pub contains : Text → Text → Bool
contains [] sub = has_prefix [] sub
contains (c ∷ cs) sub = has_prefix (c ∷ cs) sub || contains cs sub

-- strings.ToLower
abbrev pub to_lower : ⦃un : Unicode⦄ → Text → Text
to_lower ⦃un⦄ = map un.lower

-- unicode.IsSpace
abbrev pub is_space : ℕ → Bool
is_space c =
    leb 9 c && leb c 13
    || eqb c 32
    || eqb c 133
    || eqb c 160
    || eqb c 5760
    || leb 8192 c && leb c 8202
    || leb 8232 c && leb c 8233
    || eqb c 8239
    || eqb c 8287
    || eqb c 12288

abbrev pub is_empty : Text → Bool
is_empty [] = true
is_empty (c ∷ cs) = false

abbrev pub trim_left : Text → Text
trim_left [] = []
trim_left (c ∷ cs) = let rest = trim_left cs in if is_space c then rest else c ∷ cs

abbrev pub trim_right : Text → Text
trim_right [] = []
trim_right (c ∷ cs) =
    let rest = trim_right cs in if is_space c && is_empty rest then [] else c ∷ rest

-- strings.TrimSpace
abbrev pub trim_space : Text → Text
trim_space s = trim_right (trim_left s)

-- A character before the first of some parts.
abbrev pub prepend : ℕ → List Text → List Text
prepend c [] = (c ∷ []) ∷ []
prepend c (part ∷ parts) = (c ∷ part) ∷ parts

-- strings.Split with a separator of one character
abbrev pub split : ℕ → Text → List Text
split sep [] = [] ∷ []
split sep (c ∷ cs) = let rest = split sep cs in if eqb c sep then [] ∷ rest else prepend c rest

abbrev at_space : Text → Bool
at_space [] = true
at_space (c ∷ cs) = is_space c

-- strings.Fields
abbrev pub fields : Text → List Text
fields [] = []
fields (c ∷ cs) =
    let rest = fields cs in
    if is_space c then rest else if at_space cs then (c ∷ []) ∷ rest else prepend c rest

abbrev pub join : ℕ → List Text → Text
join sep [] = []
join sep (part ∷ []) = part
join sep (part ∷ next ∷ parts) = part ++ sep ∷ join sep (next ∷ parts)

has_prefix-++ : (p s : Text) → has_prefix (p ++ s) p ≡ true
has_prefix-++ [] [] = refl
has_prefix-++ [] (c ∷ cs) = refl
has_prefix-++ (p ∷ ps) s = rw (eqb_refl p, has_prefix-++ ps s) refl

pub has_prefix_rest : (s p : Text) → has_prefix s p ≡ true → (post : Text) × (s ≡ p ++ post)
has_prefix_rest s [] h = (s, refl)
has_prefix_rest [] (p ∷ ps) h = cc
has_prefix_rest (c ∷ cs) (p ∷ ps) h =
    let (post, e) = has_prefix_rest cs ps (ground arith) in
    let same : c ≡ p = ground arith in (post, rw same (λ i. p ∷ e i))

-- A text occurs in another one at some place.
abbrev pub Occurs : Text → Text → Type 0
Occurs sub s = (pre : Text) × (post : Text) × (s ≡ pre ++ (sub ++ post))

pub contains-Occurs : (s sub : Text) → contains s sub ≡ true → Occurs sub s
contains-Occurs [] sub h = let (post, e) = has_prefix_rest [] sub h in ([], post, e)
contains-Occurs (c ∷ cs) sub h = elim (Bool-cases (has_prefix (c ∷ cs) sub)) [
  | inl t ↦ let (post, e) = has_prefix_rest (c ∷ cs) sub t in ([], post, e)
  | inr t ↦
      let (pre, post, e) = contains-Occurs cs sub (ground arith) in (c ∷ pre, post, λ i. c ∷ e i)
]

pub contains-of_Occurs : (pre sub post : Text) → contains (pre ++ (sub ++ post)) sub ≡ true
contains-of_Occurs [] [] [] = refl
contains-of_Occurs [] [] (c ∷ post) = refl
contains-of_Occurs [] (p ∷ ps) post = rw (eqb_refl p, has_prefix-++ ps post) refl
contains-of_Occurs (c ∷ pre) sub post =
    let rest = contains-of_Occurs pre sub post in rw rest (ground arith)
