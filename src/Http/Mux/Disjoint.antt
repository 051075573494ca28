-- ===== src/Http/Mux/Disjoint.antt =====
-- No two patterns of the routes match the same request, so that http.ServeMux neither refuses a
-- pattern nor has to prefer one, and the order in which they are registered does not matter.
use reporting_and_mapping.Prelude.{
  ◌≡◌, refl, sym, ap, ◌∙◌, ◌↔◌, inl, inr, Bool, true, false, String, Option, none, some, List, [],
  ◌∷◌, ◌&&◌, ◌||◌, not, eqb_iff, any, any_of_In, In, here, there, Bool-cases, Option-cases, arith,
}
use mathlib.Core.Path.{subst}
use reporting_and_mapping.Importer.Text.{Text, codes}
use reporting_and_mapping.Http.{same}
use reporting_and_mapping.Http.Mux.{
  Part, literal, wildcard, Endpoint, Pattern, routes, matches_method, match_parts, match_pattern,
  find_pattern, find_route,
}

same_lem : (a b : Text) → same a b ≡ true → a ≡ b
same_lem [] [] h = refl
same_lem [] (y ∷ ys) h = cc
same_lem (x ∷ xs) [] h = cc
same_lem (x ∷ xs) (y ∷ ys) h = ground (arith, same_lem xs ys)

-- A method that both patterns match: the one's own, or HEAD.
abbrev methods_overlap : String → String → Bool
methods_overlap m n =
    matches_method m (codes n) || matches_method m (codes "HEAD") && matches_method n (codes "HEAD")

methods_overlap_lem :
    (m n : String) (method : Text)
    → matches_method m method ≡ true
    → matches_method n method ≡ true
    → methods_overlap m n ≡ true
methods_overlap_lem m n method h k = elim (Bool-cases (same method (codes n))) [
  | inl e ↦
      let at : matches_method m (codes n) ≡ true =
        subst (λ t. matches_method m t ≡ true) (same_lem method (codes n) e) h in
      rw at refl
  | inr e ↦ elim (Bool-cases (same method (codes "HEAD"))) [
    | inl f ↦
        let is = same_lem method (codes "HEAD") f in
        let mine : matches_method m (codes "HEAD") ≡ true =
          subst (λ t. matches_method m t ≡ true) is h in
        let other : matches_method n (codes "HEAD") ≡ true =
          subst (λ t. matches_method n t ≡ true) is k in
        ground arith
    | inr f ↦ ground arith
  ]
]

-- Paths that both lists of parts match.
abbrev parts_overlap : List Part → List Part → Bool
parts_overlap [] [] = true
parts_overlap (literal s ∷ ps) (literal t ∷ qs) = same (codes s) (codes t) && parts_overlap ps qs
parts_overlap (literal s ∷ ps) (wildcard ∷ qs) = parts_overlap ps qs
parts_overlap (wildcard ∷ ps) (literal t ∷ qs) = parts_overlap ps qs
parts_overlap (wildcard ∷ ps) (wildcard ∷ qs) = parts_overlap ps qs
parts_overlap _ _ = false

literal_lem :
    (s : String) (ps : List Part) (t : Text) (ts vs : List Text)
    → match_parts (literal s ∷ ps) (t ∷ ts) ≡ some vs
    → (t ≡ codes s) × (match_parts ps ts ≡ some vs)
literal_lem s ps t ts vs h = elim (Bool-cases (same t (codes s))) [
  | inl e ↦ (same_lem t (codes s) e, (let k = rw e at h in k))
  | inr e ↦ let k = rw e at h in cc
]

wildcard_lem :
    (ps : List Part) (t : Text) (ts vs : List Text)
    → match_parts (wildcard ∷ ps) (t ∷ ts) ≡ some vs
    → (ws : List Text) × (match_parts ps ts ≡ some ws)
wildcard_lem ps t ts vs h = elim (Option-cases (match_parts ps ts)) [
  | inr k ↦ k
  | inl e ↦ let k = rw e at h in cc
]

same_refl : (a : Text) → same a a ≡ true
same_refl [] = refl
same_refl (x ∷ xs) = rw ((eqb_iff x x).1 refl, same_refl xs) refl

no_segments : (p : Part) (ps : List Part) → match_parts (p ∷ ps) [] ≡ none
no_segments (literal s) ps = refl
no_segments wildcard ps = refl

parts_overlap_lem :
    (ps qs : List Part) (ts vs ws : List Text)
    → match_parts ps ts ≡ some vs
    → match_parts qs ts ≡ some ws
    → parts_overlap ps qs ≡ true
parts_overlap_lem [] [] ts vs ws h k = refl
parts_overlap_lem [] (q ∷ qs) [] vs ws h k = let e = no_segments q qs in cc
parts_overlap_lem [] (q ∷ qs) (t ∷ ts) vs ws h k = cc
parts_overlap_lem (p ∷ ps) [] [] vs ws h k = let e = no_segments p ps in cc
parts_overlap_lem (p ∷ ps) [] (t ∷ ts) vs ws h k = cc
parts_overlap_lem (p ∷ ps) (q ∷ qs) [] vs ws h k = let e = no_segments p ps in cc
parts_overlap_lem (literal s ∷ ps) (literal r ∷ qs) (t ∷ ts) vs ws h k =
    let (e, h') = literal_lem s ps t ts vs h in
    let (f, k') = literal_lem r qs t ts ws k in
    let is : same (codes s) (codes r) ≡ true =
      subst (λ x. same x (codes r) ≡ true) (e) (subst (λ x. same t x ≡ true) f (same_refl t)) in
    rw is (parts_overlap_lem ps qs ts vs ws h' k')
parts_overlap_lem (literal s ∷ ps) (wildcard ∷ qs) (t ∷ ts) vs ws h k =
    let (e, h') = literal_lem s ps t ts vs h in
    let (us, k') = wildcard_lem qs t ts ws k in parts_overlap_lem ps qs ts vs us h' k'
parts_overlap_lem (wildcard ∷ ps) (literal r ∷ qs) (t ∷ ts) vs ws h k =
    let (us, h') = wildcard_lem ps t ts vs h in
    let (f, k') = literal_lem r qs t ts ws k in parts_overlap_lem ps qs ts us ws h' k'
parts_overlap_lem (wildcard ∷ ps) (wildcard ∷ qs) (t ∷ ts) vs ws h k =
    let (us, h') = wildcard_lem ps t ts vs h in
    let (us', k') = wildcard_lem qs t ts ws k in parts_overlap_lem ps qs ts us us' h' k'

abbrev overlap : Pattern → Pattern → Bool
overlap p q = methods_overlap p.method q.method && parts_overlap p.parts q.parts

-- The two facts that a match consists of.
match_pattern_lem :
    (p : Pattern) (method : Text) (segments vs : List Text)
    → match_pattern method segments p ≡ some vs
    → (matches_method p.method method ≡ true) × (match_parts p.parts segments ≡ some vs)
match_pattern_lem p method segments vs h = elim (Bool-cases (matches_method p.method method)) [
  | inl e ↦ (e, (let k = rw e at h in k))
  | inr e ↦ let k = rw e at h in cc
]

overlap_lem :
    (p q : Pattern) (method : Text) (segments vs ws : List Text)
    → match_pattern method segments p ≡ some vs
    → match_pattern method segments q ≡ some ws
    → overlap p q ≡ true
overlap_lem p q method segments vs ws h k =
    let (m, a) = match_pattern_lem p method segments vs h in
    let (n, b) = match_pattern_lem q method segments ws k in
    rw
      (
        methods_overlap_lem p.method q.method method m n,
        parts_overlap_lem p.parts q.parts segments vs ws a b,
      )
      refl

abbrev are_disjoint : List Pattern → Bool
are_disjoint [] = true
are_disjoint (p ∷ ps) = not (any (overlap p) ps) && are_disjoint ps

-- Of disjoint patterns, the one that matches is the one that is found, wherever it stands.
found :
    (ps : List Pattern) (p : Pattern) (method : Text) (segments vs : List Text)
    → are_disjoint ps ≡ true
    → In p ps
    → match_pattern method segments p ≡ some vs
    → find_pattern ps method segments ≡ some (p.endpoint, vs)
found [] p method segments vs d m h = elim m [ ]
found (q ∷ qs) p method segments vs d (here e) h =
    let k : match_pattern method segments q ≡ some vs =
      subst (λ r. match_pattern method segments r ≡ some vs) e h in
    rw (find_pattern, k) (ap (λ r. some (r.endpoint, vs)) (sym e))
found (q ∷ qs) p method segments vs d (there m) h =
    elim (Option-cases (match_pattern method segments q)) [
      | inl e ↦ rw (find_pattern, e) (found qs p method segments vs (ground arith) m h)
      | inr (ws, e) ↦
          let both = any_of_In (overlap q) m (overlap_lem q p method segments ws vs e h) in
          ground arith
    ]

some_pair :
    {a b : Endpoint} {us vs : List Text}
    → ◌≡◌ {A = Option (Endpoint × List Text)} (some (a, us)) (some (b, vs))
    → (a ≡ b) × (us ≡ vs)
some_pair h = ground arith

-- What is found is one of the patterns, and it matches.
found_matches :
    (ps : List Pattern) (method : Text) (segments : List Text) (e : Endpoint) (vs : List Text)
    → find_pattern ps method segments ≡ some (e, vs)
    → (p : Pattern) × In p ps × (p.endpoint ≡ e) × (match_pattern method segments p ≡ some vs)
found_matches [] method segments e vs h = cc
found_matches (q ∷ qs) method segments e vs h =
    elim (Option-cases (match_pattern method segments q)) [
      | inl f ↦
          let (p, m, i, k) =
            found_matches qs method segments e vs (let k = rw (find_pattern, f) at h in k) in
          (p, there m, i, k)
      | inr (ws, f) ↦
          let k : some (q.endpoint, ws) ≡ some (e, vs) = rw (find_pattern, f) at h in
          let (i, j) = some_pair k in (q, here refl, i, f ∙ ap some j)
    ]

-- A request goes to an endpoint, with the values of the wildcards, exactly if a registered pattern of
-- that endpoint matches it: no other registered pattern takes it away.
pub find_route_lem :
    (method : Text) (segments : List Text) (e : Endpoint) (vs : List Text)
    → (find_route method segments ≡ some (e, vs)) ↔ (
        (p : Pattern) × In p routes
        × (p.endpoint ≡ e)
        × (match_pattern method segments p ≡ some vs))
unfolding find_route routes
find_route_lem method segments e vs = (
  found_matches routes method segments e vs,
  λ (p, m, i, k). found routes p method segments vs refl m k ∙ ap (λ x. some (x, vs)) i,
)
