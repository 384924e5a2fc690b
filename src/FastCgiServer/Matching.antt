-- ===== src/FastCgiServer/Matching.antt =====
-- src/server/FastCgiServer.cpp: which requests a route takes, and which route takes a request.
use fileagent_server.Base.{
  suc, ◌≡◌, ◌↔◌, ◌∙◌, sym, ap, refl, true, not, List, [], ◌∷◌, ◌++◌, Option, none, some, is_some,
  arith, All, length, ◌==◌, if◌then◌else◌, Bool-cases, Option-cases, inl, inr, ◌⊎◌,
}
use fileagent_server.Base.Bytes.{Bytes, bytes_eq, bytes_eq_iff, bytes_key}
use fileagent_server.Base.Assoc.{insert}
use fileagent_server.FastCgiServer.{
  Fields, Route, segments_of, is_param, param_name, match_segments, match_path, find_route,
}

-- A segment fits a parameter, or the same text.
abbrev pub SegmentFits : Bytes → Bytes → Type 0
SegmentFits p s = (is_param p ≡ true) ⊎ (p ≡ s)

abbrev pub Fits : List Bytes → List Bytes → Type 0
Fits [] [] = Unit
Fits [] (s ∷ ss) = ⊥
Fits (p ∷ ps) [] = ⊥
Fits (p ∷ ps) (s ∷ ss) = SegmentFits p s × Fits ps ss

length-Fits : (ps ss : List Bytes) → Fits ps ss → length ps ≡ length ss
length-Fits [] [] h = refl
length-Fits [] (s ∷ ss) h = absurd h
length-Fits (p ∷ ps) [] h = absurd h
length-Fits (p ∷ ps) (s ∷ ss) h = ap suc (length-Fits ps ss h.1)

match_segments-Fits :
    (ps ss : List Bytes) (params : Fields)
    → length ps ≡ length ss
    → is_some (match_segments ps ss params) ≡ true
    → Fits ps ss
unfolding match_segments
match_segments-Fits [] [] params e h = tt
match_segments-Fits [] (s ∷ ss) params e h = absurd (omega arith)
match_segments-Fits (p ∷ ps) [] params e h = absurd (omega arith)
match_segments-Fits (p ∷ ps) (s ∷ ss) params e h = elim (Bool-cases (is_param p)) [
  | inl c ↦ (
    inl c,
    match_segments-Fits ps ss (insert (param_name p) s params) (omega arith) (ground arith),
  )
  | inr c ↦ (
    inr ((bytes_eq_iff p s).0 (ground arith)),
    match_segments-Fits ps ss params (omega arith) (ground arith),
  )
]

Fits-match_segments :
    (ps ss : List Bytes) (params : Fields)
    → Fits ps ss
    → is_some (match_segments ps ss params) ≡ true
unfolding match_segments
Fits-match_segments [] [] params h = refl
Fits-match_segments [] (s ∷ ss) params h = absurd h
Fits-match_segments (p ∷ ps) [] params h = absurd h
Fits-match_segments (p ∷ ps) (s ∷ ss) params h = ground (
  arith,
  Fits-match_segments ps ss (insert (param_name p) s params) h.1,
  Fits-match_segments ps ss params h.1,
  bytes_eq_iff p s,
)

-- A route takes exactly the requests with its method and a path whose segments are as many as the
-- route's and fit them one by one: any segment fits a parameter, and only itself a fixed segment.
pub match_path-Fits {ℓ} :
    {H : Type ℓ} (method path : Bytes) (r : Route H)
    → (is_some (match_path method path r) ≡ true)
      ↔ ((r.method ≡ method) × Fits r.segments (segments_of path))
unfolding match_path
match_path-Fits method path r = (
  λ h.
      ground
        (arith, bytes_eq_iff r.method method, match_segments-Fits r.segments (segments_of path) []),
  λ h. ground (
    arith,
    bytes_eq_iff r.method method,
    length-Fits r.segments (segments_of path) h.1,
    Fits-match_segments r.segments (segments_of path) [] h.1,
  ),
)

-- What `match_path` does with the segments of the path.
abbrev pub match_by {ℓ} : {H : Type ℓ} → Bytes → List Bytes → Route H → Option Fields
match_by method segs route =
    if not (bytes_eq route.method method)
    then none
    else if not (length route.segments == length segs)
    then none
    else match_segments route.segments segs []

pub match_path-match_by {ℓ} :
    {H : Type ℓ} (method path : Bytes) (segs : List Bytes) (r : Route H)
    → segments_of path ≡ segs
    → match_path method path r ≡ match_by method segs r
unfolding match_path
match_path-match_by method path segs r e = ap (λ x. match_by method x r) e

pub find_route-next {ℓ} :
    {H : Type ℓ} (method path : Bytes) (r : Route H) (rs : List (Route H))
    → match_path method path r ≡ none
    → find_route method path (r ∷ rs) ≡ find_route method path rs
unfolding find_route
find_route-next method path r rs n = rw (n, find_route) refl

-- The first route that takes the request is the one that is found, with its parameters.
pub find_route-first {ℓ} :
    {H : Type ℓ} (method path : Bytes) (before after : List (Route H)) (r : Route H)
    (params : Fields)
    → All (λ q. match_path method path q ≡ none) before
    → match_path method path r ≡ some params
    → find_route method path (before ++ r ∷ after) ≡ some (r.handler, params)
unfolding find_route
find_route-first method path [] after r params h e = rw (e, find_route) refl
find_route-first method path (q ∷ before) after r params h e =
    rw (h.0, find_route) (find_route-first method path before after r params h.1 e)

-- A route that is found takes the request, and no route before it does.
pub find_route-found {ℓ} :
    {H : Type ℓ} (method path : Bytes) (rs : List (Route H)) (h : H) (params : Fields)
    → find_route method path rs ≡ some (h, params)
    → (before after : List (Route H)) × (r : Route H) × (rs ≡ before ++ r ∷ after)
      × All (λ q. match_path method path q ≡ none) before
      × (r.handler ≡ h)
      × (match_path method path r ≡ some params)
unfolding find_route
find_route-found method path [] h params e = absurd (cc)
find_route-found method path (r ∷ rs) h params e = elim (Option-cases (match_path method path r)) [
  | inl n ↦
      let (before, after, q, split, others, handles, takes) =
        find_route-found method path rs h params (sym (find_route-next method path r rs n) ∙ e) in
      (r ∷ before, after, q, ap (◌∷◌ r) split, (n, others), handles, takes)
  | inr (q, m) ↦ ([], rs, r, refl, tt, ground arith, ground arith)
]
