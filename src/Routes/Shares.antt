-- ===== src/Routes/Shares.antt =====
-- src/main.cpp: the route of the ranking of shares, which another route hides.
use fileagent_server.Base.{
  ◌≡◌, ◌≢◌, sym, ◌∙◌, refl, subst, arith, Bool, true, false, Bool-cases, Option-cases, inl, inr,
  List, [], take, drop, ◌∷◌, ◌++◌, Option, some, none, is_some, if◌then◌else◌,
}
use fileagent_server.Base.Bytes.{Bytes, codes}
use fileagent_server.FastCgiServer.{
  Fields, Route, register_handler, segments_of, non_empty, pieces, is_param, match_path, find_route,
}
use fileagent_server.FastCgiServer.Matching.{Fits, match_path-Fits, find_route-next}
use fileagent_server.Routes.{Handler, share_ranking, share_download, routes}

-- No route in the list has a handler of the kind.
abbrev avoids {ℓ} : {H : Type ℓ} → (H → Bool) → List (Route H) → Bool
avoids kind [] = true
avoids kind (r ∷ rs) = if kind r.handler then false else avoids kind rs

find_route-avoids {ℓ} :
    {H : Type ℓ} (kind : H → Bool) (method path : Bytes) (rs : List (Route H)) (h : H)
    (params : Fields)
    → avoids kind rs ≡ true
    → find_route method path rs ≡ some (h, params)
    → kind h ≡ false
unfolding find_route
find_route-avoids kind method path [] h params a e = absurd (cc)
find_route-avoids kind method path (r ∷ rs) h params a e =
    elim (Option-cases (match_path method path r)) [
      | inl n ↦
          find_route-avoids kind method path rs h params (ground arith)
            (sym (find_route-next method path r rs n) ∙ e)
      | inr (q, m) ↦ ground arith
    ]

-- The same with a route that does not take the request, whatever its handler.
find_route-misses {ℓ} :
    {H : Type ℓ} (kind : H → Bool) (method path : Bytes) (front back : List (Route H)) (r : Route H)
    (h : H) (params : Fields)
    → avoids kind front ≡ true
    → avoids kind back ≡ true
    → match_path method path r ≡ none
    → find_route method path (front ++ r ∷ back) ≡ some (h, params)
    → kind h ≡ false
unfolding find_route
find_route-misses kind method path [] back r h params a b n e =
    find_route-avoids kind method path back h params b
      (sym (find_route-next method path r back n) ∙ e)
find_route-misses kind method path (q ∷ front) back r h params a b n e =
    elim (Option-cases (match_path method path q)) [
      | inl m ↦
          find_route-misses kind method path front back r h params (ground arith) b n
            (sym (find_route-next method path q (front ++ r ∷ back) m) ∙ e)
      | inr (_, m) ↦ ground arith
    ]

-- A route that takes the request hides what comes after it.
find_route-hides {ℓ} :
    {H : Type ℓ} (kind : H → Bool) (method path : Bytes) (front back : List (Route H)) (r : Route H)
    (h : H) (params : Fields)
    → avoids kind front ≡ true
    → kind r.handler ≡ false
    → is_some (match_path method path r) ≡ true
    → find_route method path (front ++ r ∷ back) ≡ some (h, params)
    → kind h ≡ false
unfolding find_route
find_route-hides kind method path [] back r h params a b s e = ground arith
find_route-hides kind method path (q ∷ front) back r h params a b s e =
    elim (Option-cases (match_path method path q)) [
      | inl m ↦
          find_route-hides kind method path front back r h params (ground arith) b s
            (sym (find_route-next method path q (front ++ r ∷ back) m) ∙ e)
      | inr (_, m) ↦ ground arith
    ]

abbrev is_ranking : Handler → Bool
is_ranking share_ranking = true
is_ranking _ = false

abbrev route_of : Bytes → Bytes → Handler → Route Handler
route_of method pattern handler = record {
  method = method;
  pattern = pattern;
  segments = segments_of pattern;
  handler = handler;
}

abbrev by_token : Route Handler
by_token = route_of (codes "GET") (codes "/api/shares/{token}") share_download

abbrev by_ranking : Route Handler
by_ranking = route_of (codes "GET") (codes "/api/shares/ranking") share_ranking

routes-at_token : routes ≡ take 13 routes ++ by_token ∷ drop 14 routes
unfolding routes register_handler
routes-at_token = refl

routes-at_ranking : routes ≡ take 18 routes ++ by_ranking ∷ drop 19 routes
unfolding routes register_handler
routes-at_ranking = refl

avoids_before_token : avoids is_ranking (take 13 routes) ≡ true
unfolding routes register_handler
avoids_before_token = refl

avoids_before_ranking : avoids is_ranking (take 18 routes) ≡ true
unfolding routes register_handler
avoids_before_ranking = refl

avoids_after_ranking : avoids is_ranking (drop 19 routes) ≡ true
unfolding routes register_handler
avoids_after_ranking = refl

-- The path of the ranking fits the pattern with a token.
Fits-token :
    (ss : List Bytes)
    → Fits (segments_of (codes "/api/shares/ranking")) ss
    → Fits (segments_of (codes "/api/shares/{token}")) ss
unfolding segments_of pieces non_empty is_param
Fits-token [] h = absurd h
Fits-token (a ∷ []) h = absurd h.1
Fits-token (a ∷ b ∷ []) h = absurd h.1.1
Fits-token (a ∷ b ∷ c ∷ ss) h = (h.0, (h.1.0, (inl refl, h.1.1.1)))

by_token-takes :
    (method path : Bytes)
    → is_some (match_path method path by_ranking) ≡ true
    → is_some (match_path method path by_token) ≡ true
by_token-takes method path s =
    let (same_method, fits) = (match_path-Fits method path by_ranking).0 s in
    (match_path-Fits method path by_token).1 (same_method, Fits-token (segments_of path) fits)

is_ranking-ne : (h : Handler) → is_ranking h ≡ false → h ≢ share_ranking
is_ranking-ne h e = λ s. ground arith

none_of : {A : Type 0} (o : Option A) → is_some o ≡ false → o ≡ none
none_of none e = refl
none_of (some a) e = cc

-- Whatever the method and the path, the handler of the ranking is never found: the route with a
-- token, which was registered before it, takes all of its requests.
pub find_route-routes :
    (method path : Bytes) (h : Handler) (params : Fields)
    → find_route method path routes ≡ some (h, params)
    → h ≢ share_ranking
find_route-routes method path h params e =
    is_ranking-ne h (elim (Bool-cases (is_some (match_path method path by_ranking))) [
      | inl takes ↦
          find_route-hides is_ranking method path (take 13 routes) (drop 14 routes) by_token h
            params avoids_before_token refl (by_token-takes method path takes)
            (subst (λ rs. find_route method path rs ≡ some (h, params)) routes-at_token e)
      | inr misses ↦
          find_route-misses is_ranking method path (take 18 routes) (drop 19 routes) by_ranking h
            params avoids_before_ranking avoids_after_ranking (none_of _ misses)
            (subst (λ rs. find_route method path rs ≡ some (h, params)) routes-at_ranking e)
    ])
