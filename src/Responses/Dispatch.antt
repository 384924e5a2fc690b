-- ===== src/Responses/Dispatch.antt =====
-- src/server/FastCgiServer.cpp: which handler makes the response, and what it is when there is none.
use fileagent_server.Base.{
  ◌≡◌, ◌∙◌, refl, sym, ap, arith, List, [], ◌∷◌, ◌++◌, none, some, All, Option-cases, inl, inr, ◌⊎◌,
}
use fileagent_server.Base.Bytes.{Bytes}
use fileagent_server.FastCgiServer.{Fields, HttpRequest, Route, match_path, find_route}
use fileagent_server.FastCgiServer.Matching.{find_route-found, find_route-next}
use fileagent_server.Responses.{HttpResponse, new_response, Handler, not_found, settle, respond}

-- One route takes the request, none before it does, and its handler's outcome is the response.
pub record Handled {S : Type 0} (routes : List (Route (Handler S))) (req : HttpRequest) (st : S)
    (out : HttpResponse × S) : Type 0 where
  pub before : List (Route (Handler S))
  pub after : List (Route (Handler S))
  pub route : Route (Handler S)
  pub params : Fields
  pub split : routes ≡ before ++ route ∷ after
  pub others : All (λ q. match_path req.method req.path q ≡ none) before
  pub takes : match_path req.method req.path route ≡ some params
  pub outcome : out ≡ settle (route.handler (record req { params = params }) new_response st)

-- No route takes the request.
abbrev pub Unhandled : {S : Type 0} → List (Route (Handler S)) → HttpRequest → Type 0
Unhandled routes req = All (λ q. match_path req.method req.path q ≡ none) routes

find_route-none :
    {H : Type 0} (method path : Bytes) (routes : List (Route H))
    → find_route method path routes ≡ none
    → All (λ q. match_path method path q ≡ none) routes
unfolding find_route
find_route-none method path [] e = tt
find_route-none method path (r ∷ rs) e = elim (Option-cases (match_path method path r)) [
  | inl n ↦ (n, find_route-none method path rs (sym (find_route-next method path r rs n) ∙ e))
  | inr (params, m) ↦ absurd (ground (arith, m, e))
]

-- Either one route takes the request and no route before it does, and the response is what its
-- handler makes of a new one and of the request with the parameters of that route, or the error 500
-- if the handler throws; or no route takes it, no handler runs, and the response is the error 404.
pub respond-cases :
    {S : Type 0} (routes : List (Route (Handler S))) (req : HttpRequest) (st : S)
    → Handled routes req st (respond routes req st)
      ⊎ (Unhandled routes req × (respond routes req st ≡ (not_found req, st)))
unfolding respond
respond-cases routes req st = elim (Option-cases (find_route req.method req.path routes)) [
  | inl n ↦ inr (find_route-none req.method req.path routes n, rw (n, respond) refl)
  | inr ((handler, params), e) ↦
      let (before, after, r, split, others, handles, takes) =
        find_route-found req.method req.path routes handler params e in
      inl record {
        before = before;
        after = after;
        route = r;
        params = params;
        split = split;
        others = others;
        takes = takes;
        outcome =
            rw (e, respond)
              (ap (λ k. settle (k (record req { params = params }) new_response st)) (sym handles));
      }
]
