-- ===== src/Handlers/Served.antt =====
-- src/main.cpp: the routes with their handlers, as `run` of src/server/FastCgiServer.cpp calls them.
use fileagent_server.Base.{
  ℕ, ◌≡◌, ◌∙◌, refl, sym, ap, Bool, List, [], ◌∷◌, Option, none, some, Option-cases, inl, inr,
}
use fileagent_server.Base.Bytes.{Bytes}
use fileagent_server.Base.Int.{ℤ}
use fileagent_server.Base.Outcome.{Outcome, returned, thrown}
use fileagent_server.FastCgiServer.{Fields, HttpRequest, Route, match_path, find_route}
use fileagent_server.FastCgiServer.Matching.{find_route-next, find_route-first}
use fileagent_server.Handlers.{Parts, World, unauthorized}
use fileagent_server.Handlers.Access.{
  Protected, logout, list_files, download, delete, share_create, share_delete, share_list,
  share_save, admin_users, admin_set_status, admin_set_admin, chunk_init, chunk_status, llm_chat,
  llm_analyze, agent_chat, handle, Anonymous, SameData, handle-Anonymous,
}
use fileagent_server.Models.{ServiceResult}
use fileagent_server.Responses.{HttpResponse, new_response, respond}
use fileagent_server.Responses
use fileagent_server.Routes
use fileagent_server.Routes.{routes}

-- What the handlers take from outside: random bytes, times, and the answers of language models.
pub record Outside : Type 0 where
  pub random : Bytes
  pub hours_from_now : ℤ → Bytes
  pub upload_id : Bytes
  pub now : ℕ
  pub chat : Bytes → ServiceResult Bytes
  pub analyze : Bytes → Bytes → ServiceResult Bytes
  pub initialized : Bool
  pub agent : Bytes → ℤ → Bytes

-- The handlers of the routes that are in `Protected`.
unfoldable pub as_protected : Outside → Routes.Handler → Option Protected
as_protected o Routes.logout = some logout
as_protected o Routes.list_files = some list_files
as_protected o Routes.download = some download
as_protected o Routes.delete = some delete
as_protected o Routes.share_create = some (share_create o.random o.hours_from_now)
as_protected o Routes.share_delete = some share_delete
as_protected o Routes.share_list = some share_list
as_protected o Routes.share_save = some share_save
as_protected o Routes.admin_users = some admin_users
as_protected o Routes.admin_set_status = some admin_set_status
as_protected o Routes.admin_set_admin = some admin_set_admin
as_protected o Routes.chunk_init = some (chunk_init o.upload_id o.now)
as_protected o Routes.chunk_status = some chunk_status
as_protected o Routes.llm_chat = some (llm_chat o.chat)
as_protected o Routes.llm_analyze = some (llm_analyze o.analyze)
as_protected o Routes.agent_chat = some (agent_chat o.initialized o.agent)
as_protected o Routes.health = none
as_protected o Routes.register = none
as_protected o Routes.login = none
as_protected o Routes.file_check = none
as_protected o Routes.chunk_complete = none
as_protected o Routes.chunk_upload = none
as_protected o Routes.upload = none
as_protected o Routes.share_download = none
as_protected o Routes.share_ranking = none
as_protected o Routes.search = none

-- A route with the function that its handler names.
abbrev bound_one : {H G : Type 0} → (H → G) → Route H → Route G
bound_one f r = record {
  method = r.method;
  pattern = r.pattern;
  segments = r.segments;
  handler = f r.handler;
}

abbrev pub bound : {H G : Type 0} → (H → G) → List (Route H) → List (Route G)
bound f [] = []
bound f (r ∷ rs) = bound_one f r ∷ bound f rs

abbrev applied : {H G : Type 0} → (H → G) → Option (H × Fields) → Option (G × Fields)
applied f none = none
applied f (some (h, params)) = some (f h, params)

match_path-bound_one :
    {H G : Type 0} (f : H → G) (method path : Bytes) (r : Route H)
    → match_path method path (bound_one f r) ≡ match_path method path r
unfolding match_path
match_path-bound_one f method path r = refl

find_route-bound :
    {H G : Type 0} (f : H → G) (method path : Bytes) (rs : List (Route H))
    → find_route method path (bound f rs) ≡ applied f (find_route method path rs)
unfolding find_route
find_route-bound f method path [] = refl
find_route-bound f method path (r ∷ rs) = elim (Option-cases (match_path method path r)) [
  | inl n ↦
      find_route-next method path (bound_one f r) (bound f rs)
        (match_path-bound_one f method path r ∙ n)
      ∙ find_route-bound f method path rs
      ∙ ap (applied f) (sym (find_route-next method path r rs n))
  | inr (q, m) ↦
      find_route-first method path [] (bound f rs) (bound_one f r) q tt
        (match_path-bound_one f method path r ∙ m)
      ∙ ap (applied f) (sym (find_route-first method path [] rs r q tt m))
]

module _ {S D J : Type 0} (parts : Parts S D J) (o : Outside)
    (others : Routes.Handler → Responses.Handler (World parts)) where
  abbrev response : Outcome HttpResponse → Option HttpResponse
  response thrown = none
  response (returned resp) = some resp

  abbrev function_of : Routes.Handler → Option Protected → Responses.Handler (World parts)
  function_of h none = others h
  function_of h (some p) =
      λ req resp w. (response (handle parts p req resp w).0, (handle parts p req resp w).1)

  -- The table of `main`; the handlers that are not in `Protected` are whatever `others` are.
  abbrev pub served : List (Route (Responses.Handler (World parts)))
  served = bound (λ h. function_of h (as_protected o h)) routes

  -- A request whose method and path belong, in the table of `main`, to a handler of `Protected`,
  -- and for which there is no session, is answered 401 by the server, and changes neither the
  -- database nor the contents of files nor the caches of files.
  pub respond-served :
      (req : HttpRequest) (w : World parts) (h : Routes.Handler) (p : Protected) (params : Fields)
      → find_route req.method req.path routes ≡ some (h, params)
      → as_protected o h ≡ some p
      → Anonymous parts (record req { params = params }) w
      → ((respond served req w).0 ≡ unauthorized parts new_response)
        × SameData parts w (respond served req w).1
  unfolding respond
  respond-served req w h p params e guarded nobody =
      let found =
        find_route-bound (λ h. function_of h (as_protected o h)) req.method req.path routes
        ∙ ap (applied (λ h. function_of h (as_protected o h))) e in
      let (answer, same) =
        handle-Anonymous parts p (record req { params = params }) new_response w nobody in
      rw (respond, found, guarded, answer) (refl, same)
