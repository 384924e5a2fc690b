-- ===== src/Responses/Tests.antt =====
-- Runs of the server's answers, and their theorem at a concrete table of routes.
use fileagent_server.Base.{ℕ, suc, ◌≡◌, ◌⊎◌, refl, List, [], ◌∷◌, ◌++◌, some, none}
use fileagent_server.Base.Bytes.{c_str, Bytes, codes, bytes_key}
use fileagent_server.Base.Assoc.{insert}
use fileagent_server.Base.Number.{decimal, digits_of}
use fileagent_server.FastCgiServer.{
  HttpRequest, Route, register_handler, pieces, non_empty, segments_of, is_param, param_name,
  match_segments, match_path, find_route,
}
use fileagent_server.Responses.{
  new_response, set_header, Handler, internal_error, not_found, respond, status_text, int_text,
  header_lines, send_response,
}
use fileagent_server.Responses.Dispatch.{Handled, Unhandled, respond-cases}

-- The handlers count how often they run; the second one throws.
abbrev greet : Handler ℕ
greet req resp n =
    (some (set_header (codes "X") (codes "y") (record resp { body = codes "hi" })), suc n)

abbrev fail : Handler ℕ
fail req resp n = (none, suc n)

abbrev table : List (Route (Handler ℕ))
table =
    register_handler (codes "GET") (codes "/fail") fail
      (register_handler (codes "GET") (codes "/greet/{who}") greet [])

abbrev request : Bytes → HttpRequest
request path = record {
  method = codes "GET";
  path = path;
  params = [];
  queries = [];
  headers = [];
  body = [];
}

greeting :
    respond table (request (codes "/greet/me")) 0
    ≡ (record new_response { headers = (codes "X", codes "y") ∷ []; body = codes "hi" }, 1)
unfolding respond find_route match_path match_segments segments_of non_empty pieces is_param
    param_name register_handler insert set_header
greeting = refl

failure : respond table (request (codes "/fail")) 0 ≡ (internal_error, 1)
unfolding respond find_route match_path match_segments segments_of non_empty pieces is_param
    param_name register_handler
failure = refl

nowhere : respond table (request (codes "/x")) 0 ≡ (not_found (request (codes "/x")), 0)
unfolding respond find_route match_path match_segments segments_of non_empty pieces is_param
    param_name register_handler
nowhere = refl

abbrev line : Bytes → Bytes
line s = s ++ 13 ∷ 10 ∷ []

sent :
    send_response (record new_response { headers = (codes "X", codes "y") ∷ []; body = codes "hi" })
    ≡ line (codes "Status: 200 OK")
      ++ line (codes "Content-Type: text/plain")
      ++ line (codes "Content-Length: 2")
      ++ line (codes "X: y")
      ++ line []
      ++ codes "hi"
unfolding send_response header_lines int_text c_str status_text decimal digits_of
sent = refl

respond-cases_example :
    Handled table (request (codes "/fail")) 0 (respond table (request (codes "/fail")) 0)
    ⊎ (Unhandled table (request (codes "/fail"))
        × (respond table (request (codes "/fail")) 0 ≡ (not_found (request (codes "/fail")), 0)))
respond-cases_example = respond-cases table (request (codes "/fail")) 0
