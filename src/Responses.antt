-- ===== src/Responses.antt =====
-- src/server/HttpContext.h: the response; src/server/FastCgiServer.cpp: the body of the accept loop in
-- `run`, and `sendResponse`. `S` is whatever state the handlers share; a handler that throws leaves
-- its changes of that state behind, but no response.
pub mod Dispatch
mod Tests
use fileagent_server.Base.{
  ℕ, zero, ◌-◌, ◌%◌, ◌^◌, Bool, true, false, List, [], ◌∷◌, ◌++◌, Option, none, some, ltb, ◌==◌,
  if◌then◌else◌, length,
}
use fileagent_server.Base.Bytes.{Bytes, codes, bytes_key, c_str}
use fileagent_server.Base.Assoc.{insert}
use fileagent_server.Base.Number.{decimal}
use fileagent_server.FastCgiServer.{Fields, HttpRequest, Route, find_route}

pub record HttpResponse : Type 0 where
  pub status_code : ℕ
  pub content_type : Bytes
  pub headers : Fields
  pub body : Bytes

abbrev pub new_response : HttpResponse
new_response = record {
  status_code = 200;
  content_type = codes "text/plain";
  headers = [];
  body = [];
}

unfoldable pub set_header : Bytes → Bytes → HttpResponse → HttpResponse
set_header key value resp = record resp { headers = insert key value resp.headers }

abbrev pub Handler : Type 0 → Type 0
Handler S = HttpRequest → HttpResponse → S → Option HttpResponse × S

abbrev pub json_response : ℕ → Bytes → HttpResponse → HttpResponse
json_response code body resp = record resp {
  status_code = code;
  content_type = codes "application/json";
  body = body;
}

abbrev pub internal_error : HttpResponse
internal_error =
    json_response 500 (codes "{\"code\":500,\"message\":\"internal server error\"}") new_response

abbrev pub not_found : HttpRequest → HttpResponse
not_found req =
    json_response 404
      (codes "{\"code\":404,\"message\":\"route not found: "
        ++ req.method
        ++ codes " "
        ++ req.path
        ++ codes "\"}")
      new_response

-- `try { route.handler(req, resp); } catch ...`
abbrev pub settle : {S : Type 0} → Option HttpResponse × S → HttpResponse × S
settle (some resp, st) = (resp, st)
settle (none, st) = (internal_error, st)

unfoldable pub respond :
    {S : Type 0} → List (Route (Handler S)) → HttpRequest → S → HttpResponse × S
respond routes req st = elim (find_route req.method req.path routes) [
  | some (handler, params) ↦ settle (handler (record req { params = params }) new_response st)
  | none ↦ (not_found req, st)
]

unfoldable pub status_text : ℕ → Bytes
status_text code =
    if code == 400
    then codes "Bad Request"
    else if code == 401
    then codes "Unauthorized"
    else if code == 403
    then codes "Forbidden"
    else if code == 404
    then codes "Not Found"
    else if code == 500
    then codes "Internal Server Error"
    else codes "OK"

-- What `%d` prints of a `size_t` that was cast to `int`.
unfoldable pub int_text : ℕ → Bytes
int_text n =
    let low = n % 2 ^ 32 in if ltb low (2 ^ 31) then decimal low else b'-' ∷ decimal (2 ^ 32 - low)

unfoldable pub header_lines : Fields → Bytes
header_lines [] = []
header_lines ((key, value) ∷ headers) =
    c_str key ++ codes ": " ++ c_str value ++ 13 ∷ 10 ∷ header_lines headers

-- The bytes that `sendResponse` writes; the order of the headers is the one of the map.
unfoldable pub send_response : HttpResponse → Bytes
send_response resp =
    codes "Status: "
    ++ decimal resp.status_code
    ++ codes " "
    ++ status_text resp.status_code
    ++ 13
      ∷ 10
      ∷ (codes "Content-Type: "
          ++ c_str resp.content_type
          ++ 13
            ∷ 10
            ∷ (codes "Content-Length: "
                ++ int_text (length resp.body)
                ++ 13 ∷ 10 ∷ (header_lines resp.headers ++ 13 ∷ 10 ∷ resp.body)))
