-- ===== src/FastCgiServer.antt =====
-- src/server/FastCgiServer.cpp, FastCgiServer.h and HttpContext.h: the request, the routes and the
-- accept loop. FastCGI itself is outside: the environment of a request is a function from names to
-- values, its input a function from a number of bytes to what is read, and a handler any function
-- of the request.
pub mod Segments
pub mod Matching
pub mod Requests
mod Tests
use Prim.Native.Nat.{min}
use fileagent_server.Base.{
  ℕ, zero, suc, ◌-◌, Bool, true, false, ◌&&◌, not, List, [], ◌∷◌, ◌++◌, Option, none, some, ltb,
  leb, ◌==◌, if◌then◌else◌, length, is_empty, take, drop, get_last?, drop_last,
}
use fileagent_server.Base.Bytes.{Bytes, codes, bytes_eq, bytes_key}
use fileagent_server.Base.Assoc.{lookup, insert}
use fileagent_server.Base.Int.{ℤ, pos, negsuc}
use fileagent_server.Base.Number.{stoi}

abbrev pub Fields : Type 0
Fields = List (Bytes × Bytes)

pub record HttpRequest : Type 0 where
  pub method : Bytes
  pub path : Bytes
  pub params : Fields
  pub queries : Fields
  pub headers : Fields
  pub body : Bytes

-- `it != end() ? it->second : def`
abbrev pub found_or : Bytes → Option Bytes → Bytes
found_or def none = def
found_or def (some v) = v

unfoldable pub get_header : HttpRequest → Bytes → Bytes
get_header req name = found_or [] (lookup name req.headers)

unfoldable pub get_query : HttpRequest → Bytes → Bytes → Bytes
get_query req name def = found_or def (lookup name req.queries)

unfoldable pub get_param : HttpRequest → Bytes → Bytes → Bytes
get_param req name def = found_or def (lookup name req.params)

-- `std::getline` with a delimiter, until it fails; the second argument is the current piece.
unfoldable pub pieces : ℕ → Bytes → Bytes → List Bytes
pieces delim piece [] = if is_empty piece then [] else piece ∷ []
pieces delim piece (b ∷ s) = elim (b == delim) [
  | true ↦ piece ∷ pieces delim [] s
  | false ↦ pieces delim (piece ++ b ∷ []) s
]

-- `if (!seg.empty()) segments.push_back(seg);`
unfoldable pub non_empty : List Bytes → List Bytes
non_empty [] = []
non_empty (p ∷ ps) = if is_empty p then non_empty ps else p ∷ non_empty ps

unfoldable pub segments_of : Bytes → List Bytes
segments_of s = non_empty (pieces b'/' [] s)

pub record Route {ℓ} (H : Type ℓ) : Type ℓ where
  pub method : Bytes
  pub pattern : Bytes
  pub segments : List Bytes
  pub handler : H

unfoldable pub register_handler {ℓ} :
    {H : Type ℓ} → Bytes → Bytes → H → List (Route H) → List (Route H)
register_handler method pattern handler routes =
    routes
    ++ record {
      method = method;
      pattern = pattern;
      segments = segments_of pattern;
      handler = handler;
    }
      ∷ []

-- `pattern_seg.size() > 2 && pattern_seg.front() == '{' && pattern_seg.back() == '}'`
abbrev ends : ℕ → Option ℕ → Bool
ends c none = false
ends c (some d) = d == c

abbrev begins : ℕ → Bytes → Bool
begins c [] = false
begins c (d ∷ s) = d == c

unfoldable pub is_param : Bytes → Bool
is_param seg = ltb 2 (length seg) && (begins b'{' seg && ends b'}' (get_last? seg))

-- `pattern_seg.substr(1, pattern_seg.size() - 2)`
unfoldable pub param_name : Bytes → Bytes
param_name seg = take (length seg - 2) (drop 1 seg)

-- The loop of `matchPath`, over two lists of one length.
unfoldable pub match_segments : List Bytes → List Bytes → Fields → Option Fields
match_segments [] segs params = some params
match_segments (p ∷ ps) [] params = some params
match_segments (p ∷ ps) (s ∷ segs) params =
    let bound = match_segments ps segs (insert (param_name p) s params) in
    let static = match_segments ps segs params in
    if is_param p then bound else if bytes_eq p s then static else none

unfoldable pub match_path {ℓ} : {H : Type ℓ} → Bytes → Bytes → Route H → Option Fields
match_path method path route =
    if not (bytes_eq route.method method)
    then none
    else if not (length route.segments == length (segments_of path))
    then none
    else match_segments route.segments (segments_of path) []

-- The loop over the routes in `run`.
unfoldable pub find_route {ℓ} : {H : Type ℓ} → Bytes → Bytes → List (Route H) → Option (H × Fields)
find_route method path [] = none
find_route method path (r ∷ rs) =
    let later = find_route method path rs in
    elim (match_path method path r) [ some params ↦ some (r.handler, params) | none ↦ later ]

-- The text before and after the first `c`.
unfoldable pub split_at : ℕ → Bytes → Bytes → Option (Bytes × Bytes)
split_at c before [] = none
split_at c before (b ∷ s) = elim (b == c) [
  | true ↦ some (before, s)
  | false ↦ split_at c (before ++ b ∷ []) s
]

-- One piece of the query string.
unfoldable pub add_query : Bytes → Fields → Fields
add_query pair queries = elim (split_at b'=' [] pair) [
  | some (key, value) ↦ insert key value queries
  | none ↦ if is_empty pair then queries else insert pair [] queries
]

unfoldable pub add_queries : List Bytes → Fields → Fields
add_queries [] queries = queries
add_queries (p ∷ ps) queries = add_queries ps (add_query p queries)

-- `if (!value.empty()) req.headers[name] = value;`
unfoldable pub add_header : Bytes → Bytes → Fields → Fields
add_header name value headers = if is_empty value then headers else insert name value headers

unfoldable pub read_headers : (Bytes → Bytes) → Fields
read_headers env = add_header (codes "Cookie") (env (codes "HTTP_COOKIE")) (
    add_header (codes "User-Agent") (env (codes "HTTP_USER_AGENT")) (
      add_header (codes "Content-Length") (env (codes "CONTENT_LENGTH")) (
        add_header (codes "Content-Type") (env (codes "CONTENT_TYPE"))
          (add_header (codes "Authorization") (env (codes "HTTP_AUTHORIZATION")) []))))

-- `none` is the exception of `std::stoi`; `get_str n` is what `FCGX_GetStr` has for `n` bytes.
abbrev body_of : Option ℤ → (ℕ → Bytes) → Option Bytes
body_of none get_str = none
body_of (some (pos n)) get_str = some (if ltb 0 n then get_str n else [])
body_of (some (negsuc n)) get_str = some []

unfoldable pub read_body : (Bytes → Bytes) → (ℕ → Bytes) → Option Bytes
read_body env get_str =
    if is_empty (env (codes "CONTENT_LENGTH"))
    then some []
    else body_of (stoi (env (codes "CONTENT_LENGTH"))) get_str

-- The path and the queries of the URI, split at its first `?` if there is one.
unfoldable pub path_part : Bytes → Option (Bytes × Bytes) → Bytes
path_part uri none = uri
path_part uri (some (path, query)) = path

unfoldable pub query_part : Option (Bytes × Bytes) → Fields
query_part none = []
query_part (some (path, query)) = add_queries (pieces b'&' [] query) []

-- `parseFcgiRequest`, but for the body.
unfoldable pub parse_head : (Bytes → Bytes) → Bytes → HttpRequest
parse_head env body =
    let uri = env (codes "REQUEST_URI") in
    record {
      method = env (codes "REQUEST_METHOD");
      path = path_part uri (split_at b'?' [] uri);
      params = [];
      queries = query_part (split_at b'?' [] uri);
      headers = read_headers env;
      body = body;
    }

unfoldable pub parse_fcgi_request : (Bytes → Bytes) → (ℕ → Bytes) → Option HttpRequest
parse_fcgi_request env get_str = elim (read_body env get_str) [
  | none ↦ none
  | some body ↦ some (parse_head env body)
]
