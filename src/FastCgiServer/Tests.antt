-- ===== src/FastCgiServer/Tests.antt =====
-- Runs of the server, and its theorems at concrete requests and routes.
use fileagent_server.Base.{
  ℕ, ◌≡◌, ◌↔◌, refl, List, [], ◌∷◌, true, some, All, is_some, take, if◌then◌else◌,
}
use fileagent_server.Base.Bytes.{Bytes, codes, bytes_eq}
use fileagent_server.Base.Assoc.{insert}
use fileagent_server.Base.Number.{stoi}
use fileagent_server.FastCgiServer.{
  HttpRequest, Route, register_handler, get_header, pieces, non_empty, segments_of, is_param,
  param_name, match_segments, match_path, find_route, split_at, add_query, add_queries, add_header,
  read_headers, read_body, path_part, query_part, parse_head, parse_fcgi_request,
}
use fileagent_server.FastCgiServer.Segments.{
  IsSegment, render, segments_of-render, segments_of-IsSegment,
}
use fileagent_server.FastCgiServer.Matching.{Fits, match_path-Fits}
use fileagent_server.FastCgiServer.Requests.{get_header-parse_fcgi_request}

-- `GET /a//{b}/c?x=1&y&=z`, with a header and five bytes of body.
abbrev env : Bytes → Bytes
env name =
    if bytes_eq name (codes "REQUEST_METHOD")
    then codes "GET"
    else if bytes_eq name (codes "REQUEST_URI")
    then codes "/a//7/c?x=1&y"
    else if bytes_eq name (codes "HTTP_AUTHORIZATION")
    then codes "Bearer t"
    else if bytes_eq name (codes "HTTP_X_FORWARDED_FOR")
    then codes "10.0.0.1"
    else if bytes_eq name (codes "CONTENT_LENGTH")
    then codes "5"
    else []

abbrev input : ℕ → Bytes
input n = take n (codes "hello, world")

abbrev parsed : HttpRequest
parsed = record {
  method = codes "GET";
  path = codes "/a//7/c";
  params = [];
  queries = (codes "x", codes "1") ∷ (codes "y", []) ∷ [];
  headers = (codes "Authorization", codes "Bearer t") ∷ (codes "Content-Length", codes "5") ∷ [];
  body = codes "hello";
}

parse_runs : parse_fcgi_request env input ≡ some parsed
unfolding parse_fcgi_request parse_head path_part query_part read_body read_headers add_header
    add_queries add_query split_at pieces insert stoi
parse_runs = refl

abbrev table : List (Route ℕ)
table = register_handler (codes "GET") (codes "/a/{id}/c") 2 (
    register_handler (codes "POST") (codes "/a/{id}/c") 1
      (register_handler (codes "GET") (codes "/a/{id}") 0 []))

found_runs :
    find_route (codes "GET") (codes "/a//7/c") table ≡ some (2, (codes "id", codes "7") ∷ [])
unfolding find_route match_path match_segments segments_of non_empty pieces is_param param_name
    register_handler insert
found_runs = refl

get_header-parse_fcgi_request_example : get_header parsed (codes "X-Forwarded-For") ≡ []
get_header-parse_fcgi_request_example =
    get_header-parse_fcgi_request env input parsed (codes "X-Forwarded-For") parse_runs refl

path_segments : All IsSegment (codes "a" ∷ codes "7" ∷ [])
unfolding segments_of non_empty pieces
path_segments = segments_of-IsSegment (codes "a/7")

segments_of-render_example :
    segments_of (render (codes "a" ∷ codes "7" ∷ [])) ≡ codes "a" ∷ codes "7" ∷ []
segments_of-render_example = segments_of-render (codes "a" ∷ codes "7" ∷ []) path_segments

abbrev first : Route ℕ
first = record {
  method = codes "GET";
  pattern = codes "/a/{id}";
  segments = codes "a" ∷ codes "{id}" ∷ [];
  handler = 0;
}

match_path-Fits_example :
    (is_some (match_path (codes "GET") (codes "/a/7") first) ≡ true)
    ↔ ((first.method ≡ codes "GET") × Fits first.segments (segments_of (codes "/a/7")))
match_path-Fits_example = match_path-Fits (codes "GET") (codes "/a/7") first
