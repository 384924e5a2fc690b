-- ===== src/FastCgiServer/Requests.antt =====
-- src/server/FastCgiServer.cpp: what `parseFcgiRequest` puts into a request.
use fileagent_server.Base.{
  ℕ, ◌||◌, ◌≡◌, ◌∙◌, refl, sym, ap, arith, Bool, false, [], none, some, Option-cases, inl, inr, ◌⊎◌,
}
use fileagent_server.Base.Bytes.{Bytes, codes, bytes_eq, bytes_key}
use fileagent_server.Base.Assoc.{lookup, lookup-insert}
use fileagent_server.FastCgiServer.{
  Fields, HttpRequest, get_header, found_or, add_header, read_headers, read_body, parse_head,
  parse_fcgi_request,
}

-- The names of the headers that are read.
abbrev pub is_read : Bytes → Bool
is_read name =
    bytes_eq (codes "Authorization") name
    || (bytes_eq (codes "Content-Type") name
        || (bytes_eq (codes "Content-Length") name
            || (bytes_eq (codes "User-Agent") name || bytes_eq (codes "Cookie") name)))

-- A header that is added under another name is not seen.
lookup-add_header :
    (key name value : Bytes) (headers : Fields)
    → bytes_eq key name ≡ false
    → lookup name (add_header key value headers) ≡ lookup name headers
unfolding add_header
lookup-add_header key name value headers n = ground (arith, lookup-insert key name value headers)

lookup-read_headers :
    (env : Bytes → Bytes) (name : Bytes)
    → is_read name ≡ false
    → lookup name (read_headers env) ≡ none
unfolding read_headers
lookup-read_headers env name n =
    lookup-add_header (codes "Cookie") name _ _ (ground arith)
    ∙ lookup-add_header (codes "User-Agent") name _ _ (ground arith)
    ∙ lookup-add_header (codes "Content-Length") name _ _ (ground arith)
    ∙ lookup-add_header (codes "Content-Type") name _ _ (ground arith)
    ∙ lookup-add_header (codes "Authorization") name _ _ (ground arith)
    ∙ (unfold lookup in refl)

parse_fcgi_request-cases :
    (env : Bytes → Bytes) (get_str : ℕ → Bytes)
    → (parse_fcgi_request env get_str ≡ none)
      ⊎ ((body : Bytes) × (parse_fcgi_request env get_str ≡ some (parse_head env body)))
unfolding parse_fcgi_request
parse_fcgi_request-cases env get_str = elim (Option-cases (read_body env get_str)) [
  | inl r ↦ inl (rw (r, parse_fcgi_request) refl)
  | inr (body, r) ↦ inr (body, rw (r, parse_fcgi_request) refl)
]

parsed-headers :
    (env : Bytes → Bytes) (get_str : ℕ → Bytes) (req : HttpRequest)
    → parse_fcgi_request env get_str ≡ some req
    → req.headers ≡ read_headers env
unfolding parse_head
parsed-headers env get_str req e = elim (parse_fcgi_request-cases env get_str) [
  | inl n ↦ absurd (cc (n, e))
  | inr (body, h) ↦
      let same : some (parse_head env body) ≡ some req = sym h ∙ e in
      ap (λ o. elim o [ none ↦ [] | some r ↦ r.headers ]) (sym same)
]

-- Of a request that was parsed, every header but the five that are read is empty.
pub get_header-parse_fcgi_request :
    (env : Bytes → Bytes) (get_str : ℕ → Bytes) (req : HttpRequest) (name : Bytes)
    → parse_fcgi_request env get_str ≡ some req
    → is_read name ≡ false
    → get_header req name ≡ []
unfolding get_header
get_header-parse_fcgi_request env get_str req name e n =
    ap (λ hs. found_or [] (lookup name hs)) (parsed-headers env get_str req e)
    ∙ ap (found_or []) (lookup-read_headers env name n)
