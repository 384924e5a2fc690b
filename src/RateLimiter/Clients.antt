-- ===== src/RateLimiter/Clients.antt =====
-- src/main.cpp: the address by which the handlers of registration and login limit their requests.
use fileagent_server.Base.{ℕ, ◌≡◌, refl, some, is_empty, if◌then◌else◌}
use fileagent_server.Base.Bytes.{Bytes, codes}
use fileagent_server.FastCgiServer.{HttpRequest, get_header, parse_fcgi_request}
use fileagent_server.FastCgiServer.Requests.{get_header-parse_fcgi_request}

-- The first lines of `handleRegister` and of `handleLogin`.
unfoldable pub client_ip : HttpRequest → Bytes
client_ip req =
    let forwarded = get_header req (codes "X-Forwarded-For") in
    let remote = get_header req (codes "Remote-Addr") in
    let ip = if is_empty forwarded then remote else forwarded in
    if is_empty ip then codes "unknown" else ip

-- Every request that the server parses, from whatever client, has the address "unknown".
pub client_ip-parse_fcgi_request :
    (env : Bytes → Bytes) (get_str : ℕ → Bytes) (req : HttpRequest)
    → parse_fcgi_request env get_str ≡ some req
    → client_ip req ≡ codes "unknown"
unfolding client_ip
client_ip-parse_fcgi_request env get_str req e =
    rw
      (
        get_header-parse_fcgi_request env get_str req (codes "X-Forwarded-For") e refl,
        get_header-parse_fcgi_request env get_str req (codes "Remote-Addr") e refl,
      )
      refl
