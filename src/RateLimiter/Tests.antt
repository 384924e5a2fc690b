-- ===== src/RateLimiter/Tests.antt =====
-- Runs of the limiter, and its theorems at concrete events.
use fileagent_server.Base.{
  ◌≡◌, ◌≤◌, ◌<◌, ◌↔◌, refl, arith, List, [], ◌∷◌, true, false, some, if◌then◌else◌,
}
use fileagent_server.Base.Assoc.{lookup, insert, erase}
use fileagent_server.Base.Bytes.{Bytes, codes, bytes_eq}
use fileagent_server.Base.Int.{pos}
use fileagent_server.FastCgiServer.{
  HttpRequest, split_at, add_header, read_headers, read_body, path_part, query_part, parse_head,
  parse_fcgi_request,
}
use fileagent_server.RateLimiter.Clients.{client_ip, client_ip-parse_fcgi_request}
use fileagent_server.RateLimiter.{create, timestamps, pop_expired, allow, reset}
use fileagent_server.RateLimiter.Windows.{count_in, count_recent}
use fileagent_server.RateLimiter.History.{Event, asks, resets}
use fileagent_server.RateLimiter.Admissions.{observed, observed-bounded, allow-observed}

abbrev here : Bytes
here = codes "10.0.0.1"

abbrev there : Bytes
there = codes "10.0.0.2"

-- Two requests are allowed in 60 ticks: the third one of `here` is too early, the fourth is not.
abbrev events : List Event
events =
    asks here 10 ∷ asks here 20 ∷ asks there 25 ∷ asks here 30 ∷ resets there ∷ asks here 71 ∷ []

log : (observed (pos 2) 60 here events).admitted ≡ 10 ∷ 20 ∷ 71 ∷ []
unfolding create timestamps pop_expired allow reset lookup insert erase
log = refl

refused : (allow here 75 (observed (pos 2) 60 here events).limiter).0 ≡ false
unfolding create timestamps pop_expired allow reset lookup insert erase
refused = refl

observed-bounded_example : count_in 20 60 (observed (pos 2) 60 here events).admitted ≤ 2
observed-bounded_example =
    observed-bounded (pos 2) 60 here events
      (omega arith, (omega arith, (omega arith, (omega arith, (omega arith, tt))))) 20

allow-observed_example :
    ((allow here 75 (observed (pos 2) 60 here events).limiter).0 ≡ true)
    ↔ (count_recent 60 75 (observed (pos 2) 60 here events).admitted < 2)
allow-observed_example =
    allow-observed (pos 2) 60 here events 75
      (omega arith, (omega arith, (omega arith, (omega arith, (omega arith, tt))))) (omega arith)

-- One client, behind a proxy that names it.
abbrev env : Bytes → Bytes
env name =
    if bytes_eq name (codes "REQUEST_METHOD")
    then codes "POST"
    else if bytes_eq name (codes "REQUEST_URI")
    then codes "/api/user/login"
    else if bytes_eq name (codes "HTTP_X_FORWARDED_FOR")
    then codes "10.0.0.1"
    else []

abbrev login_request : HttpRequest
login_request = record {
  method = codes "POST";
  path = codes "/api/user/login";
  params = [];
  queries = [];
  headers = [];
  body = [];
}

login_request_runs : parse_fcgi_request env (λ n. []) ≡ some login_request
unfolding parse_fcgi_request parse_head path_part query_part read_body read_headers add_header
    split_at
login_request_runs = refl

client_ip-parse_fcgi_request_example : client_ip login_request ≡ codes "unknown"
client_ip-parse_fcgi_request_example =
    client_ip-parse_fcgi_request env (λ n. []) login_request login_request_runs
