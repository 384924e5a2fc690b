-- ===== src/Handlers/Login/Tests.antt =====
-- A login to a server with one user.
use fileagent_server.Base.{◌≡◌, sym, ap, refl, Bool, true, false, [], ◌∷◌, Option, some, none}
use fileagent_server.Base.Assoc.{lookup, insert}
use fileagent_server.Base.Bytes.{Bytes, codes, c_str, bytes_key}
use fileagent_server.Base.Int.{ℤ, pos, int_key}
use fileagent_server.Base.Number.{skip_spaces, stoi, stoll, to_string, decimal, digits_of}
use fileagent_server.Base.Outcome.{Outcome, returned, thrown}
use fileagent_server.AuthService.{login, validate_username, validate_password}
use fileagent_server.CacheInterface.Lru.{lru_cache-IsLawful, create-IsValid}
use fileagent_server.Dao.Login.{FindsCreated}
use fileagent_server.Dao.Rows.{make_session_record}
use fileagent_server.Dao.Sessions
use fileagent_server.Dao.Users
use fileagent_server.Dao.Sessions.{find_session}
use fileagent_server.Database.{Mysql, query, next, value, first_row, run_update, update}
use fileagent_server.FastCgiServer.{HttpRequest, get_header}
use fileagent_server.Hash.{generate_token, char_at, verify_password}
use fileagent_server.LruCache
use fileagent_server.Models.{UserRecord, SessionRecord}
use fileagent_server.RateLimiter
use fileagent_server.RateLimiter.{allow, timestamps, pop_expired}
use fileagent_server.RateLimiter.Clients.{client_ip}
use fileagent_server.Responses.{new_response}
use fileagent_server.StringUtil.{trim_copy, trim_end}
use fileagent_server.Handlers.{Parts, World, token_of, dumped, require_json_body}
use fileagent_server.Handlers.Login.{Answered, handle_login-Answered}
use fileagent_server.Handlers.Tests.{db, parts, anonymous, request}
use fileagent_server.Handlers.Users.{handle_login}

-- A database whose sessions are those of the user 7.
abbrev keeping : Mysql Bool
keeping = record db { execute = λ sql st. (true, true) }

abbrev keeping_parts : Parts Bool Bool Bytes
keeping_parts = record parts { db = keeping }

abbrev start : World keeping_parts
start = record {
  server = true;
  disk = true;
  limiter = RateLimiter.create (pos 10) 60;
  uploads = [];
  sessions = LruCache.create 2;
  by_id = LruCache.create 2;
  by_hash = LruCache.create 2;
}

abbrev IsSeven : ℤ → Type 0
IsSeven id = id ≡ pos 7

abbrev session : SessionRecord
session = record {
  id = pos 1;
  user_id = pos 7;
  session_token = codes "ab";
  expires_at = codes "12";
  created_at = codes "4";
}

selected : (key : Bytes) → find_session keeping key true ≡ returned (some session)
unfolding find_session first_row query next value make_session_record c_str stoll skip_spaces
selected key = refl

keeping-FindsCreated : FindsCreated keeping IsSeven (codes "2025")
unfolding run_update update
keeping-FindsCreated user_id key st seven done = (session, selected key, sym seven)

abbrev id_or_seven : Outcome (Option UserRecord) → ℤ
id_or_seven thrown = pos 7
id_or_seven (returned none) = pos 7
id_or_seven (returned (some user)) = user.id

users :
    (name : Bytes) (st : Bool) (user : UserRecord)
    → Users.find_by_username keeping keeping_parts.prepared name st ≡ returned (some user)
    → IsSeven user.id
unfolding Users.find_by_username Users.make_prepared_user stoi stoll skip_spaces c_str
users name true user h = sym (ap id_or_seven h)
users name false user h = sym (ap id_or_seven h)

-- The name and the password are those of `ann`, who is found by every name.
abbrev login_request : HttpRequest
login_request = record anonymous { body = codes "password" }

abbrev random : Bytes
random = 171 ∷ []

new_token : token_of keeping_parts request ≡ some (generate_token random)
unfolding token_of get_header lookup generate_token char_at
new_token = refl

-- The login answers with more than a message.
logged_in :
    (handle_login keeping_parts 100 random (codes "2025") login_request new_response start).0
    ≡ returned (
        dumped keeping_parts
          ((codes "code", codes "0")
            ∷ (codes "message", codes "login success")
            ∷ (codes "token", codes "ab")
            ∷ (codes "user_id", codes "7")
            ∷ [])
          new_response)
unfolding handle_login require_json_body allow RateLimiter.create client_ip timestamps pop_expired
    insert get_header to_string decimal digits_of lookup login validate_username validate_password
    trim_copy trim_end skip_spaces verify_password c_str generate_token char_at
    Sessions.create_session run_update update Users.find_by_username Users.make_prepared_user stoi
    stoll
logged_in = refl

handle_login-Answered_example :
    Answered keeping_parts login_request request new_response start
      (handle_login keeping_parts 100 random (codes "2025") login_request new_response start)
handle_login-Answered_example =
    handle_login-Answered keeping_parts lru_cache-IsLawful IsSeven (codes "2025")
      keeping-FindsCreated users login_request request new_response random start
      (create-IsValid 2).0 ((create-IsValid 2).1 (generate_token random)) new_token
      (λ j h. (refl, refl)) 100
