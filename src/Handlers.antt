-- ===== src/Handlers.antt =====
-- src/main.cpp: what the handlers share. The JSON library is the record `Json`, over any type of
-- values.
pub mod Files
pub mod Shares
pub mod Admin
pub mod Assistant
pub mod Ranking
pub mod Chunks
pub mod Served
pub mod Access
pub mod Logout
pub mod Copies
pub mod Owners
pub mod Users
pub mod Login
mod Tests
use fileagent_server.Base.{
  ℕ, Bool, true, false, not, ◌&&◌, ◌||◌, List, [], ◌∷◌, ◌++◌, Option, none, some, leb, ◌==◌,
  if◌then◌else◌, length, is_empty, take, drop,
}
use fileagent_server.Base.Bytes.{Bytes, codes, bytes_eq}
use fileagent_server.Base.Int.{ℤ, pos, eq_ℤ}
use fileagent_server.Base.Number.{stoi}
use fileagent_server.Base.Outcome.{Outcome, returned, thrown, or_throw, M, pure, bind, ◌>>=◌, tries}
use fileagent_server.CacheInterface.{CacheInterface}
use fileagent_server.Dao.Sessions.{SessionStore, find_by_token}
use fileagent_server.Database.{Mysql, Row}
use fileagent_server.FastCgiServer.{HttpRequest, get_header}
use fileagent_server.FileService.{FileStore}
use fileagent_server.Models.{FileRecord, SessionRecord, UserRecord}
use fileagent_server.RateLimiter.{RateLimiter}
use fileagent_server.ChunkUpload
use fileagent_server.Responses.{HttpResponse, json_response}
use fileagent_server.Storage.{Backend}

-- nlohmann::json. A value of another type is an exception, and so is a text that is no JSON. To read
-- a key that an object lacks is undefined for the `operator[]` of a constant value, which the handlers
-- use; here it is an exception, and `lacks` tells of it. `dump` throws where a string is not UTF-8,
-- of which `is_utf8` tells.
pub record Json (J : Type 0) : Type 0 where
  pub parse : Bytes → Option J
  pub dump : J → Bytes
  pub is_utf8 : J → Bool
  pub lacks : Bytes → J → Bool
  pub text : Bytes → J
  pub number : ℤ → J
  pub flag : Bool → J
  pub array : List J → J
  pub object : List (Bytes × J) → J
  pub get_text : Bytes → J → Option Bytes
  pub get_int64 : Bytes → J → Option ℤ
  pub get_int : Bytes → J → Option ℤ
  pub get_flag : Bytes → J → Option Bool

-- The parts that the handlers reach: the database, the contents of files, JSON and the three caches;
-- `data_path` is `g_fastdfs_data_path`.
pub record Parts (S D J : Type 0) : Type 1 where
  pub db : Mysql S
  pub backend : Backend D
  pub json : Json J
  pub sessions : CacheInterface Bytes SessionRecord
  pub by_id : CacheInterface ℤ FileRecord
  pub by_hash : CacheInterface Bytes FileRecord
  pub data_path : Bytes
  -- The first row of a prepared statement with one text, and crypt_r.
  pub prepared : Bytes → Bytes → S → Option Row
  pub crypt : Bytes → Bytes → Option Bytes

module _ {S D J : Type 0} (parts : Parts S D J) where
  pub record World : Type 0 where
    pub server : S
    pub disk : D
    pub limiter : RateLimiter
    pub uploads : ChunkUpload.Sessions
    pub sessions : parts.sessions.State
    pub by_id : parts.by_id.State
    pub by_hash : parts.by_hash.State

  -- The calls of the parts, on the whole.
  abbrev pub session_store : World → SessionStore parts.db parts.sessions
  session_store w = record { server = w.server; cache = w.sessions }

  abbrev pub file_store : World → FileStore parts.db parts.by_id parts.by_hash
  file_store w = record { server = w.server; by_id = w.by_id; by_hash = w.by_hash }

  abbrev pub with_sessions : World → SessionStore parts.db parts.sessions → World
  with_sessions w s = record w { server = s.server; sessions = s.cache }

  abbrev pub with_files : World → FileStore parts.db parts.by_id parts.by_hash → World
  with_files w s = record w { server = s.server; by_id = s.by_id; by_hash = s.by_hash }

  abbrev pub on_sessions : {A : Type 0} → M (SessionStore parts.db parts.sessions) A → M World A
  on_sessions m w = let (a, s) = m (session_store w) in (a, with_sessions w s)

  abbrev pub on_files :
      {A : Type 0} → M (FileStore parts.db parts.by_id parts.by_hash) A → M World A
  on_files m w = let (a, s) = m (file_store w) in (a, with_files w s)

  abbrev pub on_server : {A : Type 0} → (S → A × S) → M World A
  on_server f w = let (a, st) = f w.server in (returned a, record w { server = st })

  abbrev pub on_disk : {A : Type 0} → (D → A × D) → M World A
  on_disk f w = let (a, d) = f w.disk in (returned a, record w { disk = d })

  abbrev pub ask_server : {A : Type 0} → (S → Outcome A) → M World A
  ask_server f = tries (λ w. f w.server)

  -- A conversion, or a value of a JSON body.
  abbrev pub converted : {A : Type 0} → Option A → M World A
  converted o = tries (λ w. or_throw o)

  abbrev pub Handled : Type 0
  Handled = M World HttpResponse

  -- The messages of the program are ASCII; what a model says goes by `answered`.
  unfoldable pub make_json_response : ℤ → Bytes → HttpResponse → HttpResponse
  make_json_response code message resp =
      json_response 200
        (parts.json.dump (
          parts.json.object (
            (codes "code", parts.json.number code)
            ∷ (codes "message", parts.json.text message)
            ∷ [])))
        resp

  -- `resp.contentType = "application/json"; resp.body = j.dump();`
  abbrev pub dumped : List (Bytes × J) → HttpResponse → HttpResponse
  dumped fields resp = record resp {
    content_type = codes "application/json";
    body = parts.json.dump (parts.json.object fields);
  }

  abbrev pub answered : List (Bytes × J) → HttpResponse → Handled
  answered fields resp = tries λ w.
      if parts.json.is_utf8 (parts.json.object fields)
      then returned (dumped fields resp)
      else thrown

  -- The token behind "Bearer ", if the header has one.
  unfoldable pub token_of : HttpRequest → Option Bytes
  token_of req =
      let header = get_header req (codes "Authorization") in
      if is_empty header
      then none
      else if leb (length header) 7 || not (bytes_eq (take 7 header) (codes "Bearer "))
      then none
      else if is_empty (drop 7 header)
      then none
      else some (drop 7 header)

  abbrev pub user_of : Option SessionRecord → ℤ
  user_of none = pos 0
  user_of (some session) = session.user_id

  abbrev pub session_user : Option Bytes → M World ℤ
  session_user none = pure (pos 0)
  session_user (some token) =
      on_sessions (find_by_token parts.db parts.sessions token) >>= λ session.
      pure (user_of session)

  unfoldable pub authenticate_request : HttpRequest → M World ℤ
  authenticate_request req = session_user (token_of req)

  abbrev pub unauthorized : HttpResponse → HttpResponse
  unauthorized resp = make_json_response (pos 401) (codes "unauthorized") resp

  abbrev pub if_user : HttpResponse → (ℤ → Handled) → ℤ → Handled
  if_user resp handle user_id =
      if eq_ℤ user_id (pos 0) then pure (unauthorized resp) else handle user_id

  -- `requireAuth`, and the handler's `if (user_id == 0) return;` after it.
  unfoldable pub require_auth : HttpRequest → HttpResponse → (ℤ → Handled) → Handled
  require_auth req resp handle = authenticate_request req >>= if_user resp handle

  -- `requireJsonBody`, and the handler's `if (!json_body) return;` after it.
  unfoldable pub require_json_body : HttpRequest → HttpResponse → (J → Handled) → Handled
  require_json_body req resp handle = elim (parts.json.parse req.body) [
    | none ↦ pure (make_json_response (pos 400) (codes "request body must be JSON") resp)
    | some j ↦ handle j
  ]

  -- `if (!text.empty()) n = std::stoi(text);`
  abbrev pub number_or : ℤ → Bytes → M World ℤ
  number_or def text = if is_empty text then pure def else converted (stoi text)
