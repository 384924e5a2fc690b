-- ===== src/Handlers/Tests.antt =====
-- Requests to a server whose tables hold one row or none.
use fileagent_server.Base.{
  ◌≡◌, ◌∙◌, ◌⊎◌, sym, refl, Bool, true, false, List, [], ◌∷◌, ◌++◌, some, none, if◌then◌else◌,
}
use fileagent_server.Base.Assoc.{lookup, insert}
use fileagent_server.Base.Bytes.{Bytes, codes, c_str, bytes_key}
use fileagent_server.Base.Int.{ℤ, pos, int_key}
use fileagent_server.Base.Number.{to_string, skip_spaces, stoll}
use fileagent_server.Base.Outcome.{returned}
use fileagent_server.CacheInterface.{CacheInterface}
use fileagent_server.CacheInterface.Lru.{lru_cache, lru_cache-IsLawful, create-IsValid}
use fileagent_server.Dao.Logout.{DeletesSessions}
use fileagent_server.Dao.Rows.{make_session_record}
use fileagent_server.Dao.Sessions
use fileagent_server.Dao.Sessions.{find_session}
use fileagent_server.Database.{Mysql, Row, query, next, value, first_row, run_update, update}
use fileagent_server.FastCgiServer.{
  HttpRequest, get_header, find_route, register_handler, match_path, match_segments, segments_of,
  non_empty, pieces, is_param, param_name,
}
use fileagent_server.LruCache
use fileagent_server.Models.{FileRecord, SessionRecord, failed}
use fileagent_server.RateLimiter
use fileagent_server.Responses.{new_response, respond}
use fileagent_server.Storage.{Backend}
use fileagent_server.Handlers.{
  Json, Parts, World, session_store, token_of, authenticate_request, unauthorized,
  make_json_response,
}
use fileagent_server.Handlers.Access.{list_files, delete, handle, Anonymous, SameData}
use fileagent_server.Handlers.Served.{Outside, as_protected, served, respond-served}
use fileagent_server.Routes
use fileagent_server.Routes.{routes}
use fileagent_server.Handlers.Files.{handle_logout, handle_download, handle_delete}
use fileagent_server.Handlers.Logout.{handle-handle_logout}
use fileagent_server.Handlers.Owners.{Refused, IsOwner, handlers-Refused}

abbrev pub row : Row
row =
    some (codes "1")
    ∷ some (codes "7")
    ∷ some (codes "ab")
    ∷ some (codes "12")
    ∷ some (codes "4")
    ∷ some (codes "uploads/12/12")
    ∷ some (codes "1")
    ∷ []

-- Each table holds the row or nothing; any statement but a query empties them.
abbrev pub db : Mysql Bool
db = record {
  connected = λ st. true;
  real_escape_string = λ s. s;
  select = λ sql st. some (if st then row ∷ [] else []);
  execute = λ sql st. (true, false);
}

-- A disk that is there or not, with one content for every name.
abbrev pub backend : Backend Bool
backend = record {
  exists = λ path d. d;
  create_directories = λ path d. (true, true);
  read = λ path d. if d then some (codes "text") else none;
  write = λ path content d. (true, true);
  remove = λ path d. (true, false);
  fastdfs = false;
  upload = λ content filename d. (none, d);
  download = λ path d. none;
  delete = λ path d. (false, d);
}

abbrev joined : List Bytes → Bytes
joined [] = []
joined (s ∷ ss) = s ++ joined ss

abbrev fields : List (Bytes × Bytes) → Bytes
fields [] = []
fields ((key, s) ∷ ss) = key ++ (codes ":" ++ (s ++ (codes ";" ++ fields ss)))

-- Values that are their own text.
abbrev pub json : Json Bytes
json = record {
  parse = λ s. some s;
  dump = λ j. j;
  is_utf8 = λ j. true;
  lacks = λ key j. false;
  text = λ s. s;
  number = λ i. to_string i;
  flag = λ b. if b then codes "true" else codes "false";
  array = λ js. joined js;
  object = λ js. fields js;
  get_text = λ key j. some j;
  get_int64 = λ key j. none;
  get_int = λ key j. none;
  get_flag = λ key j. none;
}

abbrev pub sessions : CacheInterface Bytes SessionRecord
sessions = lru_cache

abbrev pub ids : CacheInterface ℤ FileRecord
ids = lru_cache

abbrev pub hashes : CacheInterface Bytes FileRecord
hashes = lru_cache

abbrev ann : Row
ann =
    some (codes "7")
    ∷ some (codes "ann")
    ∷ some (codes "$2b$10$aaaaaaaaaaaaaaaaaaaaaa")
    ∷ some (codes "a@b")
    ∷ some (codes "1")
    ∷ some (codes "0")
    ∷ some (codes "2024")
    ∷ some (codes "2024")
    ∷ []

abbrev pub parts : Parts Bool Bool Bytes
parts = record {
  db = db;
  backend = backend;
  json = json;
  sessions = sessions;
  by_id = ids;
  by_hash = hashes;
  data_path = [];
  prepared = λ sql name st. if st then some ann else none;
  crypt = λ secret salt. some salt;
}

abbrev cold : World parts
cold = record {
  server = true;
  disk = true;
  limiter = RateLimiter.create (pos 10) 60;
  uploads = [];
  sessions = LruCache.create 2;
  by_id = LruCache.create 2;
  by_hash = LruCache.create 2;
}

abbrev pub anonymous : HttpRequest
anonymous = record {
  method = codes "DELETE";
  path = codes "/api/files/1";
  params = (codes "fileId", codes "1") ∷ [];
  queries = [];
  headers = [];
  body = [];
}

abbrev pub request : HttpRequest
request = record anonymous { headers = (codes "Authorization", codes "Bearer ab") ∷ [] }

no_token : token_of parts anonymous ≡ none
unfolding token_of get_header lookup
no_token = refl

anonymous-Anonymous : Anonymous parts anonymous cold
anonymous-Anonymous key h = absurd (cc (sym no_token ∙ h))

served_delete :
    find_route anonymous.method anonymous.path routes
    ≡ some (Routes.delete, (codes "fileId", codes "1") ∷ [])
unfolding find_route routes register_handler match_path match_segments segments_of non_empty pieces
    is_param param_name insert
served_delete = refl

abbrev outside : Outside
outside = record {
  random = [];
  hours_from_now = λ hours. [];
  upload_id = [];
  now = 0;
  chat = λ prompt. failed [];
  analyze = λ text instruction. failed [];
  initialized = false;
  agent = λ message user_id. [];
}

delete_is_protected : as_protected outside Routes.delete ≡ some delete
unfolding as_protected
delete_is_protected = refl

respond-served_example :
    ((respond (served parts outside (λ h req resp w. (none, w))) anonymous cold).0
      ≡ unauthorized parts new_response)
    × SameData parts cold
        (respond (served parts outside (λ h req resp w. (none, w))) anonymous cold).1
respond-served_example =
    respond-served parts outside (λ h req resp w. (none, w)) anonymous cold Routes.delete delete
      ((codes "fileId", codes "1") ∷ []) served_delete delete_is_protected anonymous-Anonymous

db-DeletesSessions : DeletesSessions db
db-DeletesSessions key st h = refl

has_token : token_of parts request ≡ some (codes "ab")
unfolding token_of get_header lookup
has_token = refl

known : (authenticate_request parts request cold).0 ≡ returned (pos 7)
unfolding authenticate_request token_of get_header lookup Sessions.find_by_token LruCache.get
    LruCache.create find_session first_row query next value make_session_record c_str stoll
    skip_spaces
known = refl

deleted :
    (Sessions.delete_by_token db sessions
      (codes "ab")
      (session_store parts (authenticate_request parts request cold).1)).0
    ≡ true
unfolding Sessions.delete_by_token run_update update
deleted = refl

handle-handle_logout_example :
    ((handle_logout parts request new_response cold).0
      ≡ returned (make_json_response parts (pos 0) (codes "logout success") new_response))
    × ((handle parts list_files request new_response
          (handle_logout parts request new_response cold).1).0
        ≡ returned (unauthorized parts new_response))
handle-handle_logout_example =
    handle-handle_logout parts lru_cache-IsLawful db-DeletesSessions list_files request request
      new_response new_response (codes "ab") (pos 7) cold (create-IsValid 2).0 has_token has_token
      known refl deleted

handlers-Refused_example :
    (Refused parts new_response cold (handle_download parts anonymous new_response cold)
      ⊎ IsOwner parts anonymous cold)
    × (Refused parts new_response cold (handle_delete parts anonymous new_response cold)
        ⊎ IsOwner parts anonymous cold)
handlers-Refused_example = handlers-Refused parts anonymous new_response cold
