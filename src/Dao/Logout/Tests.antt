-- ===== src/Dao/Logout/Tests.antt =====
-- Sessions in a table that holds one session or none.
use fileagent_server.Base.{◌≡◌, refl, Bool, true, false, [], ◌∷◌, some, none, if◌then◌else◌}
use fileagent_server.Base.Assoc.{lookup, insert, erase}
use fileagent_server.Base.Bytes.{Bytes, codes, bytes_key}
use fileagent_server.Base.Int.{pos}
use fileagent_server.Base.Outcome.{returned}
use fileagent_server.CacheInterface.{CacheInterface}
use fileagent_server.CacheInterface.Lru.{lru_cache, lru_cache-IsLawful, create-IsValid}
use fileagent_server.Dao.Logout.{
  DeletesSessions, find_by_token-cached, find_by_token-delete_by_token,
}
use fileagent_server.Dao.Sessions.{
  SessionStore, find_by_token, delete_by_token, delete_by_user_id, delete_expired_sessions,
}
use fileagent_server.Database.{Mysql, Row, run_update, update}
use fileagent_server.LruCache
use fileagent_server.LruCache.Entries.{entries}
use fileagent_server.LruCache.Invariant.{IsValid, put-IsValid}
use fileagent_server.Models.{SessionRecord}

abbrev row : Row
row =
    some (codes "1")
    ∷ some (codes "7")
    ∷ some (codes "ab")
    ∷ some (codes "2025-01-02")
    ∷ some (codes "2025-01-01")
    ∷ []

-- Whatever is executed, the session is gone.
abbrev db : Mysql Bool
db = record {
  connected = λ st. true;
  real_escape_string = λ s. s;
  select = λ sql st. some (if st then row ∷ [] else []);
  execute = λ sql st. (true, false);
}

abbrev session : SessionRecord
session = record {
  id = pos 1;
  user_id = pos 7;
  session_token = codes "ab";
  expires_at = codes "2025-01-02";
  created_at = codes "2025-01-01";
}

abbrev Cache : CacheInterface Bytes SessionRecord
Cache = lru_cache

abbrev Store : Type 0
Store = SessionStore db Cache

abbrev token : Bytes
token = codes "ab"

abbrev cold : Store
cold = record { server = true; cache = LruCache.create 2 }

-- The session is cached as well.
abbrev warm : Store
warm = record cold { cache = Cache.put token session cold.cache }

warm-IsValid : IsValid warm.cache
warm-IsValid = put-IsValid token session cold.cache (create-IsValid 2).0

held : lookup token (entries warm.cache) ≡ some session
unfolding LruCache.put LruCache.create lookup insert erase
held = refl

find_by_token-cached_example :
    ((find_by_token db Cache token (delete_by_user_id db Cache (pos 7) warm).1).0
      ≡ returned (some session))
    × ((find_by_token db Cache token (delete_expired_sessions db Cache warm).1).0
        ≡ returned (some session))
find_by_token-cached_example =
    find_by_token-cached db Cache lru_cache-IsLawful token (pos 7) session warm warm-IsValid held

db-DeletesSessions : DeletesSessions db
db-DeletesSessions t st done = refl

deleted : (delete_by_token db Cache token warm).0 ≡ true
unfolding delete_by_token run_update update
deleted = refl

find_by_token-delete_by_token_example :
    (find_by_token db Cache token (delete_by_token db Cache token warm).1).0 ≡ returned none
find_by_token-delete_by_token_example =
    find_by_token-delete_by_token db Cache lru_cache-IsLawful db-DeletesSessions token warm
      warm-IsValid deleted
