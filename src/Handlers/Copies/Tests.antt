-- ===== src/Handlers/Copies/Tests.antt =====
-- A user saves the file that another user shares.
use fileagent_server.Base.{
  ◌≡◌, ◌∙◌, sym, refl, Bool, true, [], ◌∷◌, some, none, if◌then◌else◌, ◌==◌, ℕ,
}
use fileagent_server.Base.Assoc.{lookup, insert, erase}
use fileagent_server.Base.Bytes.{Bytes, codes, c_str, bytes_key}
use fileagent_server.Base.Int.{pos, int_key}
use fileagent_server.Base.Number.{to_string, skip_spaces, stoi, stoll, decimal, digits_of}
use fileagent_server.Base.Outcome.{returned}
use fileagent_server.CacheInterface.Lru.{lru_cache-IsLawful, create-IsValid}
use fileagent_server.Dao.Files.{find_by_id, find_by_hash, by_hash_sql}
use fileagent_server.Dao.Rows.{make_session_record, make_share_record, make_file_record}
use fileagent_server.Dao.Sessions
use fileagent_server.Dao.Sessions.{find_session}
use fileagent_server.Dao.Shares
use fileagent_server.Database.{Mysql, Row, query, next, value, first_row, escape}
use fileagent_server.FastCgiServer.{HttpRequest, get_header, get_param}
use fileagent_server.FileService
use fileagent_server.FileService.{normalized, validate_record}
use fileagent_server.Hash.{char_at}
use fileagent_server.LruCache
use fileagent_server.RateLimiter
use fileagent_server.Responses.{new_response}
use fileagent_server.StringUtil.{trim_copy, trim_end}
use fileagent_server.Handlers.{Parts, World, dumped, token_of, authenticate_request, require_auth}
use fileagent_server.Handlers.Copies.{HasHashes, Coherent, handle_share_save-server}
use fileagent_server.Handlers.Shares.{handle_share_save}
use fileagent_server.Handlers.Tests.{db, parts, request}

-- A session of the user 7.
abbrev session_row : Row
session_row =
    some (codes "1")
    ∷ some (codes "7")
    ∷ some (codes "ab")
    ∷ some (codes "2025")
    ∷ some (codes "2024")
    ∷ []

-- The user 8 shares the file 1, and has it.
abbrev share_row : Row
share_row =
    some (codes "1")
    ∷ some (codes "1")
    ∷ some (codes "8")
    ∷ some (codes "cd")
    ∷ none
    ∷ some (codes "2024")
    ∷ []

abbrev file_row : Row
file_row =
    some (codes "1")
    ∷ some (codes "8")
    ∷ some (codes "a.txt")
    ∷ some (codes "ab12")
    ∷ some (codes "4")
    ∷ some (codes "uploads/ab/ab12")
    ∷ some (codes "1")
    ∷ none
    ∷ none
    ∷ some (codes "2024")
    ∷ []

-- The third column of a query tells the table: `session_token`, `user_id` of a share, or `filename`.
abbrev row_of : ℕ → Row
row_of c = if c == 115 then session_row else if c == 117 then share_row else file_row

-- Each table holds its row; any statement but a query empties them.
abbrev tables : Mysql Bool
tables = record db { select = λ sql st. some (if st then row_of (char_at 20 sql) ∷ [] else []) }

abbrev sharing : Parts Bool Bool Bytes
sharing = record parts { db = tables }

abbrev cold : World sharing
cold = record {
  server = true;
  disk = true;
  limiter = RateLimiter.create (pos 10) 60;
  uploads = [];
  sessions = LruCache.create 2;
  by_id = LruCache.create 2;
  by_hash = LruCache.create 2;
}

abbrev save_request : HttpRequest
save_request = record request { params = (codes "token", codes "cd") ∷ [] }

-- The save goes all the way to `createFile`, which gives the row of the other user as the copy.
saved_file :
    (handle_share_save sharing save_request new_response cold).0
    ≡ returned (
        dumped sharing
          ((codes "code", codes "0")
            ∷ (codes "message", codes "file saved successfully")
            ∷ (codes "file_id", codes "1")
            ∷ [])
          new_response)
unfolding handle_share_save require_auth authenticate_request token_of get_header get_param lookup
    Sessions.find_by_token find_session Shares.find_by_token Shares.by_token_sql LruCache.get
    LruCache.put LruCache.create FileService.get_file_by_id FileService.get_file_by_hash
    FileService.create normalized validate_record find_by_id find_by_hash by_hash_sql first_row
    query next value escape make_session_record make_share_record make_file_record c_str stoi stoll
    skip_spaces trim_copy trim_end char_at to_string decimal digits_of insert erase
    Sessions.by_token_sql
saved_file = refl

-- A file is found by every hash.
tables-HasHashes : HasHashes tables
unfolding find_by_id find_by_hash by_hash_sql first_row query c_str char_at
tables-HasHashes id r st h = (r, h)

cold-Coherent : Coherent sharing lru_cache-IsLawful lru_cache-IsLawful tables-HasHashes cold
cold-Coherent = record {
  id_IsValid = (create-IsValid 2).0;
  hash_IsValid = (create-IsValid 2).0;
  same_by_id = λ id r h. absurd (cc (sym ((create-IsValid 2).1 id) ∙ h));
  same_by_hash = λ hash r h. absurd (cc (sym ((create-IsValid 2).1 hash) ∙ h));
}

handle_share_save-server_example :
    (handle_share_save sharing save_request new_response cold).1.server ≡ true
handle_share_save-server_example =
    handle_share_save-server sharing lru_cache-IsLawful lru_cache-IsLawful tables-HasHashes
      save_request new_response cold cold-Coherent
