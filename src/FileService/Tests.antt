-- ===== src/FileService/Tests.antt =====
-- Runs of the service over a table with one file, and its theorems there.
use fileagent_server.Base.{
  ◌≡◌, ◌∙◌, sym, ap, subst, refl, inl, inr, Bool, true, false, [], ◌∷◌, some, none, if◌then◌else◌,
  is_empty,
}
use fileagent_server.Base.Assoc.{lookup, insert, erase}
use fileagent_server.Base.Bytes.{Bytes, codes, c_str, bytes_key}
use fileagent_server.Base.Int.{ℤ, pos, int_key}
use fileagent_server.Base.Number.{skip_spaces, stoi, stoll}
use fileagent_server.Base.Outcome.{returned}
use fileagent_server.CacheInterface.{CacheInterface}
use fileagent_server.CacheInterface.Lru.{lru_cache, lru_cache-IsLawful, create-IsValid}
use fileagent_server.Dao.Files.{create_file, find_by_id, find_by_hash}
use fileagent_server.Dao.Rows.{make_file_record}
use fileagent_server.Database.{Mysql, Row, query, next, value, first_row, run_update, update}
use fileagent_server.LruCache
use fileagent_server.LruCache.Entries.{entries}
use fileagent_server.Models.{FileRecord, succeed}
use fileagent_server.StringUtil.{trim_copy, trim_end}
use fileagent_server.FileService.{
  FileStore, create, normalized, validate_record, get_file_by_id, get_file_by_hash, set_status,
  remove_file,
}
use fileagent_server.FileService.Rows.{IsTable, HoldsRows, services-HoldsRows}
use fileagent_server.FileService.Coherence.{IsCoherent, put_by_id-IsCoherent}
use fileagent_server.FileService.Answers.{answer, answer-get_file}
use fileagent_server.FileService.Stale.{get_file_by_id-set_status, get_file_by_hash-remove_file}

abbrev row : Row
row =
    some (codes "1")
    ∷ some (codes "7")
    ∷ some (codes "a.txt")
    ∷ some (codes "ab12")
    ∷ some (codes "4")
    ∷ some (codes "uploads/ab/ab12")
    ∷ some (codes "1")
    ∷ none
    ∷ none
    ∷ some (codes "2025-01-01")
    ∷ []

-- The table holds the file or nothing; every statement that is not a query puts the file there.
abbrev db : Mysql Bool
db = record {
  connected = λ st. true;
  real_escape_string = λ s. s;
  select = λ sql st. some (if st then row ∷ [] else []);
  execute = λ sql st. (true, true);
}

abbrev file : FileRecord
file = record {
  id = pos 1;
  user_id = pos 7;
  filename = codes "a.txt";
  file_hash = codes "ab12";
  file_size = pos 4;
  storage_path = codes "uploads/ab/ab12";
  status = pos 1;
  summary = [];
  tags = [];
  created_at = codes "2025-01-01";
}

found : (id : ℤ) → find_by_id db id true ≡ returned (some file)
unfolding find_by_id first_row query next value make_file_record c_str stoi stoll skip_spaces
found id = refl

found_hash : (hash : Bytes) → find_by_hash db hash true ≡ returned (some file)
unfolding find_by_hash first_row query next value make_file_record c_str stoi stoll skip_spaces
found_hash hash = refl

-- The two keys do not matter to this table.
same_row :
    (id j : ℤ) (hash : Bytes) (st : Bool)
    → (find_by_id db id st ≡ find_by_id db j st) × (find_by_hash db hash st ≡ find_by_id db j st)
unfolding find_by_id find_by_hash first_row query
same_row id j hash st = (refl, refl)

kept_id :
    (id : ℤ) (r : FileRecord) (st : Bool)
    → find_by_id db id st ≡ returned (some r)
    → find_by_id db id true ≡ returned (some r)
unfolding find_by_id first_row query next
kept_id id r true h = h
kept_id id r false h = absurd (cc h)

-- A row is there if it is found by its id.
abbrev Holds : Bool → FileRecord → Type 0
Holds st r = find_by_id db r.id st ≡ returned (some r)

db-IsTable : IsTable db Holds
unfolding create_file run_update update
db-IsTable = record {
  found_by_id = λ id r st h. sym (same_row id r.id [] st).0 ∙ h;
  found_by_hash = λ hash r st h. sym (same_row r.id r.id hash st).1 ∙ h;
  keeps = λ r new st h. kept_id r.id r st h;
}

abbrev ById : CacheInterface ℤ FileRecord
ById = lru_cache

abbrev ByHash : CacheInterface Bytes FileRecord
ByHash = lru_cache

abbrev Store : Type 0
Store = FileStore db ById ByHash

-- The file is in the table, and the caches are empty; or it is in the cache by its id.
abbrev cold : Store
cold = record { server = true; by_id = LruCache.create 2; by_hash = LruCache.create 2 }

abbrev warm : Store
warm = record cold { by_id = ById.put (pos 1) file cold.by_id }

-- `createFile` on an empty table, with blanks to trim; the table gives the file back.
made :
    (create db ById ByHash
      (record file { filename = codes " a.txt " })
      (record cold { server = false })).0
    ≡ returned (succeed file (codes "create file success"))
unfolding create normalized validate_record create_file find_by_hash first_row query next value
    run_update update make_file_record c_str stoi stoll skip_spaces trim_copy trim_end
    LruCache.create
made = refl

cold-IsCoherent : IsCoherent db ById ByHash lru_cache-IsLawful lru_cache-IsLawful cold
cold-IsCoherent = record {
  id_IsValid = (create-IsValid 2).0;
  hash_IsValid = (create-IsValid 2).0;
  same_by_id = λ id r h. absurd (cc (sym ((create-IsValid 2).1 id) ∙ h));
  same_by_hash = λ hash r h. absurd (cc (sym ((create-IsValid 2).1 hash) ∙ h));
}

warm-IsCoherent : IsCoherent db ById ByHash lru_cache-IsLawful lru_cache-IsLawful warm
warm-IsCoherent =
    put_by_id-IsCoherent db ById ByHash lru_cache-IsLawful lru_cache-IsLawful file cold
      (found (pos 1)) cold-IsCoherent

-- The file in the cache by its id is the row of the table.
warm-HoldsRows : HoldsRows db ById ByHash Holds lru_cache-IsLawful lru_cache-IsLawful warm
warm-HoldsRows = record {
  id_IsValid = warm-IsCoherent.id_IsValid;
  hash_IsValid = (create-IsValid 2).0;
  same_by_id = λ id r h.
      elim (lru_cache-IsLawful.peek-put (pos 1) id file r cold.by_id (create-IsValid 2).0 h) [
        | inl old ↦ absurd (cc (sym ((create-IsValid 2).1 id) ∙ old))
        | inr (key, value) ↦
            (subst (Holds true) (sym value) (found (pos 1)), ap (λ x. x.id) value ∙ sym key)
      ];
  same_by_hash = λ hash r h. absurd (cc (sym ((create-IsValid 2).1 hash) ∙ h));
}

-- A file whose hash is there, one by its id from the cache, and one by its hash from the table.
services-HoldsRows_example :
    HoldsRows db ById ByHash Holds lru_cache-IsLawful lru_cache-IsLawful
      (create db ById ByHash file warm).1
    × HoldsRows db ById ByHash Holds lru_cache-IsLawful lru_cache-IsLawful
        (get_file_by_id db ById ByHash (pos 1) warm).1
    × HoldsRows db ById ByHash Holds lru_cache-IsLawful lru_cache-IsLawful
        (get_file_by_hash db ById ByHash (codes "ab12") warm).1
services-HoldsRows_example =
    services-HoldsRows db ById ByHash Holds lru_cache-IsLawful lru_cache-IsLawful db-IsTable file
      (pos 1) (codes "ab12") warm warm-HoldsRows

not_blank : is_empty (trim_copy (codes "ab12")) ≡ false
unfolding trim_copy trim_end skip_spaces
not_blank = refl

answer-get_file_example :
    (answer db ById ByHash lru_cache-IsLawful lru_cache-IsLawful
        (get_file_by_id db ById ByHash (pos 1) warm).0
      ≡ find_by_id db (pos 1) true)
    × (answer db ById ByHash lru_cache-IsLawful lru_cache-IsLawful
          (get_file_by_hash db ById ByHash (codes "ab12") warm).0
        ≡ find_by_hash db (trim_copy (codes "ab12")) true)
answer-get_file_example =
    answer-get_file db ById ByHash lru_cache-IsLawful lru_cache-IsLawful (pos 1) (codes "ab12") warm
      warm-IsCoherent refl not_blank

held : lookup (pos 1) (entries warm.by_id) ≡ some file
unfolding LruCache.put LruCache.create lookup insert erase
held = refl

-- The file by its hash alone.
abbrev warm_hash : Store
warm_hash = record cold { by_hash = ByHash.put (codes "ab12") file cold.by_hash }

held_hash : lookup (trim_copy (codes "ab12")) (entries warm_hash.by_hash) ≡ some file
unfolding LruCache.put LruCache.create lookup insert erase trim_copy trim_end skip_spaces
held_hash = refl

get_file_by_id-set_status_example :
    (get_file_by_id db ById ByHash (pos 1) (set_status db ById ByHash (pos 1) (pos 2) warm).1).0
    ≡ returned (succeed file (codes "cache hit"))
get_file_by_id-set_status_example =
    get_file_by_id-set_status db ById ByHash lru_cache-IsLawful lru_cache-IsLawful (pos 1) (pos 2)
      file warm warm-IsCoherent.id_IsValid refl held

get_file_by_hash-remove_file_example :
    (get_file_by_hash db ById ByHash
      (codes "ab12")
      (remove_file db ById ByHash (pos 1) warm_hash).1).0
    ≡ returned (succeed file (codes "cache hit"))
get_file_by_hash-remove_file_example =
    get_file_by_hash-remove_file db ById ByHash lru_cache-IsLawful lru_cache-IsLawful (pos 1)
      (codes "ab12") file warm_hash (create-IsValid 2).0
      (lru_cache-IsLawful.put-IsValid (codes "ab12") file cold.by_hash (create-IsValid 2).0) refl
      not_blank ((create-IsValid 2).1 (pos 1)) held_hash
