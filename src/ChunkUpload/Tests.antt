-- ===== src/ChunkUpload/Tests.antt =====
-- Runs of uploads in chunks, and their theorems at concrete stores.
use fileagent_server.Base.{ℕ, ◌≡◌, refl, arith, List, [], ◌∷◌, true, Bool, Option, some, none}
use fileagent_server.Base.Bytes.{Bytes, codes, bytes_key}
use fileagent_server.Base.Assoc.{lookup, insert, erase}
use fileagent_server.Base.Int.{pos}
use fileagent_server.Base.Number.{stoi, decimal, digits_of}
use fileagent_server.ChunkUpload.{
  ChunkUploadSession, Sessions, create_session, get_session, add_index, mark_chunk_received,
  cleanup, expired_ids, erase_all, Store, chunk_upload, Merged, merged, unreadable, merge_chunks,
}
use fileagent_server.ChunkUpload.Cleanup.{Apart, unexpired, get_session-cleanup}
use fileagent_server.ChunkUpload.Assembly.{Ready, upload_all, merge_chunks-upload_all}

abbrev id : Bytes
id = codes "c0ffee"

abbrev opened : Store
opened = record {
  sessions = create_session id (pos 7) (codes "notes.txt") (pos 10) (pos 2) (pos 6) 100 [];
  files = [];
}

abbrev every_path : Bytes → Option Bool
every_path p = some true

opened-Ready : Ready (pos 7) id 2 opened
unfolding create_session get_session insert lookup
opened-Ready = (
  record {
    upload_id = id;
    user_id = pos 7;
    filename = codes "notes.txt";
    file_size = pos 10;
    total_chunks = pos 2;
    chunk_size = pos 6;
    received = [];
    file_hash = [];
    created_at = 100;
  },
  refl,
  refl,
  refl,
)

-- The second chunk comes first, and the first one twice.
abbrev sent : List (ℕ × Bytes)
sent = (1, codes "rld") ∷ (0, codes "hallo ") ∷ (0, codes "hello wo") ∷ []

merge_chunks-upload_all_example :
    (st : Store) × (upload_all every_path (pos 7) id sent opened ≡ some st)
    × (merge_chunks id st.files true 0 2 ≡ merged (codes "hello world"))
merge_chunks-upload_all_example =
    merge_chunks-upload_all every_path (pos 7) id 2 sent (codes "hello wo" ∷ codes "rld" ∷ [])
      opened (omega arith) opened-Ready
      ((omega arith, refl, refl), ((omega arith, refl, refl), ((omega arith, refl, refl), tt))) refl
      (refl, (refl, tt))

-- A session of 30 minutes is kept, an older one is not.
kept : cleanup 1800 1900 opened.sessions ≡ opened.sessions
unfolding cleanup expired_ids erase_all create_session insert
kept = refl

expired : cleanup 1800 1901 opened.sessions ≡ []
unfolding cleanup expired_ids erase_all create_session insert erase
expired = refl

-- `std::stoi` reads the index "00" as 0: the chunk counts as received, but stands in a file that is
-- never read.
spelled : Option (List ℕ × Merged)
spelled = elim (chunk_upload every_path (pos 7) id (codes "00") (codes "x") opened) [
  | none ↦ none
  | some (r, st) ↦ some (r.code ∷ [], merge_chunks id st.files true 0 2)
]

spelled_lost : spelled ≡ some (0 ∷ [], unreadable 0)
unfolding spelled chunk_upload create_session get_session mark_chunk_received add_index insert
    lookup stoi merge_chunks decimal digits_of
spelled_lost = refl

-- A chunk file without bytes: no chunk after it gets into the merged file, and no error is seen.
empty_lost :
    merge_chunks id
      ((codes "uploads/tmp/c0ffee/0", codes "a")
        ∷ (codes "uploads/tmp/c0ffee/1", [])
        ∷ (codes "uploads/tmp/c0ffee/2", codes "b")
        ∷ [])
      true
      0
      3
    ≡ merged (codes "a")
unfolding merge_chunks lookup decimal digits_of
empty_lost = refl

-- Two sessions, one of them old.
abbrev young : ChunkUploadSession
young = record {
  upload_id = codes "a";
  user_id = pos 7;
  filename = codes "a.txt";
  file_size = pos 1;
  total_chunks = pos 1;
  chunk_size = pos 1;
  received = [];
  file_hash = [];
  created_at = 1000;
}

abbrev two : Sessions
two = (codes "a", young) ∷ (codes "b", record young { created_at = 100 }) ∷ []

two-Apart : Apart two
unfolding lookup
two-Apart = (refl, (refl, tt))

get_session-cleanup_example :
    get_session (codes "b") (cleanup 1800 1901 two)
    ≡ unexpired 1800 1901 (get_session (codes "b") two)
get_session-cleanup_example = get_session-cleanup 1800 1901 (codes "b") two two-Apart
