-- ===== src/ChunkUpload.antt =====
-- src/service/ChunkUploadService.cpp and ChunkUploadService.h: the sessions of uploads in chunks;
-- src/main.cpp: what `handleChunkUpload` and `handleChunkComplete` do with them and with the files
-- under `uploads/tmp` once the user is known. Times are ticks of the steady clock, the random part of
-- a new id is an argument, and the file system a map from paths to contents. `writes` says of a path
-- whether it can be opened for writing; `none` is the exception of `create_directories` for its
-- directory.
pub mod Assembly
pub mod Cleanup
mod Tests
use fileagent_server.Base.{
  ℕ, zero, suc, ◌+◌, Bool, true, false, not, ◌&&◌, ◌||◌, List, [], ◌∷◌, ◌++◌, Option, none, some,
  ltb, leb, ◌==◌, if◌then◌else◌, length, is_empty, same, nat_key,
}
use fileagent_server.Base.Bytes.{Bytes, codes, bytes_eq, bytes_key}
use fileagent_server.Base.Assoc.{lookup, insert, erase}
use fileagent_server.Base.Int.{ℤ, pos, negsuc, ltb_ℤ, leb_ℤ, eq_ℤ, int_key}
use fileagent_server.Base.Number.{stoi, decimal}

pub record ChunkUploadSession : Type 0 where
  pub upload_id : Bytes
  pub user_id : ℤ
  pub filename : Bytes
  pub file_size : ℤ
  pub total_chunks : ℤ
  pub chunk_size : ℤ
  pub received : List ℤ
  pub file_hash : Bytes
  pub created_at : ℕ

abbrev pub Sessions : Type 0
Sessions = List (Bytes × ChunkUploadSession)

-- `createSession`; `upload_id` is what `PasswordHasher::generateToken(16)` gave.
unfoldable pub create_session : Bytes → ℤ → Bytes → ℤ → ℤ → ℤ → ℕ → Sessions → Sessions
create_session upload_id user_id filename file_size total_chunks chunk_size now sessions =
    insert upload_id
      (record {
        upload_id = upload_id;
        user_id = user_id;
        filename = filename;
        file_size = file_size;
        total_chunks = total_chunks;
        chunk_size = chunk_size;
        received = [];
        file_hash = [];
        created_at = now;
      })
      sessions

unfoldable pub get_session : Bytes → Sessions → Option ChunkUploadSession
get_session upload_id sessions = lookup upload_id sessions

-- `std::set<int>::insert`
unfoldable pub add_index : ℤ → List ℤ → List ℤ
add_index i [] = i ∷ []
add_index i (j ∷ js) =
    if eq_ℤ i j then j ∷ js else if ltb_ℤ i j then i ∷ j ∷ js else j ∷ add_index i js

unfoldable pub mark_chunk_received : Bytes → ℤ → Sessions → Bool × Sessions
mark_chunk_received upload_id chunk_index sessions = elim (lookup upload_id sessions) [
  | none ↦ (false, sessions)
  | some s ↦
      (true, insert upload_id (record s { received = add_index chunk_index s.received }) sessions)
]

unfoldable pub remove_session : Bytes → Sessions → Sessions
remove_session upload_id sessions = erase upload_id sessions

-- A round of `cleanupLoop`: the ids of the sessions that are older than `max_age`, and their erasure.
unfoldable pub expired_ids : ℕ → ℕ → Sessions → List Bytes
expired_ids max_age now [] = []
expired_ids max_age now ((id, s) ∷ sessions) =
    let rest = expired_ids max_age now sessions in
    if ltb (s.created_at + max_age) now then id ∷ rest else rest

unfoldable pub erase_all : List Bytes → Sessions → Sessions
erase_all [] sessions = sessions
erase_all (id ∷ ids) sessions = erase_all ids (erase id sessions)

unfoldable pub cleanup : ℕ → ℕ → Sessions → Sessions
cleanup max_age now sessions = erase_all (expired_ids max_age now sessions) sessions

-- What a handler answers: the code and the message of `makeJsonResponse`.
pub record Reply : Type 0 where
  pub code : ℕ
  pub message : Bytes

pub record Store : Type 0 where
  pub sessions : Sessions
  pub files : List (Bytes × Bytes)

abbrev pub tmp_dir : Bytes → Bytes
tmp_dir upload_id = codes "uploads/tmp/" ++ upload_id

abbrev pub chunk_path : Bytes → Bytes → Bytes
chunk_path upload_id index = tmp_dir upload_id ++ b'/' ∷ index

abbrev reply : ℕ → Bytes → Reply
reply code message = record { code = code; message = message }

-- The session, if there is one and it is the user's.
abbrev pub owned : ℤ → Option ChunkUploadSession → Option ChunkUploadSession
owned user_id none = none
owned user_id (some s) = if eq_ℤ s.user_id user_id then some s else none

-- `handleChunkUpload` from the writing of the chunk on.
abbrev write_chunk :
    (Bytes → Option Bool) → Bytes → Bytes → ℤ → Bytes → Store → Option (Reply × Store)
write_chunk writes upload_id index_text chunk_index body st =
    elim (writes (chunk_path upload_id index_text)) [
      | none ↦ none
      | some false ↦ some (reply 500 (codes "failed to write chunk"), st)
      | some true ↦ some (
        reply 0 (codes "chunk received"),
        record {
          sessions = (mark_chunk_received upload_id chunk_index st.sessions).1;
          files = insert (chunk_path upload_id index_text) body st.files;
        },
      )
    ]

abbrev accept_chunk :
    (Bytes → Option Bool)
    → Bytes
    → Bytes
    → ChunkUploadSession
    → ℤ
    → Bytes
    → Store
    → Option (Reply × Store)
accept_chunk writes upload_id index_text s chunk_index body st =
    if ltb_ℤ chunk_index (pos 0) || leb_ℤ s.total_chunks chunk_index
    then some (reply 400 (codes "invalid chunk index"), st)
    else if is_empty body
    then some (reply 400 (codes "empty chunk"), st)
    else write_chunk writes upload_id index_text chunk_index body st

-- `handleChunkUpload` for a user; `none` is an exception, of `std::stoi` or of the file system.
unfoldable pub chunk_upload :
    (Bytes → Option Bool) → ℤ → Bytes → Bytes → Bytes → Store → Option (Reply × Store)
chunk_upload writes user_id upload_id index_text body st =
    elim (owned user_id (get_session upload_id st.sessions)) [
      | none ↦ some (reply 404 (codes "upload session not found"), st)
      | some s ↦ elim (stoi index_text) [
        | none ↦ none
        | some chunk_index ↦ accept_chunk writes upload_id index_text s chunk_index body st
      ]
    ]

-- The chunks from the given index on, put together; on a failure, the index that cannot be read.
pub data Merged : Type 0 where
  merged : Bytes → Merged
  unreadable : ℕ → Merged

abbrev after : Bytes → Merged → Merged
after chunk (merged rest) = merged (chunk ++ rest)
after chunk (unreadable i) = unreadable i

-- The loop of `handleChunkComplete` over the chunks, of which `left` are left. `good` is the state of
-- the stream: `merged << chunk.rdbuf()` fails for an empty chunk, and writes nothing after that.
unfoldable pub merge_chunks : Bytes → List (Bytes × Bytes) → Bool → ℕ → ℕ → Merged
merge_chunks upload_id files good i zero = merged []
merge_chunks upload_id files good i (suc left) =
    elim (lookup (chunk_path upload_id (decimal i)) files) [
      | none ↦ unreadable i
      | some chunk ↦
          after (if good then chunk else [])
            (merge_chunks upload_id files (good && not (is_empty chunk)) (suc i) left)
    ]
