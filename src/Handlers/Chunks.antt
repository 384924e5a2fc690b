-- ===== src/Handlers/Chunks.antt =====
-- src/main.cpp: the handlers that begin an upload in chunks and tell how far it is. The handlers of a
-- chunk and of the end of an upload are in ChunkUpload.
use fileagent_server.Base.{
  ℕ, ◌||◌, [], ◌∷◌, map, Option, none, some, if◌then◌else◌, length, is_empty,
}
use fileagent_server.Base.Bytes.{Bytes, codes}
use fileagent_server.Base.Int.{pos, leb_ℤ}
use fileagent_server.Base.Outcome.{◌>>=◌, ◌>>◌, reads, changes}
use fileagent_server.ChunkUpload.{ChunkUploadSession, create_session, get_session, owned}
use fileagent_server.FastCgiServer.{HttpRequest, get_param}
use fileagent_server.Responses.{HttpResponse}
use fileagent_server.Handlers.Files.{reply}
use fileagent_server.Handlers.{Parts, Handled, converted, answered, require_auth, require_json_body}

module _ {S D J : Type 0} (parts : Parts S D J) where
  abbrev init_reply : Bytes → HttpResponse → Handled parts
  init_reply upload_id resp =
      answered parts
        ((codes "code", parts.json.number (pos 0))
          ∷ (codes "message", parts.json.text (codes "init success"))
          ∷ (codes "upload_id", parts.json.text upload_id)
          ∷ [])
        resp

  -- The new id and the time are arguments.
  unfoldable pub handle_chunk_init : Bytes → ℕ → HttpRequest → HttpResponse → Handled parts
  handle_chunk_init upload_id now req resp = require_auth parts req resp λ user_id.
      require_json_body parts req resp λ j.
        converted parts (parts.json.get_text (codes "filename") j) >>= λ filename.
        converted parts (parts.json.get_int64 (codes "file_size") j) >>= λ file_size.
        converted parts (parts.json.get_int (codes "total_chunks") j) >>= λ total_chunks.
        converted parts (parts.json.get_int (codes "chunk_size") j) >>= λ chunk_size.
        if is_empty filename
          || (leb_ℤ file_size (pos 0) || (leb_ℤ total_chunks (pos 0) || leb_ℤ chunk_size (pos 0)))
        then reply parts (pos 400) (codes "invalid parameters") resp
        else changes (λ w. record w {
          uploads =
              create_session upload_id user_id filename file_size total_chunks chunk_size now
                w.uploads;
        })
          >> init_reply upload_id resp

  abbrev status_reply : Bytes → HttpResponse → Option ChunkUploadSession → Handled parts
  status_reply upload_id resp none = reply parts (pos 404) (codes "upload session not found") resp
  status_reply upload_id resp (some s) =
      answered parts
        ((codes "code", parts.json.number (pos 0))
          ∷ (codes "message", parts.json.text (codes "query success"))
          ∷ (codes "upload_id", parts.json.text upload_id)
          ∷ (codes "filename", parts.json.text s.filename)
          ∷ (codes "file_size", parts.json.number s.file_size)
          ∷ (codes "total_chunks", parts.json.number s.total_chunks)
          ∷ (codes "received_chunks", parts.json.number (pos (length s.received)))
          ∷ (codes "chunks", parts.json.array (map parts.json.number s.received))
          ∷ [])
        resp

  unfoldable pub handle_chunk_status : HttpRequest → HttpResponse → Handled parts
  handle_chunk_status req resp = require_auth parts req resp λ user_id.
      reads (λ w. owned user_id (get_session (get_param req (codes "uploadId") []) w.uploads))
      >>= status_reply (get_param req (codes "uploadId") []) resp
