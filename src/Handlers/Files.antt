-- ===== src/Handlers/Files.antt =====
-- src/main.cpp: the handlers of the files of a user, and of logging out.
use fileagent_server.Base.{
  Bool, true, false, not, ◌&&◌, [], ◌∷◌, ◌++◌, map, Option, none, some, if◌then◌else◌, length,
  is_empty, drop,
}
use fileagent_server.Base.Bytes.{Bytes, codes}
use fileagent_server.Base.Int.{ℤ, pos, eq_ℤ}
use fileagent_server.Base.Number.{stoll}
use fileagent_server.Base.Outcome.{returned, pure, ◌>>=◌, ◌>>◌, reads}
use fileagent_server.Dao.Sessions
use fileagent_server.FastCgiServer.{HttpRequest, get_header, get_param, get_query}
use fileagent_server.FileService
use fileagent_server.Models.{FileRecord, ServiceResult, ServiceStatus, ServiceListResult}
use fileagent_server.Responses.{HttpResponse, set_header}
use fileagent_server.Storage.{
  is_fast_dfs_path, to_fast_dfs_redirect_url, retrieve_file, delete_stored_file,
}
use fileagent_server.Handlers.{
  Parts, Handled, on_sessions, on_files, on_disk, converted, make_json_response, answered,
  require_auth, require_json_body, number_or,
}

-- The failure of a service, or what follows its success: `if (!result.success)`.
abbrev pub if_success : {A B : Type 0} → ServiceResult A → B → (A → B) → B
if_success result failure next = elim result.value [ none ↦ failure | some a ↦ next a ]

module _ {S D J : Type 0} (parts : Parts S D J) where
  abbrev pub reply : ℤ → Bytes → HttpResponse → Handled parts
  reply code message resp = pure (make_json_response parts code message resp)

  unfoldable pub handle_logout : HttpRequest → HttpResponse → Handled parts
  handle_logout req resp = require_auth parts req resp λ user_id.
      on_sessions parts (λ s.
        let (done, s') =
          Sessions.delete_by_token parts.db parts.sessions
            (drop 7 (get_header req (codes "Authorization"))) s in
        (returned done, s'))
      >> reply (pos 0) (codes "logout success") resp

  abbrev file_item : FileRecord → J
  file_item f = parts.json.object (
      (codes "id", parts.json.number f.id)
      ∷ (codes "filename", parts.json.text f.filename)
      ∷ (codes "file_hash", parts.json.text f.file_hash)
      ∷ (codes "file_size", parts.json.number f.file_size)
      ∷ (codes "status", parts.json.number f.status)
      ∷ (codes "created_at", parts.json.text f.created_at)
      ∷ [])

  abbrev listed : HttpResponse → ServiceListResult FileRecord → Handled parts
  listed resp result =
      if result.success
      then answered parts
          ((codes "code", parts.json.number (pos 0))
            ∷ (codes "message", parts.json.text (codes "query success"))
            ∷ (codes "files", parts.json.array (map file_item result.values))
            ∷ (codes "total", parts.json.number (pos (length result.values)))
            ∷ [])
          resp
      else reply (pos 400) result.message resp

  unfoldable pub handle_list_files : HttpRequest → HttpResponse → Handled parts
  handle_list_files req resp = require_auth parts req resp λ user_id.
      number_or parts (pos 20) (get_query req (codes "limit") []) >>= λ limit.
      number_or parts (pos 0) (get_query req (codes "offset") []) >>= λ offset.
      on_files parts
        (FileService.list_user_files parts.db parts.by_id parts.by_hash user_id limit offset)
      >>= listed resp

  -- Content-Disposition
  abbrev pub attached : FileRecord → HttpResponse → HttpResponse
  attached file resp =
      set_header (codes "Content-Disposition")
        (codes "attachment; filename=\"" ++ (file.filename ++ codes "\"")) resp

  abbrev pub content_sent : FileRecord → HttpResponse → Option Bytes → HttpResponse
  content_sent file resp none = make_json_response parts (pos 404) (codes "file not found") resp
  content_sent file resp (some content) =
      attached file
        (record resp { body = content; content_type = codes "application/octet-stream" })

  -- The end of `handleDownload`, and of the handler of a shared file: FastDFS by a redirection, or the
  -- content; `redirected` is the response that a redirection starts from.
  unfoldable pub send_file : FileRecord → HttpResponse → HttpResponse → Handled parts
  send_file file redirected resp =
      let url = to_fast_dfs_redirect_url file.storage_path in
      if is_fast_dfs_path file.storage_path
        && (not (is_empty parts.data_path) && not (is_empty url))
      then pure (attached file (set_header (codes "X-Accel-Redirect") url redirected))
      else reads
          (λ w. content_sent file resp (retrieve_file parts.backend file.storage_path w.disk))

  -- `if (file.user_id != user_id)`
  abbrev pub if_owner : ℤ → HttpResponse → (FileRecord → Handled parts) → FileRecord → Handled parts
  if_owner user_id resp next file =
      if eq_ℤ file.user_id user_id then next file else reply (pos 403) (codes "access denied") resp

  abbrev pub with_file :
      ℤ → HttpResponse → (FileRecord → Handled parts) → ServiceResult FileRecord → Handled parts
  with_file user_id resp next result =
      if_success result (reply (pos 404) (codes "file not found") resp) (if_owner user_id resp next)

  unfoldable pub handle_download : HttpRequest → HttpResponse → Handled parts
  handle_download req resp = require_auth parts req resp λ user_id.
      converted parts (stoll (get_param req (codes "fileId") [])) >>= λ file_id.
      on_files parts (FileService.get_file_by_id parts.db parts.by_id parts.by_hash file_id)
      >>= with_file user_id resp (λ file. send_file file (record resp { status_code = 200 }) resp)

  abbrev drop_content : Bytes → D → Bool × D
  drop_content path d = if is_empty path then (true, d) else delete_stored_file parts.backend path d

  abbrev delete_reply : HttpResponse → ServiceStatus → Handled parts
  delete_reply resp status =
      if status.success
      then reply (pos 0) (codes "delete success") resp
      else reply (pos 500) status.message resp

  unfoldable pub handle_delete : HttpRequest → HttpResponse → Handled parts
  handle_delete req resp = require_auth parts req resp λ user_id.
      converted parts (stoll (get_param req (codes "fileId") [])) >>= λ file_id.
      on_files parts (FileService.get_file_by_id parts.db parts.by_id parts.by_hash file_id)
      >>= with_file user_id resp (λ file.
        on_disk parts (drop_content file.storage_path)
        >> (on_files parts (FileService.remove_file parts.db parts.by_id parts.by_hash file_id)
            >>= delete_reply resp))

  abbrev checked : ServiceResult FileRecord → J
  checked result =
      if_success result (parts.json.object ((codes "exists", parts.json.flag false) ∷ [])) (λ file.
        parts.json.object (
          (codes "exists", parts.json.flag true)
          ∷ (codes "file_id", parts.json.number file.id)
          ∷ (codes "file_size", parts.json.number file.file_size)
          ∷ (codes "filename", parts.json.text file.filename)
          ∷ []))

  abbrev check_reply : HttpResponse → ServiceResult FileRecord → Handled parts
  check_reply resp result =
      answered parts
        ((codes "code", parts.json.number (pos 0))
          ∷ (codes "message", parts.json.text (codes "ok"))
          ∷ (codes "data", checked result)
          ∷ [])
        resp

  unfoldable pub handle_file_check : HttpRequest → HttpResponse → Handled parts
  handle_file_check req resp = require_json_body parts req resp λ j.
      converted parts (parts.json.get_text (codes "file_hash") j) >>= λ file_hash.
      if is_empty file_hash
      then reply (pos 400) (codes "file_hash is required") resp
      else on_files parts
          (FileService.get_file_by_hash parts.db parts.by_id parts.by_hash file_hash)
        >>= check_reply resp
