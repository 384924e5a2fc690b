-- ===== src/Handlers/Shares.antt =====
-- src/main.cpp: the handlers of shares, and the handler without a name of a shared file.
use fileagent_server.Base.{[], ◌∷◌, ◌++◌, map, Option, none, some, if◌then◌else◌, length}
use fileagent_server.Base.Bytes.{Bytes, codes}
use fileagent_server.Base.Int.{ℤ, pos, eq_ℤ}
use fileagent_server.Base.Outcome.{◌>>=◌, ◌>>◌}
use fileagent_server.Dao.Shares
use fileagent_server.FastCgiServer.{HttpRequest, get_param}
use fileagent_server.FileService
use fileagent_server.Models.{FileRecord, ShareRecord, ServiceResult}
use fileagent_server.Responses.{HttpResponse}
use fileagent_server.ShareService
use fileagent_server.Handlers.Files.{reply, if_success, send_file}
use fileagent_server.Handlers.{
  Parts, Handled, on_files, on_server, ask_server, converted, answered, require_auth,
  require_json_body,
}

module _ {S D J : Type 0} (parts : Parts S D J) where
  abbrev share_reply : HttpResponse → ServiceResult Bytes → Handled parts
  share_reply resp result = if_success result (reply parts (pos 400) result.message resp) λ token.
      answered parts
        ((codes "code", parts.json.number (pos 0))
          ∷ (codes "message", parts.json.text (codes "share created"))
          ∷ (codes "share_token", parts.json.text token)
          ∷ (codes "url", parts.json.text (codes "/api/shares/" ++ token))
          ∷ [])
        resp

  -- The random bytes and the printing of times are those of ShareService.
  unfoldable pub handle_share_create :
      Bytes → (ℤ → Bytes) → HttpRequest → HttpResponse → Handled parts
  handle_share_create random hours_from_now req resp = require_auth parts req resp λ user_id.
      require_json_body parts req resp λ j.
        converted parts (parts.json.get_int64 (codes "file_id") j) >>= λ file_id.
        converted parts (parts.json.get_int (codes "expire_hours") j) >>= λ expire_hours.
        (λ w.
          let (result, st) =
            ShareService.create parts.db random hours_from_now user_id file_id expire_hours
              w.server in
          (result, record w { server = st }))
        >>= share_reply resp

  abbrev delete_found : ℤ → Bytes → HttpResponse → Option ShareRecord → Handled parts
  delete_found user_id token resp none = reply parts (pos 404) (codes "share not found") resp
  delete_found user_id token resp (some share) =
      if eq_ℤ share.user_id user_id
      then on_server parts (Shares.delete_by_token parts.db token)
        >> reply parts (pos 0) (codes "share deleted") resp
      else reply parts (pos 403) (codes "access denied") resp

  unfoldable pub handle_share_delete : HttpRequest → HttpResponse → Handled parts
  handle_share_delete req resp = require_auth parts req resp λ user_id.
      ask_server parts (Shares.find_by_token parts.db (get_param req (codes "token") []))
      >>= delete_found user_id (get_param req (codes "token") []) resp

  abbrev share_item : ShareRecord → J
  share_item s = parts.json.object (
      (codes "id", parts.json.number s.id)
      ∷ (codes "file_id", parts.json.number s.file_id)
      ∷ (codes "share_token", parts.json.text s.share_token)
      ∷ (codes "url", parts.json.text (codes "/api/shares/" ++ s.share_token))
      ∷ (codes "expires_at", parts.json.text s.expires_at)
      ∷ (codes "created_at", parts.json.text s.created_at)
      ∷ [])

  unfoldable pub handle_share_list : HttpRequest → HttpResponse → Handled parts
  handle_share_list req resp = require_auth parts req resp λ user_id.
      ask_server parts (Shares.list_by_user_id parts.db user_id) >>= λ shares.
      answered parts
        ((codes "code", parts.json.number (pos 0))
          ∷ (codes "message", parts.json.text (codes "query success"))
          ∷ (codes "shares", parts.json.array (map share_item shares))
          ∷ (codes "total", parts.json.number (pos (length shares)))
          ∷ [])
        resp

  -- The record of a copy; what the code does not set has its default.
  abbrev pub copy_for : ℤ → FileRecord → FileRecord
  copy_for user_id original = record original {
    id = pos 0;
    user_id = user_id;
    status = pos 1;
    created_at = [];
  }

  abbrev pub save_reply : Bytes → FileRecord → HttpResponse → Handled parts
  save_reply message file resp =
      answered parts
        ((codes "code", parts.json.number (pos 0))
          ∷ (codes "message", parts.json.text message)
          ∷ (codes "file_id", parts.json.number file.id)
          ∷ [])
        resp

  abbrev pub saved : HttpResponse → ServiceResult FileRecord → Handled parts
  saved resp result =
      if_success result (reply parts (pos 500) (codes "failed to save file") resp)
        λ file. save_reply (codes "file saved successfully") file resp

  abbrev pub save_copy : ℤ → FileRecord → HttpResponse → Handled parts
  save_copy user_id original resp =
      on_files parts
        (FileService.create parts.db parts.by_id parts.by_hash (copy_for user_id original))
      >>= saved resp

  abbrev pub save_unless_mine :
      ℤ → FileRecord → HttpResponse → ServiceResult FileRecord → Handled parts
  save_unless_mine user_id original resp existing =
      if_success existing (save_copy user_id original resp) λ dup.
        if eq_ℤ dup.user_id user_id
        then save_reply (codes "file already saved") dup resp
        else save_copy user_id original resp

  abbrev pub save_original : ℤ → HttpResponse → ServiceResult FileRecord → Handled parts
  save_original user_id resp result =
      if_success result (reply parts (pos 404) (codes "original file not found") resp) λ original.
        on_files parts
          (FileService.get_file_by_hash parts.db parts.by_id parts.by_hash original.file_hash)
        >>= save_unless_mine user_id original resp

  abbrev pub save_found : ℤ → HttpResponse → Option ShareRecord → Handled parts
  save_found user_id resp none = reply parts (pos 404) (codes "share not found or expired") resp
  save_found user_id resp (some share) =
      if eq_ℤ share.user_id user_id
      then reply parts (pos 400) (codes "cannot save your own share") resp
      else on_files parts
          (FileService.get_file_by_id parts.db parts.by_id parts.by_hash share.file_id)
        >>= save_original user_id resp

  unfoldable pub handle_share_save : HttpRequest → HttpResponse → Handled parts
  handle_share_save req resp = require_auth parts req resp λ user_id.
      ask_server parts (Shares.find_by_token parts.db (get_param req (codes "token") []))
      >>= save_found user_id resp

  abbrev download_found : HttpResponse → Option ShareRecord → Handled parts
  download_found resp none = reply parts (pos 404) (codes "share not found or expired") resp
  download_found resp (some share) =
      on_files parts (FileService.get_file_by_id parts.db parts.by_id parts.by_hash share.file_id)
      >>= λ result.
          if_success result (reply parts (pos 404) (codes "file not found") resp)
            λ file. send_file parts file resp resp

  -- The function without a name that `main` registers for a shared file.
  unfoldable pub share_download : HttpRequest → HttpResponse → Handled parts
  share_download req resp =
      ask_server parts (Shares.find_by_token parts.db (get_param req (codes "token") []))
      >>= download_found resp
