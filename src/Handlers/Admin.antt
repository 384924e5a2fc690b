-- ===== src/Handlers/Admin.antt =====
-- src/main.cpp: the handlers of the administrators.
use fileagent_server.Base.{Bool, [], ◌∷◌, ◌++◌, map, Option, none, some, if◌then◌else◌}
use fileagent_server.Base.Bytes.{Bytes, codes}
use fileagent_server.Base.Int.{ℤ, pos}
use fileagent_server.Base.Number.{stoll, to_string}
use fileagent_server.Base.Outcome.{◌>>=◌}
use fileagent_server.Dao.Users
use fileagent_server.Database.{run_update}
use fileagent_server.FastCgiServer.{HttpRequest, get_param, get_query}
use fileagent_server.Models.{UserRecord}
use fileagent_server.Responses.{HttpResponse}
use fileagent_server.Handlers.Files.{reply}
use fileagent_server.Handlers.{
  Parts, Handled, on_server, ask_server, converted, answered, require_auth, require_json_body,
  number_or,
}

module _ {S D J : Type 0} (parts : Parts S D J) where
  abbrev if_admin : HttpResponse → Handled parts → Option UserRecord → Handled parts
  if_admin resp next none = reply parts (pos 403) (codes "admin access required") resp
  if_admin resp next (some user) =
      if user.is_admin then next else reply parts (pos 403) (codes "admin access required") resp

  -- `requireAdmin`, and the handler's return where it is false.
  unfoldable pub require_admin : HttpRequest → HttpResponse → Handled parts → Handled parts
  require_admin req resp next =
      require_auth parts req resp
        λ user_id. ask_server parts (Users.find_by_id parts.db user_id) >>= if_admin resp next

  abbrev user_item : UserRecord → J
  user_item u = parts.json.object (
      (codes "id", parts.json.number u.id)
      ∷ (codes "username", parts.json.text u.username)
      ∷ (codes "email", parts.json.text u.email)
      ∷ (codes "status", parts.json.number u.status)
      ∷ (codes "is_admin", parts.json.flag u.is_admin)
      ∷ (codes "created_at", parts.json.text u.created_at)
      ∷ [])

  unfoldable pub handle_admin_users : HttpRequest → HttpResponse → Handled parts
  handle_admin_users req resp = require_admin req resp (
      number_or parts (pos 20) (get_query req (codes "limit") []) >>= λ limit.
      number_or parts (pos 0) (get_query req (codes "offset") []) >>= λ offset.
      ask_server parts (Users.list_all parts.db limit offset) >>= λ users.
      ask_server parts (Users.count_all parts.db) >>= λ total.
      answered parts
        ((codes "code", parts.json.number (pos 0))
          ∷ (codes "users", parts.json.array (map user_item users))
          ∷ (codes "total", parts.json.number total)
          ∷ [])
        resp)

  abbrev status_reply : HttpResponse → Bytes → Bytes → Bool → Handled parts
  status_reply resp good bad done =
      if done then reply parts (pos 0) good resp else reply parts (pos 500) bad resp

  unfoldable pub handle_admin_set_status : HttpRequest → HttpResponse → Handled parts
  handle_admin_set_status req resp = require_admin req resp (
      require_json_body parts req resp λ j.
        converted parts (stoll (get_param req (codes "userId") [])) >>= λ user_id.
        converted parts (parts.json.get_int (codes "status") j) >>= λ status.
        on_server parts (Users.update_status parts.db user_id status)
        >>= status_reply resp (codes "status updated") (codes "failed to update status"))

  abbrev set_admin_sql : ℤ → Bool → Bytes
  set_admin_sql user_id is_admin =
      codes "UPDATE users SET is_admin = "
      ++ ((if is_admin then codes "1" else codes "0")
          ++ (codes ", updated_at = NOW() WHERE id = " ++ to_string user_id))

  abbrev set_admin : HttpResponse → ℤ → Bool → Handled parts
  set_admin resp user_id is_admin w =
      let updating =
        on_server parts (run_update parts.db (set_admin_sql user_id is_admin))
        >>= status_reply resp (codes "admin status updated")
            (codes "failed to update admin status") in
      if parts.db.connected w.server
      then updating w
      else reply parts (pos 500) (codes "database error") resp w

  unfoldable pub handle_admin_set_admin : HttpRequest → HttpResponse → Handled parts
  handle_admin_set_admin req resp = require_admin req resp (
      require_json_body parts req resp λ j.
        converted parts (stoll (get_param req (codes "userId") [])) >>= λ user_id.
        converted parts (parts.json.get_flag (codes "is_admin") j) >>= λ is_admin.
        set_admin resp user_id is_admin)
