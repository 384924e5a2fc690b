-- ===== src/Handlers/Users.antt =====
-- src/main.cpp: the handlers of registration and login. The time of the request, the random bytes and
-- the printed time of expiry are arguments.
use fileagent_server.Base.{ℕ, Bool, true, false, [], ◌∷◌, if◌then◌else◌}
use fileagent_server.Base.Bytes.{Bytes, codes}
use fileagent_server.Base.Int.{ℤ, pos}
use fileagent_server.Base.Outcome.{returned, M, ◌>>=◌}
use fileagent_server.AuthService
use fileagent_server.AuthService.{UserDao}
use fileagent_server.Dao.Sessions
use fileagent_server.Dao.Users
use fileagent_server.FastCgiServer.{HttpRequest}
use fileagent_server.Hash.{generate_token}
use fileagent_server.Models.{UserRecord, ServiceResult}
use fileagent_server.RateLimiter.{allow}
use fileagent_server.RateLimiter.Clients.{client_ip}
use fileagent_server.Responses.{HttpResponse}
use fileagent_server.Handlers.{
  Parts, World, Handled, session_store, with_sessions, ask_server, converted, answered,
  require_json_body,
}
use fileagent_server.Handlers.Files.{reply, if_success}

module _ {S D J : Type 0} (parts : Parts S D J) where
  -- UserDao, as AuthService calls it.
  abbrev pub user_dao : UserDao S
  user_dao = record {
    create_user = Users.create_user parts.db;
    find_by_username = Users.find_by_username parts.db parts.prepared;
    update_status = Users.update_status parts.db;
  }

  abbrev pub if_allowed : HttpResponse → Handled parts → Bool → Handled parts
  if_allowed resp next true = next
  if_allowed resp next false =
      reply parts (pos 429) (codes "too many requests, please try later") resp

  abbrev pub limit : Bytes → ℕ → M (World parts) Bool
  limit ip now w =
      let (allowed, limiter) = allow ip now w.limiter in
      (returned allowed, record w { limiter = limiter })

  abbrev register_reply : HttpResponse → ServiceResult UserRecord → Handled parts
  register_reply resp result =
      if result.success
      then reply parts (pos 0) (codes "register success") resp
      else reply parts (pos 400) result.message resp

  unfoldable pub handle_register : ℕ → Bytes → HttpRequest → HttpResponse → Handled parts
  handle_register now random req resp =
      limit (client_ip req) now
      >>= if_allowed resp (
          require_json_body parts req resp λ j.
            converted parts (parts.json.get_text (codes "username") j) >>= λ username.
            converted parts (parts.json.get_text (codes "password") j) >>= λ password.
            converted parts (parts.json.get_text (codes "email") j) >>= λ email.
            (λ w.
              let (result, st) =
                AuthService.register_user user_dao parts.crypt username password email random
                  w.server in
              (result, record w { server = st }))
            >>= register_reply resp)

  -- The end of `handleLogin`, of a user whose session was created or not.
  abbrev pub session_reply : Bytes → UserRecord → HttpResponse → Bool → Handled parts
  session_reply token user resp done =
      if done
      then answered parts
          ((codes "code", parts.json.number (pos 0))
            ∷ (codes "message", parts.json.text (codes "login success"))
            ∷ (codes "token", parts.json.text token)
            ∷ (codes "user_id", parts.json.number user.id)
            ∷ [])
          resp
      else reply parts (pos 500) (codes "failed to create session") resp

  abbrev pub new_session : ℤ → Bytes → Bytes → M (World parts) Bool
  new_session user_id token expires_at w =
      let (done, s) =
        Sessions.create_session parts.db parts.sessions user_id token expires_at
          (session_store parts w) in
      (returned done, with_sessions parts w s)

  abbrev pub login_reply : Bytes → Bytes → HttpResponse → ServiceResult UserRecord → Handled parts
  login_reply random expires_at resp result =
      if_success result (reply parts (pos 401) result.message resp) λ user.
        new_session user.id (generate_token random) expires_at
        >>= session_reply (generate_token random) user resp

  unfoldable pub handle_login : ℕ → Bytes → Bytes → HttpRequest → HttpResponse → Handled parts
  handle_login now random expires_at req resp =
      limit (client_ip req) now
      >>= if_allowed resp (
          require_json_body parts req resp λ j.
            converted parts (parts.json.get_text (codes "username") j) >>= λ username.
            converted parts (parts.json.get_text (codes "password") j) >>= λ password.
            ask_server parts (AuthService.login user_dao parts.crypt username password)
            >>= login_reply random expires_at resp)
