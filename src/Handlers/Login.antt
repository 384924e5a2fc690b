-- ===== src/Handlers/Login.antt =====
-- src/main.cpp: what follows a login.
mod Tests
use fileagent_server.Base.{
  ℕ, ◌≡◌, ◌∙◌, ◌⊎◌, refl, sym, ap, Bool, true, false, List, [], ◌∷◌, take, Option, none, some,
  Bool-cases, inl, inr,
}
use fileagent_server.Base.Bytes.{Bytes, codes, c_str, bytes_key}
use fileagent_server.Base.Int.{ℤ, pos}
use fileagent_server.Base.Outcome.{Outcome, returned, thrown, or_throw, M, pure, bind, ◌>>=◌}
use fileagent_server.AuthService
use fileagent_server.AuthService.Found.{login-found}
use fileagent_server.StringUtil.{trim_copy}
use fileagent_server.CacheInterface.{CacheInterface, IsLawful}
use fileagent_server.Dao.Login.{FindsCreated, find_by_token-create_session}
use fileagent_server.Dao.Sessions
use fileagent_server.Dao.Users
use fileagent_server.FastCgiServer.{HttpRequest}
use fileagent_server.Hash.{generate_token}
use fileagent_server.Models.{UserRecord, ServiceResult}
use fileagent_server.RateLimiter.{RateLimiter, allow}
use fileagent_server.RateLimiter.Clients.{client_ip}
use fileagent_server.Responses.{HttpResponse}
use fileagent_server.Handlers.{
  Parts, World, Handled, session_store, with_sessions, on_sessions, ask_server, converted,
  make_json_response, require_json_body, token_of, session_user, user_of, authenticate_request,
}
use fileagent_server.Handlers.Access.{bind-returned}
use fileagent_server.Handlers.Owners.{or_throw-some}
use fileagent_server.Handlers.Users.{
  user_dao, if_allowed, limit, session_reply, new_session, login_reply, handle_login,
}

module _ {S D J : Type 0} (parts : Parts S D J) where
  -- An exception, or nothing but a message.
  abbrev pub IsMessage : HttpResponse → Outcome HttpResponse → Type 0
  IsMessage resp o =
      (o ≡ thrown)
      ⊎ ((code : ℤ) × (message : Bytes) × (o
            ≡ returned (make_json_response parts code message resp)))

  -- The body of `req` names a user of the table who is enabled, and `crypt_r` of the password in it,
  -- with the first 29 bytes of the user's hash, gives that hash; as this user the request `later`
  -- authenticates afterwards, in `w'`.
  pub record IsLoggedIn (req later : HttpRequest) (w w' : World parts) : Type 0 where
    pub body : J
    pub username : Bytes
    pub password : Bytes
    pub user : UserRecord
    pub parsed : parts.json.parse req.body ≡ some body
    pub named : parts.json.get_text (codes "username") body ≡ some username
    pub given : parts.json.get_text (codes "password") body ≡ some password
    pub found :
        Users.find_by_username parts.db parts.prepared (trim_copy username) w.server
        ≡ returned (some user)
    pub enabled : user.status ≡ pos 1
    pub hashed :
        parts.crypt (c_str (trim_copy password)) (c_str (take 29 user.password))
        ≡ some user.password
    pub known : (authenticate_request parts later w').0 ≡ returned user.id

  bind-each :
      {A B : Type 0} (R : Outcome B × World parts → Type 0) (f : A → M (World parts) B)
      (x : Outcome A × World parts)
      → R (thrown, x.1)
      → ((a : A) → x.0 ≡ returned a → R (f a x.1))
      → R (bind f x)
  bind-each R f (returned a, w) h k = k a refl
  bind-each R f (thrown, w) h k = h

  -- What a login comes to, at `w`.
  abbrev pub Answered :
      HttpRequest
      → HttpRequest
      → HttpResponse
      → World parts
      → Outcome HttpResponse × World parts
      → Type 0
  Answered req later resp w (o, w') = IsMessage resp o ⊎ IsLoggedIn req later w w'

  module _ (lawful : IsLawful parts.sessions) (IsId : ℤ → Type 0) (expires_at : Bytes)
      (finds : FindsCreated parts.db IsId expires_at)
      (users : (name : Bytes) (st : S) (user : UserRecord)
        → Users.find_by_username parts.db parts.prepared name st ≡ returned (some user)
        → IsId user.id) where
    -- Who a session that was created is of.
    authenticate-new_session :
        (later : HttpRequest) (user_id : ℤ) (token : Bytes) (w : World parts)
        → IsId user_id
        → lawful.IsValid w.sessions
        → lawful.peek token w.sessions ≡ none
        → token_of parts later ≡ some token
        → (Sessions.create_session parts.db parts.sessions user_id token expires_at
            (session_store parts w)).0
          ≡ true
        → (authenticate_request parts later (new_session parts user_id token expires_at w).1).0
          ≡ returned user_id
    unfolding authenticate_request
    authenticate-new_session later user_id token w is_id v fresh t done =
        let (r, found, same) =
          find_by_token-create_session parts.db parts.sessions lawful IsId expires_at finds user_id
            token (session_store parts w) is_id v fresh done in
        rw t (
          ap (λ x. x.0)
            (bind-returned parts (λ session. pure (user_of parts session))
              (on_sessions parts (Sessions.find_by_token parts.db parts.sessions token)
                (new_session parts user_id token expires_at w).1)
              (some r) found)
          ∙ ap returned same)

    module _ (req later : HttpRequest) (resp : HttpResponse) (random : Bytes) (w : World parts)
        (valid : lawful.IsValid w.sessions)
        (fresh : lawful.peek (generate_token random) w.sessions ≡ none)
        (same_token : token_of parts later ≡ some (generate_token random)) where
      message :
          (code : ℤ) (text : Bytes) (w' : World parts)
          → Answered req later resp w (returned (make_json_response parts code text resp), w')
      message code text w' = inl (inr (code, text, refl))

      -- The world after the question to the limit.
      abbrev limited : RateLimiter → World parts
      limited l = record w { limiter = l }

      login_reply-Answered :
          (j : J) (username password : Bytes) (o : Option UserRecord)
          (result : ServiceResult UserRecord) (l : RateLimiter)
          → parts.json.parse req.body ≡ some j
          → parts.json.get_text (codes "username") j ≡ some username
          → parts.json.get_text (codes "password") j ≡ some password
          → AuthService.login (user_dao parts) parts.crypt username password w.server
            ≡ returned result
          → result.value ≡ o
          → Answered req later resp w (login_reply parts random expires_at resp result (limited l))
      login_reply-Answered j username password none result l parsed named given verified e =
          rw e (message (pos 401) result.message (limited l))
      login_reply-Answered j username password (some user) result l parsed named given verified e =
          let token = generate_token random in
          let (found, (enabled, hashed)) =
            login-found (user_dao parts) parts.crypt username password w.server result user verified
              e in
          let is_id = users (trim_copy username) w.server user found in
          let created =
            Sessions.create_session parts.db parts.sessions user.id token expires_at
              (session_store parts (limited l)) in
          elim (Bool-cases created.0) [
            | inl done ↦
                rw (e, done)
                  (inr record {
                    body = j;
                    username = username;
                    password = password;
                    user = user;
                    parsed = parsed;
                    named = named;
                    given = given;
                    found = found;
                    enabled = enabled;
                    hashed = hashed;
                    known =
                        authenticate-new_session later user.id token (limited l) is_id valid fresh
                          same_token done;
                  })
            | inr undone ↦
                rw (e, undone)
                  (message (pos 500) (codes "failed to create session")
                    (with_sessions parts (limited l) created.1))
          ]

      abbrev login_body : J → Handled parts
      login_body j = do
        username ← converted parts (parts.json.get_text (codes "username") j)
        password ← converted parts (parts.json.get_text (codes "password") j)
        ask_server parts (AuthService.login (user_dao parts) parts.crypt username password)
            >>= login_reply parts random expires_at resp

      login_body-Answered :
          (o : Option J) (l : RateLimiter)
          → parts.json.parse req.body ≡ o
          → Answered req later resp w (require_json_body parts req resp login_body (limited l))
      unfolding require_json_body
      login_body-Answered none l e =
          rw (require_json_body, e)
            (message (pos 400) (codes "request body must be JSON") (limited l))
      login_body-Answered (some j) l parsed =
          rw (require_json_body, parsed)
            (bind-each (Answered req later resp w) _ _ (inl (inl refl)) (λ username e.
              bind-each (Answered req later resp w) _ _ (inl (inl refl)) (λ password f.
                bind-each (Answered req later resp w) _ _ (inl (inl refl)) (λ result g.
                  login_reply-Answered j username password result.value result l parsed
                    (or_throw-some parts _ username e) (or_throw-some parts _ password f) g refl))))

      if_allowed-Answered :
          (allowed : Bool) (l : RateLimiter)
          → Answered req later resp w (
              if_allowed parts resp
                (require_json_body parts req resp login_body)
                allowed
                (limited l))
      if_allowed-Answered false l =
          message (pos 429) (codes "too many requests, please try later") (limited l)
      if_allowed-Answered true l = login_body-Answered (parts.json.parse req.body) l refl

      -- Where the database finds the sessions that it stores for its users with this expiry, the cache of
      -- sessions is valid and does not hold the new token, and the body, if it is an object, has both
      -- keys: the login throws, or answers nothing but a message, or its body names a user of the table
      -- who is enabled, `crypt_r` of the password in it with the salt of the user's hash gives that hash,
      -- and any request with the new token authenticates as this user right after it.
      pub handle_login-Answered :
          ((j : J)
            → parts.json.parse req.body ≡ some j
            → (parts.json.lacks (codes "username") j ≡ false)
              × (parts.json.lacks (codes "password") j ≡ false))
          → (now : ℕ)
          → Answered req later resp w (handle_login parts now random expires_at req resp w)
      unfolding handle_login
      handle_login-Answered present now =
          let (allowed, l) = allow (client_ip req) now w.limiter in if_allowed-Answered allowed l
