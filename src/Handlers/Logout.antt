-- ===== src/Handlers/Logout.antt =====
-- src/main.cpp: what follows a logout.
use fileagent_server.Base.{◌≡◌, ◌∙◌, refl, ap, arith, subst, true, false, none, some, drop}
use fileagent_server.Base.Bytes.{Bytes, codes, bytes_key}
use fileagent_server.Base.Int.{ℤ, pos, eq_ℤ}
use fileagent_server.Base.Outcome.{returned}
use fileagent_server.CacheInterface.{IsLawful}
use fileagent_server.Dao.Logout.{find_by_token-delete_by_token, DeletesSessions}
use fileagent_server.Dao.Sessions
use fileagent_server.FastCgiServer.{HttpRequest, get_header}
use fileagent_server.Responses.{HttpResponse}
use fileagent_server.Handlers.{
  Parts, World, session_store, with_sessions, token_of, authenticate_request, unauthorized,
  require_auth, make_json_response,
}
use fileagent_server.Handlers.Access.{
  Protected, handle, bind-returned, session_user-none, session_user-SameData, handle-nobody,
}
use fileagent_server.Handlers.Files.{handle_logout}

module _ {S D J : Type 0} (parts : Parts S D J) (lawful : IsLawful parts.sessions) where
  token_of-drop :
      (req : HttpRequest) (token : Bytes)
      → token_of parts req ≡ some token
      → drop 7 (get_header req (codes "Authorization")) ≡ token
  unfolding token_of
  token_of-drop req token h = ground (arith, h)

  -- The world after the session of a token was deleted.
  abbrev logged_out : Bytes → World parts → World parts
  logged_out token w =
      with_sessions parts w
        (Sessions.delete_by_token parts.db parts.sessions token (session_store parts w)).1

  handle_logout-user :
      (req : HttpRequest) (resp : HttpResponse) (token : Bytes) (user : ℤ) (w : World parts)
      → token_of parts req ≡ some token
      → (authenticate_request parts req w).0 ≡ returned user
      → eq_ℤ user (pos 0) ≡ false
      → handle_logout parts req resp w ≡ (
        returned (make_json_response parts (pos 0) (codes "logout success") resp),
        logged_out token (authenticate_request parts req w).1,
      )
  unfolding handle_logout require_auth
  handle_logout-user req resp token user w t known real =
      bind-returned parts _ (authenticate_request parts req w) user known
      ∙ rw (real, token_of-drop req token t) refl

  -- Where the server deletes what it is told to: if a request with a token authenticates a user, and
  -- the DELETE of its session succeeds, it is logged out with success, and after that any request
  -- with the same token is answered 401 by every handler of `Protected`.
  pub handle-handle_logout :
      DeletesSessions parts.db
      → (h : Protected) (req later : HttpRequest) (resp fresh : HttpResponse) (token : Bytes)
        (user : ℤ) (w : World parts)
      → lawful.IsValid w.sessions
      → token_of parts req ≡ some token
      → token_of parts later ≡ some token
      → (authenticate_request parts req w).0 ≡ returned user
      → eq_ℤ user (pos 0) ≡ false
      → (Sessions.delete_by_token parts.db parts.sessions token
          (session_store parts (authenticate_request parts req w).1)).0
        ≡ true
      → ((handle_logout parts req resp w).0
          ≡ returned (make_json_response parts (pos 0) (codes "logout success") resp))
        × ((handle parts h later fresh (handle_logout parts req resp w).1).0
            ≡ returned (unauthorized parts fresh))
  unfolding authenticate_request
  handle-handle_logout deletes h req later resp fresh token user w v t t' known real done =
      let out = handle_logout-user req resp token user w t known real in
      let (same, valid) =
        session_user-SameData parts lawful.IsValid lawful.get-IsValid
          (λ key r s. lawful.put-IsValid key r s) (token_of parts req) w v in
      let gone =
        find_by_token-delete_by_token parts.db parts.sessions lawful deletes token
          (session_store parts (authenticate_request parts req w).1) valid done in
      let nobody =
        session_user-none parts (token_of parts later)
          (logged_out token (authenticate_request parts req w).1)
          (λ other e.
            subst
              (λ k.
                (Sessions.find_by_token parts.db parts.sessions k
                  (session_store parts (logged_out token (authenticate_request parts req w).1))).0
                ≡ returned none)
              (cc (t', e)) gone) in
      (
        ap (λ x. x.0) out,
        ap (λ x. (handle parts h later fresh x.1).0) out
            ∙ ap (λ x. x.0) (handle-nobody parts h later fresh _ nobody),
      )
