-- ===== src/Handlers/Access.antt =====
-- src/main.cpp: who is let in.
use fileagent_server.Base.{ℕ, Bool, ◌≡◌, refl, ap, Option, none, some}
use fileagent_server.Base.Bytes.{Bytes}
use fileagent_server.Base.Int.{ℤ, pos}
use fileagent_server.Base.Outcome.{Outcome, returned, thrown, M, pure, bind}
use fileagent_server.Dao.Logout.{find_by_token-Kept}
use fileagent_server.Dao.Sessions
use fileagent_server.FastCgiServer.{HttpRequest}
use fileagent_server.Models.{SessionRecord, ServiceResult}
use fileagent_server.Handlers.Chunks.{handle_chunk_init, handle_chunk_status}
use fileagent_server.Handlers.Assistant.{handle_llm_chat, handle_llm_analyze, handle_agent_chat}
use fileagent_server.Responses.{HttpResponse}
use fileagent_server.Handlers.{
  Parts, World, Handled, session_store, on_sessions, token_of, session_user, user_of,
  authenticate_request, if_user, unauthorized, require_auth,
}
use fileagent_server.Handlers.Files.{
  handle_logout, handle_list_files, handle_download, handle_delete,
}
use fileagent_server.Handlers.Shares.{
  handle_share_create, handle_share_delete, handle_share_list, handle_share_save,
}
use fileagent_server.Handlers.Admin.{
  require_admin, handle_admin_users, handle_admin_set_status, handle_admin_set_admin,
}

-- The handlers, of those modelled, that ask who the user is.
pub data Protected : Type 0 where
  logout : Protected
  list_files : Protected
  download : Protected
  delete : Protected
  share_create : Bytes → (ℤ → Bytes) → Protected
  share_delete : Protected
  share_list : Protected
  share_save : Protected
  admin_users : Protected
  admin_set_status : Protected
  admin_set_admin : Protected
  chunk_init : Bytes → ℕ → Protected
  chunk_status : Protected
  llm_chat : (Bytes → ServiceResult Bytes) → Protected
  llm_analyze : (Bytes → Bytes → ServiceResult Bytes) → Protected
  agent_chat : Bool → (Bytes → ℤ → Bytes) → Protected

module _ {S D J : Type 0} (parts : Parts S D J) where
  abbrev pub handle : Protected → HttpRequest → HttpResponse → Handled parts
  handle logout = handle_logout parts
  handle list_files = handle_list_files parts
  handle download = handle_download parts
  handle delete = handle_delete parts
  handle (share_create random hours_from_now) = handle_share_create parts random hours_from_now
  handle share_delete = handle_share_delete parts
  handle share_list = handle_share_list parts
  handle share_save = handle_share_save parts
  handle admin_users = handle_admin_users parts
  handle admin_set_status = handle_admin_set_status parts
  handle admin_set_admin = handle_admin_set_admin parts
  handle (chunk_init upload_id now) = handle_chunk_init parts upload_id now
  handle chunk_status = handle_chunk_status parts
  handle (llm_chat chat) = handle_llm_chat parts chat
  handle (llm_analyze analyze) = handle_llm_analyze parts analyze
  handle (agent_chat initialized chat) = handle_agent_chat parts initialized chat

  -- A request has no token, or there is no session for it.
  abbrev pub Anonymous : HttpRequest → World parts → Type 0
  Anonymous req w =
      (token : Bytes)
      → token_of parts req ≡ some token
      → (Sessions.find_by_token parts.db parts.sessions token (session_store parts w)).0
        ≡ returned none

  pub bind-returned :
      {A B : Type 0} (f : A → M (World parts) B) (x : Outcome A × World parts) (a : A)
      → x.0 ≡ returned a
      → bind f x ≡ f a x.1
  bind-returned f (o, w) a h = ap (λ o. bind f (o, w)) h

  pub session_user-none :
      (o : Option Bytes) (w : World parts)
      → ((token : Bytes)
          → o ≡ some token
          → (Sessions.find_by_token parts.db parts.sessions token (session_store parts w)).0
            ≡ returned none)
      → (session_user parts o w).0 ≡ returned (pos 0)
  session_user-none none w h = refl
  session_user-none (some token) w h =
      ap (λ x. x.0)
        (bind-returned _
          (on_sessions parts (Sessions.find_by_token parts.db parts.sessions token) w) none
          (h token refl))

  -- The response of `requireAuth` to whom it does not know.
  require_auth-nobody :
      (req : HttpRequest) (resp : HttpResponse) (next : ℤ → Handled parts) (w : World parts)
      → (authenticate_request parts req w).0 ≡ returned (pos 0)
      → require_auth parts req resp next w
        ≡ (returned (unauthorized parts resp), (authenticate_request parts req w).1)
  unfolding require_auth
  require_auth-nobody req resp next w h =
      bind-returned (if_user parts resp next) (authenticate_request parts req w) (pos 0) h

  pub handle-nobody :
      (h : Protected) (req : HttpRequest) (resp : HttpResponse) (w : World parts)
      → (authenticate_request parts req w).0 ≡ returned (pos 0)
      → handle h req resp w
        ≡ (returned (unauthorized parts resp), (authenticate_request parts req w).1)
  unfolding handle_logout handle_list_files handle_download handle_delete handle_share_create
      handle_chunk_init handle_chunk_status handle_llm_chat handle_llm_analyze handle_agent_chat
      handle_share_delete handle_share_list handle_share_save handle_admin_users
      handle_admin_set_status handle_admin_set_admin require_admin
  handle-nobody logout req resp w e = require_auth-nobody req resp _ w e
  handle-nobody list_files req resp w e = require_auth-nobody req resp _ w e
  handle-nobody download req resp w e = require_auth-nobody req resp _ w e
  handle-nobody delete req resp w e = require_auth-nobody req resp _ w e
  handle-nobody (share_create random hours_from_now) req resp w e =
      require_auth-nobody req resp _ w e
  handle-nobody share_delete req resp w e = require_auth-nobody req resp _ w e
  handle-nobody share_list req resp w e = require_auth-nobody req resp _ w e
  handle-nobody share_save req resp w e = require_auth-nobody req resp _ w e
  handle-nobody admin_users req resp w e = require_auth-nobody req resp _ w e
  handle-nobody admin_set_status req resp w e = require_auth-nobody req resp _ w e
  handle-nobody admin_set_admin req resp w e = require_auth-nobody req resp _ w e
  handle-nobody (chunk_init upload_id now) req resp w e = require_auth-nobody req resp _ w e
  handle-nobody chunk_status req resp w e = require_auth-nobody req resp _ w e
  handle-nobody (llm_chat chat) req resp w e = require_auth-nobody req resp _ w e
  handle-nobody (llm_analyze analyze) req resp w e = require_auth-nobody req resp _ w e
  handle-nobody (agent_chat initialized chat) req resp w e = require_auth-nobody req resp _ w e

  -- What authentication leaves alone.
  abbrev pub SameData : World parts → World parts → Type 0
  SameData w w' =
      (w'.server ≡ w.server) × (w'.disk ≡ w.disk) × (w'.by_id ≡ w.by_id) × (w'.by_hash ≡ w.by_hash)

  bind-pure :
      {A B : Type 0} (f : A → B) (x : Outcome A × World parts) → (bind (λ a. pure (f a)) x).1 ≡ x.1
  bind-pure f (returned a, w) = refl
  bind-pure f (thrown, w) = refl

  module _ (P : parts.sessions.State → Type 0)
      (get-P : (token : Bytes) (s : parts.sessions.State) → P s → P (parts.sessions.get token s).1)
      (put-P : (token : Bytes) (r : SessionRecord) (s : parts.sessions.State)
        → P s
        → P (parts.sessions.put token r s)) where
    pub session_user-SameData :
        (o : Option Bytes) (w : World parts)
        → P w.sessions
        → SameData w (session_user parts o w).1 × P (session_user parts o w).1.sessions
    session_user-SameData none w v = ((refl, refl, refl, refl), v)
    session_user-SameData (some token) w v =
        let (server, valid) =
          find_by_token-Kept parts.db parts.sessions P get-P put-P token (session_store parts w)
            v in
        let same =
          bind-pure (λ session. user_of parts session)
            (on_sessions parts (Sessions.find_by_token parts.db parts.sessions token) w) in
        rw same ((server, refl, refl, refl), valid)

  -- A request without a session is answered 401 by every handler of `Protected`, and changes neither
  -- the database nor the contents of files nor the caches of files.
  pub handle-Anonymous :
      (h : Protected) (req : HttpRequest) (resp : HttpResponse) (w : World parts)
      → Anonymous req w
      → ((handle h req resp w).0 ≡ returned (unauthorized parts resp))
        × SameData w (handle h req resp w).1
  unfolding authenticate_request
  handle-Anonymous h req resp w nobody =
      let answer = handle-nobody h req resp w (session_user-none (token_of parts req) w nobody) in
      let (same, valid) =
        session_user-SameData (λ s. Unit {0}) (λ token s v. tt) (λ token r s v. tt)
          (token_of parts req) w tt in
      (ap (λ x. x.0) answer, rw (ap (λ x. x.1) answer) same)
