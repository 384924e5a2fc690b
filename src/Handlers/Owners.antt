-- ===== src/Handlers/Owners.antt =====
-- src/main.cpp: whose files are sent and deleted.
use fileagent_server.Base.{
  ◌≡◌, ◌∙◌, ◌⊎◌, refl, true, false, [], Option, none, some, Bool-cases, inl, inr,
}
use fileagent_server.Base.Bytes.{Bytes, codes}
use fileagent_server.Base.Int.{ℤ, pos, eq_ℤ}
use fileagent_server.Base.Number.{stoll}
use fileagent_server.Base.Outcome.{Outcome, returned, thrown, or_throw, M, bind, ◌>>=◌}
use fileagent_server.FastCgiServer.{HttpRequest, get_param}
use fileagent_server.FileService
use fileagent_server.FileService.Known.{get_file_by_id-server}
use fileagent_server.Models.{FileRecord, ServiceResult}
use fileagent_server.Responses.{HttpResponse}
use fileagent_server.Handlers.{
  Parts, World, Handled, file_store, on_files, converted, make_json_response, token_of,
  authenticate_request, if_user, require_auth,
}
use fileagent_server.Handlers.Access.{session_user-SameData}
use fileagent_server.Handlers.Files.{with_file, handle_download, handle_delete}

module _ {S D J : Type 0} (parts : Parts S D J) where
  -- Nothing is answered but a message, and neither the database nor the contents of files change.
  abbrev pub Refused : HttpResponse → World parts → Outcome HttpResponse × World parts → Type 0
  Refused resp w (o, w') =
      ((o ≡ thrown)
        ⊎ ((code : ℤ) × (message : Bytes) × (o
              ≡ returned (make_json_response parts code message resp))))
      × ((w'.server ≡ w.server) × (w'.disk ≡ w.disk))

  -- The request is that of a user, and the file it names is answered, and is a file of that user.
  pub record IsOwner (req : HttpRequest) (w : World parts) : Type 0 where
    pub user : ℤ
    pub id : ℤ
    pub result : ServiceResult FileRecord
    pub file : FileRecord
    pub known : (authenticate_request parts req w).0 ≡ returned user
    pub real : eq_ℤ user (pos 0) ≡ false
    pub named : stoll (get_param req (codes "fileId") []) ≡ some id
    pub answered :
        (FileService.get_file_by_id parts.db parts.by_id parts.by_hash id
          (file_store parts (authenticate_request parts req w).1)).0
        ≡ returned result
    pub found : result.value ≡ some file
    pub owns : eq_ℤ file.user_id user ≡ true

  bind-or :
      {A B Q : Type 0} (P : Outcome B × World parts → Type 0) (f : A → M (World parts) B)
      (x : Outcome A × World parts)
      → P (thrown, x.1)
      → ((a : A) → x.0 ≡ returned a → P (f a x.1) ⊎ Q)
      → P (bind f x) ⊎ Q
  bind-or P f (returned a, w) h k = k a refl
  bind-or P f (thrown, w) h k = inl h

  pub or_throw-some : {A : Type 0} (o : Option A) (a : A) → or_throw o ≡ returned a → o ≡ some a
  or_throw-some none a h = absurd (cc h)
  or_throw-some (some b) a h = cc h

  refused :
      (code : ℤ) (message : Bytes) (resp : HttpResponse) (w w' : World parts)
      → (w'.server ≡ w.server) × (w'.disk ≡ w.disk)
      → Refused resp w (returned (make_json_response parts code message resp), w')
  refused code message resp w w' same = (inr (code, message, refl), same)

  with_file-Refused :
      (user id : ℤ) (req : HttpRequest) (resp : HttpResponse) (next : FileRecord → Handled parts)
      (o : Option FileRecord) (result : ServiceResult FileRecord) (w w' : World parts)
      → result.value ≡ o
      → (authenticate_request parts req w).0 ≡ returned user
      → eq_ℤ user (pos 0) ≡ false
      → stoll (get_param req (codes "fileId") []) ≡ some id
      → (FileService.get_file_by_id parts.db parts.by_id parts.by_hash id
          (file_store parts (authenticate_request parts req w).1)).0
        ≡ returned result
      → (w'.server ≡ w.server) × (w'.disk ≡ w.disk)
      → Refused resp w (with_file parts user resp next result w') ⊎ IsOwner req w
  with_file-Refused user id req resp next none result w w' e known real named answered same =
      inl (rw e (refused (pos 404) (codes "file not found") resp w w' same))
  with_file-Refused user id req resp next (some r) result w w' e known real named answered same =
      elim (Bool-cases (eq_ℤ r.user_id user)) [
        | inl owns ↦ inr record {
          user = user;
          id = id;
          result = result;
          file = r;
          known = known;
          real = real;
          named = named;
          answered = answered;
          found = e;
          owns = owns;
        }
        | inr other ↦ inl (rw (e, other) (refused (pos 403) (codes "access denied") resp w w' same))
      ]

  -- The way that the two handlers share.
  abbrev owned :
      (ℤ → ℤ → FileRecord → Handled parts) → HttpRequest → HttpResponse → ℤ → Handled parts
  owned next req resp user = converted parts (stoll (get_param req (codes "fileId") [])) >>= λ id.
      on_files parts (FileService.get_file_by_id parts.db parts.by_id parts.by_hash id)
      >>= with_file parts user resp (next user id)

  owned-Refused :
      (next : ℤ → ℤ → FileRecord → Handled parts) (req : HttpRequest) (resp : HttpResponse)
      (w : World parts)
      → Refused resp w (require_auth parts req resp (owned next req resp) w) ⊎ IsOwner req w
  unfolding require_auth authenticate_request
  owned-Refused next req resp w =
      let ((server, disk, ids, hashes), valid) =
        session_user-SameData parts (λ s. Unit {0}) (λ token s v. tt) (λ token r s v. tt)
          (token_of parts req) w tt in
      let w' = (authenticate_request parts req w).1 in
      bind-or (Refused resp w) (if_user parts resp (owned next req resp))
        (authenticate_request parts req w) (inl refl, (server, disk))
        (λ user known. elim (Bool-cases (eq_ℤ user (pos 0))) [
          | inl nobody ↦
              inl (rw nobody (refused (pos 401) (codes "unauthorized") resp w w' (server, disk)))
          | inr real ↦ rw real (
              bind-or (Refused resp w) _ _ (inl refl, (server, disk))
                (λ id e.
                  let kept =
                    get_file_by_id-server parts.db parts.by_id parts.by_hash id
                      (file_store parts w') in
                  bind-or (Refused resp w) (with_file parts user resp (next user id)) _
                    (inl refl, (kept ∙ server, disk))
                    (λ result answered.
                      with_file-Refused user id req resp (next user id) result.value result w _ refl
                        known real (or_throw-some _ id e) answered (kept ∙ server, disk))))
        ])

  -- Whatever is asked of the handlers that send and that delete a file: either they answer nothing but
  -- a message, and change neither the database nor the contents of files, or the request is that of
  -- a user who owns the file.
  pub handlers-Refused :
      (req : HttpRequest) (resp : HttpResponse) (w : World parts)
      → (Refused resp w (handle_download parts req resp w) ⊎ IsOwner req w)
        × (Refused resp w (handle_delete parts req resp w) ⊎ IsOwner req w)
  unfolding handle_download handle_delete
  handlers-Refused req resp w = (owned-Refused _ req resp w, owned-Refused _ req resp w)
