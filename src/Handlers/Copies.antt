-- ===== src/Handlers/Copies.antt =====
-- src/main.cpp: what is saved of a share.
mod Tests
use fileagent_server.Base.{◌≡◌, ◌∙◌, refl, sym, ap, subst, Option, none, some, Bool-cases, inl, inr}
use fileagent_server.Base.Bytes.{bytes_key}
use fileagent_server.Base.Int.{ℤ, pos, eq_ℤ, int_key}
use fileagent_server.Base.Outcome.{Outcome, returned, thrown, M, bind}
use fileagent_server.CacheInterface.{IsLawful}
use fileagent_server.Dao.Files.{find_by_id, find_by_hash}
use fileagent_server.Database.{Mysql}
use fileagent_server.FastCgiServer.{HttpRequest}
use fileagent_server.FileService
use fileagent_server.FileService.{FileStore}
use fileagent_server.FileService.Coherence.{IsCoherent}
use fileagent_server.FileService.Known.{
  get_file_by_id-server, get_file_by_hash-server, create-known, get_file_by_id-found,
}
use fileagent_server.Models.{FileRecord, ShareRecord, ServiceResult}
use fileagent_server.Responses.{HttpResponse}
use fileagent_server.StringUtil.{trim_copy}
use fileagent_server.Handlers.{
  Parts, World, file_store, on_files, token_of, authenticate_request, if_user, require_auth,
}
use fileagent_server.Handlers.Access.{SameData, session_user-SameData}
use fileagent_server.Handlers.Shares.{
  handle_share_save, save_found, save_original, save_unless_mine, save_copy, saved, copy_for,
}

-- A file that is found by its id is also found by its hash.
abbrev pub HasHashes : {S : Type 0} → Mysql S → Type 0
HasHashes {S = S} db =
    (id : ℤ) (r : FileRecord) (st : S)
    → find_by_id db id st ≡ returned (some r)
    → (e : FileRecord) × (find_by_hash db (trim_copy r.file_hash) st ≡ returned (some e))

module _ {S D J : Type 0} (parts : Parts S D J) where
  -- A chain of calls leaves the database as it is if each does.
  bind-server :
      {A B : Type 0} (st : S) (f : A → M (World parts) B) (x : Outcome A × World parts)
      → x.1.server ≡ st
      → ((a : A) → x.0 ≡ returned a → (f a x.1).1.server ≡ st)
      → (bind f x).1.server ≡ st
  bind-server st f (returned a, w) h k = k a refl
  bind-server st f (thrown, w) h k = h

  saved-server :
      (resp : HttpResponse) (o : Option FileRecord) (result : ServiceResult FileRecord)
      (w : World parts)
      → result.value ≡ o
      → (saved parts resp result w).1.server ≡ w.server
  saved-server resp none result w e = rw e refl
  saved-server resp (some r) result w e = rw e refl

  save_copy-server :
      (user_id : ℤ) (original existing : FileRecord) (resp : HttpResponse) (w : World parts)
      → find_by_hash parts.db (trim_copy original.file_hash) w.server ≡ returned (some existing)
      → (save_copy parts user_id original resp w).1.server ≡ w.server
  save_copy-server user_id original existing resp w h =
      let copied =
        on_files parts
          (FileService.create parts.db parts.by_id parts.by_hash (copy_for parts user_id original))
          w in
      let kept =
        ap (λ s. s.server)
          (create-known parts.db parts.by_id parts.by_hash (copy_for parts user_id original)
            existing (file_store parts w) h) in
      bind-server w.server (saved parts resp) copied kept
        (λ result e. saved-server resp result.value result copied.1 refl ∙ kept)

  save_unless_mine-server :
      (user_id : ℤ) (original existing : FileRecord) (resp : HttpResponse) (o : Option FileRecord)
      (result : ServiceResult FileRecord) (w : World parts)
      → result.value ≡ o
      → find_by_hash parts.db (trim_copy original.file_hash) w.server ≡ returned (some existing)
      → (save_unless_mine parts user_id original resp result w).1.server ≡ w.server
  save_unless_mine-server user_id original existing resp none result w e h =
      rw e (save_copy-server user_id original existing resp w h)
  save_unless_mine-server user_id original existing resp (some dup) result w e h =
      elim (Bool-cases (eq_ℤ dup.user_id user_id)) [
        | inl mine ↦ rw (e, mine) refl
        | inr other ↦ rw (e, other) (save_copy-server user_id original existing resp w h)
      ]

  save_original-server :
      (user_id : ℤ) (original existing : FileRecord) (resp : HttpResponse)
      (result : ServiceResult FileRecord) (w : World parts)
      → result.value ≡ some original
      → find_by_hash parts.db (trim_copy original.file_hash) w.server ≡ returned (some existing)
      → (save_original parts user_id resp result w).1.server ≡ w.server
  save_original-server user_id original existing resp result w e h =
      let searched =
        on_files parts
          (FileService.get_file_by_hash parts.db parts.by_id parts.by_hash original.file_hash) w in
      let kept =
        get_file_by_hash-server parts.db parts.by_id parts.by_hash original.file_hash
          (file_store parts w) in
      rw e (
        bind-server w.server (save_unless_mine parts user_id original resp) searched kept
          (λ found f.
            save_unless_mine-server user_id original existing resp found.value found searched.1 refl
              (subst
                (λ st.
                  find_by_hash parts.db (trim_copy original.file_hash) st
                  ≡ returned (some existing))
                (sym kept) h)
            ∙ kept))

  module _ (byId : IsLawful parts.by_id) (byHash : IsLawful parts.by_hash)
      (hashes : HasHashes parts.db) where
    abbrev pub Coherent : World parts → Type 0
    Coherent w = IsCoherent parts.db parts.by_id parts.by_hash byId byHash (file_store parts w)

    original-server :
        (user_id id : ℤ) (resp : HttpResponse) (o : Option FileRecord)
        (result : ServiceResult FileRecord) (w w' : World parts)
        → result.value ≡ o
        → ((r : FileRecord) → o ≡ some r → find_by_id parts.db id w.server ≡ returned (some r))
        → w'.server ≡ w.server
        → (save_original parts user_id resp result w').1.server ≡ w.server
    original-server user_id id resp none result w w' e found kept = rw e kept
    original-server user_id id resp (some original) result w w' e found kept =
        let (existing, at) = hashes id original w.server (found original refl) in
        save_original-server user_id original existing resp result w' e (
          subst
            (λ st.
              find_by_hash parts.db (trim_copy original.file_hash) st ≡ returned (some existing))
            (sym kept) at)
        ∙ kept

    save_found-server :
        (user_id : ℤ) (resp : HttpResponse) (o : Option ShareRecord) (w : World parts)
        → Coherent w
        → (save_found parts user_id resp o w).1.server ≡ w.server
    save_found-server user_id resp none w c = refl
    save_found-server user_id resp (some share) w c =
        elim (Bool-cases (eq_ℤ share.user_id user_id)) [
          | inl own ↦ rw own refl
          | inr other ↦
              let got =
                on_files parts
                  (FileService.get_file_by_id parts.db parts.by_id parts.by_hash share.file_id) w in
              let kept =
                get_file_by_id-server parts.db parts.by_id parts.by_hash share.file_id
                  (file_store parts w) in
              rw other (
                bind-server w.server (save_original parts user_id resp) got kept (λ result e.
                  original-server user_id share.file_id resp result.value result w got.1 refl
                    (λ r f.
                      get_file_by_id-found parts.db parts.by_id parts.by_hash byId byHash
                        share.file_id result r (file_store parts w) c e f)
                    kept))
        ]

    same_files : (w w' : World parts) → SameData parts w w' → Coherent w → Coherent w'
    same_files w w' (server, disk, ids, hashes) c =
        subst (λ x. IsCoherent parts.db parts.by_id parts.by_hash byId byHash x)
          (sym (
            ap (λ x. record { server = x; by_id = w'.by_id; by_hash = w'.by_hash }) server
            ∙ ap (λ x. record { server = w.server; by_id = x; by_hash = w'.by_hash }) ids
            ∙ ap (λ x. record { server = w.server; by_id = w.by_id; by_hash = x }) hashes))
          c

    -- Where a file that is found by its id is found by its hash too, and the caches of files agree with
    -- the database, saving a share leaves the database as it was, whatever is asked: no copy is ever
    -- made.
    pub handle_share_save-server :
        (req : HttpRequest) (resp : HttpResponse) (w : World parts)
        → Coherent w
        → (handle_share_save parts req resp w).1.server ≡ w.server
    unfolding handle_share_save require_auth authenticate_request
    handle_share_save-server req resp w c =
        let (same, valid) =
          session_user-SameData parts (λ s. Unit {0}) (λ token s v. tt) (λ token r s v. tt)
            (token_of parts req) w tt in
        let known = authenticate_request parts req w in
        bind-server w.server (if_user parts resp _) known same.0 (λ user_id e.
          elim (Bool-cases (eq_ℤ user_id (pos 0))) [
            | inl nobody ↦ rw nobody same.0
            | inr user ↦ rw user (
                bind-server w.server (save_found parts user_id resp) _ same.0 (λ share f.
                  save_found-server user_id resp share known.1 (same_files w known.1 same c)
                  ∙ same.0))
          ])
