-- ===== src/AuthService/Registered.antt =====
-- src/service/AuthService.cpp: what a registration with success has done.
use fileagent_server.Base.{
  ◌≡◌, ◌∙◌, refl, sym, ap, subst, arith, Bool, true, false, Bool-cases, Option, none, some,
  Option-cases, inl, inr, is_empty,
}
use fileagent_server.Base.Bytes.{Bytes}
use fileagent_server.Base.Int.{pos}
use fileagent_server.Base.Outcome.{Outcome, returned, thrown, pure, bind}
use fileagent_server.Hash.{hash_password}
use fileagent_server.AuthService.{
  validate_username, validate_password, validate_email, or_else, succeeded, UserDao, reload,
  insert_user, create_unless, create_account, register_user,
}
use fileagent_server.Models.{UserRecord, ServiceResult, failed}
use fileagent_server.StringUtil.{trim_copy}

-- A user that was created is found again under the name, with the given hash and enabled.
abbrev pub Remembers : {S : Type 0} → UserDao S → Type 0
Remembers {S} dao =
    (username hashed email : Bytes) (st st' : S)
    → dao.create_user username hashed email st ≡ (true, st')
    → (user : UserRecord) × (dao.find_by_username username st' ≡ returned (some user))
      × (user.password ≡ hashed)
      × (user.status ≡ pos 1)

module _ {S : Type 0} (dao : UserDao S) (crypt : Bytes → Bytes → Option Bytes) where
  made_pair : (p : Bool × S) → p.0 ≡ true → p ≡ (true, p.1)
  made_pair (b, st) e = rw e refl

  -- What `createUser` has done where a registration succeeds.
  abbrev Created : Bytes → Bytes → Bytes → S → Outcome (ServiceResult UserRecord) × S → Type 0
  Created name hashed mail st made =
      ((dao.create_user name hashed mail st).0 ≡ true)
      × (made.1 ≡ (dao.create_user name hashed mail st).1)
      × (is_empty hashed ≡ false)

  reloaded-state :
      (o : Outcome (Option UserRecord)) (st : S)
      → (bind (λ user. pure (reload dao crypt user)) (o, st)).1 ≡ st
  reloaded-state thrown st = refl
  reloaded-state (returned user) st = refl

  insert_user-success :
      (name hashed mail : Bytes) (st : S)
      → is_empty hashed ≡ false
      → succeeded (insert_user dao crypt name hashed mail st).0 ≡ true
      → Created name hashed mail st (insert_user dao crypt name hashed mail st)
  insert_user-success name hashed mail st full ok =
      let st' = (dao.create_user name hashed mail st).1 in
      elim (Bool-cases (dao.create_user name hashed mail st).0) [
        | inl done ↦ (done, rw done (reloaded-state (dao.find_by_username name st') st'), full)
        | inr failed ↦ absurd (ground (arith, failed, ok))
      ]

  create_unless-success :
      (name hashed mail : Bytes) (o : Option UserRecord) (st : S)
      → succeeded (create_unless dao crypt name hashed mail o st).0 ≡ true
      → Created name hashed mail st (create_unless dao crypt name hashed mail o st)
  create_unless-success name hashed mail (some user) st ok = absurd (cc ok)
  create_unless-success name hashed mail none st ok = elim (Bool-cases (is_empty hashed)) [
    | inl empty ↦ absurd (ground (arith, empty, ok))
    | inr full ↦
        let same : create_unless dao crypt name hashed mail none st
            ≡ insert_user dao crypt name hashed mail st =
          rw full refl in
        subst (Created name hashed mail st) (sym same)
          (insert_user-success name hashed mail st full (ap (λ r. succeeded r.0) (sym same) ∙ ok))
  ]

  create_found-success :
      (name hashed mail : Bytes) (o : Outcome (Option UserRecord)) (st : S)
      → succeeded (bind (create_unless dao crypt name hashed mail) (o, st)).0 ≡ true
      → Created name hashed mail st (bind (create_unless dao crypt name hashed mail) (o, st))
  create_found-success name hashed mail thrown st ok = absurd (cc ok)
  create_found-success name hashed mail (returned o) st ok =
      create_unless-success name hashed mail o st ok

  create_account-success :
      (name secret mail random : Bytes) (st : S)
      → succeeded (create_account dao crypt name secret mail random st).0 ≡ true
      → Created name
          (hash_password crypt secret random)
          mail
          st
          (create_account dao crypt name secret mail random st)
  unfolding create_account
  create_account-success name secret mail random st ok =
      create_found-success name (hash_password crypt secret random) mail
        (dao.find_by_username name st) st ok

  checked : (a b c : Option Bytes) → or_else a (or_else b c) ≡ none → (a ≡ none) × (b ≡ none)
  checked none none c e = (refl, refl)
  checked none (some m) c e = absurd (cc e)
  checked (some m) b c e = absurd (cc e)

  -- What a registration that succeeds has done.
  pub record IsRegistered (name secret random : Bytes) (st' : S) : Type 0 where
    pub user : UserRecord
    pub found : dao.find_by_username name st' ≡ returned (some user)
    pub hashed : user.password ≡ hash_password crypt secret random
    pub enabled : user.status ≡ pos 1
    pub valid_name : validate_username name ≡ none
    pub valid : validate_password secret ≡ none
    pub made : is_empty (hash_password crypt secret random) ≡ false

  register_user-valid :
      (username password email random : Bytes)
      → or_else
          (validate_username (trim_copy username))
          (or_else (validate_password (trim_copy password)) (validate_email (trim_copy email)))
        ≡ none
      → register_user dao crypt username password email random
        ≡ create_account dao crypt
            (trim_copy username)
            (trim_copy password)
            (trim_copy email)
            random
  unfolding register_user
  register_user-valid username password email random n = rw (n, register_user) refl

  register_user-invalid :
      (username password email random message : Bytes)
      → or_else
          (validate_username (trim_copy username))
          (or_else (validate_password (trim_copy password)) (validate_email (trim_copy email)))
        ≡ some message
      → register_user dao crypt username password email random ≡ pure (failed message)
  unfolding register_user
  register_user-invalid username password email random message n = rw (n, register_user) refl

  pub register_user-IsRegistered :
      (username password email random : Bytes) (st : S)
      → Remembers dao
      → succeeded (register_user dao crypt username password email random st).0 ≡ true
      → IsRegistered
          (trim_copy username)
          (trim_copy password)
          random
          (register_user dao crypt username password email random st).1
  unfolding register_user
  register_user-IsRegistered username password email random st remembers ok =
      let name = trim_copy username in
      let secret = trim_copy password in
      let mail = trim_copy email in
      elim (Option-cases (
        or_else (validate_username name)
          (or_else (validate_password secret) (validate_email mail)))) [
            | inr (m, e) ↦
                let reg = register_user-invalid username password email random m e in
                absurd (cc (sym (ap (λ f. succeeded (f st).0) reg) ∙ ok))
            | inl n ↦
                let reg : register_user dao crypt username password email random st
                    ≡ create_account dao crypt name secret mail random st =
                  ap (λ f. f st) (register_user-valid username password email random n) in
                let (done, after, made) =
                  create_account-success name secret mail random st
                    (sym (ap (λ r. succeeded r.0) reg) ∙ ok) in
                let (user, found, hashed, enabled) =
                  remembers name (hash_password crypt secret random) mail st _ (made_pair _ done) in
                let (valid_name, valid) =
                  checked (validate_username name) (validate_password secret) (validate_email mail)
                    n in
                record {
                  user = user;
                  found = ap (dao.find_by_username name) (ap (λ r. r.1) reg ∙ after) ∙ found;
                  hashed = hashed;
                  enabled = enabled;
                  valid_name = valid_name;
                  valid = valid;
                  made = made;
                }
          ]
