-- ===== src/AuthService/Found.antt =====
-- src/service/AuthService.cpp: who logs in is in the table, enabled, and has the password.
use fileagent_server.Base.{
  ◌≡◌, ◌∙◌, refl, sym, ap, subst, arith, Bool-cases, take, Option, none, some, Option-cases, inl,
  inr,
}
use fileagent_server.Base.Bytes.{Bytes, c_str}
use fileagent_server.Base.Int.{pos, eq_ℤ, eq_ℤ_iff}
use fileagent_server.Base.Outcome.{Outcome, returned, thrown}
use fileagent_server.Hash.{verify_password}
use fileagent_server.Models.{UserRecord, ServiceResult, failed}
use fileagent_server.StringUtil.{trim_copy}
use fileagent_server.AuthService.Crypt.{verify_password-crypt}
use fileagent_server.AuthService.{
  UserDao, or_else, validate_username, validate_password, check_user, checked_user, login,
}

module _ {S : Type 0} (dao : UserDao S) (crypt : Bytes → Bytes → Option Bytes) where
  -- What the checks of a user that was found have seen.
  abbrev pub Passed : Bytes → UserRecord → Type 0
  Passed secret user =
      (user.status ≡ pos 1)
      × (crypt (c_str secret) (c_str (take 29 user.password)) ≡ some user.password)

  check_user-Passed :
      (secret : Bytes) (o : Option UserRecord) (user : UserRecord)
      → (check_user dao crypt secret o).value ≡ some user
      → (o ≡ some user) × Passed secret user
  check_user-Passed secret none user h = absurd (cc h)
  check_user-Passed secret (some u) user h = elim (Bool-cases (eq_ℤ u.status (pos 1))) [
    | inr e ↦ absurd (ground (arith, e, h))
    | inl enabled ↦ elim (Bool-cases (verify_password crypt secret u.password)) [
      | inr e ↦ absurd (ground (arith, e, enabled, h))
      | inl verified ↦
          let same : some u ≡ some user = ground (arith, verified, enabled, h) in
          let u_user : u ≡ user = cc same in
          (
            same,
            subst (Passed secret) u_user (
              (eq_ℤ_iff u.status (pos 1)).0 enabled,
              verify_password-crypt crypt secret u.password verified,
            ),
          )
    ]
  ]

  login-invalid :
      (username password message : Bytes) (st : S)
      → or_else (validate_username (trim_copy username)) (validate_password (trim_copy password))
        ≡ some message
      → login dao crypt username password st ≡ returned (failed message)
  unfolding login
  login-invalid username password message st e = rw (login, e) refl

  pub login-valid :
      (username password : Bytes) (st : S)
      → or_else (validate_username (trim_copy username)) (validate_password (trim_copy password))
        ≡ none
      → login dao crypt username password st
        ≡ checked_user dao crypt (trim_copy password) (dao.find_by_username (trim_copy username) st)
  unfolding login
  login-valid username password st e = rw (login, e) refl

  checked_user-Passed :
      (secret : Bytes) (o : Outcome (Option UserRecord)) (result : ServiceResult UserRecord)
      (user : UserRecord)
      → checked_user dao crypt secret o ≡ returned result
      → result.value ≡ some user
      → (o ≡ returned (some user)) × Passed secret user
  checked_user-Passed secret thrown result user e h = absurd (cc e)
  checked_user-Passed secret (returned found) result user e h =
      let same : check_user dao crypt secret found ≡ result = cc e in
      let (is_user, passed) = check_user-Passed secret found user (ap (λ r. r.value) same ∙ h) in
      (ap returned is_user, passed)

  pub login-found :
      (username password : Bytes) (st : S) (result : ServiceResult UserRecord) (user : UserRecord)
      → login dao crypt username password st ≡ returned result
      → result.value ≡ some user
      → (dao.find_by_username (trim_copy username) st ≡ returned (some user))
        × Passed (trim_copy password) user
  login-found username password st result user e h =
      elim (Option-cases (
        or_else (validate_username (trim_copy username))
          (validate_password (trim_copy password)))) [
            | inl valid ↦
                checked_user-Passed (trim_copy password)
                  (dao.find_by_username (trim_copy username) st) result user
                  (sym (login-valid username password st valid) ∙ e) h
            | inr (message, invalid) ↦
                let same : failed message ≡ result =
                  cc (sym (login-invalid username password message st invalid) ∙ e) in
                absurd (cc (ap (λ r. r.value) same ∙ h))
          ]
