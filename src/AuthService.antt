-- ===== src/AuthService.antt =====
-- src/service/AuthService.cpp. The table of users is an interface, with the operations of UserDao
-- that the service calls.
pub mod Crypt
pub mod Registered
pub mod Accounts
pub mod Found
mod Tests
use fileagent_server.Base.{
  ℕ, suc, ◌+◌, Bool, true, false, not, ◌&&◌, ◌||◌, List, [], ◌∷◌, Option, none, some, is_some, ltb,
  leb, ◌==◌, if◌then◌else◌, length, is_empty,
}
use fileagent_server.Base.Bytes.{Bytes, codes}
use fileagent_server.Base.Int.{ℤ, pos, leb_ℤ, eq_ℤ}
use fileagent_server.Base.Outcome.{Outcome, returned, thrown, M, pure, bind, ◌>>=◌, tries}
use fileagent_server.Hash.{hash_password, verify_password}
use fileagent_server.Models.{UserRecord, ServiceResult, succeed, failed, ServiceStatus}
use fileagent_server.Multipart.{find_from}
use fileagent_server.StringUtil.{trim_copy}

-- The three checks; what they give is the message of a failure.
unfoldable pub validate_username : Bytes → Option Bytes
validate_username username =
    if is_empty username
    then some (codes "username is empty")
    else if ltb (length username) 3 || ltb 32 (length username)
    then some (codes "username length must be between 3 and 32")
    else none

unfoldable pub validate_password : Bytes → Option Bytes
validate_password password =
    if ltb (length password) 8 then some (codes "password length must be at least 8") else none

abbrev at_fits : Bytes → Option ℕ → Bool
at_fits email none = false
at_fits email (some at_pos) = not (at_pos == 0) && ltb (at_pos + 1) (length email)

unfoldable pub validate_email : Bytes → Option Bytes
validate_email email =
    if is_empty email
    then some (codes "email is empty")
    else if at_fits email (find_from (b'@' ∷ []) 0 email)
    then none
    else some (codes "email format is invalid")

-- `a || b` of two checks, where the first failure gives the message.
abbrev pub or_else : Option Bytes → Option Bytes → Option Bytes
or_else (some message) next = some message
or_else none next = next

-- Whether an operation returned, and with success.
abbrev pub succeeded : {A : Type 0} → Outcome (ServiceResult A) → Bool
succeeded thrown = false
succeeded (returned result) = result.success

-- The operations of UserDao, on the state of the database.
pub record UserDao (S : Type 0) : Type 1 where
  pub create_user : Bytes → Bytes → Bytes → S → Bool × S
  pub find_by_username : Bytes → S → Outcome (Option UserRecord)
  pub update_status : ℤ → ℤ → S → Bool × S

module _ {S : Type 0} (dao : UserDao S) (crypt : Bytes → Bytes → Option Bytes) where
  abbrev find_user : Bytes → M S (Option UserRecord)
  find_user username = tries (dao.find_by_username username)

  abbrev pub reload : Option UserRecord → ServiceResult UserRecord
  reload none = failed (codes "user created but cannot be reloaded")
  reload (some user) = succeed user (codes "register success")

  -- `registerUser` once the hash is there.
  abbrev pub insert_user : Bytes → Bytes → Bytes → M S (ServiceResult UserRecord)
  insert_user username hashed email st =
      let (created, st') = dao.create_user username hashed email st in
      if not created
      then (returned (failed (codes "failed to create user")), st')
      else (find_user username >>= λ user. pure (reload user)) st'

  abbrev pub create_unless :
      Bytes → Bytes → Bytes → Option UserRecord → M S (ServiceResult UserRecord)
  create_unless username hashed email (some user) = pure (failed (codes "username already exists"))
  create_unless username hashed email none =
      if is_empty hashed
      then pure (failed (codes "failed to hash password"))
      else insert_user username hashed email

  -- `registerUser` after the checks.
  unfoldable pub create_account : Bytes → Bytes → Bytes → Bytes → M S (ServiceResult UserRecord)
  create_account username password email random =
      find_user username >>= create_unless username (hash_password crypt password random) email

  unfoldable pub register_user : Bytes → Bytes → Bytes → Bytes → M S (ServiceResult UserRecord)
  register_user username password email random =
      let name = trim_copy username in
      let secret = trim_copy password in
      let mail = trim_copy email in
      elim (or_else (validate_username name)
        (or_else (validate_password secret) (validate_email mail))) [
          | some message ↦ pure (failed message)
          | none ↦ create_account name secret mail random
        ]

  abbrev pub check_user : Bytes → Option UserRecord → ServiceResult UserRecord
  check_user secret none = failed (codes "user not found")
  check_user secret (some user) =
      if not (eq_ℤ user.status (pos 1))
      then failed (codes "user is disabled")
      else if not (verify_password crypt secret user.password)
      then failed (codes "password is incorrect")
      else succeed user (codes "login success")

  abbrev pub checked_user : Bytes → Outcome (Option UserRecord) → Outcome (ServiceResult UserRecord)
  checked_user secret thrown = thrown
  checked_user secret (returned user) = returned (check_user secret user)

  unfoldable pub login : Bytes → Bytes → S → Outcome (ServiceResult UserRecord)
  login username password st =
      let name = trim_copy username in
      let secret = trim_copy password in
      elim (or_else (validate_username name) (validate_password secret)) [
        | some message ↦ returned (failed message)
        | none ↦ checked_user secret (dao.find_by_username name st)
      ]

  unfoldable pub update_status : ℤ → ℤ → S → ServiceStatus × S
  update_status user_id status st =
      let (updated, st') = dao.update_status user_id status st in
      if leb_ℤ user_id (pos 0)
      then (record { success = false; message = codes "user id is invalid" }, st)
      else if not updated
      then (record { success = false; message = codes "failed to update user status" }, st')
      else (record { success = true; message = codes "update status success" }, st')
