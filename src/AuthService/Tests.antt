-- ===== src/AuthService/Tests.antt =====
-- Runs of the service over a list of users, and its theorem there.
use fileagent_server.Base.{
  ◌≡◌, refl, true, false, List, [], ◌∷◌, ◌++◌, Option, some, none, take, if◌then◌else◌,
}
use fileagent_server.Base.Bytes.{Bytes, codes, c_str, bytes_eq}
use fileagent_server.Base.Int.{pos}
use fileagent_server.Base.Number.{skip_spaces, decimal, digits_of}
use fileagent_server.Base.Outcome.{returned}
use fileagent_server.Hash.{
  char_at, encode_bcrypt_base64, generate_salt, hash_password, verify_password,
}
use fileagent_server.Multipart.{find_in, find_from}
use fileagent_server.AuthService.{
  UserDao, validate_username, validate_password, validate_email, create_account, register_user,
}
use fileagent_server.Models.{UserRecord, failed}
use fileagent_server.StringUtil.{trim_end, trim_copy}

abbrev user_of : Bytes → Bytes → Bytes → UserRecord
user_of username password email = record {
  id = pos 1;
  username = username;
  password = password;
  email = email;
  status = pos 1;
  is_admin = false;
  created_at = [];
  updated_at = [];
}

abbrev find_user : Bytes → List UserRecord → Option UserRecord
find_user username [] = none
find_user username (u ∷ us) = if bytes_eq username u.username then some u else find_user username us

abbrev users : UserDao (List UserRecord)
users = record {
  create_user = λ username password email us. (true, user_of username password email ∷ us);
  find_by_username = λ username us. returned (find_user username us);
  update_status = λ id status us. (false, us);
}

-- A stand-in for `crypt_r`, which puts the password behind the first 29 bytes of the setting.
abbrev crypt : Bytes → Bytes → Option Bytes
crypt password setting = some (take 29 setting ++ password)

abbrev random : Bytes
random = 1 ∷ 2 ∷ 3 ∷ 4 ∷ 5 ∷ 6 ∷ 7 ∷ 8 ∷ 9 ∷ 10 ∷ 11 ∷ 12 ∷ 13 ∷ 14 ∷ 15 ∷ 255 ∷ []

verifies :
    verify_password crypt
      (trim_copy (codes " secret-1 "))
      (hash_password crypt (trim_copy (codes " secret-1 ")) random)
    ≡ true
unfolding trim_copy trim_end skip_spaces verify_password hash_password generate_salt
    encode_bcrypt_base64 char_at decimal digits_of c_str
verifies = refl

taken :
    (register_user users crypt
      (codes "ann")
      (codes "secret-1")
      (codes "a@b")
      random
      (user_of (codes "ann") [] [] ∷ [])).0
    ≡ returned (failed (codes "username already exists"))
unfolding register_user create_account validate_username validate_password validate_email find_from
    find_in trim_copy trim_end skip_spaces hash_password generate_salt encode_bcrypt_base64 char_at
    decimal digits_of c_str
taken = refl

-- The users after the registration.
abbrev after : List UserRecord
after = (register_user users crypt (codes "ann ") (codes " secret-1 ") (codes "a@b") random []).1
