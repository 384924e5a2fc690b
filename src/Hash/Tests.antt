-- ===== src/Hash/Tests.antt =====
-- Runs of `PasswordHasher`, and its theorems at concrete bytes.
use fileagent_server.Base.{
  ◌≡◌, refl, arith, true, false, [], ◌∷◌, ◌++◌, Option, some, length, take, All,
}
use fileagent_server.Base.Bytes.{Bytes, codes, c_str}
use fileagent_server.Base.Number.{decimal, digits_of}
use fileagent_server.Hash.{
  bcrypt_base64, char_at, encode_bcrypt_base64, generate_token, generate_salt, default_cost,
  hash_password, verify_password,
}
use fileagent_server.Hash.Tokens.{generate_token-injective}
use fileagent_server.Hash.Salts.{is_among, generate_salt-shape}

token : generate_token (0 ∷ 255 ∷ 26 ∷ []) ≡ codes "00ff1a"
unfolding generate_token char_at
token = refl

abbrev few : Bytes
few = 0 ∷ 26 ∷ []

generate_token-injective_example : few ≡ 0 ∷ 26 ∷ []
generate_token-injective_example =
    generate_token-injective few (0 ∷ 26 ∷ []) (omega arith, (omega arith, tt))
      (omega arith, (omega arith, tt)) refl

abbrev random : Bytes
random = 1 ∷ 2 ∷ 3 ∷ 4 ∷ 5 ∷ 6 ∷ 7 ∷ 8 ∷ 9 ∷ 10 ∷ 11 ∷ 12 ∷ 13 ∷ 14 ∷ 15 ∷ 255 ∷ []

generate_salt-shape_example :
    (generate_salt default_cost random ≡ codes "$2b$10$" ++ encode_bcrypt_base64 random)
    × (length (encode_bcrypt_base64 random) ≡ 22)
    × All (λ c. is_among bcrypt_base64 c ≡ true) (encode_bcrypt_base64 random)
generate_salt-shape_example = generate_salt-shape random refl

-- A stand-in for `crypt_r`, which puts the password behind the first 29 bytes of the setting.
abbrev crypt : Bytes → Bytes → Option Bytes
crypt password setting = some (take 29 setting ++ password)

verified :
    verify_password crypt (codes "secret") (hash_password crypt (codes "secret") random) ≡ true
unfolding verify_password hash_password generate_salt encode_bcrypt_base64 char_at decimal digits_of
    c_str
verified = refl

refused :
    verify_password crypt (codes "secret") (hash_password crypt (codes "Secret") random) ≡ false
unfolding verify_password hash_password generate_salt encode_bcrypt_base64 char_at decimal digits_of
    c_str
refused = refl
