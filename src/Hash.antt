-- ===== src/Hash.antt =====
-- src/common/Hash.cpp: salts, tokens and the hashing of passwords. Random bytes are an argument, and
-- so is `crypt`, which stands for `crypt_r`: a password and a setting give a hash, or nothing.
pub mod Salts
pub mod Tokens
mod Tests
use fileagent_server.Base.{
  ℕ, zero, suc, ◌+◌, ◌-◌, ◌*◌, ◌/◌, ◌%◌, ◌^◌, Bool, true, false, not, ◌||◌, List, [], ◌∷◌, ◌++◌,
  Option, none, some, ltb, ◌==◌, if◌then◌else◌, length, is_empty, take,
}
use fileagent_server.Base.Bytes.{Bytes, codes, bytes_eq, c_str}
use fileagent_server.Base.Number.{decimal}

abbrev pub bcrypt_base64 : Bytes
bcrypt_base64 = codes "./ABCDEFGHIJKLMNOPQRSTUVWXYZabcdefghijklmnopqrstuvwxyz0123456789"

abbrev pub hex_chars : Bytes
hex_chars = codes "0123456789abcdef"

-- `TABLE[i]`, for an index within the table.
unfoldable pub char_at : ℕ → Bytes → ℕ
char_at i [] = 0
char_at zero (c ∷ s) = c
char_at (suc i) (c ∷ s) = char_at i s

-- `BCRYPT_BASE64[(value >> shift) & 0x3f]`, with `unit` for two to the power of `shift`.
abbrev sextet : ℕ → ℕ → ℕ
sextet value unit = char_at (value / unit % 64) bcrypt_base64

-- `encodeBcryptBase64`, three bytes at a time.
unfoldable pub encode_bcrypt_base64 : Bytes → Bytes
encode_bcrypt_base64 [] = []
encode_bcrypt_base64 (a ∷ []) = sextet a 1 ∷ sextet a 64 ∷ []
encode_bcrypt_base64 (a ∷ b ∷ []) =
    let value = a + b * 256 in sextet a 1 ∷ sextet value 64 ∷ sextet value 4096 ∷ []
encode_bcrypt_base64 (a ∷ b ∷ c ∷ input) =
    let low = a + b * 256 in
    let value = low + c * 65536 in
    sextet a 1
    ∷ sextet low 64
    ∷ sextet value 4096
    ∷ sextet value 262144
    ∷ encode_bcrypt_base64 input

-- `generateToken`, of the random bytes.
unfoldable pub generate_token : Bytes → Bytes
generate_token [] = []
generate_token (b ∷ random) =
    char_at (b / 16 % 16) hex_chars ∷ char_at (b % 16) hex_chars ∷ generate_token random

-- `std::string::resize`
abbrev zeros : ℕ → Bytes
zeros zero = []
zeros (suc n) = 0 ∷ zeros n

unfoldable pub resize : ℕ → Bytes → Bytes
resize n s = take n (s ++ zeros n)

-- `generateSalt`, of 16 random bytes.
unfoldable pub generate_salt : ℕ → Bytes → Bytes
generate_salt cost random =
    let salt =
      codes "$2b$"
      ++ (if ltb cost 10 then codes "0" else [])
      ++ decimal cost
      ++ codes "$"
      ++ encode_bcrypt_base64 random in
    if not (length salt == 29) then resize 29 salt else salt

abbrev pub default_cost : ℕ
default_cost = 10

module _ (crypt : Bytes → Bytes → Option Bytes) where
  unfoldable pub hash_password : Bytes → Bytes → Bytes
  hash_password password random =
      if is_empty password
      then []
      else elim (crypt (c_str password) (c_str (generate_salt default_cost random))) [
        | none ↦ []
        | some result ↦ result
      ]

  unfoldable pub verify_password : Bytes → Bytes → Bool
  verify_password password hash =
      let salt = take 29 hash in
      if is_empty hash || is_empty password
      then false
      else if not (length salt == 29)
      then false
      else elim (crypt (c_str password) (c_str salt)) [
        | none ↦ false
        | some result ↦ bytes_eq hash result
      ]
