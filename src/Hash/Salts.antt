-- ===== src/Hash/Salts.antt =====
-- src/common/Hash.cpp: the shape of a salt.
use fileagent_server.Base.{
  ℕ, ◌+◌, ◌*◌, ◌%◌, ◌≤◌, ◌≡◌, refl, arith, true, ◌==◌, [], ◌∷◌, ◌++◌, length, All, Bool, ◌||◌,
  false,
}
use fileagent_server.Base.Bytes.{Bytes, codes}
use fileagent_server.Base.Number.{decimal, digits_of}
use fileagent_server.Hash.{
  bcrypt_base64, char_at, encode_bcrypt_base64, generate_salt, default_cost,
}
use fileagent_server.Hash.Tokens.{all_below_lem}

-- Whether a character is one of the table.
abbrev pub is_among : Bytes → ℕ → Bool
is_among [] c = false
is_among (d ∷ s) c = d == c || is_among s c

sextet-is_among : (v : ℕ) → is_among bcrypt_base64 (char_at (v % 64) bcrypt_base64) ≡ true
unfolding char_at
sextet-is_among v =
    all_below_lem 64 (v % 64) (λ k. is_among bcrypt_base64 (char_at k bcrypt_base64)) refl
      (omega arith)

-- Three bytes make four characters, one more byte two and two more three.
length-encode_bcrypt_base64 :
    (s : Bytes)
    → (4 * length s ≤ 3 * length (encode_bcrypt_base64 s))
      × (3 * length (encode_bcrypt_base64 s) ≤ 4 * length s + 2)
unfolding encode_bcrypt_base64
length-encode_bcrypt_base64 [] = (omega arith, omega arith)
length-encode_bcrypt_base64 (a ∷ []) = (omega arith, omega arith)
length-encode_bcrypt_base64 (a ∷ b ∷ []) = (omega arith, omega arith)
length-encode_bcrypt_base64 (a ∷ b ∷ c ∷ s) =
    let rest = length-encode_bcrypt_base64 s in (omega (arith, rest.0), omega (arith, rest.1))

encode_bcrypt_base64-is_among :
    (s : Bytes) → All (λ c. is_among bcrypt_base64 c ≡ true) (encode_bcrypt_base64 s)
unfolding encode_bcrypt_base64
encode_bcrypt_base64-is_among [] = tt
encode_bcrypt_base64-is_among (a ∷ []) = (sextet-is_among _, (sextet-is_among _, tt))
encode_bcrypt_base64-is_among (a ∷ b ∷ []) =
    (sextet-is_among _, (sextet-is_among _, (sextet-is_among _, tt)))
encode_bcrypt_base64-is_among (a ∷ b ∷ c ∷ s) = (
  sextet-is_among _,
  (sextet-is_among _, (sextet-is_among _, (sextet-is_among _, encode_bcrypt_base64-is_among s))),
)

-- Of 16 random bytes, a salt with the default cost is "$2b$10$" and 22 characters of the table of
-- bcrypt, which hold all of the encoding.
pub generate_salt-shape :
    (random : Bytes)
    → length random ≡ 16
    → (generate_salt default_cost random ≡ codes "$2b$10$" ++ encode_bcrypt_base64 random)
      × (length (encode_bcrypt_base64 random) ≡ 22)
      × All (λ c. is_among bcrypt_base64 c ≡ true) (encode_bcrypt_base64 random)
unfolding generate_salt decimal digits_of
generate_salt-shape random n =
    let (least, most) = length-encode_bcrypt_base64 random in
    let chars : length (encode_bcrypt_base64 random) ≡ 22 = omega (arith, n, least, most) in
    (rw chars refl, chars, encode_bcrypt_base64-is_among random)
