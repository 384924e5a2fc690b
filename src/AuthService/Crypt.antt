-- ===== src/AuthService/Crypt.antt =====
-- src/common/Hash.cpp, as AuthService uses it: what `crypt_r` makes of passwords and salts.
use fileagent_server.Base.{
  ◌≡◌, ◌↔◌, ◌∙◌, ℕ, refl, sym, ap, arith, zero, suc, ◌==◌, true, false, Bool-cases, Option, some,
  Option-cases, inl, inr, [], ◌∷◌, ◌++◌, length, length-append, take, is_empty, All, All-append,
}
use fileagent_server.Base.Bytes.{bytes_eq→eq, Bytes, codes, c_str, bytes_eq_refl}
use fileagent_server.Hash.{
  bcrypt_base64, encode_bcrypt_base64, default_cost, generate_salt, hash_password, verify_password,
}
use fileagent_server.Hash.Salts.{is_among, generate_salt-shape}

-- What crypt(5) says of `crypt_r` with a bcrypt setting, which is 29 bytes: the hash begins with
-- a setting of that length, which hashes every password as the given one does.
abbrev pub IsCrypt : (Bytes → Bytes → Option Bytes) → Type 0
IsCrypt crypt =
    (password setting hash : Bytes)
    → length setting ≡ 29
    → c_str setting ≡ setting
    → crypt password setting ≡ some hash
    → (length (take 29 hash) ≡ 29)
      × ((other : Bytes) → crypt other (c_str (take 29 hash)) ≡ crypt other setting)

c_str-id : (s : Bytes) → All (λ c. (c == 0) ≡ false) s → c_str s ≡ s
unfolding c_str
c_str-id [] h = refl
c_str-id (c ∷ s) h = rw h.0 (ap (◌∷◌ c) (c_str-id s h.1))

salt_char : (c : ℕ) → is_among bcrypt_base64 c ≡ true → (c == 0) ≡ false
salt_char zero h = absurd (cc h)
salt_char (suc c) h = ground arith

salt_chars :
    (s : Bytes) → All (λ c. is_among bcrypt_base64 c ≡ true) s → All (λ c. (c == 0) ≡ false) s
salt_chars [] h = tt
salt_chars (c ∷ s) h = (salt_char c h.0, salt_chars s h.1)

zero_free : All (λ c. (c == 0) ≡ false) (codes "$2b$10$")
zero_free = (refl, (refl, (refl, (refl, (refl, (refl, (refl, tt)))))))

-- A salt is 29 bytes, none of which is zero.
pub salt_lem :
    (random : Bytes)
    → length random ≡ 16
    → (length (generate_salt default_cost random) ≡ 29)
      × (c_str (generate_salt default_cost random) ≡ generate_salt default_cost random)
salt_lem random n =
    let (shape, chars, among) = generate_salt-shape random n in
    rw shape (
      omega (arith, chars, length-append (codes "$2b$10$") (encode_bcrypt_base64 random)),
      c_str-id (codes "$2b$10$" ++ encode_bcrypt_base64 random) (
          All-append _ (codes "$2b$10$") (encode_bcrypt_base64 random) zero_free
            (salt_chars _ among)),
    )

module _ (crypt : Bytes → Bytes → Option Bytes) where
  pub verify_password-crypt :
      (secret hash : Bytes)
      → verify_password crypt secret hash ≡ true
      → crypt (c_str secret) (c_str (take 29 hash)) ≡ some hash
  unfolding verify_password
  verify_password-crypt secret hash h =
      elim (Option-cases (crypt (c_str secret) (c_str (take 29 hash)))) [
        | inl e ↦ absurd (ground (arith, e, h))
        | inr (result, e) ↦ e ∙ ap some (sym (bytes_eq→eq hash result (ground (arith, e, h))))
      ]

  -- The hash of a password that is not empty, if it was made.
  pub hash_password-made :
      (secret random : Bytes)
      → length random ≡ 16
      → is_empty (hash_password crypt secret random) ≡ false
      → crypt (c_str secret) (generate_salt default_cost random)
        ≡ some (hash_password crypt secret random)
  unfolding hash_password
  hash_password-made secret random n h =
      let salt = generate_salt default_cost random in
      let text = (salt_lem random n).1 in
      elim (Bool-cases (is_empty secret)) [
        | inl e ↦ absurd (ground (arith, e, h))
        | inr e ↦ elim (Option-cases (crypt (c_str secret) (c_str salt))) [
          | inl none_made ↦ absurd (ground (arith, e, none_made, h))
          | inr (hash, made) ↦
              ap (crypt (c_str secret)) (sym text) ∙ made ∙ (rw (e, made, hash_password) refl)
        ]
      ]

  -- A password passes for a hash if it has the same hash with the salt.
  pub verify_password_iff :
      (other salt hash : Bytes)
      → is_empty hash ≡ false
      → is_empty other ≡ false
      → length (take 29 hash) ≡ 29
      → crypt (c_str other) (c_str (take 29 hash)) ≡ crypt (c_str other) salt
      → (verify_password crypt other hash ≡ true) ↔ (crypt (c_str other) salt ≡ some hash)
  unfolding verify_password
  verify_password_iff other salt hash h o n same = (
    λ v. sym same ∙ verify_password-crypt other hash v,
    λ e. rw (h, o, n, verify_password, same, e) (bytes_eq_refl hash),
  )
