-- ===== src/Hash/Tokens.antt =====
-- src/common/Hash.cpp: tokens and the random bytes they are made of.
use fileagent_server.Base.{
  ℕ, zero, suc, ◌-◌, ◌/◌, ◌%◌, ◌<◌, ◌≡◌, ◌∙◌, refl, sym, ap, arith, [], ◌∷◌, All, Bool, true, ◌&&◌,
  ◌==◌, ==_iff, ltb, if◌then◌else◌, Bool-cases, inl, inr,
}
use fileagent_server.Base.Bytes.{Bytes}
use fileagent_server.Hash.{char_at, hex_chars, generate_token}

-- A test of all numbers below a bound.
abbrev pub all_below : ℕ → (ℕ → Bool) → Bool
all_below zero p = true
all_below (suc n) p = p n && all_below n p

pub all_below_lem : (n i : ℕ) (p : ℕ → Bool) → all_below n p ≡ true → i < n → p i ≡ true
all_below_lem zero i p h b = absurd (omega (arith, b))
all_below_lem (suc n) i p h b = elim (Bool-cases (i == n)) [
  | inl e ↦ ap p ((==_iff i n).0 e) ∙ ground (arith, h)
  | inr e ↦ all_below_lem n i p (ground (arith, h)) (ground (arith, e, b))
]

-- The value of a hexadecimal digit.
abbrev hex_value : ℕ → ℕ
hex_value c = if ltb c b'a' then c - b'0' else c - 87

hex_value-char_at : (i : ℕ) → i < 16 → hex_value (char_at i hex_chars) ≡ i
unfolding char_at
hex_value-char_at i h =
    (==_iff _ i).0 (all_below_lem 16 i (λ k. hex_value (char_at k hex_chars) == k) refl h)

head_or : ℕ → Bytes → ℕ
head_or d [] = d
head_or d (c ∷ s) = c

char_at-injective : (i j : ℕ) → i < 16 → j < 16 → char_at i hex_chars ≡ char_at j hex_chars → i ≡ j
char_at-injective i j h k e = sym (hex_value-char_at i h) ∙ ap hex_value e ∙ hex_value-char_at j k

-- Different random bytes make different tokens.
pub generate_token-injective :
    (r s : Bytes)
    → All (λ b. b < 256) r
    → All (λ b. b < 256) s
    → generate_token r ≡ generate_token s
    → r ≡ s
unfolding generate_token
generate_token-injective [] [] h k e = refl
generate_token-injective [] (c ∷ s) h k e = absurd (cc)
generate_token-injective (b ∷ r) [] h k e = absurd (cc)
generate_token-injective (b ∷ r) (c ∷ s) h k e =
    let high = char_at-injective (b / 16 % 16) (c / 16 % 16) (omega arith) (omega arith) (cc) in
    let low = char_at-injective (b % 16) (c % 16) (omega arith) (omega arith) (cc) in
    let same : b ≡ c = omega (arith, high, low, h.0, k.0) in
    let rest = generate_token-injective r s h.1 k.1 (cc) in cc
