-- ===== src/Dao/Statements/Tests.antt =====
-- The statements where an escaping is given.
use fileagent_server.Base.{
  ℕ, ◌≡◌, refl, ap, arith, Bool, true, false, [], ◌∷◌, none, some, ◌==◌, All, if◌then◌else◌,
  Bool-cases, inl, inr,
}
use fileagent_server.Base.Bytes.{Bytes, codes, c_str}
use fileagent_server.Database.{Mysql}
use fileagent_server.Database.Literals.{literals, content, before, NonZero}
use fileagent_server.Dao.Statements.{Call, create_user, statement, literals-statement}

-- A backslash before zero bytes, quotes and backslashes.
abbrev escaped : ℕ → Bytes → Bytes
escaped c s =
    if c == 0
    then 92 ∷ b'0' ∷ s
    else if c == 39
    then 92 ∷ 39 ∷ s
    else if c == 92
    then 92 ∷ 92 ∷ s
    else c ∷ s

abbrev escaping : Bytes → Bytes
escaping [] = []
escaping (c ∷ s) = escaped c (escaping s)

content-cons :
    (c : ℕ) (s t : Bytes)
    → (c == 39) ≡ false
    → (c == 92) ≡ false
    → content s ≡ some t
    → content (c ∷ s) ≡ some (c ∷ t)
content-cons c [] t p q h = rw (q, p) (ap (before c) h)
content-cons c (d ∷ s) t p q h = rw (q, p) (ap (before c) h)

content-escaped :
    (c : ℕ) (s t : Bytes)
    → content s ≡ some t
    → All NonZero s
    → (content (escaped c s) ≡ some (c ∷ t)) × All NonZero (escaped c s)
content-escaped c s t h k = elim (Bool-cases (c == 0)) [
  | inl e ↦
      let zero_byte : c ≡ 0 = ground arith in rw zero_byte (ap (before 0) h, (refl, (refl, k)))
  | inr z ↦ elim (Bool-cases (c == 39)) [
    | inl e ↦ let quote : c ≡ 39 = ground arith in rw quote (ap (before 39) h, (refl, (refl, k)))
    | inr p ↦ elim (Bool-cases (c == 92)) [
      | inl e ↦ let slash : c ≡ 92 = ground arith in rw slash (ap (before 92) h, (refl, (refl, k)))
      | inr q ↦ rw (z, p, q) (content-cons c s t p q h, (z, k))
    ]
  ]
]

content-escaping : (s : Bytes) → (content (escaping s) ≡ some s) × All NonZero (escaping s)
content-escaping [] = (refl, tt)
content-escaping (c ∷ s) =
    let (stands, whole) = content-escaping s in content-escaped c (escaping s) s stands whole

abbrev db : Mysql Bool
db = record {
  connected = λ st. true;
  real_escape_string = escaping;
  select = λ sql st. none;
  execute = λ sql st. (true, st);
}

abbrev attack : Call
attack = create_user (codes "x', '', '', 1); -- ") (codes "secret") (codes "a\\")

literals-statement_example :
    literals (c_str (statement db attack))
    ≡ some (codes "x', '', '', 1); -- " ∷ codes "secret" ∷ codes "a\\" ∷ [])
literals-statement_example = literals-statement db content-escaping attack
