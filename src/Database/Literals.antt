-- ===== src/Database/Literals.antt =====
-- The text literals of a statement, as MySQL reads them, and what src/db/MysqlConn.cpp `escape` does
-- for them. A statement here has no comments and no names in quotes.
use fileagent_server.Base.{
  ℕ, ◌≡◌, ◌∙◌, refl, sym, ap, arith, true, false, List, [], ◌∷◌, ◌++◌, append_assoc, append-nil,
  Option, none, some, ◌==◌, if◌then◌else◌, All, All-map, Bool-cases, inl, inr,
}
use fileagent_server.Base.Bytes.{Bytes, c_str}
use fileagent_server.Base.Int.{ℤ}
use fileagent_server.Base.Number.{to_string, IsNumeral, to_string-IsNumeral}
use fileagent_server.Database.{Mysql, escape}

-- The byte that a backslash and `c` stand for.
abbrev pub unescaped : ℕ → ℕ
unescaped c =
    if c == b'0'
    then 0
    else if c == b'n'
    then 10
    else if c == b'r'
    then 13
    else if c == b't'
    then 9
    else if c == b'b'
    then 8
    else if c == b'Z'
    then 26
    else c

-- What stands between two quotes, read to its end: `none` at a quote, or after a last backslash.
abbrev pub before : ℕ → Option Bytes → Option Bytes
before c none = none
before c (some s) = some (c ∷ s)

abbrev pub content : Bytes → Option Bytes
content [] = some []
content (c ∷ []) = if c == 92 then none else if c == 39 then none else some (c ∷ [])
content (c ∷ d ∷ s) =
    let escaped = before (unescaped d) (content s) in
    let plain = before c (content (d ∷ s)) in
    if c == 92 then escaped else if c == 39 then none else plain

abbrev plain_content : ℕ → ℕ → Bytes → Option Bytes
plain_content c d s = if c == 39 then none else before c (content (d ∷ s))

abbrev and_literal : Bytes → Option (List Bytes) → Option (List Bytes)
and_literal text none = none
and_literal text (some texts) = some (text ∷ texts)

-- Where the reading stands: between literals, in one, behind a backslash in one, or behind a quote
-- that ends it, unless another quote follows.
pub data Place : Type 0 where
  outside : Place
  inside : Bytes → Place
  escaping : Bytes → Place
  closing : Bytes → Place

-- The literals of the rest of a statement; `none` if one is not closed.
unfoldable pub literals_from : Place → Bytes → Option (List Bytes)
literals_from outside [] = some []
literals_from (inside text) [] = none
literals_from (escaping text) [] = none
literals_from (closing text) [] = some (text ∷ [])
literals_from outside (c ∷ s) = literals_from (if c == 39 then inside [] else outside) s
literals_from (inside text) (c ∷ s) =
    literals_from
      (if c == 92 then escaping text else if c == 39 then closing text else inside (text ++ c ∷ []))
      s
literals_from (escaping text) (c ∷ s) = literals_from (inside (text ++ unescaped c ∷ [])) s
literals_from (closing text) (c ∷ s) =
    let more = literals_from (inside (text ++ 39 ∷ [])) s in
    let done = and_literal text (literals_from outside s) in if c == 39 then more else done

unfoldable pub literals : Bytes → Option (List Bytes)
literals sql = literals_from outside sql

abbrev pub NonZero : ℕ → Type 0
NonZero c = (c == 0) ≡ false

-- What mysql_real_escape_string promises: its result has no zero byte, and stands for the text when
-- it is between quotes.
abbrev pub Escapes : {S : Type 0} → Mysql S → Type 0
Escapes db =
    (text : Bytes)
    → (content (db.real_escape_string text) ≡ some text) × All NonZero (db.real_escape_string text)

content-escape :
    {S : Type 0} (db : Mysql S)
    → Escapes db
    → (text : Bytes) → (content (escape db text) ≡ some text) × All NonZero (escape db text)
unfolding escape
content-escape db h [] = (refl, tt)
content-escape db h (c ∷ text) = h (c ∷ text)

pub c_str-append : (s t : Bytes) → All NonZero s → c_str (s ++ t) ≡ s ++ c_str t
unfolding c_str
c_str-append [] t h = refl
c_str-append (c ∷ s) t h = rw (h.0, c_str) (ap (c ∷◌) (c_str-append s t h.1))

before-some :
    (c : ℕ) (o : Option Bytes) (s : Bytes)
    → before c o ≡ some s
    → (t : Bytes) × (o ≡ some t) × (s ≡ c ∷ t)
before-some c none s h = absurd (cc)
before-some c (some t) s h = (t, refl, cc)

-- The two ways in which the content of a literal goes on.
content-slash :
    (c d : ℕ) (e s : Bytes)
    → (c == 92) ≡ true
    → content (c ∷ d ∷ e) ≡ some s
    → (t : Bytes) × (content e ≡ some t) × (s ≡ unescaped d ∷ t)
content-slash c d e s slash h =
    before-some (unescaped d) (content e) s (
      sym (ap (λ b. if b then before (unescaped d) (content e) else plain_content c d e) slash) ∙ h)

content-plain :
    (c d : ℕ) (e s : Bytes)
    → (c == 92) ≡ false
    → content (c ∷ d ∷ e) ≡ some s
    → ((c == 39) ≡ false) × ((t : Bytes) × (content (d ∷ e) ≡ some t) × (s ≡ c ∷ t))
content-plain c d e s plain h =
    let here =
      sym (ap (λ b. if b then before (unescaped d) (content e) else plain_content c d e) plain)
      ∙ h in
    elim (Bool-cases (c == 39)) [
      | inl q ↦
          absurd (
            ground (arith, sym (ap (λ b. if b then none else before c (content (d ∷ e))) q) ∙ here))
      | inr q ↦ (
        q,
        before-some c (content (d ∷ e)) s
            (sym (ap (λ b. if b then none else before c (content (d ∷ e))) q) ∙ here),
      )
    ]

-- A content is read up to the quote behind it.
literals_from-content :
    (text e s rest : Bytes)
    → content e ≡ some s
    → literals_from (inside text) (e ++ 39 ∷ rest) ≡ literals_from (closing (text ++ s)) rest
unfolding literals_from
literals_from-content text [] s rest h = let same : s ≡ [] = cc in rw (same, append-nil) refl
literals_from-content text (c ∷ []) s rest h = ground (arith, h)
literals_from-content text (c ∷ d ∷ e) s rest h = elim (Bool-cases (c == 92)) [
  | inl slash ↦
      let (t, at, same) = content-slash c d e s slash h in
      rw (slash, literals_from)
        (literals_from-content (text ++ unescaped d ∷ []) e t rest at
          ∙ ap (λ x. literals_from (closing x) rest)
              (append_assoc text (unescaped d ∷ []) t ∙ ap (text ++◌) (sym same)))
  | inr plain ↦
      let (q, (t, at, same)) = content-plain c d e s plain h in
      rw (plain, q, literals_from)
        (literals_from-content (text ++ c ∷ []) (d ∷ e) t rest at
          ∙ ap (λ x. literals_from (closing x) rest)
              (append_assoc text (c ∷ []) t ∙ ap (text ++◌) (sym same)))
]

-- Numbers hold no quotes.
literals_from-numerals :
    (s rest : Bytes)
    → All IsNumeral s
    → literals_from outside (s ++ rest) ≡ literals_from outside rest
unfolding literals_from
literals_from-numerals [] rest h = refl
literals_from-numerals (c ∷ s) rest h =
    let quote : (c == 39) ≡ false = elim h.0 [ inl e ↦ ground arith | inr e ↦ ground arith ] in
    rw (quote, literals_from) (literals_from-numerals s rest h.1)

pub IsNumeral→NonZero : (c : ℕ) → IsNumeral c → NonZero c
IsNumeral→NonZero c (inl e) = ground arith
IsNumeral→NonZero c (inr e) = ground arith

-- A number in a statement, with what follows already read; and at the end of the statement.
pub number_then :
    (i : ℤ) (rest : Bytes) {o : Option (List Bytes)}
    → literals_from outside (c_str rest) ≡ o
    → literals_from outside (c_str (to_string i ++ rest)) ≡ o
number_then i rest e =
    let numeral = to_string-IsNumeral i in
    ap (literals_from outside)
      (c_str-append (to_string i) rest (All-map IsNumeral→NonZero (to_string i) numeral))
    ∙ literals_from-numerals (to_string i) (c_str rest) numeral
    ∙ e

pub number_last : (i : ℤ) → literals_from outside (c_str (to_string i)) ≡ some []
unfolding literals_from c_str
number_last i =
    ap (λ s. literals_from outside (c_str s)) (sym (append-nil (to_string i)))
    ∙ number_then i [] refl

module _ {S : Type 0} (db : Mysql S) (escapes : Escapes db) where
  literals_from-escape :
      (text rest : Bytes)
      → literals_from (inside []) (c_str (escape db text ++ 39 ∷ rest))
        ≡ literals_from (closing text) (c_str rest)
  unfolding c_str
  literals_from-escape text rest =
      let (stands, whole) = content-escape db escapes text in
      ap (literals_from (inside [])) (c_str-append (escape db text) (39 ∷ rest) whole)
      ∙ literals_from-content [] (escape db text) text (c_str rest) stands

  -- An escaped text between quotes is one literal, the text; what follows, behind the byte `c`, is
  -- already read.
  pub literal_then :
      (text rest : Bytes) (c : ℕ) {texts : List Bytes}
      → (c == 39) ≡ false
      → NonZero c
      → literals_from outside (c_str rest) ≡ some texts
      → literals_from (inside []) (c_str (escape db text ++ 39 ∷ c ∷ rest)) ≡ some (text ∷ texts)
  unfolding literals_from c_str
  literal_then text rest c h z e =
      literals_from-escape text (c ∷ rest)
      ∙ rw (c_str, z, literals_from, h) (ap (and_literal text) e)

  pub literal_last :
      (text : Bytes)
      → literals_from (inside []) (c_str (escape db text ++ 39 ∷ [])) ≡ some (text ∷ [])
  unfolding literals_from c_str
  literal_last text = literals_from-escape text []
