-- ===== src/Base/Number.antt =====
-- `std::stoi`, `std::stoll` and `std::to_string`. `none` is the exception that the first two throw.
use fileagent_server.Base.{
  ℕ, zero, suc, ◌≡◌, ◌∙◌, refl, sym, ap, arith, ◌≤◌, ◌<◌, Bool-cases, inl, inr, ◌⊎◌, All, ◌+◌, ◌-◌,
  ◌*◌, ◌/◌, ◌%◌, ◌^◌, Bool, ◌&&◌, ◌||◌, [], ◌∷◌, Option, none, some, true, false, ltb, leb, ◌==◌,
  if◌then◌else◌,
}
use fileagent_server.Base.Bytes.{Bytes}
use fileagent_server.Base.Int.{ℤ, pos, negsuc}

abbrev pub is_digit : ℕ → Bool
is_digit c = leb b'0' c && leb c b'9'

-- `isspace` of the "C" locale: the blank, and the codes 9 to 13.
abbrev pub is_space : ℕ → Bool
is_space c = c == 32 || leb 9 c && leb c 13

-- The number that the leading digits spell, after `value`; the rest of the text is ignored.
unfoldable pub digits_value : ℕ → Bytes → ℕ
digits_value value [] = value
digits_value value (c ∷ s) =
    let more = digits_value (value * 10 + (c - b'0')) s in if is_digit c then more else value

-- An integer of the given size of magnitude: below `limit`, or `limit` itself with a minus sign.
abbrev bounded_int : ℕ → Bool → ℕ → Option ℤ
bounded_int limit negative n =
    if negative
    then (if leb n limit then some (if n == 0 then pos 0 else negsuc (n - 1)) else none)
    else if ltb n limit
    then some (pos n)
    else none

unfoldable pub parse_digits : ℕ → Bool → Bytes → Option ℤ
unfolding digits_value
parse_digits limit negative [] = none
parse_digits limit negative (c ∷ s) =
    if is_digit c then bounded_int limit negative (digits_value 0 (c ∷ s)) else none

unfoldable pub parse_signed : ℕ → Bytes → Option ℤ
unfolding parse_digits
parse_signed limit [] = none
parse_signed limit (c ∷ s) =
    if c == b'-'
    then parse_digits limit true s
    else if c == b'+'
    then parse_digits limit false s
    else parse_digits limit false (c ∷ s)

unfoldable pub skip_spaces : Bytes → Bytes
skip_spaces [] = []
skip_spaces (c ∷ s) = if is_space c then skip_spaces s else c ∷ s

unfoldable pub stoi : Bytes → Option ℤ
unfolding skip_spaces parse_signed
stoi s = parse_signed (2 ^ 31) (skip_spaces s)

unfoldable pub stoll : Bytes → Option ℤ
unfolding skip_spaces parse_signed
stoll s = parse_signed (2 ^ 63) (skip_spaces s)

-- The digits of a number before a text, from its last digit on; `fuel` bounds their number.
unfoldable pub digits_of : ℕ → ℕ → Bytes → Bytes
digits_of zero n s = (b'0' + n) ∷ s
digits_of (suc fuel) n s =
    let more = digits_of fuel (n / 10) ((b'0' + n % 10) ∷ s) in
    if ltb n 10 then (b'0' + n) ∷ s else more

-- `std::to_string`; a number has fewer digits than it counts.
unfoldable pub decimal : ℕ → Bytes
decimal n = digits_of n n []

digits_value-digits_of :
    (fuel n : ℕ) (s : Bytes) → n ≤ fuel → digits_value 0 (digits_of fuel n s) ≡ digits_value n s
unfolding digits_of digits_value
digits_value-digits_of zero n s h = ground arith
digits_value-digits_of (suc fuel) n s h = elim (Bool-cases (ltb n 10)) [
  | inl e ↦ ground arith
  | inr e ↦
      let more = digits_value-digits_of fuel (n / 10) ((b'0' + n % 10) ∷ s) (omega (arith, h)) in
      ground (arith, more)
]

pub digits_value-decimal : (n : ℕ) → digits_value 0 (decimal n) ≡ n
unfolding decimal
digits_value-decimal n = digits_value-digits_of n n [] (omega arith) ∙ (unfold digits_value in refl)

pub decimal-injective : (m n : ℕ) → decimal m ≡ decimal n → m ≡ n
decimal-injective m n e =
    sym (digits_value-decimal m) ∙ ap (digits_value 0) e ∙ digits_value-decimal n

-- The first byte of what is printed is a digit.
digits_of-cons :
    (fuel n : ℕ) (s : Bytes)
    → n ≤ fuel
    → (c : ℕ) × (t : Bytes) × (digits_of fuel n s ≡ c ∷ t) × (is_digit c ≡ true)
unfolding digits_of
digits_of-cons zero n s h = (b'0' + n, s, refl, ground arith)
digits_of-cons (suc fuel) n s h = elim (Bool-cases (ltb n 10)) [
  | inl e ↦ (b'0' + n, s, rw e refl, ground arith)
  | inr e ↦
      let (c, t, same, digit) =
        digits_of-cons fuel (n / 10) ((b'0' + n % 10) ∷ s) (omega (arith, h)) in
      (c, t, rw e same, digit)
]

decimal-cons : (n : ℕ) → (c : ℕ) × (t : Bytes) × (decimal n ≡ c ∷ t) × (is_digit c ≡ true)
unfolding decimal
decimal-cons n = digits_of-cons n n [] (omega arith)

-- A digit, and all that follows it, is read as a number; the sign is read first.
parse_signed-digits :
    (limit c n : ℕ) (t : Bytes)
    → is_digit c ≡ true
    → digits_value 0 (c ∷ t) ≡ n
    → n < limit
    → parse_signed limit (skip_spaces (c ∷ t)) ≡ some (pos n)
unfolding skip_spaces parse_signed parse_digits
parse_signed-digits limit c n t d e h = ground arith

parse_signed-minus :
    (limit c n : ℕ) (t : Bytes)
    → is_digit c ≡ true
    → digits_value 0 (c ∷ t) ≡ suc n
    → suc n ≤ limit
    → parse_signed limit (skip_spaces (b'-' ∷ c ∷ t)) ≡ some (negsuc n)
unfolding skip_spaces parse_signed parse_digits
parse_signed-minus limit c n t d e h = ground arith

-- `std::to_string` of a signed number.
unfoldable pub to_string : ℤ → Bytes
to_string (pos n) = decimal n
to_string (negsuc n) = b'-' ∷ decimal (suc n)

-- A number of so many bits without the sign.
abbrev pub Fits : ℕ → ℤ → Type 0
Fits limit (pos n) = n < limit
Fits limit (negsuc n) = suc n ≤ limit

parse_signed-to_string :
    (limit : ℕ) (i : ℤ) → Fits limit i → parse_signed limit (skip_spaces (to_string i)) ≡ some i
unfolding to_string
parse_signed-to_string limit (pos n) h =
    let (c, t, same, digit) = decimal-cons n in
    ap (λ s. parse_signed limit (skip_spaces s)) same
    ∙ parse_signed-digits limit c n t digit
        (ap (digits_value 0) (sym same) ∙ digits_value-decimal n) h
parse_signed-to_string limit (negsuc n) h =
    let (c, t, same, digit) = decimal-cons (suc n) in
    ap (λ s. parse_signed limit (skip_spaces (b'-' ∷ s))) same
    ∙ parse_signed-minus limit c n t digit
        (ap (digits_value 0) (sym same) ∙ digits_value-decimal (suc n)) h

pub stoll-to_string : (i : ℤ) → Fits (2 ^ 63) i → stoll (to_string i) ≡ some i
unfolding stoll
stoll-to_string i h = parse_signed-to_string (2 ^ 63) i h

pub stoi-to_string : (i : ℤ) → Fits (2 ^ 31) i → stoi (to_string i) ≡ some i
unfolding stoi
stoi-to_string i h = parse_signed-to_string (2 ^ 31) i h

pub stoi-decimal : (n : ℕ) → n < 2 ^ 31 → stoi (decimal n) ≡ some (pos n)
unfolding to_string
stoi-decimal n h = stoi-to_string (pos n) h

-- Every byte that is printed is a minus sign or a digit.
abbrev pub IsNumeral : ℕ → Type 0
IsNumeral c = (c ≡ b'-') ⊎ (is_digit c ≡ true)

digits_of-IsNumeral :
    (fuel n : ℕ) (s : Bytes) → n ≤ fuel → All IsNumeral s → All IsNumeral (digits_of fuel n s)
unfolding digits_of
digits_of-IsNumeral zero n s h k = (inr (ground arith), k)
digits_of-IsNumeral (suc fuel) n s h k = elim (Bool-cases (ltb n 10)) [
  | inl e ↦ rw e (inr (ground arith), k)
  | inr e ↦ rw e (
      digits_of-IsNumeral fuel (n / 10) ((b'0' + n % 10) ∷ s) (omega (arith, h))
        (inr (ground arith), k))
]

pub to_string-IsNumeral : (i : ℤ) → All IsNumeral (to_string i)
unfolding to_string decimal
to_string-IsNumeral (pos n) = digits_of-IsNumeral n n [] (omega arith) tt
to_string-IsNumeral (negsuc n) = (inl refl, digits_of-IsNumeral (suc n) (suc n) [] (omega arith) tt)
