-- ===== src/TextChunker/Paragraphs.antt =====
-- src/vector/TextChunker.cpp: the paragraphs of a text.
use fileagent_server.Base.{
  ℕ, ◌+◌, ◌≤◌, ◌≡◌, ◌∙◌, sym, refl, List, [], ◌∷◌, ◌++◌, length, arith, All, true, false, not, ◌&&◌,
  is_empty, Bool-cases, length-append, append_assoc, inl, inr, ◌⊎◌, ◌==◌, filterb,
}
use fileagent_server.Base.Bytes.{Bytes}
use fileagent_server.TextChunker.{newline, lines_from, paragraphs_from, paragraphs}

abbrev pub joined : List Bytes → Bytes
joined [] = []
joined (s ∷ ss) = s ++ joined ss

-- The text without its newlines.
unfoldable pub strip : Bytes → Bytes
strip = filterb (λ b. not (b == newline))

pub strip-append : (s t : Bytes) → strip (s ++ t) ≡ strip s ++ strip t
unfolding strip
strip-append [] t = refl
strip-append (b ∷ s) t = ground (arith, strip-append s t)

lines_from-cases :
    (line : Bytes) (b : ℕ) (s : Bytes)
    → (((b == newline) ≡ true) × (lines_from line (b ∷ s) ≡ line ∷ lines_from [] s))
      ⊎ (((b == newline) ≡ false) × (lines_from line (b ∷ s) ≡ lines_from (line ++ b ∷ []) s))
unfolding lines_from
lines_from-cases line b s = elim (Bool-cases (b == newline)) [
  | inl e ↦ inl (e, rw (e, lines_from) refl)
  | inr e ↦ inr (e, rw (e, lines_from) refl)
]

paragraphs_from-cases :
    (para line : Bytes) (ls : List Bytes)
    → ((line ≡ []) × (paragraphs_from para (line ∷ ls) ≡ para ∷ paragraphs_from [] ls))
      ⊎ (paragraphs_from para (line ∷ ls) ≡ paragraphs_from (para ++ (line ++ newline ∷ [])) ls)
unfolding paragraphs_from
paragraphs_from-cases para line ls = elim (Bool-cases (is_empty line && not (is_empty para))) [
  | inl e ↦ inl (ground arith, rw (e, paragraphs_from) refl)
  | inr e ↦ inr (rw (e, paragraphs_from) refl)
]

-- The bytes of the lines, each with a newline.
total : List Bytes → ℕ
total [] = 0
total (line ∷ ls) = length line + 1 + total ls

total-lines_from : (line s : Bytes) → total (lines_from line s) ≤ length line + length s + 1
unfolding total lines_from
total-lines_from [] [] = omega arith
total-lines_from (b ∷ line) [] = omega arith
total-lines_from line (b ∷ s) = elim (lines_from-cases line b s) [
  | inl (_, e) ↦ rw e (omega (arith, total-lines_from [] s))
  | inr (_, e) ↦
      rw e (omega (arith, total-lines_from (line ++ b ∷ []) s, length-append line (b ∷ [])))
]

All-mono :
    (m n : ℕ) (ps : List Bytes) → m ≤ n → All (λ p. length p ≤ m) ps → All (λ p. length p ≤ n) ps
All-mono m n [] h a = tt
All-mono m n (p ∷ ps) h a = (omega arith, All-mono m n ps h a.1)

length-paragraphs_from-le :
    (para : Bytes) (ls : List Bytes)
    → All (λ p. length p ≤ length para + total ls) (paragraphs_from para ls)
unfolding total paragraphs_from
length-paragraphs_from-le [] [] = tt
length-paragraphs_from-le (b ∷ para) [] = omega arith
length-paragraphs_from-le para (line ∷ ls) = elim (paragraphs_from-cases para line ls) [
  | inl (_, e) ↦ rw e (
    omega arith,
    All-mono (0 + total ls) _ (paragraphs_from [] ls) (omega arith)
        (length-paragraphs_from-le [] ls),
  )
  | inr e ↦ rw e (
      All-mono _ _ (paragraphs_from (para ++ (line ++ newline ∷ [])) ls)
        (omega
          (arith, length-append para (line ++ newline ∷ []), length-append line (newline ∷ [])))
        (length-paragraphs_from-le (para ++ (line ++ newline ∷ [])) ls))
]

-- No paragraph is longer than the text and one newline.
pub length-paragraphs-le : (text : Bytes) → All (λ p. length p ≤ length text + 1) (paragraphs text)
unfolding paragraphs
length-paragraphs-le text =
    All-mono _ (length text + 1) (paragraphs_from [] (lines_from [] text))
      (omega (arith, total-lines_from [] text)) (length-paragraphs_from-le [] (lines_from [] text))

length-joined-paragraphs_from :
    (para : Bytes) (ls : List Bytes)
    → length (joined (paragraphs_from para ls)) ≤ length para + total ls
unfolding total paragraphs_from
length-joined-paragraphs_from [] [] = omega arith
length-joined-paragraphs_from (b ∷ para) [] = omega (arith, length-append (b ∷ para) [])
length-joined-paragraphs_from para (line ∷ ls) = elim (paragraphs_from-cases para line ls) [
  | inl (_, e) ↦ rw e (
      omega (
        arith,
        length-append para (joined (paragraphs_from [] ls)),
        length-joined-paragraphs_from [] ls,
      ))
  | inr e ↦ rw e (
      omega (
        arith,
        length-append para (line ++ newline ∷ []),
        length-append line (newline ∷ []),
        length-joined-paragraphs_from (para ++ (line ++ newline ∷ [])) ls,
      ))
]

-- Together the paragraphs are no longer than the text and one newline.
pub length-joined-paragraphs : (text : Bytes) → length (joined (paragraphs text)) ≤ length text + 1
unfolding paragraphs
length-joined-paragraphs text =
    omega (arith, length-joined-paragraphs_from [] (lines_from [] text), total-lines_from [] text)

strip-lines_from : (line s : Bytes) → strip (joined (lines_from line s)) ≡ strip (line ++ s)
unfolding lines_from
strip-lines_from [] [] = refl
strip-lines_from (b ∷ line) [] = refl
strip-lines_from line (b ∷ s) = elim (lines_from-cases line b s) [
  | inl (nl, e) ↦
      let dropped : strip (b ∷ s) ≡ strip s = unfold strip in ground arith in
      rw (e, strip-append line (joined (lines_from [] s)), strip-lines_from [] s)
        (rw (strip-append line (b ∷ s), dropped))
  | inr (_, e) ↦ rw (e, strip-lines_from (line ++ b ∷ []) s, append_assoc line (b ∷ []) s)
]

strip-paragraphs_from :
    (para : Bytes) (ls : List Bytes)
    → strip (joined (paragraphs_from para ls)) ≡ strip (para ++ joined ls)
unfolding paragraphs_from
strip-paragraphs_from [] [] = refl
strip-paragraphs_from (b ∷ para) [] = refl
strip-paragraphs_from para (line ∷ ls) = elim (paragraphs_from-cases para line ls) [
  | inl (empty, e) ↦
      rw (e, empty, strip-append para (joined (paragraphs_from [] ls)), strip-paragraphs_from [] ls)
        (sym (strip-append para (joined ls)))
  | inr e ↦
      let dropped : strip (newline ∷ []) ≡ [] = unfold strip in refl in
      rw (e, strip-paragraphs_from (para ++ (line ++ newline ∷ [])) ls)
        (simp (strip-append, append_assoc, dropped))
]

-- The paragraphs hold every byte of the text but newlines, in order.
pub strip-paragraphs : (text : Bytes) → strip (joined (paragraphs text)) ≡ strip text
unfolding paragraphs
strip-paragraphs text = strip-paragraphs_from [] (lines_from [] text) ∙ strip-lines_from [] text
