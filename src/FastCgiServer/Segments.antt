-- ===== src/FastCgiServer/Segments.antt =====
-- src/server/FastCgiServer.cpp: the segments of a path.
use fileagent_server.Base.{
  ℕ, ◌≡◌, ◌≢◌, ◌∙◌, ap, refl, false, List, [], ◌∷◌, ◌++◌, append_assoc, append-nil, arith, All,
  All-append, is_empty, ◌==◌, Bool-cases, inl, inr, ◌⊎◌,
}
use fileagent_server.Base.Bytes.{Bytes}
use fileagent_server.FastCgiServer.{pieces, non_empty, segments_of}

abbrev pub Lacks : ℕ → Bytes → Type 0
Lacks c = All (λ b. b ≢ c)

-- A segment: some bytes, none of which is a slash.
abbrev pub IsSegment : Bytes → Type 0
IsSegment s = (is_empty s ≡ false) × Lacks b'/' s

-- The path with the given segments.
abbrev pub render : List Bytes → Bytes
render [] = []
render (s ∷ ss) = b'/' ∷ (s ++ render ss)

pub pieces-cases :
    (delim : ℕ) (piece : Bytes) (b : ℕ) (s : Bytes)
    → ((b ≡ delim) × (pieces delim piece (b ∷ s) ≡ piece ∷ pieces delim [] s))
      ⊎ ((b ≢ delim) × (pieces delim piece (b ∷ s) ≡ pieces delim (piece ++ b ∷ []) s))
unfolding pieces
pieces-cases delim piece b s = elim (Bool-cases (b == delim)) [
  | inl e ↦ inl (ground arith, rw (e, pieces) refl)
  | inr e ↦ inr (ground arith, rw (e, pieces) refl)
]

pieces-append :
    (delim : ℕ) (piece s rest : Bytes)
    → Lacks delim s
    → pieces delim piece (s ++ rest) ≡ pieces delim (piece ++ s) rest
pieces-append delim piece [] rest h = rw append-nil
pieces-append delim piece (b ∷ s) rest h = elim (pieces-cases delim piece b (s ++ rest)) [
  | inl (e, _) ↦ absurd (h.0 e)
  | inr (_, e) ↦
      e
      ∙ pieces-append delim (piece ++ b ∷ []) s rest h.1
      ∙ ap (λ p. pieces delim p rest) (append_assoc piece (b ∷ []) s)
]

pieces-render :
    (piece : Bytes) (ss : List Bytes)
    → is_empty piece ≡ false
    → All IsSegment ss
    → non_empty (pieces b'/' piece (render ss)) ≡ piece ∷ ss
unfolding pieces non_empty
pieces-render piece [] f h = ground arith
pieces-render piece (s ∷ ss) f h = rw (f) (
    ap (◌∷◌ piece)
      (ap non_empty (pieces-append b'/' [] s (render ss) h.0.1) ∙ pieces-render s ss h.0.0 h.1))

-- A path that is put together from segments has these segments.
pub segments_of-render : (ss : List Bytes) → All IsSegment ss → segments_of (render ss) ≡ ss
unfolding segments_of pieces non_empty
segments_of-render [] h = refl
segments_of-render (s ∷ ss) h =
    ap non_empty (pieces-append b'/' [] s (render ss) h.0.1) ∙ pieces-render s ss h.0.0 h.1

pieces-Lacks :
    (delim : ℕ) (piece s : Bytes) → Lacks delim piece → All (Lacks delim) (pieces delim piece s)
pieces-Lacks delim piece [] h = unfold pieces in ground arith
pieces-Lacks delim piece (b ∷ s) h = elim (pieces-cases delim piece b s) [
  | inl (_, e) ↦ rw e (h, pieces-Lacks delim [] s tt)
  | inr (n, e) ↦
      rw e (pieces-Lacks delim (piece ++ b ∷ []) s (All-append _ piece (b ∷ []) h (n, tt)))
]

non_empty-IsSegment : (ps : List Bytes) → All (Lacks b'/') ps → All IsSegment (non_empty ps)
unfolding non_empty
non_empty-IsSegment [] h = tt
non_empty-IsSegment (p ∷ ps) h = ground (arith, non_empty-IsSegment ps h.1)

-- Every segment of a path has bytes, and no slash among them.
pub segments_of-IsSegment : (path : Bytes) → All IsSegment (segments_of path)
unfolding segments_of
segments_of-IsSegment path = non_empty-IsSegment _ (pieces-Lacks b'/' [] path tt)
