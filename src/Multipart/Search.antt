-- ===== src/Multipart/Search.antt =====
-- src/server/FastCgiServer.cpp: where `std::string::find` finds something.
use fileagent_server.Base.{
  ℕ, suc, ◌+◌, ◌≤◌, ◌≡◌, arith, true, [], ◌∷◌, some, length, drop, length-drop,
}
use fileagent_server.Base.Bytes.{Bytes}
use fileagent_server.Multipart.{starts_with, find_in, find_from}

starts_with-length : (p s : Bytes) → starts_with p s ≡ true → length p ≤ length s
starts_with-length [] s h = omega arith
starts_with-length (c ∷ p) [] h = cc
starts_with-length (c ∷ p) (d ∷ s) h = ground (arith, starts_with-length p s)

find_in-bounds :
    (needle : Bytes) (i j : ℕ) (s : Bytes)
    → find_in needle i s ≡ some j
    → (i ≤ j) × (j + length needle ≤ i + length s)
unfolding find_in
find_in-bounds [] i j [] h = ground arith
find_in-bounds (c ∷ p) i j [] h = absurd (cc)
find_in-bounds needle i j (c ∷ s) h =
    ground (arith, starts_with-length needle (c ∷ s), find_in-bounds needle (suc i) j s)

-- What is found lies behind the position and within the text.
pub find_from-bounds :
    (needle : Bytes) (pos j : ℕ) (s : Bytes)
    → find_from needle pos s ≡ some j
    → (pos ≤ j) × (j + length needle ≤ length s)
unfolding find_from
find_from-bounds needle pos j s h =
    ground (arith, find_in-bounds needle pos j (drop pos s), length-drop pos s)
