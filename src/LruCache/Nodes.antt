-- ===== src/LruCache/Nodes.antt =====
-- The list of nodes of src/common/LruCache.h seen by key, for lists whose addresses and keys differ.
use fileagent_server.Base.{
  ℕ, suc, ◌<◌, ◌≡◌, ◌≢◌, refl, ap, inl, inr, List, [], ◌∷◌, Option, none, some, arith, Key, same,
  if◌then◌else◌, length, All, Bool-cases, subst, ◌∙◌,
}
use fileagent_server.LruCache.{Node, deref, unlink, assign, splice_front}

module _ {ℓ} {K V : Type ℓ} where
  -- No node of `l` has the address or the key of `n`.
  abbrev pub Apart : Node K V → List (Node K V) → Type ℓ
  Apart n = All (λ m. (m.addr ≢ n.addr) × (m.key ≢ n.key))

  abbrev pub Distinct : List (Node K V) → Type ℓ
  Distinct [] = Unit
  Distinct (n ∷ l) = Apart n l × Distinct l

  abbrev pub Below : ℕ → List (Node K V) → Type 0
  Below next = All (λ n. n.addr < next)

module _ {ℓ} {K V : Type ℓ} ⦃k : Key K⦄ where
  unfoldable pub find_key : K → List (Node K V) → Option (Node K V)
  find_key key [] = none
  find_key key (n ∷ l) = if same n.key key then some n else find_key key l

  unfoldable pub remove_key : K → List (Node K V) → List (Node K V)
  remove_key key [] = []
  remove_key key (n ∷ l) = if same n.key key then l else n ∷ remove_key key l

  -- A node that is found by key is in the list.
  pub find_key-Apart :
      (m : Node K V) (key : K) (l : List (Node K V)) (n : Node K V)
      → Apart m l
      → find_key key l ≡ some n
      → (n.addr ≢ m.addr) × (n.key ≢ m.key)
  unfolding find_key
  find_key-Apart m key [] n a e = absurd (cc)
  find_key-Apart m key (x ∷ l) n a e = elim (Bool-cases (same x.key key)) [
    | inl h ↦ let q : x ≡ n = ground arith in subst (λ y. (y.addr ≢ m.addr) × (y.key ≢ m.key)) q a.0
    | inr h ↦ find_key-Apart m key l n a.1 (ground arith)
  ]

  pub find_key-key :
      (key : K) (l : List (Node K V)) (n : Node K V) → find_key key l ≡ some n → n.key ≡ key
  unfolding find_key
  find_key-key key [] n e = absurd (cc)
  find_key-key key (x ∷ l) n e = ground (arith, find_key-key key l n, k.same_iff x.key key)

  -- Under an iterator that the map holds for a key stands the node of that key.
  pub deref-find_key :
      (key : K) (l : List (Node K V)) (n : Node K V)
      → Distinct l
      → find_key key l ≡ some n
      → deref n.addr l ≡ some n
  unfolding find_key deref
  deref-find_key key [] n d e = absurd (cc)
  deref-find_key key (x ∷ l) n d e =
      ground (arith, deref-find_key key l n d.1, find_key-Apart x key l n d.0)

  pub unlink-find_key :
      (key : K) (l : List (Node K V)) (n : Node K V)
      → Distinct l
      → find_key key l ≡ some n
      → unlink n.addr l ≡ remove_key key l
  unfolding find_key unlink remove_key
  unlink-find_key key [] n d e = absurd (cc)
  unlink-find_key key (x ∷ l) n d e =
      ground (arith, unlink-find_key key l n d.1, find_key-Apart x key l n d.0)

  -- The store of a value through an iterator, followed by the move to the front.
  pub splice_front-find_key :
      (key : K) (l : List (Node K V)) (n : Node K V)
      → Distinct l
      → find_key key l ≡ some n
      → splice_front n.addr l ≡ n ∷ remove_key key l
  unfolding splice_front
  splice_front-find_key key l n d e =
      rw (deref-find_key key l n d e, splice_front) (ap (◌∷◌ n) (unlink-find_key key l n d e))

module _ {ℓ} {K V : Type ℓ} ⦃k : Key K⦄ where
  pub deref-assign :
      (it : ℕ) (v : V) (l : List (Node K V)) (n : Node K V)
      → deref it l ≡ some n
      → deref it (assign it v l) ≡ some (record n { value = v })
  unfolding deref assign
  deref-assign it v [] n e = absurd (cc)
  deref-assign it v (x ∷ l) n e = ground (arith, deref-assign it v l n)

  pub unlink-assign :
      (it : ℕ) (v : V) (l : List (Node K V)) → unlink it (assign it v l) ≡ unlink it l
  unfolding unlink assign
  unlink-assign it v [] = refl
  unlink-assign it v (x ∷ l) = ground (arith, unlink-assign it v l)

  pub splice_front-assign :
      (key : K) (v : V) (l : List (Node K V)) (n : Node K V)
      → Distinct l
      → find_key key l ≡ some n
      → splice_front n.addr (assign n.addr v l) ≡ record n { value = v } ∷ remove_key key l
  unfolding splice_front
  splice_front-assign key v l n d e =
      rw (deref-assign n.addr v l n (deref-find_key key l n d e), splice_front)
        (ap (◌∷◌ (record n { value = v })) (unlink-assign n.addr v l ∙ unlink-find_key key l n d e))

  pub remove_key-All {κ} :
      (P : Node K V → Type κ) (key : K) (l : List (Node K V)) → All P l → All P (remove_key key l)
  unfolding remove_key
  remove_key-All P key [] h = h
  remove_key-All P key (x ∷ l) h = ground (arith, remove_key-All P key l h.1)

  pub remove_key-Distinct :
      (key : K) (l : List (Node K V)) → Distinct l → Distinct (remove_key key l)
  unfolding remove_key
  remove_key-Distinct key [] d = d
  remove_key-Distinct key (x ∷ l) d = ground (
    arith,
    remove_key-Distinct key l d.1,
    remove_key-All (λ m. (m.addr ≢ x.addr) × (m.key ≢ x.key)) key l d.0,
  )

  pub length-remove_key :
      (key : K) (l : List (Node K V)) (n : Node K V)
      → find_key key l ≡ some n
      → suc (length (remove_key key l)) ≡ length l
  unfolding find_key remove_key
  length-remove_key key [] n e = absurd (cc)
  length-remove_key key (x ∷ l) n e = ground (arith, length-remove_key key l n)
