-- ===== src/LruCache/Links.antt =====
-- src/common/LruCache.h: more laws of the list of nodes, for eviction and for new nodes.
use fileagent_server.Base.{
  ℕ, suc, ◌≡◌, ◌≢◌, refl, sym, inl, inr, List, [], ◌∷◌, none, some, arith, Key, same, if◌then◌else◌,
  get_last?, drop_last, All, Bool-cases, subst,
}
use fileagent_server.LruCache.{Node}
use fileagent_server.LruCache.Nodes.{Apart, Distinct, Below, find_key, find_key-Apart, remove_key}

module _ {ℓ} {K V : Type ℓ} ⦃k : Key K⦄ where
  pub find_key-eq-none : (n : Node K V) (l : List (Node K V)) → Apart n l → find_key n.key l ≡ none
  unfolding find_key
  find_key-eq-none n [] a = refl
  find_key-eq-none n (x ∷ l) a = ground (arith, find_key-eq-none n l a.1, k.same_iff x.key n.key)

  pub find_key-remove_key :
      (key j : K) (l : List (Node K V))
      → Distinct l
      → find_key j (remove_key key l) ≡ (if same key j then none else find_key j l)
  unfolding find_key remove_key
  find_key-remove_key key j [] d = ground arith
  find_key-remove_key key j (x ∷ l) d = ground (
    arith,
    find_key-remove_key key j l d.1,
    find_key-eq-none x l d.0,
    k.same_iff x.key key,
    k.same_iff x.key j,
    k.same_iff key j,
  )

  pub drop_last-All {κ} :
      (P : Node K V → Type κ) (l : List (Node K V)) → All P l → All P (drop_last l)
  drop_last-All P [] h = tt
  drop_last-All P (x ∷ []) h = tt
  drop_last-All P (x ∷ y ∷ l) h = (h.0, drop_last-All P (y ∷ l) h.1)

  pub get_last-All {κ} :
      (P : Node K V → Type κ) (l : List (Node K V)) (n : Node K V)
      → All P l
      → get_last? l ≡ some n
      → P n
  get_last-All P [] n h e = absurd (cc)
  get_last-All P (x ∷ []) n h e = let q : x ≡ n = ground arith in subst P q h.0
  get_last-All P (x ∷ y ∷ l) n h e = get_last-All P (y ∷ l) n h.1 e

  pub drop_last-Distinct : (l : List (Node K V)) → Distinct l → Distinct (drop_last l)
  drop_last-Distinct [] d = tt
  drop_last-Distinct (x ∷ []) d = tt
  drop_last-Distinct (x ∷ y ∷ l) d = (
    drop_last-All (λ m. (m.addr ≢ x.addr) × (m.key ≢ x.key)) (y ∷ l) d.0,
    drop_last-Distinct (y ∷ l) d.1,
  )

  pub find_key-drop_last :
      (j : K) (l : List (Node K V)) (n : Node K V)
      → Distinct l
      → get_last? l ≡ some n
      → find_key j (drop_last l) ≡ (if same n.key j then none else find_key j l)
  unfolding find_key
  find_key-drop_last j [] n d e = absurd (cc)
  find_key-drop_last j (x ∷ []) n d e = ground (arith, k.same_iff x.key j)
  find_key-drop_last j (x ∷ y ∷ l) n d e = ground (
    arith,
    find_key-drop_last j (y ∷ l) n d.1 e,
    get_last-All (λ m. (m.addr ≢ x.addr) × (m.key ≢ x.key)) (y ∷ l) n d.0 e,
    k.same_iff x.key j,
    k.same_iff n.key j,
  )

  pub nil_of_last : (l : List (Node K V)) → get_last? l ≡ none → l ≡ []
  nil_of_last [] e = refl
  nil_of_last (x ∷ []) e = absurd (cc)
  nil_of_last (x ∷ y ∷ l) e = absurd (cc (nil_of_last (y ∷ l) e))

  pub find_key-All {κ} :
      (P : Node K V → Type κ) (key : K) (l : List (Node K V)) (n : Node K V)
      → All P l
      → find_key key l ≡ some n
      → P n
  unfolding find_key
  find_key-All P key [] n h e = absurd (cc)
  find_key-All P key (x ∷ l) n h e = elim (Bool-cases (same x.key key)) [
    | inl p ↦ let q : x ≡ n = ground arith in subst P q h.0
    | inr p ↦ find_key-All P key l n h.1 (ground arith)
  ]

  pub fresh-Apart :
      (n : Node K V) (l : List (Node K V)) → Below n.addr l → find_key n.key l ≡ none → Apart n l
  unfolding find_key
  fresh-Apart n [] b e = tt
  fresh-Apart n (x ∷ l) b e = ground (arith, fresh-Apart n l b.1, k.same_iff x.key n.key)

  pub Below-suc : (next : ℕ) (l : List (Node K V)) → Below next l → Below (suc next) l
  Below-suc next [] b = tt
  Below-suc next (x ∷ l) b = (omega arith, Below-suc next l b.1)

  pub remove_key-Apart :
      (key : K) (x : V) (l : List (Node K V)) (n : Node K V)
      → Distinct l
      → find_key key l ≡ some n
      → Apart (record n { value = x }) (remove_key key l)
  unfolding find_key remove_key
  remove_key-Apart key x [] n d e = tt
  remove_key-Apart key x (y ∷ l) n d e = elim (Bool-cases (same y.key key)) [
    | inl h ↦ let q : y ≡ n = ground arith in rw h (subst (λ z. Apart z l) q d.0)
    | inr h ↦ rw h (
        let f : find_key key l ≡ some n = ground arith in
        let a = find_key-Apart y key l n d.0 f in
        ((λ p. a.0 (sym p), λ p. a.1 (sym p)), remove_key-Apart key x l n d.1 f))
  ]
