-- ===== src/LruCache/Entries.antt =====
-- src/common/LruCache.h as a client sees it: the entries from the most to the least recently used,
-- and what each method does to them.
use fileagent_server.Base.{
  ℕ, zero, suc, ◌-◌, ◌<◌, ◌≡◌, refl, ap, sym, inl, inr, List, [], ◌∷◌, Option, none, is_some, some,
  arith, leb, leb→le, map, Key, same, length, get_last?, drop_last, take, take_all, Bool-cases,
  Option-cases, ◌∙◌,
}
use mathlib.Core.Path.{ap₂}
use fileagent_server.Base.Assoc.{lookup, erase}
use fileagent_server.LruCache.{Node, LruCache, put, get, exists, remove, evict, emplace}
use fileagent_server.LruCache.Nodes.{
  Distinct, find_key, remove_key, find_key-key, length-remove_key,
}
use fileagent_server.LruCache.Links.{find_key-eq-none, nil_of_last}
use fileagent_server.LruCache.Invariant.{
  IsValid, lookup-cases, put-hit, put-miss, get-hit, get-miss, remove-hit, remove-miss,
}

module _ {ℓ} {K V : Type ℓ} where
  abbrev pub entry : Node K V → K × V
  entry n = (n.key, n.value)

  abbrev pub entries : LruCache K V → List (K × V)
  entries c = map entry c.list

  abbrev pub value_of : Option (Node K V) → Option V
  value_of none = none
  value_of (some n) = some n.value

  pub length-entries : (l : List (Node K V)) → length (map entry l) ≡ length l
  length-entries [] = refl
  length-entries (n ∷ l) = ap suc (length-entries l)

  entries-drop_last : (l : List (Node K V)) → map entry (drop_last l) ≡ drop_last (map entry l)
  entries-drop_last [] = refl
  entries-drop_last (n ∷ []) = refl
  entries-drop_last (n ∷ m ∷ l) = ap (◌∷◌ (entry n)) (entries-drop_last (m ∷ l))

drop_last-take {ℓ} : {A : Type ℓ} (n : ℕ) (l : List A) → length l ≡ suc n → drop_last l ≡ take n l
drop_last-take zero (x ∷ []) h = refl
drop_last-take zero (x ∷ y ∷ l) h = absurd (omega arith)
drop_last-take (suc n) (x ∷ y ∷ l) h = ap (◌∷◌ x) (drop_last-take n (y ∷ l) (omega arith))
drop_last-take (suc n) (x ∷ []) h = absurd (omega arith)
drop_last-take n [] h = absurd (omega arith)

pub take_cons {ℓ} :
    {A : Type ℓ} (n : ℕ) (x : A) (l : List A) → 0 < n → take n (x ∷ l) ≡ x ∷ take (n - 1) l
take_cons zero x l h = absurd (omega arith)
take_cons (suc n) x l h = let e : suc n - 1 ≡ n = omega arith in rw e refl

module _ {ℓ} {K V : Type ℓ} ⦃k : Key K⦄ where
  pub lookup-entries :
      (key : K) (l : List (Node K V)) → lookup key (map entry l) ≡ value_of (find_key key l)
  unfolding lookup find_key
  lookup-entries key [] = refl
  lookup-entries key (n ∷ l) = ground (arith, lookup-entries key l)

  erase_absent :
      (key : K) (l : List (Node K V))
      → find_key key l ≡ none
      → erase key (map entry l) ≡ map entry l
  unfolding erase find_key
  erase_absent key [] e = refl
  erase_absent key (n ∷ l) e = ground (arith, erase_absent key l)

  entries-remove_key :
      (key : K) (l : List (Node K V))
      → Distinct l
      → map entry (remove_key key l) ≡ erase key (map entry l)
  unfolding erase remove_key
  entries-remove_key key [] d = refl
  entries-remove_key key (n ∷ l) d = elim (Bool-cases (same n.key key)) [
    | inl h ↦
        let q : n.key ≡ key = (k.same_iff n.key key).0 h in
        rw h (sym (erase_absent key l (ap (λ j. find_key j l) (sym q) ∙ find_key-eq-none n l d.0)))
    | inr h ↦ rw h (ap (◌∷◌ (entry n)) (entries-remove_key key l d.1))
  ]

  -- The three cases of `put`, as entries.
  put-hit-entries :
      (key : K) (x : V) (c : LruCache K V) (n : Node K V)
      → IsValid c
      → find_key key c.list ≡ some n
      → map entry (record n { value = x } ∷ remove_key key c.list)
        ≡ take c.capacity ((key, x) ∷ erase key (entries c))
  put-hit-entries key x c n v e =
      let room : c.capacity ≡ suc (c.capacity - 1) = omega arith in
      let gone = entries-remove_key key c.list v.distinct in
      rw (room, find_key-key key c.list n e, gone)
        (ap (◌∷◌ (key, x)) (
          sym (
            take_all (c.capacity - 1) (erase key (entries c)) (
              omega (
                arith,
                ap length gone,
                length-entries (remove_key key c.list),
                length-remove_key key c.list n e,
                v.bounded,
                v.positive,
              )))))

  emplace-entries :
      (key : K) (x : V) (c : LruCache K V) → entries (emplace key x c) ≡ (key, x) ∷ entries c
  unfolding emplace
  emplace-entries key x c = refl

  entries-evict : (c : LruCache K V) → entries (evict c) ≡ drop_last (entries c)
  unfolding evict
  entries-evict c = elim (Option-cases (get_last? c.list)) [
    | inl e ↦ rw (e, evict) (rw (nil_of_last c.list e) refl)
    | inr (n, e) ↦ rw (e, evict) (entries-drop_last c.list)
  ]

  abbrev pub touched : K → Option V → List (K × V) → List (K × V)
  touched key none l = l
  touched key (some x) l = (key, x) ∷ erase key l

  -- `put` brings the entry to the front and keeps the `capacity` most recent ones.
  pub entries-put :
      (key : K) (x : V) (c : LruCache K V)
      → IsValid c
      → entries (put key x c) ≡ take c.capacity ((key, x) ∷ erase key (entries c))
  entries-put key x c v = elim (lookup-cases key c v) [
    | inr (n, h, e) ↦ rw (put-hit key x c n v h e) (put-hit-entries key x c n v e)
    | inl (h, e) ↦
        rw
          (
            put-miss key x c h,
            erase_absent key c.list e,
            take_cons c.capacity (key, x) (entries c) v.positive,
          )
          (elim (Bool-cases (leb c.capacity (length c.list))) [
            | inl full ↦ rw full (
                emplace-entries key x (evict c)
                ∙ ap (◌∷◌ (key, x)) (
                    entries-evict c
                    ∙ drop_last-take (c.capacity - 1) (entries c) (
                        omega
                          (arith, length-entries c.list, leb→le c.capacity (length c.list) full))))
            | inr free ↦ rw free (
                emplace-entries key x c
                ∙ ap (◌∷◌ (key, x)) (
                    sym (
                      take_all (c.capacity - 1) (entries c)
                        (ground (arith, length-entries c.list)))))
          ])
  ]

  -- `get` answers with the entry's value and brings a hit to the front.
  pub get-entries :
      (key : K) (c : LruCache K V)
      → IsValid c
      → ((get key c).0 ≡ lookup key (entries c))
        × (entries (get key c).1 ≡ touched key (lookup key (entries c)) (entries c))
  get-entries key c v = elim (lookup-cases key c v) [
    | inl (h, e) ↦ rw (get-miss key c h, lookup-entries key c.list, e) (refl, refl)
    | inr (n, h, e) ↦
        rw (get-hit key c n v h e, lookup-entries key c.list, e)
          (
            refl,
            ap₂ (λ j l. (j, n.value) ∷ l) (find_key-key key c.list n e)
                (entries-remove_key key c.list v.distinct),
          )
  ]

  -- `remove` answers whether the key was there, and takes its entry out.
  pub remove-entries :
      (key : K) (c : LruCache K V)
      → IsValid c
      → ((remove key c).0 ≡ is_some (lookup key (entries c)))
        × (entries (remove key c).1 ≡ erase key (entries c))
  remove-entries key c v = elim (lookup-cases key c v) [
    | inl (h, e) ↦
        rw (remove-miss key c h, lookup-entries key c.list, e)
          (refl, sym (erase_absent key c.list e))
    | inr (n, h, e) ↦
        rw (remove-hit key c n v h e, lookup-entries key c.list, e)
          (refl, entries-remove_key key c.list v.distinct)
  ]

  pub exists-entries :
      (key : K) (c : LruCache K V) → IsValid c → exists key c ≡ is_some (lookup key (entries c))
  unfolding exists
  exists-entries key c v = elim (lookup-cases key c v) [
    | inl (h, e) ↦ rw (lookup-entries key c.list, e, h, exists) refl
    | inr (n, h, e) ↦ rw (lookup-entries key c.list, e, h, exists) refl
  ]
