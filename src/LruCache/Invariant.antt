-- ===== src/LruCache/Invariant.antt =====
-- src/common/LruCache.h: the well-formedness of the cache. The map holds, for each key, the iterator
-- of that key's node and nothing else; the capacity is never exceeded.
use fileagent_server.Base.{
  ℕ, ◌-◌, ◌≤◌, ◌<◌, ◌≡◌, refl, ap, ◌⊎◌, inl, inr, true, false, ◌∷◌, Option, none, some, arith, leb,
  Key, if◌then◌else◌, length, get_last?, Bool-cases, Option-cases, length-drop_last,
}
use fileagent_server.Base.Assoc.{lookup, erase, lookup-insert, lookup-erase}
use fileagent_server.LruCache.{Node, LruCache, create, put, get, remove, clear, evict, emplace}
use fileagent_server.LruCache.Links.{
  find_key-remove_key, drop_last-All, drop_last-Distinct, find_key-drop_last, nil_of_last,
  find_key-All, fresh-Apart, Below-suc, remove_key-Apart,
}
use fileagent_server.LruCache.Nodes.{
  Distinct, Below, find_key, remove_key, find_key-key, deref-find_key, unlink-find_key,
  splice_front-find_key, splice_front-assign, remove_key-All, remove_key-Distinct,
  length-remove_key,
}

abbrev pub addr_of {ℓ} : {K V : Type ℓ} → Option (Node K V) → Option ℕ
addr_of none = none
addr_of (some n) = some n.addr

pub record IsValid {ℓ} {K V : Type ℓ} ⦃k : Key K⦄ (c : LruCache K V) : Type ℓ where
  pub positive : 0 < c.capacity
  pub bounded : length c.list ≤ c.capacity
  pub distinct : Distinct c.list
  pub below : Below c.next c.list
  pub linked : (key : K) → lookup key c.map ≡ addr_of (find_key key c.list)

module _ {ℓ} {K V : Type ℓ} ⦃k : Key K⦄ where
  -- The oldest node leaves, and with it the iterator of its key.
  pub evict-IsValid : (c : LruCache K V) → IsValid c → IsValid (evict c)
  unfolding evict
  evict-IsValid c v = elim (Option-cases (get_last? c.list)) [
    | inl e ↦ rw (e, evict) v
    | inr (n, e) ↦
        rw (e, evict)
          (record {
            positive = v.positive;
            bounded = omega (arith, length-drop_last c.list);
            distinct = drop_last-Distinct c.list v.distinct;
            below = drop_last-All _ c.list v.below;
            linked = λ j.
                rw (lookup-erase n.key j c.map, find_key-drop_last j c.list n v.distinct e)
                  (ground (arith, v.linked j));
          })
  ]

  pub length-evict : (c : LruCache K V) → length (evict c).list ≡ length c.list - 1
  unfolding evict
  length-evict c = elim (Option-cases (get_last? c.list)) [
    | inl e ↦ rw (e, evict) (omega (arith, ap length (nil_of_last c.list e)))
    | inr (n, e) ↦ rw (e, evict) (length-drop_last c.list)
  ]

  pub find_key-evict :
      (key : K) (c : LruCache K V)
      → Distinct c.list
      → find_key key c.list ≡ none
      → find_key key (evict c).list ≡ none
  unfolding evict
  find_key-evict key c d e = elim (Option-cases (get_last? c.list)) [
    | inl l ↦ rw (l, evict) e
    | inr (n, l) ↦ rw (l, evict) (rw (find_key-drop_last key c.list n d l) (ground arith))
  ]

  pub capacity-evict : (c : LruCache K V) → (evict c).capacity ≡ c.capacity
  unfolding evict
  capacity-evict c = ground arith

  -- A new key at the front, where there is room.
  pub emplace-IsValid :
      (key : K) (x : V) (c : LruCache K V)
      → IsValid c
      → find_key key c.list ≡ none
      → length c.list < c.capacity
      → IsValid (emplace key x c)
  unfolding emplace find_key
  emplace-IsValid key x c v e h = record {
    positive = v.positive;
    bounded = omega arith;
    distinct =
        (fresh-Apart (record { addr = c.next; key = key; value = x }) c.list v.below e, v.distinct);
    below = (omega arith, Below-suc c.next c.list v.below);
    linked = λ j. rw (lookup-insert key j c.next c.map) (ground (arith, v.linked j));
  }

  -- A known key moves to the front, with its old value or a new one.
  pub touch-IsValid :
      (key : K) (x : V) (c : LruCache K V) (n : Node K V)
      → IsValid c
      → find_key key c.list ≡ some n
      → IsValid (record c { list = record n { value = x } ∷ remove_key key c.list })
  unfolding find_key
  touch-IsValid key x c n v e = record {
    positive = v.positive;
    bounded = omega (arith, length-remove_key key c.list n e);
    distinct =
        (remove_key-Apart key x c.list n v.distinct e, remove_key-Distinct key c.list v.distinct);
    below = (
      find_key-All (λ m. m.addr < c.next) key c.list n v.below e,
      remove_key-All _ key c.list v.below,
    );
    linked = λ j. rw (find_key-remove_key key j c.list v.distinct) (
        ground
          (arith, v.linked j, find_key-key key c.list n e, k.same_iff n.key j, k.same_iff key j));
  }

  -- What the map says of a key: nothing, or the iterator of its node.
  pub lookup-cases :
      (key : K) (c : LruCache K V)
      → IsValid c
      → ((lookup key c.map ≡ none) × (find_key key c.list ≡ none))
        ⊎ ((n : Node K V) × (lookup key c.map ≡ some n.addr) × (find_key key c.list ≡ some n))
  lookup-cases key c v = elim (Option-cases (find_key key c.list)) [
    | inl e ↦ inl (ground (arith, v.linked key), e)
    | inr (n, e) ↦ inr (n, ground (arith, v.linked key), e)
  ]

  -- `put` on a valid cache, with the iterators gone.
  pub put-hit :
      (key : K) (x : V) (c : LruCache K V) (n : Node K V)
      → IsValid c
      → lookup key c.map ≡ some n.addr
      → find_key key c.list ≡ some n
      → put key x c ≡ record c { list = record n { value = x } ∷ remove_key key c.list }
  unfolding put
  put-hit key x c n v h e =
      rw (h, put)
        (ap (λ l. record c { list = l }) (splice_front-assign key x c.list n v.distinct e))

  pub put-miss :
      (key : K) (x : V) (c : LruCache K V)
      → lookup key c.map ≡ none
      → put key x c ≡ emplace key x (if leb c.capacity (length c.list) then evict c else c)
  unfolding put
  put-miss key x c h = rw (h, put) refl

  -- `put` keeps the cache valid.
  pub put-IsValid : (key : K) (x : V) (c : LruCache K V) → IsValid c → IsValid (put key x c)
  put-IsValid key x c v = elim (lookup-cases key c v) [
    | inr (n, h, e) ↦ rw (put-hit key x c n v h e) (touch-IsValid key x c n v e)
    | inl (h, e) ↦ rw (put-miss key x c h) (elim (Bool-cases (leb c.capacity (length c.list))) [
      | inl full ↦ rw full (
          emplace-IsValid key x (evict c) (evict-IsValid c v) (find_key-evict key c v.distinct e)
            (omega (arith, length-evict c, capacity-evict c)))
      | inr room ↦ rw room (emplace-IsValid key x c v e (ground arith))
    ])
  ]

  pub get-hit :
      (key : K) (c : LruCache K V) (n : Node K V)
      → IsValid c
      → lookup key c.map ≡ some n.addr
      → find_key key c.list ≡ some n
      → get key c ≡ (some n.value, record c { list = n ∷ remove_key key c.list })
  unfolding get
  get-hit key c n v h e =
      rw
        (
          h,
          get,
          deref-find_key key c.list n v.distinct e,
          splice_front-find_key key c.list n v.distinct e,
        )
        refl

  pub get-miss : (key : K) (c : LruCache K V) → lookup key c.map ≡ none → get key c ≡ (none, c)
  unfolding get
  get-miss key c h = rw (h, get) refl

  pub get-IsValid : (key : K) (c : LruCache K V) → IsValid c → IsValid (get key c).1
  get-IsValid key c v = elim (lookup-cases key c v) [
    | inl (h, e) ↦ rw (get-miss key c h) v
    | inr (n, h, e) ↦ rw (get-hit key c n v h e) (touch-IsValid key n.value c n v e)
  ]

  pub remove-hit :
      (key : K) (c : LruCache K V) (n : Node K V)
      → IsValid c
      → lookup key c.map ≡ some n.addr
      → find_key key c.list ≡ some n
      → remove key c ≡ (true, record c { list = remove_key key c.list; map = erase key c.map })
  unfolding remove
  remove-hit key c n v h e =
      rw (h, remove)
        (ap (λ l. (true, record c { list = l; map = erase key c.map }))
          (unlink-find_key key c.list n v.distinct e))

  pub remove-miss :
      (key : K) (c : LruCache K V) → lookup key c.map ≡ none → remove key c ≡ (false, c)
  unfolding remove
  remove-miss key c h = rw (h, remove) refl

  pub remove-IsValid : (key : K) (c : LruCache K V) → IsValid c → IsValid (remove key c).1
  remove-IsValid key c v = elim (lookup-cases key c v) [
    | inl (h, e) ↦ rw (remove-miss key c h) v
    | inr (n, h, e) ↦ rw (remove-hit key c n v h e) (record {
      positive = v.positive;
      bounded = omega (arith, length-remove_key key c.list n e, v.bounded);
      distinct = remove_key-Distinct key c.list v.distinct;
      below = remove_key-All _ key c.list v.below;
      linked = λ j.
          rw (lookup-erase key j c.map, find_key-remove_key key j c.list v.distinct)
            (ground (arith, v.linked j));
    })
  ]

  pub clear-IsValid : (c : LruCache K V) → IsValid c → IsValid (clear c)
  unfolding clear find_key lookup
  clear-IsValid c v = record {
    positive = v.positive;
    bounded = omega arith;
    distinct = tt;
    below = tt;
    linked = λ j. refl;
  }

  pub create-IsValid : (capacity : ℕ) → IsValid (create {K = K} {V = V} capacity)
  unfolding create find_key lookup
  create-IsValid capacity = record {
    positive = ground arith;
    bounded = omega arith;
    distinct = tt;
    below = tt;
    linked = λ j. refl;
  }
