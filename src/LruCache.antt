-- ===== src/LruCache.antt =====
-- src/common/LruCache.h. The list is the `std::list`, head first; a node keeps the address that its
-- iterators hold, and the map holds iterators. Addresses come from `next`, which stands for the
-- allocator. Each method is one critical section under the mutex, so a method is one step.
pub mod Nodes
pub mod Links
pub mod Invariant
pub mod Entries
pub mod Refinement
mod Tests
use fileagent_server.Base.{
  ℕ, suc, Bool, true, false, List, [], ◌∷◌, Option, none, some, ltb, leb, ◌==◌, Key, if◌then◌else◌,
  length, get_last?, drop_last,
}
use fileagent_server.Base.Assoc.{lookup, insert, erase}

-- A node of the `std::list`, at its address.
pub record Node {ℓ} (K V : Type ℓ) : Type ℓ where
  pub addr : ℕ
  pub key : K
  pub value : V

pub record LruCache {ℓ} (K V : Type ℓ) : Type ℓ where
  pub list : List (Node K V)
  pub map : List (K × ℕ)
  pub next : ℕ
  pub capacity : ℕ

module _ {ℓ} {K V : Type ℓ} where
  -- The constructor; a capacity of 0 becomes 1.
  unfoldable pub create : ℕ → LruCache K V
  create capacity = record {
    list = [];
    map = [];
    next = 0;
    capacity = if ltb 0 capacity then capacity else 1;
  }

  -- What the iterator `it` points to.
  unfoldable pub deref : ℕ → List (Node K V) → Option (Node K V)
  deref it [] = none
  deref it (n ∷ l) = if n.addr == it then some n else deref it l

  -- `list.erase(it)`
  unfoldable pub unlink : ℕ → List (Node K V) → List (Node K V)
  unlink it [] = []
  unlink it (n ∷ l) = if n.addr == it then l else n ∷ unlink it l

  -- `it->second = value`
  unfoldable pub assign : ℕ → V → List (Node K V) → List (Node K V)
  assign it v [] = []
  assign it v (n ∷ l) = if n.addr == it then record n { value = v } ∷ l else n ∷ assign it v l

  -- `list.splice(list.begin(), list, it)`
  unfoldable pub splice_front : ℕ → List (Node K V) → List (Node K V)
  unfolding deref unlink
  splice_front it l = elim (deref it l) [ none ↦ l | some n ↦ n ∷ unlink it l ]

module _ {ℓ} {K V : Type ℓ} ⦃k : Key K⦄ where
  -- The eviction in `put`: the last node goes, with its key's iterator.
  unfoldable pub evict : LruCache K V → LruCache K V
  unfolding erase
  evict c = elim (get_last? c.list) [
    | none ↦ c
    | some last ↦ record c { list = drop_last c.list; map = erase last.key c.map }
  ]

  -- The insertion in `put`: `emplace_front` and the new iterator.
  unfoldable pub emplace : K → V → LruCache K V → LruCache K V
  unfolding insert
  emplace key v c = record c {
    list = record { addr = c.next; key = key; value = v } ∷ c.list;
    map = insert key c.next c.map;
    next = suc c.next;
  }

  unfoldable pub put : K → V → LruCache K V → LruCache K V
  unfolding lookup assign splice_front evict emplace
  put key v c = elim (lookup key c.map) [
    | some it ↦ record c { list = splice_front it (assign it v c.list) }
    | none ↦ emplace key v (if leb c.capacity (length c.list) then evict c else c)
  ]

  unfoldable pub get : K → LruCache K V → Option V × LruCache K V
  unfolding lookup deref splice_front
  get key c = elim (lookup key c.map) [
    | none ↦ (none, c)
    | some it ↦ elim (deref it c.list) [
      | none ↦ (none, c)
      | some n ↦ (some n.value, record c { list = splice_front it c.list })
    ]
  ]

  unfoldable pub exists : K → LruCache K V → Bool
  unfolding lookup
  exists key c = elim (lookup key c.map) [ none ↦ false | some it ↦ true ]

  unfoldable pub remove : K → LruCache K V → Bool × LruCache K V
  unfolding lookup unlink erase
  remove key c = elim (lookup key c.map) [
    | none ↦ (false, c)
    | some it ↦ (true, record c { list = unlink it c.list; map = erase key c.map })
  ]

module _ {ℓ} {K V : Type ℓ} where
  unfoldable pub clear : LruCache K V → LruCache K V
  clear c = record c { list = []; map = [] }

  unfoldable pub size : LruCache K V → ℕ
  size c = length c.list
