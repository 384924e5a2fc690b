-- ===== src/LruCache/Refinement.antt =====
-- src/common/LruCache.h: any sequence of calls. The cache answers as a list of at most `capacity`
-- entries does, which is kept in the order of use.
use fileagent_server.Base.{
  ℕ, zero, suc, ◌≡◌, ◌⊎◌, refl, ap, sym, Bool, List, [], ◌∷◌, Option, none, some, is_some, arith,
  Key, same, if◌then◌else◌, length, take, ltb, ◌∙◌,
}
use fileagent_server.Base.Assoc.{lookup, erase, lookup-erase}
use fileagent_server.LruCache.{LruCache, create, put, get, exists, remove, clear, size}
use fileagent_server.LruCache.Invariant.{
  IsValid, put-IsValid, get-IsValid, remove-IsValid, clear-IsValid, create-IsValid,
}
use fileagent_server.LruCache.Entries.{
  entries, touched, entries-put, get-entries, remove-entries, exists-entries, length-entries,
  take_cons,
}

-- The calls of `CacheInterface` and of `LruCache`, and their answers.
pub data Call {ℓ} (K V : Type ℓ) : Type ℓ where
  puts : K → V → Call K V
  gets exists_of removes : K → Call K V
  clears size_of : Call K V

pub data Answer {ℓ} (V : Type ℓ) : Type ℓ where
  done : Answer V
  value : Option V → Answer V
  flag : Bool → Answer V
  count : ℕ → Answer V

module _ {ℓ} {K V : Type ℓ} ⦃k : Key K⦄ where
  unfoldable pub call : Call K V → LruCache K V → Answer V × LruCache K V
  call (puts key x) c = (done, put key x c)
  call (gets key) c = let (o, c') = get key c in (value o, c')
  call (exists_of key) c = (flag (exists key c), c)
  call (removes key) c = let (b, c') = remove key c in (flag b, c')
  call clears c = (done, clear c)
  call size_of c = (count (size c), c)

  unfoldable pub run : List (Call K V) → LruCache K V → List (Answer V)
  run [] c = []
  run (o ∷ os) c = let (a, c') = call o c in a ∷ run os c'

  -- The specification: the entries, the most recently used first.
  unfoldable pub recent_call : ℕ → Call K V → List (K × V) → Answer V × List (K × V)
  recent_call cap (puts key x) l = (done, take cap ((key, x) ∷ erase key l))
  recent_call cap (gets key) l = (value (lookup key l), touched key (lookup key l) l)
  recent_call cap (exists_of key) l = (flag (is_some (lookup key l)), l)
  recent_call cap (removes key) l = (flag (is_some (lookup key l)), erase key l)
  recent_call cap clears l = (done, [])
  recent_call cap size_of l = (count (length l), l)

  unfoldable pub recent_run : ℕ → List (Call K V) → List (K × V) → List (Answer V)
  recent_run cap [] l = []
  recent_run cap (o ∷ os) l = let (a, l') = recent_call cap o l in a ∷ recent_run cap os l'

  -- Every call, in every valid state, keeps the cache valid and its capacity.
  pub call-IsValid : (o : Call K V) (c : LruCache K V) → IsValid c → IsValid (call o c).1
  unfolding call
  call-IsValid (puts key x) c v = put-IsValid key x c v
  call-IsValid (gets key) c v = get-IsValid key c v
  call-IsValid (exists_of key) c v = v
  call-IsValid (removes key) c v = remove-IsValid key c v
  call-IsValid clears c v = clear-IsValid c v
  call-IsValid size_of c v = v

  call-recent :
      (o : Call K V) (c : LruCache K V)
      → IsValid c
      → ((call o c).0 ≡ (recent_call c.capacity o (entries c)).0)
        × (entries (call o c).1 ≡ (recent_call c.capacity o (entries c)).1)
  unfolding call recent_call
  call-recent (puts key x) c v = (refl, entries-put key x c v)
  call-recent (gets key) c v = let e = get-entries key c v in (ap value e.0, e.1)
  call-recent (exists_of key) c v = (ap flag (exists-entries key c v), refl)
  call-recent (removes key) c v = let e = remove-entries key c v in (ap flag e.0, e.1)
  call-recent clears c v = unfold clear in (refl, refl)
  call-recent size_of c v = unfold size in (ap count (sym (length-entries c.list)), refl)

  put-capacity : (key : K) (x : V) (c : LruCache K V) → (put key x c).capacity ≡ c.capacity
  unfolding put
  put-capacity key x c = ground arith

  call-capacity : (o : Call K V) (c : LruCache K V) → (call o c).1.capacity ≡ c.capacity
  unfolding call get remove clear
  call-capacity (puts key x) c = put-capacity key x c
  call-capacity (gets key) c = ground arith
  call-capacity (removes key) c = ground arith
  call-capacity o c = refl

  run-recent :
      (os : List (Call K V)) (c : LruCache K V)
      → IsValid c
      → run os c ≡ recent_run c.capacity os (entries c)
  unfolding run recent_run
  run-recent [] c v = refl
  run-recent (o ∷ os) c v =
      let e = call-recent o c v in
      rw (e.0, run-recent os (call o c).1 (call-IsValid o c v), e.1, call-capacity o c) refl

  -- From a new cache any sequence of calls is answered as the specification answers it.
  pub run-create :
      (capacity : ℕ) (os : List (Call K V))
      → run os (create capacity) ≡ recent_run (if ltb 0 capacity then capacity else 1) os []
  unfolding create
  run-create capacity os = run-recent os (create capacity) (create-IsValid capacity)

  lookup-take :
      (j : K) (n : ℕ) (l : List (K × V)) (y : V)
      → lookup j (take n l) ≡ some y
      → lookup j l ≡ some y
  unfolding lookup
  lookup-take j zero l y h = absurd (cc)
  lookup-take j (suc n) [] y h = h
  lookup-take j (suc n) (e ∷ l) y h = ground (arith, lookup-take j n l y)

  lookup-touched :
      (key j : K) (o : Option V) (l : List (K × V))
      → o ≡ lookup key l
      → lookup j (touched key o l) ≡ lookup j l
  unfolding lookup
  lookup-touched key j none l e = refl
  lookup-touched key j (some x) l e = rw (lookup-erase key j l) (ground (arith, k.same_iff key j))

  -- A value that was put is got back by the next call.
  pub get-put :
      (key : K) (x : V) (c : LruCache K V) → IsValid c → (get key (put key x c)).0 ≡ some x
  unfolding lookup
  get-put key x c v =
      (get-entries key (put key x c) (put-IsValid key x c v)).0
      ∙ rw (entries-put key x c v, take_cons c.capacity (key, x) (erase key (entries c)) v.positive)
          (ground (arith, k.same_iff key key))

  -- What the cache holds under a key after `put` was put there now, or was there before.
  pub held-put :
      (key j : K) (x y : V) (c : LruCache K V)
      → IsValid c
      → lookup j (entries (put key x c)) ≡ some y
      → (lookup j (entries c) ≡ some y) ⊎ ((j ≡ key) × (y ≡ x))
  unfolding lookup
  held-put key j x y c v h =
      let kept : lookup j ((key, x) ∷ erase key (entries c)) ≡ some y =
        lookup-take j c.capacity ((key, x) ∷ erase key (entries c)) y
          (ap (lookup j) (sym (entries-put key x c v)) ∙ h) in
      ground (arith, lookup-erase key j (entries c), k.same_iff key j)

  -- `get` changes the order of use only.
  pub held-get :
      (key j : K) (c : LruCache K V)
      → IsValid c
      → lookup j (entries (get key c).1) ≡ lookup j (entries c)
  held-get key j c v =
      ap (lookup j) (get-entries key c v).1
      ∙ lookup-touched key j (lookup key (entries c)) (entries c) refl

  pub held-remove :
      (key j : K) (c : LruCache K V)
      → IsValid c
      → lookup j (entries (remove key c).1) ≡ (if same key j then none else lookup j (entries c))
  held-remove key j c v = ap (lookup j) (remove-entries key c v).1 ∙ lookup-erase key j (entries c)
