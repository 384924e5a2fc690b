-- ===== src/ConnectionPool/Sizes.antt =====
-- src/db/ConnectionPool.cpp: how many connections there are.
use Prim.Native.Nat.{max}
use fileagent_server.Base.{
  ℕ, zero, suc, ◌+◌, ◌-◌, ◌*◌, ◌≤◌, ◌<◌, ◌≡◌, ap, refl, ◌⊎◌, Bool, true, List, [], ◌∷◌, ◌++◌, All,
  length, length-append, arith, Bool-cases, inl, inr, min, ltb, leb, ◌&&◌,
}
use fileagent_server.ConnectionPool.{
  Conn, ConnectionPool, PoolConfig, init, fill, add_connection_locked, get_connection, produce,
  refill, recycle, recycle_from,
}
use fileagent_server.ConnectionPool.Steps.{
  System, inits, takes, produces, unused, Reach, here, later,
}

refill_fills :
    (connects : ℕ → Bool) (now missing : ℕ) (p : ConnectionPool)
    → ((i : ℕ) → connects i ≡ true)
    → length (refill connects now missing p).available ≡ length p.available + missing
unfolding refill add_connection_locked
refill_fills connects now zero p up = omega arith
refill_fills connects now (suc missing) p up =
    let c : Conn = record { id = p.next; alive_since = now } in
    let p' = record p { available = p.available ++ c ∷ []; next = suc p.next } in
    rw (up missing)
      (omega (arith, refill_fills connects now missing p' up, length-append p.available (c ∷ [])))

-- While the pool runs and MySQL accepts connections, a round of the producer brings the queue to its
-- least size, and never shortens it.
pub produce_fills :
    (connects : ℕ → Bool) (now : ℕ) (p : ConnectionPool)
    → p.running ≡ true
    → ((i : ℕ) → connects i ≡ true)
    → length (produce connects now p).available ≡ max p.min_size (length p.available)
unfolding produce
produce_fills connects now p r up =
    ground (arith, refill_fills connects now (p.min_size - length p.available) p up)

-- The connection at the front, if there are more than `min_size`, is not idle.
abbrev pub Recycled : ℕ → ℕ → ℕ → List Conn → Type 0
Recycled min_size idle now [] = Unit
Recycled min_size idle now (c ∷ cs) =
    (suc (length cs) ≤ min_size) ⊎ (now - c.alive_since < idle * 1000)

-- Each of the connections has been idle for the configured time.
abbrev pub Idle : ℕ → ℕ → List Conn → Type 0
Idle idle now = All (λ c. idle * 1000 ≤ now - c.alive_since)

recycle_from-Recycled :
    (min_size idle now : ℕ) (cs : List Conn)
    → let r = recycle_from min_size idle now cs in
      Recycled min_size idle now r.0
      × (r.1 ++ r.0 ≡ cs)
      × (min min_size (length cs) ≤ length r.0)
      × Idle idle now r.1
unfolding recycle_from
recycle_from-Recycled min_size idle now [] = (tt, refl, omega arith, tt)
recycle_from-Recycled min_size idle now (c ∷ cs) =
    let ih = recycle_from-Recycled min_size idle now cs in
    elim (Bool-cases (ltb min_size (suc (length cs)) && leb (idle * 1000) (now - c.alive_since))) [
      | inl e ↦
          let (at_front, same, kept, idled) = ih in
          rw e (at_front, ap (◌∷◌ c) same, ground (arith, kept), (ground arith, idled))
      | inr e ↦ rw e (ground arith, refl, omega arith, tt)
    ]

-- A round of the recycler deletes connections from the front of the queue, each of which has been idle
-- for at least `idle_timeout` seconds, keeps `min_size` connections if there were as many, and stops
-- only where one is not idle or no more may go.
pub recycle-Recycled :
    (now : ℕ) (p : ConnectionPool)
    → Recycled p.min_size p.idle_timeout now (recycle now p).available
      × ((dropped : List Conn) × (dropped ++ (recycle now p).available ≡ p.available)
          × ((recycle now p).freed ≡ dropped ++ p.freed)
          × Idle p.idle_timeout now dropped)
      × (min p.min_size (length p.available) ≤ length (recycle now p).available)
unfolding recycle
recycle-Recycled now p =
    let (at_front, same, kept, idled) =
      recycle_from-Recycled p.min_size p.idle_timeout now p.available in
    (
      at_front,
      ((recycle_from p.min_size p.idle_timeout now p.available).1, same, refl, idled),
      kept,
    )

-- Sizes 1 and 1.
abbrev single : PoolConfig
single = record { min_size = 1; max_size = 1; idle_timeout = 300 }

-- A running pool with one connection in its queue and `n` connections with users.
abbrev lending : ℕ → List Conn → System
lending n guards = record {
  pool = record {
    config = single;
    available = record { id = n; alive_since = 0 } ∷ [];
    active_count = n;
    running = true;
    initialized = true;
    next = suc n;
    freed = [];
  };
  guards = guards;
}

lending-reached :
    (n : ℕ) → (guards : List Conn) × (length guards ≡ n) × Reach unused (lending n guards)
unfolding init fill produce refill add_connection_locked get_connection
lending-reached zero = ([], refl, later here (inits single (λ _. true) 0))
lending-reached (suc n) =
    let (guards, l, r) = lending-reached n in
    let c : Conn = record { id = n; alive_since = 0 } in
    (c ∷ guards, ap suc l, later (later r (takes c refl)) (produces (λ _. true) 0))

-- `max_size` does not limit the connections that are open: for every number n, the steps of the code
-- lead from the pool before `init` to a running pool with `max_size` 1 in which n connections are
-- with users.
pub unlimited :
    (n : ℕ)
    → (s : System) × Reach unused s
      × (s.pool.max_size ≡ 1)
      × (s.pool.running ≡ true)
      × (length s.guards ≡ n)
unlimited n = let (guards, l, r) = lending-reached n in (lending n guards, r, refl, refl, l)
