-- ===== src/ConnectionPool/Steps.antt =====
-- src/db/ConnectionPool.cpp: the pool among its users and its two threads. A step is one stretch of
-- code under the mutex, by whichever thread comes next.
use Prim.Native.Nat.{max}
use fileagent_server.Base.{ℕ, ◌+◌, ◌≤◌, ◌≡◌, Bool, false, List, [], ◌∷◌, ◌++◌, some, none, length}
use fileagent_server.ConnectionPool.{
  Conn, ConnectionPool, PoolConfig, init, get_connection, release, stop, drain, produce, recycle,
}
use fileagent_server.ConnectionPool.Ownership.{occurrences, held}

-- The pool, and the connections that its users hold by a guard.
pub record System : Type 0 where
  pub pool : ConnectionPool
  pub guards : List Conn

pub data Step (s : System) : System → Type 0 where
  inits :
      (config : PoolConfig) (connects : ℕ → Bool) (now : ℕ)
      → Step s (record s { pool = (init config connects now s.pool).1 })
  takes :
      (c : Conn)
      → (get_connection s.pool).0 ≡ some c
      → Step s (record { pool = (get_connection s.pool).1; guards = c ∷ s.guards })
  is_refused :
      (get_connection s.pool).0 ≡ none → Step s (record s { pool = (get_connection s.pool).1 })
  gives_back :
      (before after : List Conn) (c : Conn) (now : ℕ)
      → s.guards ≡ before ++ c ∷ after
      → Step s (record { pool = release c now s.pool; guards = before ++ after })
  stops : Step s (record s { pool = stop s.pool })
  drains : s.pool.running ≡ false → Step s (record s { pool = drain s.pool })
  produces :
      (connects : ℕ → Bool) (now : ℕ) → Step s (record s { pool = produce connects now s.pool })
  recycles : (now : ℕ) → Step s (record s { pool = recycle now s.pool })

pub data Reach (s : System) : System → Type 0 where
  here : Reach s s
  later : {t u : System} → Reach s t → Step t u → Reach s u

-- The pool before `init`.
abbrev pub unused : System
unused = record {
  pool = record {
    config = record { min_size = 4; max_size = 20; idle_timeout = 300 };
    available = [];
    active_count = 0;
    running = false;
    initialized = false;
    next = 0;
    freed = [];
  };
  guards = [];
}

abbrev pub owned : ℕ → System → ℕ
owned i s = held i s.pool + occurrences i s.guards

-- Every connection is in one place only: in the queue, with one user, or deleted. The counter of
-- active connections is the number of users' connections, and the queue does not exceed the larger
-- of the two configured sizes.
pub record Inv (s : System) : Type 0 where
  pub once : (i : ℕ) → owned i s ≤ 1
  pub unborn : (i : ℕ) → s.pool.next ≤ i → owned i s ≡ 0
  pub counted : s.pool.active_count ≡ length s.guards
  pub bounded : length s.pool.available ≤ max s.pool.min_size s.pool.max_size
  pub idle : s.pool.initialized ≡ false → (s.pool.available ≡ []) × (s.pool.running ≡ false)
