-- ===== src/ConnectionPool/Tests.antt =====
-- Runs of the pool, and its theorems at concrete states.
use fileagent_server.Base.{◌≡◌, refl, ℕ, List, [], ◌∷◌, true, Bool, length, ◌++◌, ◌≤◌}
use fileagent_server.ConnectionPool.{
  Conn, ConnectionPool, PoolConfig, add_connection_locked, fill, init, get_connection, release,
  produce, recycle_from, recycle,
}
use fileagent_server.ConnectionPool.Steps.{System, Inv, unused, Reach, inits, here, later}
use fileagent_server.ConnectionPool.Keeps.{unused-Inv}
use fileagent_server.ConnectionPool.Reachable.{Reach-Inv}
use fileagent_server.ConnectionPool.Sizes.{
  produce_fills, unlimited, Idle, Recycled, recycle-Recycled,
}

abbrev small : PoolConfig
small = record { min_size = 2; max_size = 3; idle_timeout = 300 }

abbrev up : ℕ → Bool
up i = true

abbrev conn : ℕ → ℕ → Conn
conn i t = record { id = i; alive_since = t }

abbrev started : ConnectionPool
started = record {
  config = small;
  available = conn 0 5 ∷ conn 1 5 ∷ [];
  active_count = 0;
  running = true;
  initialized = true;
  next = 2;
  freed = [];
}

init_runs : (init small up 5 unused.pool).1 ≡ started
unfolding init fill add_connection_locked
init_runs = refl

-- Connection 0 is taken, and comes back behind connection 1.
taken : Reach unused (record { pool = (init small up 5 unused.pool).1; guards = [] })
taken = later here (inits small up 5)

back : ConnectionPool
back = release (conn 0 5) 9 (get_connection started).1

back_runs : back.available ≡ conn 1 5 ∷ conn 0 9 ∷ []
unfolding back release get_connection
back_runs = refl

Reach-Inv_example : Inv (record { pool = (init small up 5 unused.pool).1; guards = [] })
Reach-Inv_example = Reach-Inv unused-Inv taken

produce_fills_example : length (produce up 7 (record started { available = [] })).available ≡ 2
produce_fills_example = produce_fills up 7 (record started { available = [] }) refl (λ i. refl)

unlimited_example :
    (s : System) × Reach unused s
    × (s.pool.max_size ≡ 1)
    × (s.pool.running ≡ true)
    × (length s.guards ≡ 3)
unlimited_example = unlimited 3

abbrev crowded : ConnectionPool
crowded = record started { available = conn 0 5 ∷ conn 1 5 ∷ conn 2 5 ∷ [] }

recycled_ids : (recycle 400000 crowded).available ≡ conn 1 5 ∷ conn 2 5 ∷ []
unfolding recycle recycle_from
recycled_ids = refl

recycle-Recycled_example :
    Recycled 2 300 400000 (recycle 400000 crowded).available
    × ((dropped : List Conn) × (dropped ++ (recycle 400000 crowded).available ≡ crowded.available)
        × ((recycle 400000 crowded).freed ≡ dropped ++ [])
        × Idle 300 400000 dropped)
    × (2 ≤ length (recycle 400000 crowded).available)
recycle-Recycled_example = recycle-Recycled 400000 crowded
