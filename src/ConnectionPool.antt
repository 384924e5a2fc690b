-- ===== src/ConnectionPool.antt =====
-- src/db/ConnectionPool.cpp and ConnectionPool.h. Each function below is a stretch of code that runs
-- under the mutex; `connects` says, for each attempt, whether MySQL accepted the connection, and
-- `now` is the clock in milliseconds. `freed` records what the code has passed to `delete`.
pub mod Ownership
pub mod Counts
pub mod Steps
pub mod Keeps
pub mod Reachable
pub mod Sizes
mod Tests
use fileagent_server.Base.{
  ℕ, zero, suc, ◌+◌, ◌-◌, ◌*◌, Bool, true, false, not, ◌&&◌, ◌||◌, List, [], ◌∷◌, ◌++◌, Option,
  none, some, ltb, leb, if◌then◌else◌, length, is_empty,
}

-- A `MysqlConn *`, with the time of its last `refreshAliveTime`.
pub record Conn : Type 0 where
  pub id : ℕ
  pub alive_since : ℕ

-- `DatabaseConfig::pool`; `idle_timeout` is in seconds.
pub record PoolConfig : Type 0 where
  pub min_size : ℕ
  pub max_size : ℕ
  pub idle_timeout : ℕ

pub record ConnectionPool : Type 0 where
  pub config : PoolConfig
  pub open config use *
  pub available : List Conn
  pub active_count : ℕ
  pub running : Bool
  pub initialized : Bool
  pub next : ℕ
  pub freed : List Conn

-- `addConnectionLocked`
unfoldable pub add_connection_locked : Bool → ℕ → ConnectionPool → Bool × ConnectionPool
add_connection_locked connected now p =
    if connected
    then (
      true,
      record p {
        available = p.available ++ record { id = p.next; alive_since = now } ∷ [];
        next = suc p.next;
      },
    )
    else (false, p)

-- `while (!available_.empty()) { delete available_.front(); available_.pop(); }`
unfoldable pub delete_available : ConnectionPool → ConnectionPool
delete_available p = record p { available = []; freed = p.available ++ p.freed }

-- The loop of `init`, with `index` attempts still to make.
unfoldable pub fill : (ℕ → Bool) → ℕ → ℕ → ConnectionPool → Bool × ConnectionPool
fill connects now zero p = (true, p)
fill connects now (suc index) p =
    let (added, p') = add_connection_locked (connects index) now p in
    let rest = fill connects now index p' in
    let failed : Bool × ConnectionPool =
      (false, delete_available (record p' { running = false })) in
    if added then rest else failed

unfoldable pub init : PoolConfig → (ℕ → Bool) → ℕ → ConnectionPool → Bool × ConnectionPool
init config connects now p =
    if p.initialized
    then (true, p)
    else (let (filled, p') =
          fill connects now config.min_size (record p { config = config; running = true }) in
        if filled then (true, record p' { initialized = true }) else (false, p'))

-- `getConnection` once its wait is over.
abbrev take_front : List Conn → ConnectionPool → Option Conn × ConnectionPool
take_front [] p = (none, p)
take_front (c ∷ rest) p = (some c, record p { available = rest; active_count = suc p.active_count })

unfoldable pub get_connection : ConnectionPool → Option Conn × ConnectionPool
get_connection p =
    if not p.running || is_empty p.available then (none, p) else take_front p.available p

-- The deleter of a guard.
unfoldable pub release : Conn → ℕ → ConnectionPool → ConnectionPool
release c now p =
    let fresh : Conn = record c { alive_since = now } in
    let kept : ConnectionPool =
      if p.running && ltb (length p.available) p.max_size
      then record p { available = p.available ++ fresh ∷ [] }
      else record p { freed = fresh ∷ p.freed } in
    record kept { active_count = p.active_count - 1 }

-- `shutdown`: first the flag, and after the threads have ended the rest.
unfoldable pub stop : ConnectionPool → ConnectionPool
stop p = record p { running = false }

unfoldable pub drain : ConnectionPool → ConnectionPool
unfolding delete_available
drain p = record (delete_available p) { initialized = false }

-- The inner loop of `producerLoop`, which makes at most `min_size - available_.size()` attempts.
unfoldable pub refill : (ℕ → Bool) → ℕ → ℕ → ConnectionPool → ConnectionPool
refill connects now zero p = p
refill connects now (suc missing) p =
    let (added, p') = add_connection_locked (connects missing) now p in
    let rest = refill connects now missing p' in if added then rest else p'

unfoldable pub produce : (ℕ → Bool) → ℕ → ConnectionPool → ConnectionPool
produce connects now p =
    if p.running then refill connects now (p.min_size - length p.available) p else p

-- The inner loop of `recyclerLoop`.
unfoldable pub recycle_from : ℕ → ℕ → ℕ → List Conn → List Conn × List Conn
recycle_from min_size idle now [] = ([], [])
recycle_from min_size idle now (c ∷ rest) =
    let (kept, dropped) = recycle_from min_size idle now rest in
    if ltb min_size (suc (length rest)) && leb (idle * 1000) (now - c.alive_since)
    then (kept, c ∷ dropped)
    else (c ∷ rest, [])

unfoldable pub recycle : ℕ → ConnectionPool → ConnectionPool
recycle now p =
    let (kept, dropped) = recycle_from p.min_size p.idle_timeout now p.available in
    record p { available = kept; freed = dropped ++ p.freed }
