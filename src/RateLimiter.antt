-- ===== src/RateLimiter.antt =====
-- src/common/RateLimiter.h: the sliding window. Times are the ticks of the steady clock as natural
-- numbers, so `timestamps.front() < now - window` is written without subtraction.
pub mod Windows
pub mod History
pub mod Admissions
pub mod Clients
mod Tests
use fileagent_server.Base.{
  ℕ, ◌+◌, Bool, true, false, List, [], ◌∷◌, ◌++◌, Option, none, some, ltb, if◌then◌else◌, length,
}
use fileagent_server.Base.Bytes.{Bytes, bytes_key}
use fileagent_server.Base.Assoc.{lookup, insert, erase}
use fileagent_server.Base.Int.{ℤ, pos, leb_ℤ}

pub record RateLimiter : Type 0 where
  pub max_requests : ℤ
  pub window : ℕ
  pub records : List (Bytes × List ℕ)

unfoldable pub create : ℤ → ℕ → RateLimiter
create max_requests window = record { max_requests = max_requests; window = window; records = [] }

-- `records_[ip]`, which is an empty deque where there is none.
abbrev or_empty : Option (List ℕ) → List ℕ
or_empty none = []
or_empty (some ts) = ts

unfoldable pub timestamps : Bytes → RateLimiter → List ℕ
timestamps ip l = or_empty (lookup ip l.records)

-- `while (!timestamps.empty() && timestamps.front() < cutoff) timestamps.pop_front();`
unfoldable pub pop_expired : ℕ → ℕ → List ℕ → List ℕ
pop_expired window now [] = []
pop_expired window now (t ∷ ts) =
    let rest = pop_expired window now ts in if ltb (t + window) now then rest else t ∷ ts

abbrev store : Bytes → List ℕ → RateLimiter → RateLimiter
store ip ts l = record l { records = insert ip ts l.records }

unfoldable pub allow : Bytes → ℕ → RateLimiter → Bool × RateLimiter
allow ip now l =
    let ts = pop_expired l.window now (timestamps ip l) in
    if leb_ℤ l.max_requests (pos (length ts))
    then (false, store ip ts l)
    else (true, store ip (ts ++ now ∷ []) l)

unfoldable pub reset : Bytes → RateLimiter → RateLimiter
reset ip l = record l { records = erase ip l.records }
