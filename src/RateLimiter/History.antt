-- ===== src/RateLimiter/History.antt =====
-- src/common/RateLimiter.h: what the limiter answers, after any sequence of requests and resets.
use fileagent_server.Base.{
  ℕ, ◌≤◌, ◌<◌, ◌≡◌, ◌∙◌, refl, ap, arith, Bool, true, false, List, [], ◌∷◌, ◌++◌, ◌&&◌,
  if◌then◌else◌, length, All, ◌⊎◌, Bool-cases, inl, inr,
}
use fileagent_server.Base.Bytes.{Bytes, bytes_eq, bytes_eq_refl, bytes_key}
use fileagent_server.Base.Assoc.{insert, lookup-insert, lookup-erase}
use fileagent_server.Base.Int.{ℤ, pos, pos_part, leb_ℤ}
use fileagent_server.RateLimiter.{RateLimiter, timestamps, pop_expired, allow, reset}
use fileagent_server.RateLimiter.Windows.{count_in, Expired, Ascending}

pub data Event : Type 0 where
  asks : Bytes → ℕ → Event
  resets : Bytes → Event

-- The limiter, and the times at which one address was let in since its last reset.
pub record History : Type 0 where
  pub limiter : RateLimiter
  pub admitted : List ℕ

abbrev pub logged : Bool → ℕ → List ℕ → List ℕ
logged true now log = log ++ now ∷ []
logged false now log = log

abbrev pub observe : Bytes → Event → History → History
observe ip (asks other now) s = record {
  limiter = (allow other now s.limiter).1;
  admitted = logged (bytes_eq other ip && (allow other now s.limiter).0) now s.admitted;
}
observe ip (resets other) s = record {
  limiter = reset other s.limiter;
  admitted = if bytes_eq other ip then [] else s.admitted;
}

abbrev pub observe_all : Bytes → List Event → History → History
observe_all ip [] s = s
observe_all ip (e ∷ es) s = observe_all ip es (observe ip e s)

-- The clock does not go back.
abbrev pub Timely : ℕ → List Event → Type 0
Timely now [] = Unit
Timely now (asks ip later ∷ es) = (now ≤ later) × Timely later es
Timely now (resets ip ∷ es) = Timely now es

-- The time of the last request.
abbrev pub last_time : ℕ → List Event → ℕ
last_time now [] = now
last_time now (asks ip later ∷ es) = last_time later es
last_time now (resets ip ∷ es) = last_time now es

-- What the limiter keeps of an address: the end of its log, of which only expired times are gone.
pub record Keeps (max : ℤ) (window : ℕ) (ip : Bytes) (now : ℕ) (s : History) : Type 0 where
  pub gone : List ℕ
  pub max_is : s.limiter.max_requests ≡ max
  pub window_is : s.limiter.window ≡ window
  pub split : s.admitted ≡ gone ++ timestamps ip s.limiter
  pub gone_Expired : Expired window now gone
  pub kept_Ascending : Ascending (timestamps ip s.limiter)
  pub kept_past : All (λ t. t ≤ now) (timestamps ip s.limiter)
  pub bounded : (from : ℕ) → count_in from window s.admitted ≤ pos_part max

-- The two outcomes of a request.
pub record Denied (ip : Bytes) (now : ℕ) (l : RateLimiter) : Type 0 where
  pub full : pos_part l.max_requests ≤ length (pop_expired l.window now (timestamps ip l))
  pub answer : (allow ip now l).0 ≡ false
  pub kept : timestamps ip (allow ip now l).1 ≡ pop_expired l.window now (timestamps ip l)

pub record Admitted (ip : Bytes) (now : ℕ) (l : RateLimiter) : Type 0 where
  pub room : length (pop_expired l.window now (timestamps ip l)) < pos_part l.max_requests
  pub answer : (allow ip now l).0 ≡ true
  pub kept :
      timestamps ip (allow ip now l).1 ≡ pop_expired l.window now (timestamps ip l) ++ now ∷ []

timestamps-insert :
    (ip j : Bytes) (ts : List ℕ) (l : RateLimiter)
    → timestamps j (record l { records = insert ip ts l.records })
      ≡ (if bytes_eq ip j then ts else timestamps j l)
unfolding timestamps
timestamps-insert ip j ts l = ground (arith, lookup-insert ip j ts l.records)

pub timestamps-own :
    (ip : Bytes) (ts : List ℕ) (l : RateLimiter)
    → timestamps ip (record l { records = insert ip ts l.records }) ≡ ts
timestamps-own ip ts l =
    timestamps-insert ip ip ts l ∙ ap (λ b. if b then ts else timestamps ip l) (bytes_eq_refl ip)

pub timestamps-other :
    (ip j : Bytes) (ts : List ℕ) (l : RateLimiter)
    → bytes_eq ip j ≡ false
    → timestamps j (record l { records = insert ip ts l.records }) ≡ timestamps j l
timestamps-other ip j ts l n =
    timestamps-insert ip j ts l ∙ ap (λ b. if b then ts else timestamps j l) n

leb_pos : (max : ℤ) (n : ℕ) → leb_ℤ max (pos n) ≡ true → pos_part max ≤ n
leb_pos max n h = ground arith

ltb_pos : (max : ℤ) (n : ℕ) → leb_ℤ max (pos n) ≡ false → n < pos_part max
ltb_pos max n h = ground arith

pub allow-cases : (ip : Bytes) (now : ℕ) (l : RateLimiter) → Denied ip now l ⊎ Admitted ip now l
unfolding allow
allow-cases ip now l =
    let ts = pop_expired l.window now (timestamps ip l) in
    elim (Bool-cases (leb_ℤ l.max_requests (pos (length ts)))) [
      | inl e ↦ inl record {
        full = leb_pos l.max_requests (length ts) e;
        answer = rw e refl;
        kept = rw e (timestamps-own ip ts l);
      }
      | inr e ↦ inr record {
        room = ltb_pos l.max_requests (length ts) e;
        answer = rw e refl;
        kept = rw e (timestamps-own ip (ts ++ now ∷ []) l);
      }
    ]

-- A request changes neither the limits nor what is kept of another address.
pub allow-limits :
    (ip : Bytes) (now : ℕ) (l : RateLimiter)
    → ((allow ip now l).1.max_requests ≡ l.max_requests) × ((allow ip now l).1.window ≡ l.window)
unfolding allow
allow-limits ip now l = ground arith

pub allow-others :
    (ip j : Bytes) (now : ℕ) (l : RateLimiter)
    → bytes_eq ip j ≡ false
    → timestamps j (allow ip now l).1 ≡ timestamps j l
unfolding allow
allow-others ip j now l n =
    let ts = pop_expired l.window now (timestamps ip l) in
    elim (Bool-cases (leb_ℤ l.max_requests (pos (length ts)))) [
      | inl e ↦ rw e (timestamps-other ip j ts l n)
      | inr e ↦ rw e (timestamps-other ip j (ts ++ now ∷ []) l n)
    ]

pub reset-own : (ip : Bytes) (l : RateLimiter) → timestamps ip (reset ip l) ≡ []
unfolding reset timestamps
reset-own ip l = ground (arith, lookup-erase ip ip l.records, bytes_eq_refl ip)

pub reset-others :
    (ip j : Bytes) (l : RateLimiter)
    → bytes_eq ip j ≡ false
    → timestamps j (reset ip l) ≡ timestamps j l
unfolding reset timestamps
reset-others ip j l n = ground (arith, lookup-erase ip j l.records)

pub reset-limits :
    (ip : Bytes) (l : RateLimiter)
    → ((reset ip l).max_requests ≡ l.max_requests) × ((reset ip l).window ≡ l.window)
unfolding reset
reset-limits ip l = (refl, refl)
