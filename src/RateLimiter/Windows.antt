-- ===== src/RateLimiter/Windows.antt =====
-- src/common/RateLimiter.h: how many times lie in a window.
use fileagent_server.Base.{
  ℕ, ◌+◌, ◌≤◌, ◌<◌, ◌≡◌, refl, ap, arith, ◌&&◌, List, [], ◌∷◌, ◌++◌, ltb, leb, if◌then◌else◌,
  length, All, All-append, Bool-cases, inl, inr,
}
use fileagent_server.RateLimiter.{pop_expired}

-- The number of times from `from` to `from + window`, both included.
abbrev pub count_in : ℕ → ℕ → List ℕ → ℕ
count_in from window [] = 0
count_in from window (t ∷ ts) =
    let rest = count_in from window ts in
    if leb from t && leb t (from + window) then 1 + rest else rest

-- The number of times that are not over when the window ends now.
abbrev pub count_recent : ℕ → ℕ → List ℕ → ℕ
count_recent window now [] = 0
count_recent window now (t ∷ ts) =
    let rest = count_recent window now ts in if ltb (t + window) now then rest else 1 + rest

pub count_in-append :
    (from window : ℕ) (ts us : List ℕ)
    → count_in from window (ts ++ us) ≡ count_in from window ts + count_in from window us
count_in-append from window [] us = ground arith
count_in-append from window (t ∷ ts) us = ground (arith, count_in-append from window ts us)

pub count_in-length : (from window : ℕ) (ts : List ℕ) → count_in from window ts ≤ length ts
count_in-length from window [] = ground arith
count_in-length from window (t ∷ ts) = ground (arith, count_in-length from window ts)

abbrev pub Expired : ℕ → ℕ → List ℕ → Type 0
Expired window now = All (λ t. t + window < now)

-- Expired times do not count in a window that holds the present.
pub count_in-Expired :
    (from window now : ℕ) (ts : List ℕ)
    → Expired window now ts
    → now ≤ from + window
    → count_in from window ts ≡ 0
count_in-Expired from window now [] h b = refl
count_in-Expired from window now (t ∷ ts) h b =
    ground (arith, h.0, count_in-Expired from window now ts h.1 b)

pub count_recent-Expired :
    (window now : ℕ) (ts us : List ℕ)
    → Expired window now ts
    → count_recent window now (ts ++ us) ≡ count_recent window now us
count_recent-Expired window now [] us h = refl
count_recent-Expired window now (t ∷ ts) us h =
    ground (arith, h.0, count_recent-Expired window now ts us h.1)

pub Expired-later :
    (window now later : ℕ) (ts : List ℕ)
    → now ≤ later
    → Expired window now ts
    → Expired window later ts
Expired-later window now later [] b h = tt
Expired-later window now later (t ∷ ts) b h =
    (omega (arith, h.0), Expired-later window now later ts b h.1)

abbrev pub Ascending : List ℕ → Type 0
Ascending [] = Unit
Ascending (t ∷ ts) = All (λ u. t ≤ u) ts × Ascending ts

pub Ascending-append :
    (ts : List ℕ) (now : ℕ) → Ascending ts → All (λ t. t ≤ now) ts → Ascending (ts ++ now ∷ [])
Ascending-append [] now h b = (tt, tt)
Ascending-append (t ∷ ts) now h b =
    (All-append _ ts (now ∷ []) h.0 (b.0, tt), Ascending-append ts now h.1 b.1)

-- What `pop_expired` takes off, and what it leaves.
pub record Popped (window now : ℕ) (ts : List ℕ) : Type 0 where
  pub gone : List ℕ
  pub split : ts ≡ gone ++ pop_expired window now ts
  pub gone_Expired : Expired window now gone

pub pop_expired-Popped : (window now : ℕ) (ts : List ℕ) → Popped window now ts
unfolding pop_expired
pop_expired-Popped window now [] = record { gone = []; split = refl; gone_Expired = tt }
pop_expired-Popped window now (t ∷ ts) = elim (Bool-cases (ltb (t + window) now)) [
  | inl e ↦
      let p = pop_expired-Popped window now ts in
      record {
        gone = t ∷ p.gone;
        split = rw e (ap (◌∷◌ t) p.split);
        gone_Expired = (ground arith, p.gone_Expired);
      }
  | inr e ↦ record { gone = []; split = rw e refl; gone_Expired = tt }
]

count_recent-kept :
    (window now t : ℕ) (ts : List ℕ)
    → All (λ u. t ≤ u) ts
    → now ≤ t + window
    → count_recent window now ts ≡ length ts
count_recent-kept window now t [] h b = refl
count_recent-kept window now t (u ∷ ts) h b =
    ground (arith, h.0, count_recent-kept window now t ts h.1)

-- Of ascending times, those that are left are the ones that count.
pub length-pop_expired :
    (window now : ℕ) (ts : List ℕ)
    → Ascending ts
    → length (pop_expired window now ts) ≡ count_recent window now ts
unfolding pop_expired
length-pop_expired window now [] h = refl
length-pop_expired window now (t ∷ ts) h =
    ground (arith, length-pop_expired window now ts h.1, count_recent-kept window now t ts h.0)

pub Ascending-pop_expired :
    (window now : ℕ) (ts : List ℕ) → Ascending ts → Ascending (pop_expired window now ts)
unfolding pop_expired
Ascending-pop_expired window now [] h = tt
Ascending-pop_expired window now (t ∷ ts) h =
    ground (arith, Ascending-pop_expired window now ts h.1)

pub pop_expired-All :
    (P : ℕ → Type 0) (window now : ℕ) (ts : List ℕ) → All P ts → All P (pop_expired window now ts)
unfolding pop_expired
pop_expired-All P window now [] h = tt
pop_expired-All P window now (t ∷ ts) h = elim (Bool-cases (ltb (t + window) now)) [
  | inl e ↦ rw e (pop_expired-All P window now ts h.1)
  | inr e ↦ rw e h
]

-- If what is not gone leaves room, one more time still fits into every window.
pub count_in-added :
    (from window now most : ℕ) (gone ts : List ℕ)
    → Expired window now gone
    → length ts < most
    → count_in from window (gone ++ ts) ≤ most
    → count_in from window ((gone ++ ts) ++ now ∷ []) ≤ most
count_in-added from window now most gone ts x room b =
    let added = count_in-append from window (gone ++ ts) (now ∷ []) in
    let parts = count_in-append from window gone ts in
    let kept = count_in-length from window ts in
    ground (arith, added, parts, kept, room, b, count_in-Expired from window now gone x)
