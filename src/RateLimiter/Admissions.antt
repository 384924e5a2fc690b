-- ===== src/RateLimiter/Admissions.antt =====
-- src/common/RateLimiter.h: whom the limiter lets in, after any sequence of requests and resets.
use fileagent_server.Base.{
  ℕ, ◌≤◌, ◌<◌, ◌≡◌, ◌∙◌, ◌↔◌, refl, sym, subst, ap, arith, Bool, true, List, [], ◌∷◌, ◌++◌,
  append_assoc, ◌&&◌, if◌then◌else◌, length, All, All-append, All-map, Bool-cases, inl, inr,
}
use fileagent_server.Base.Bytes.{Bytes, bytes_eq, bytes_eq_refl, bytes_eq_iff, bytes_key}
use fileagent_server.Base.Assoc.{lookup, insert}
use fileagent_server.Base.Int.{ℤ, pos_part}
use fileagent_server.RateLimiter.{create, timestamps, pop_expired, allow, reset}
use fileagent_server.RateLimiter.Windows.{
  count_in, count_recent, count_in-added, count_recent-Expired, pop_expired-All, Expired-later,
  Ascending, Ascending-append, pop_expired-Popped, length-pop_expired, Ascending-pop_expired,
}
use fileagent_server.RateLimiter.History.{
  Event, asks, resets, History, observe, observe_all, Timely, last_time, Keeps, logged,
  timestamps-own, reset-own, reset-others, reset-limits, allow-cases, allow-limits, allow-others,
}

log_of :
    {own ok : Bool} {o a : Bool} (now : ℕ) (log : List ℕ)
    → own ≡ o
    → ok ≡ a
    → logged (own && ok) now log ≡ logged (o && a) now log
log_of now log e f = rw (e, f) refl

module _ (max : ℤ) (window : ℕ) (ip : Bytes) where
  Keeps-alike :
      (now later : ℕ) (s t : History)
      → now ≤ later
      → t.limiter.max_requests ≡ s.limiter.max_requests
      → t.limiter.window ≡ s.limiter.window
      → timestamps ip t.limiter ≡ timestamps ip s.limiter
      → t.admitted ≡ s.admitted
      → Keeps max window ip now s
      → Keeps max window ip later t
  Keeps-alike now later s t b m w e a k = record {
    gone = k.gone;
    max_is = m ∙ k.max_is;
    window_is = w ∙ k.window_is;
    split = a ∙ k.split ∙ ap (k.gone ++◌) (sym e);
    gone_Expired = Expired-later window now later k.gone b k.gone_Expired;
    kept_Ascending = subst Ascending (sym e) k.kept_Ascending;
    kept_past =
        subst (All (λ u. u ≤ later)) (sym e)
          (All-map (λ u h. omega (arith, h)) (timestamps ip s.limiter) k.kept_past);
    bounded =
        λ from. subst (λ log. count_in from window log ≤ pos_part max) (sym a) (k.bounded from);
  }

  Keeps-popped :
      (now later : ℕ) (s t : History)
      → now ≤ later
      → t.limiter.max_requests ≡ s.limiter.max_requests
      → t.limiter.window ≡ s.limiter.window
      → timestamps ip t.limiter ≡ pop_expired window later (timestamps ip s.limiter)
      → t.admitted ≡ s.admitted
      → Keeps max window ip now s
      → Keeps max window ip later t
  Keeps-popped now later s t b m w e a k =
      let p = pop_expired-Popped window later (timestamps ip s.limiter) in
      record {
        gone = k.gone ++ p.gone;
        max_is = m ∙ k.max_is;
        window_is = w ∙ k.window_is;
        split =
            a
            ∙ k.split
            ∙ ap (k.gone ++◌) (p.split ∙ ap (p.gone ++◌) (sym e))
            ∙ sym (append_assoc k.gone p.gone (timestamps ip t.limiter));
        gone_Expired =
            All-append _ k.gone p.gone (Expired-later window now later k.gone b k.gone_Expired)
              p.gone_Expired;
        kept_Ascending =
            subst Ascending (sym e)
              (Ascending-pop_expired window later (timestamps ip s.limiter) k.kept_Ascending);
        kept_past = subst (All (λ u. u ≤ later)) (sym e) (
            pop_expired-All _ window later _
              (All-map (λ u h. omega (arith, h)) (timestamps ip s.limiter) k.kept_past));
        bounded =
            λ from. subst (λ log. count_in from window log ≤ pos_part max) (sym a) (k.bounded from);
      }

  Keeps-added :
      (now : ℕ) (s t : History)
      → t.limiter.max_requests ≡ s.limiter.max_requests
      → t.limiter.window ≡ s.limiter.window
      → timestamps ip t.limiter ≡ timestamps ip s.limiter ++ now ∷ []
      → t.admitted ≡ s.admitted ++ now ∷ []
      → length (timestamps ip s.limiter) < pos_part max
      → Keeps max window ip now s
      → Keeps max window ip now t
  Keeps-added now s t m w e a room k = record {
    gone = k.gone;
    max_is = m ∙ k.max_is;
    window_is = w ∙ k.window_is;
    split =
        a
        ∙ ap (λ log. log ++ now ∷ []) k.split
        ∙ append_assoc k.gone (timestamps ip s.limiter) (now ∷ [])
        ∙ ap (k.gone ++◌) (sym e);
    gone_Expired = k.gone_Expired;
    kept_Ascending = subst Ascending (sym e) (Ascending-append _ now k.kept_Ascending k.kept_past);
    kept_past =
        subst (All (λ u. u ≤ now)) (sym e)
          (All-append _ (timestamps ip s.limiter) (now ∷ []) k.kept_past (omega arith, tt));
    bounded = λ from.
        subst (λ log. count_in from window log ≤ pos_part max)
          (ap (λ log. log ++ now ∷ []) (sym k.split) ∙ sym a)
          (count_in-added from window now (pos_part max) k.gone (timestamps ip s.limiter)
            k.gone_Expired room
            (subst (λ log. count_in from window log ≤ pos_part max) k.split (k.bounded from)));
  }

  Keeps-fresh :
      (now : ℕ) (t : History)
      → t.limiter.max_requests ≡ max
      → t.limiter.window ≡ window
      → timestamps ip t.limiter ≡ []
      → t.admitted ≡ []
      → Keeps max window ip now t
  Keeps-fresh now t m w e a = record {
    gone = [];
    max_is = m;
    window_is = w;
    split = a ∙ sym e;
    gone_Expired = tt;
    kept_Ascending = subst Ascending (sym e) tt;
    kept_past = subst (All (λ u. u ≤ now)) (sym e) tt;
    bounded = λ from. subst (λ log. count_in from window log ≤ pos_part max) (sym a) (omega arith);
  }

  asks-own :
      (now later : ℕ) (s : History)
      → now ≤ later
      → Keeps max window ip now s
      → Keeps max window ip later (observe ip (asks ip later) s)
  asks-own now later s b k =
      let popped = pop_expired s.limiter.window later (timestamps ip s.limiter) in
      let at_window : popped ≡ pop_expired window later (timestamps ip s.limiter) =
        ap (λ w. pop_expired w later (timestamps ip s.limiter)) k.window_is in
      let (m, w) = allow-limits ip later s.limiter in
      elim (allow-cases ip later s.limiter) [
        | inl d ↦
            Keeps-popped now later s _ b m w (d.kept ∙ at_window)
              (log_of _ _ (bytes_eq_refl ip) d.answer) k
        | inr d ↦
            let u : History = record {
              limiter = record s.limiter { records = insert ip popped s.limiter.records };
              admitted = s.admitted;
            } in
            let own = timestamps-own ip popped s.limiter in
            Keeps-added later u _ m w (d.kept ∙ ap (λ ts. ts ++ later ∷ []) (sym own))
              (log_of _ _ (bytes_eq_refl ip) d.answer)
              (subst (λ ts. length ts < pos_part max) (sym own)
                (subst (λ x. length popped < pos_part x) k.max_is d.room))
              (Keeps-popped now later s u b refl refl (own ∙ at_window) refl k)
      ]

  asks-Keeps :
      (other : Bytes) (now later : ℕ) (s : History)
      → now ≤ later
      → Keeps max window ip now s
      → Keeps max window ip later (observe ip (asks other later) s)
  asks-Keeps other now later s b k = elim (Bool-cases (bytes_eq other ip)) [
    | inr n ↦
        let (m, w) = allow-limits other later s.limiter in
        Keeps-alike now later s _ b m w (allow-others other ip later s.limiter n)
          (log_of _ _ n refl) k
    | inl e ↦
        subst (λ j. Keeps max window ip later (observe ip (asks j later) s))
          (sym ((bytes_eq_iff other ip).0 e)) (asks-own now later s b k)
  ]

  resets-Keeps :
      (other : Bytes) (now : ℕ) (s : History)
      → Keeps max window ip now s
      → Keeps max window ip now (observe ip (resets other) s)
  resets-Keeps other now s k =
      let (m, w) = reset-limits other s.limiter in
      elim (Bool-cases (bytes_eq other ip)) [
        | inr n ↦
            Keeps-alike now now s _ (omega arith) m w (reset-others other ip s.limiter n)
              (ap (λ b. if b then [] else s.admitted) n) k
        | inl e ↦
            Keeps-fresh now _ (m ∙ k.max_is) (w ∙ k.window_is)
              (subst (λ j. timestamps j (reset other s.limiter) ≡ []) ((bytes_eq_iff other ip).0 e)
                (reset-own other s.limiter))
              (ap (λ b. if b then [] else s.admitted) e)
      ]

  observe_all-Keeps :
      (now : ℕ) (es : List Event) (s : History)
      → Timely now es
      → Keeps max window ip now s
      → Keeps max window ip (last_time now es) (observe_all ip es s)
  observe_all-Keeps now [] s h k = k
  observe_all-Keeps now (asks other later ∷ es) s h k =
      observe_all-Keeps later es _ h.1 (asks-Keeps other now later s h.0 k)
  observe_all-Keeps now (resets other ∷ es) s h k =
      observe_all-Keeps now es _ h (resets-Keeps other now s k)

  -- What a limiter that starts empty has done for one address, after the events.
  abbrev pub observed : List Event → History
  observed es = observe_all ip es (record { limiter = create max window; admitted = [] })

  observed-Keeps :
      (es : List Event) → Timely 0 es → Keeps max window ip (last_time 0 es) (observed es)
  unfolding create timestamps lookup
  observed-Keeps es h = observe_all-Keeps 0 es _ h (Keeps-fresh 0 _ refl refl refl refl)

  -- After any events in the order of time, no window of the given length holds more than
  -- `max_requests` (0, if that is negative) of the times at which the address was let in since its
  -- last reset.
  pub observed-bounded :
      (es : List Event)
      → Timely 0 es
      → (from : ℕ) → count_in from window (observed es).admitted ≤ pos_part max
  observed-bounded es h from = let k = observed-Keeps es h in k.bounded from

  recent_is :
      (es : List Event) (now : ℕ)
      → Timely 0 es
      → last_time 0 es ≤ now
      → length (pop_expired (observed es).limiter.window now (timestamps ip (observed es).limiter))
        ≡ count_recent window now (observed es).admitted
  recent_is es now h b =
      let k = observed-Keeps es h in
      ap (λ w. length (pop_expired w now (timestamps ip (observed es).limiter))) k.window_is
      ∙ length-pop_expired window now _ k.kept_Ascending
      ∙ sym (
          count_recent-Expired window now k.gone _
            (Expired-later window _ now k.gone b k.gone_Expired))
      ∙ ap (count_recent window now) (sym k.split)

  -- The next request of the address is let in exactly if fewer than `max_requests` of these times
  -- are no older than the window.
  pub allow-observed :
      (es : List Event) (now : ℕ)
      → Timely 0 es
      → last_time 0 es ≤ now
      → ((allow ip now (observed es).limiter).0 ≡ true)
        ↔ (count_recent window now (observed es).admitted < pos_part max)
  allow-observed es now h b =
      let k = observed-Keeps es h in
      let limit = ap pos_part k.max_is in
      let recent = recent_is es now h b in
      elim (allow-cases ip now (observed es).limiter) [
        | inl d ↦ (λ t. cc (t, d.answer), λ u. absurd (omega (arith, u, d.full, limit, recent)))
        | inr d ↦ (λ t. omega (arith, d.room, limit, recent), λ u. d.answer)
      ]
