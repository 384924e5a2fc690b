-- ===== src/ConnectionPool/Reachable.antt =====
-- src/db/ConnectionPool.cpp: every state that the pool can reach.
use fileagent_server.Base.{
  ℕ, suc, ◌+◌, ◌-◌, ◌≡◌, ◌∙◌, sym, ap, subst, refl, ◌⊎◌, true, false, List, [], ◌∷◌, ◌++◌, some,
  none, length, length-append, ◌==◌, arith, Bool-cases, inl, inr, if◌then◌else◌, ltb, ◌&&◌,
}
use fileagent_server.ConnectionPool.{Conn, ConnectionPool, get_connection, release}
use fileagent_server.ConnectionPool.Ownership.{occurrences, occurrences-append}
use fileagent_server.ConnectionPool.Steps.{
  System, Inv, Step, inits, takes, is_refused, gives_back, stops, drains, produces, recycles, Reach,
  here, later,
}
use fileagent_server.ConnectionPool.Keeps.{
  init-Inv, produce-Inv, moved-Inv, recycle-Inv, drain-Inv, stop-Inv,
}

get_connection-cases :
    (p : ConnectionPool)
    → (get_connection p ≡ (none, p))
      ⊎ ((c : Conn) × (rest : List Conn) × (p.available ≡ c ∷ rest)
          × (p.running ≡ true)
          × (get_connection p
              ≡ (some c, record p { available = rest; active_count = suc p.active_count })))
unfolding get_connection
get_connection-cases p = ground arith

take-Inv :
    (s : System) (c : Conn)
    → (get_connection s.pool).0 ≡ some c
    → Inv s
    → Inv (record { pool = (get_connection s.pool).1; guards = c ∷ s.guards })
take-Inv s c h v = elim (get_connection-cases s.pool) [
  | inl e ↦ absurd (ground arith)
  | inr (d, rest, a, r, e) ↦
      let same_conn : d ≡ c = ground arith in
      subst (λ g. Inv (record { pool = g.1; guards = c ∷ s.guards })) (sym e)
        (subst (λ x. Inv (record { pool = taken rest; guards = x ∷ s.guards })) same_conn
          (moved-Inv s (record { pool = taken rest; guards = d ∷ s.guards }) v refl
            (λ i. omega (arith, ap (occurrences i) a)) (ap suc v.counted)
            (omega (arith, ap length a, v.bounded)) (λ k. absurd (cc ((v.idle k).1, r)))))
]
  where
    taken : List Conn → ConnectionPool
    taken rest = record s.pool { available = rest; active_count = suc s.pool.active_count }

refused-Inv :
    (s : System)
    → (get_connection s.pool).0 ≡ none
    → Inv s
    → Inv (record s { pool = (get_connection s.pool).1 })
refused-Inv s h v = elim (get_connection-cases s.pool) [
  | inl e ↦ subst (λ g. Inv (record s { pool = g.1 })) (sym e) v
  | inr (d, rest, a, r, e) ↦ absurd (ground arith)
]

-- A connection that comes back is queued or deleted.
release_queued :
    (c : Conn) (now : ℕ) (p : ConnectionPool)
    → (p.running && ltb (length p.available) p.max_size) ≡ true
    → release c now p ≡ record p {
      available = p.available ++ record c { alive_since = now } ∷ [];
      active_count = p.active_count - 1;
    }
unfolding release
release_queued c now p h = rw (h, release) refl

release_deleted :
    (c : Conn) (now : ℕ) (p : ConnectionPool)
    → (p.running && ltb (length p.available) p.max_size) ≡ false
    → release c now p ≡ record p {
      freed = record c { alive_since = now } ∷ p.freed;
      active_count = p.active_count - 1;
    }
unfolding release
release_deleted c now p h = rw (h, release) refl

occurrences-middle :
    (i : ℕ) (before after : List Conn) (c : Conn)
    → occurrences i (before ++ c ∷ after)
      ≡ (if c.id == i then 1 else 0) + occurrences i (before ++ after)
occurrences-middle i before after c =
    omega (arith, occurrences-append i before (c ∷ after), occurrences-append i before after)

release-Inv :
    (s : System) (before after : List Conn) (c : Conn) (now : ℕ)
    → s.guards ≡ before ++ c ∷ after
    → Inv s
    → Inv (record { pool = release c now s.pool; guards = before ++ after })
release-Inv s before after c now h v =
    let p = s.pool in
    let fresh : Conn = record c { alive_since = now } in
    let lent = λ (i : ℕ). ap (occurrences i) h ∙ occurrences-middle i before after c in
    let fewer : p.active_count - 1 ≡ length (before ++ after) = omega (
      arith,
      v.counted,
      ap length h,
      length-append before (c ∷ after),
      length-append before after,
    ) in
    elim (Bool-cases (p.running && ltb (length p.available) p.max_size)) [
      | inl e ↦
          subst (λ q. Inv (record { pool = q; guards = before ++ after }))
            (sym (release_queued c now p e))
            (moved-Inv s
              (record {
                pool = record p {
                  available = p.available ++ fresh ∷ [];
                  active_count = p.active_count - 1;
                };
                guards = before ++ after;
              })
              v refl (λ i. omega (arith, lent i, occurrences-append i p.available (fresh ∷ [])))
              fewer (ground (arith, length-append p.available (fresh ∷ [])))
              (λ k. absurd (ground (arith, v.idle k))))
      | inr e ↦
          subst (λ q. Inv (record { pool = q; guards = before ++ after }))
            (sym (release_deleted c now p e))
            (moved-Inv s
              (record {
                pool = record p { freed = fresh ∷ p.freed; active_count = p.active_count - 1 };
                guards = before ++ after;
              })
              v refl (λ i. omega (arith, lent i)) fewer v.bounded v.idle)
    ]

-- Every step, from whichever thread, keeps the invariant.
pub Step-Inv : {s t : System} → Step s t → Inv s → Inv t
Step-Inv {s} (inits config connects now) v = init-Inv config connects now s v
Step-Inv {s} (takes c e) v = take-Inv s c e v
Step-Inv {s} (is_refused e) v = refused-Inv s e v
Step-Inv {s} (gives_back before after c now e) v = release-Inv s before after c now e v
Step-Inv {s} stops v = stop-Inv s v
Step-Inv {s} (drains e) v = drain-Inv s e v
Step-Inv {s} (produces connects now) v = produce-Inv connects now s v
Step-Inv {s} (recycles now) v = recycle-Inv now s v

-- In every state that the pool can reach, no connection is with two users, in the queue and with a
-- user, or in use after it was deleted; the counter is right and the queue within the sizes.
pub Reach-Inv : {s t : System} → Inv s → Reach s t → Inv t
Reach-Inv v here = v
Reach-Inv v (later r st) = Step-Inv st (Reach-Inv v r)
