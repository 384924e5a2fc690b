-- ===== src/ConnectionPool/Keeps.antt =====
-- src/db/ConnectionPool.cpp: the steps that do not touch the users' connections keep the invariant.
use Prim.Native.Nat.{max}
use fileagent_server.Base.{
  ℕ, ◌+◌, ◌-◌, ◌≤◌, ◌≡◌, ◌∙◌, sym, ap, subst, refl, Bool, true, false, List, [], ◌∷◌, length, arith,
  Bool-cases, inl, inr, if◌then◌else◌, ltb,
}
use fileagent_server.ConnectionPool.{
  Conn, ConnectionPool, PoolConfig, init, fill, stop, drain, delete_available, produce, refill,
  recycle, recycle_from,
}
use fileagent_server.ConnectionPool.Ownership.{
  occurrences, held, Grows, occurrences-append, fill-Grows, refill-Grows, delete_available-held,
  recycle_from-occurrences,
}
use fileagent_server.ConnectionPool.Counts.{fill-Filled, refill-Alike, recycle_from-le}
use fileagent_server.ConnectionPool.Steps.{System, Inv, owned, unused}

pub unused-Inv : Inv unused
unused-Inv = record {
  once = λ i. omega arith;
  unborn = λ i h. refl;
  counted = refl;
  bounded = omega arith;
  idle = λ _. (refl, refl);
}

-- What a change of the pool alone does to ownership.
grown-once :
    (s : System) (q : ConnectionPool)
    → Inv s
    → Grows s.pool q
    → (i : ℕ) → held i q + occurrences i s.guards ≤ 1
grown-once s q v g i = elim (Bool-cases (ltb i s.pool.next)) [
  | inl h ↦ omega (arith, g.old i (ground arith), v.once i)
  | inr h ↦ omega (arith, g.new i, v.unborn i (ground arith))
]

grown-unborn :
    (s : System) (q : ConnectionPool)
    → Inv s
    → Grows s.pool q
    → (i : ℕ) → q.next ≤ i
    → held i q + occurrences i s.guards ≡ 0
grown-unborn s q v g i h = omega (arith, g.up, g.beyond i h, v.unborn i)

grown-Inv :
    (s : System) (q : ConnectionPool)
    → Inv s
    → Grows s.pool q
    → q.active_count ≡ s.pool.active_count
    → length q.available ≤ max q.min_size q.max_size
    → (q.initialized ≡ false → (q.available ≡ []) × (q.running ≡ false))
    → Inv (record s { pool = q })
grown-Inv s q v g a b d = record {
  once = grown-once s q v g;
  unborn = grown-unborn s q v g;
  counted = a ∙ v.counted;
  bounded = b;
  idle = d;
}

-- A bound for the queue, in the sizes of the configuration.
in_sizes :
    (q : ConnectionPool) (c : PoolConfig) (n : ℕ)
    → q.config ≡ c
    → length q.available ≤ n
    → n ≤ max c.min_size c.max_size
    → length q.available ≤ max q.min_size q.max_size
in_sizes q c n e h k =
    subst (λ d. length q.available ≤ max d.min_size d.max_size) (sym e) (omega arith)

init_again :
    (config : PoolConfig) (connects : ℕ → Bool) (now : ℕ) (p : ConnectionPool)
    → p.initialized ≡ true
    → (init config connects now p).1 ≡ p
unfolding init
init_again config connects now p h = ground arith

init_first :
    (config : PoolConfig) (connects : ℕ → Bool) (now : ℕ) (p : ConnectionPool)
    → p.initialized ≡ false
    → let r = fill connects now config.min_size (record p { config = config; running = true }) in
      (init config connects now p).1 ≡ (if r.0 then record r.1 { initialized = true } else r.1)
unfolding init
init_first config connects now p h = ground arith

init_first-Inv :
    (config : PoolConfig) (connects : ℕ → Bool) (now : ℕ) (s : System)
    → Inv s
    → s.pool.initialized ≡ false
    → let r =
        fill connects now config.min_size (record s.pool { config = config; running = true }) in
      Inv (record s { pool = (if r.0 then record r.1 { initialized = true } else r.1) })
init_first-Inv config connects now s v e =
    let start = record s.pool { config = config; running = true } in
    let r = fill connects now config.min_size start in
    let g = fill-Grows connects now config.min_size start in
    let f = fill-Filled connects now config.min_size start in
    let b =
      in_sizes r.1 config config.min_size f.config
        (omega (arith, f.bounded, ap length (v.idle e).0)) (omega arith) in
    elim (Bool-cases r.0) [
      | inl whole ↦ rw whole (
          grown-Inv s (record r.1 { initialized = true }) v
            (record { up = g.up; old = g.old; new = g.new; beyond = g.beyond }) f.active_count b
            (λ h. absurd (cc)))
      | inr part ↦ rw part (
          grown-Inv s r.1 v (record { up = g.up; old = g.old; new = g.new; beyond = g.beyond })
            f.active_count b (λ _. f.failed part))
    ]

pub init-Inv :
    (config : PoolConfig) (connects : ℕ → Bool) (now : ℕ) (s : System)
    → Inv s
    → Inv (record s { pool = (init config connects now s.pool).1 })
init-Inv config connects now s v = elim (Bool-cases s.pool.initialized) [
  | inl e ↦
      subst (λ p. Inv (record s { pool = p })) (sym (init_again config connects now s.pool e)) v
  | inr e ↦
      subst (λ p. Inv (record s { pool = p })) (sym (init_first config connects now s.pool e))
        (init_first-Inv config connects now s v e)
]

produce_running :
    (connects : ℕ → Bool) (now : ℕ) (p : ConnectionPool)
    → p.running ≡ true
    → produce connects now p ≡ refill connects now (p.min_size - length p.available) p
unfolding produce
produce_running connects now p h = ground arith

produce_stopped :
    (connects : ℕ → Bool) (now : ℕ) (p : ConnectionPool)
    → p.running ≡ false
    → produce connects now p ≡ p
unfolding produce
produce_stopped connects now p h = ground arith

pub produce-Inv :
    (connects : ℕ → Bool) (now : ℕ) (s : System)
    → Inv s
    → Inv (record s { pool = produce connects now s.pool })
produce-Inv connects now s v =
    let missing = s.pool.min_size - length s.pool.available in
    let q = refill connects now missing s.pool in
    let (a, b) = refill-Alike connects now missing s.pool in
    elim (Bool-cases s.pool.running) [
      | inr e ↦
          subst (λ p. Inv (record s { pool = p })) (sym (produce_stopped connects now s.pool e)) v
      | inl e ↦
          subst (λ p. Inv (record s { pool = p })) (sym (produce_running connects now s.pool e))
            (grown-Inv s q v (refill-Grows connects now missing s.pool) a.active_count
              (in_sizes q s.pool.config (max s.pool.min_size s.pool.max_size) a.config
                (omega (arith, v.bounded, b)) (omega arith))
              (λ h. absurd (cc ((v.idle (sym a.initialized ∙ h)).1, e))))
    ]

-- A step that moves connections about and makes none.
pub moved-Inv :
    (s t : System)
    → Inv s
    → t.pool.next ≡ s.pool.next
    → ((i : ℕ) → owned i t ≡ owned i s)
    → t.pool.active_count ≡ length t.guards
    → length t.pool.available ≤ max t.pool.min_size t.pool.max_size
    → (t.pool.initialized ≡ false → (t.pool.available ≡ []) × (t.pool.running ≡ false))
    → Inv t
moved-Inv s t v n o c b d = record {
  once = λ i. omega (arith, o i, v.once i);
  unborn = λ i h. omega (arith, o i, v.unborn i);
  counted = c;
  bounded = b;
  idle = d;
}

pub nil_of_le : (cs : List Conn) → length cs ≤ 0 → cs ≡ []
nil_of_le [] h = refl
nil_of_le (c ∷ cs) h = absurd (omega arith)

pub recycle-Inv : (now : ℕ) (s : System) → Inv s → Inv (record s { pool = recycle now s.pool })
unfolding recycle
recycle-Inv now s v =
    let p = s.pool in
    let r = recycle_from p.min_size p.idle_timeout now p.available in
    moved-Inv s (record s { pool = recycle now p }) v refl
      (λ i. omega (
        arith,
        recycle_from-occurrences p.min_size p.idle_timeout now i p.available,
        occurrences-append i r.1 p.freed,
      ))
      v.counted
      (omega (arith, recycle_from-le p.min_size p.idle_timeout now p.available, v.bounded))
      (λ h. (
        nil_of_le r.0 (
            omega (
              arith,
              recycle_from-le p.min_size p.idle_timeout now p.available,
              ap length (v.idle h).0,
            )),
        (v.idle h).1,
      ))

pub drain-Inv :
    (s : System) → s.pool.running ≡ false → Inv s → Inv (record s { pool = drain s.pool })
unfolding drain delete_available
drain-Inv s h v =
    moved-Inv s (record s { pool = drain s.pool }) v refl
      (λ i. omega (arith, delete_available-held s.pool i)) v.counted (omega arith) (λ _. (refl, h))

pub stop-Inv : (s : System) → Inv s → Inv (record s { pool = stop s.pool })
unfolding stop
stop-Inv s v =
    moved-Inv s (record s { pool = stop s.pool }) v refl (λ i. refl) v.counted v.bounded
      (λ h. ((v.idle h).0, refl))
