-- ===== src/ConnectionPool/Counts.antt =====
-- src/db/ConnectionPool.cpp: the length of the queue, and the fields that each loop leaves alone.
use fileagent_server.Base.{
  ℕ, zero, suc, ◌+◌, ◌≤◌, ◌≡◌, ◌∙◌, refl, Bool, true, false, List, [], ◌∷◌, length, length-append,
  arith, Bool-cases, inl, inr,
}
use fileagent_server.ConnectionPool.{
  Conn, ConnectionPool, add_connection_locked, delete_available, fill, refill, recycle_from,
}

-- What adding connections leaves alone.
pub record Alike (p q : ConnectionPool) : Type 0 where
  pub config : q.config ≡ p.config
  pub active_count : q.active_count ≡ p.active_count
  pub running : q.running ≡ p.running
  pub initialized : q.initialized ≡ p.initialized

pub add_connection_locked_lem :
    (connected : Bool) (now : ℕ) (p : ConnectionPool)
    → Alike p (add_connection_locked connected now p).1
      × (length (add_connection_locked connected now p).1.available ≤ suc (length p.available))
unfolding add_connection_locked
add_connection_locked_lem true now p = (
  record { config = refl; active_count = refl; running = refl; initialized = refl },
  omega (arith, length-append p.available (record { id = p.next; alive_since = now } ∷ [])),
)
add_connection_locked_lem false now p =
    (record { config = refl; active_count = refl; running = refl; initialized = refl }, omega arith)

Alike-trans : (p q r : ConnectionPool) → Alike p q → Alike q r → Alike p r
Alike-trans p q r a b = record {
  config = b.config ∙ a.config;
  active_count = b.active_count ∙ a.active_count;
  running = b.running ∙ a.running;
  initialized = b.initialized ∙ a.initialized;
}

pub refill-Alike :
    (connects : ℕ → Bool) (now missing : ℕ) (p : ConnectionPool)
    → Alike p (refill connects now missing p)
      × (length (refill connects now missing p).available ≤ length p.available + missing)
unfolding refill
refill-Alike connects now zero p =
    (record { config = refl; active_count = refl; running = refl; initialized = refl }, omega arith)
refill-Alike connects now (suc missing) p =
    let one = add_connection_locked_lem (connects missing) now p in
    let p' = (add_connection_locked (connects missing) now p).1 in
    elim (Bool-cases (add_connection_locked (connects missing) now p).0) [
      | inl e ↦
          let more = refill-Alike connects now missing p' in
          rw e (Alike-trans p p' _ one.0 more.0, omega (arith, one.1, more.1))
      | inr e ↦ rw e (one.0, omega (arith, one.1))
    ]

-- What is left of a pool that `init` has worked on.
pub record Filled (n : ℕ) (p : ConnectionPool) (r : Bool × ConnectionPool) : Type 0 where
  pub config : r.1.config ≡ p.config
  pub active_count : r.1.active_count ≡ p.active_count
  pub initialized : r.1.initialized ≡ p.initialized
  pub bounded : length r.1.available ≤ length p.available + n
  pub failed : r.0 ≡ false → (r.1.available ≡ []) × (r.1.running ≡ false)

pub fill-Filled :
    (connects : ℕ → Bool) (now index : ℕ) (p : ConnectionPool)
    → Filled index p (fill connects now index p)
unfolding fill
fill-Filled connects now zero p = record {
  config = refl;
  active_count = refl;
  initialized = refl;
  bounded = omega arith;
  failed = λ e. absurd (cc);
}
fill-Filled connects now (suc index) p =
    let (one, grown) = add_connection_locked_lem (connects index) now p in
    let p' = (add_connection_locked (connects index) now p).1 in
    elim (Bool-cases (add_connection_locked (connects index) now p).0) [
      | inl e ↦
          let more = fill-Filled connects now index p' in
          rw e (record {
            config = more.config ∙ one.config;
            active_count = more.active_count ∙ one.active_count;
            initialized = more.initialized ∙ one.initialized;
            bounded = omega (arith, more.bounded);
            failed = more.failed;
          })
      | inr e ↦ rw e (
          unfold delete_available in
          record {
            config = one.config;
            active_count = one.active_count;
            initialized = one.initialized;
            bounded = omega arith;
            failed = λ _. (refl, refl);
          })
    ]

pub recycle_from-le :
    (min_size idle now : ℕ) (cs : List Conn)
    → length (recycle_from min_size idle now cs).0 ≤ length cs
unfolding recycle_from
recycle_from-le min_size idle now [] = omega arith
recycle_from-le min_size idle now (c ∷ cs) = ground (arith, recycle_from-le min_size idle now cs)
