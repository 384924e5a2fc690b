-- ===== src/ConnectionPool/Ownership.antt =====
-- src/db/ConnectionPool.cpp: how often a connection occurs, in the queue and among the deleted ones.
use fileagent_server.Base.{
  ℕ, zero, suc, ◌+◌, ◌≤◌, ◌<◌, ◌≡◌, ◌∙◌, refl, Bool, true, false, List, [], ◌∷◌, ◌++◌, arith,
  Bool-cases, inl, inr, if◌then◌else◌, ◌==◌, ltb, ltb→lt,
}
use fileagent_server.ConnectionPool.{
  Conn, ConnectionPool, add_connection_locked, delete_available, fill, refill, recycle_from,
}

-- How many of the connections are the one with the number `i`.
abbrev pub occurrences : ℕ → List Conn → ℕ
occurrences i [] = 0
occurrences i (c ∷ cs) = (if c.id == i then 1 else 0) + occurrences i cs

pub occurrences-append :
    (i : ℕ) (cs ds : List Conn) → occurrences i (cs ++ ds) ≡ occurrences i cs + occurrences i ds
occurrences-append i [] ds = omega arith
occurrences-append i (c ∷ cs) ds = omega (arith, occurrences-append i cs ds)

-- In the queue or deleted.
abbrev pub held : ℕ → ConnectionPool → ℕ
held i p = occurrences i p.available + occurrences i p.freed

-- `q` holds what `p` held, and at most one connection for each number between their counters.
pub record Grows (p q : ConnectionPool) : Type 0 where
  pub up : p.next ≤ q.next
  pub old : (i : ℕ) → i < p.next → held i q ≡ held i p
  pub new : (i : ℕ) → held i q ≤ held i p + 1
  pub beyond : (i : ℕ) → q.next ≤ i → held i q ≡ held i p

add_connection_locked-Grows :
    (connected : Bool) (now : ℕ) (p : ConnectionPool)
    → Grows p (add_connection_locked connected now p).1
unfolding add_connection_locked
add_connection_locked-Grows true now p = record {
  up = omega arith;
  old = λ i h.
      ground
        (arith, occurrences-append i p.available (record { id = p.next; alive_since = now } ∷ []));
  new = λ i.
      ground
        (arith, occurrences-append i p.available (record { id = p.next; alive_since = now } ∷ []));
  beyond = λ i h.
      ground
        (arith, occurrences-append i p.available (record { id = p.next; alive_since = now } ∷ []));
}
add_connection_locked-Grows false now p = record {
  up = omega arith;
  old = λ i h. refl;
  new = λ i. omega arith;
  beyond = λ i h. refl;
}

pub Grows-trans : (p q r : ConnectionPool) → Grows p q → Grows q r → Grows p r
Grows-trans p q r a b = record {
  up = omega arith;
  old = λ i h. a-then (b.old i (omega arith)) (a.old i h);
  new = λ i. elim (Bool-cases (ltb i q.next)) [
    | inl h ↦ omega (arith, b.old i (ltb→lt i q.next h), a.new i)
    | inr h ↦ omega (arith, a.beyond i (ground arith), b.new i)
  ];
  beyond = λ i h. a-then (b.beyond i h) (a.beyond i (omega arith));
}
  where
    a-then : {x y z : ℕ} → x ≡ y → y ≡ z → x ≡ z
    a-then e f = e ∙ f

-- The same connections, with the same counter.
pub Grows-same :
    (p q : ConnectionPool) → q.next ≡ p.next → ((i : ℕ) → held i q ≡ held i p) → Grows p q
Grows-same p q e h = record {
  up = omega arith;
  old = λ i _. h i;
  new = λ i. omega (arith, h i);
  beyond = λ i _. h i;
}

pub delete_available-held : (p : ConnectionPool) (i : ℕ) → held i (delete_available p) ≡ held i p
unfolding delete_available
delete_available-held p i = omega (arith, occurrences-append i p.available p.freed)

delete_available-Grows :
    (p : ConnectionPool) → Grows p (delete_available (record p { running = false }))
unfolding delete_available
delete_available-Grows p =
    Grows-same p (delete_available (record p { running = false })) refl
      (delete_available-held (record p { running = false }))

pub refill-Grows :
    (connects : ℕ → Bool) (now missing : ℕ) (p : ConnectionPool)
    → Grows p (refill connects now missing p)
unfolding refill
refill-Grows connects now zero p = Grows-same p p refl (λ i. refl)
refill-Grows connects now (suc missing) p =
    let one = add_connection_locked-Grows (connects missing) now p in
    let p' = (add_connection_locked (connects missing) now p).1 in
    elim (Bool-cases (add_connection_locked (connects missing) now p).0) [
      | inl e ↦ rw e (Grows-trans p p' _ one (refill-Grows connects now missing p'))
      | inr e ↦ rw e one
    ]

pub fill-Grows :
    (connects : ℕ → Bool) (now index : ℕ) (p : ConnectionPool)
    → Grows p (fill connects now index p).1
unfolding fill
fill-Grows connects now zero p = Grows-same p p refl (λ i. refl)
fill-Grows connects now (suc index) p =
    let one = add_connection_locked-Grows (connects index) now p in
    let p' = (add_connection_locked (connects index) now p).1 in
    elim (Bool-cases (add_connection_locked (connects index) now p).0) [
      | inl e ↦ rw e (Grows-trans p p' _ one (fill-Grows connects now index p'))
      | inr e ↦ rw e (Grows-trans p p' _ one (delete_available-Grows p'))
    ]

pub recycle_from-occurrences :
    (min_size idle now i : ℕ) (cs : List Conn)
    → occurrences i (recycle_from min_size idle now cs).0
        + occurrences i (recycle_from min_size idle now cs).1
      ≡ occurrences i cs
unfolding recycle_from
recycle_from-occurrences min_size idle now i [] = refl
recycle_from-occurrences min_size idle now i (c ∷ cs) =
    ground (arith, recycle_from-occurrences min_size idle now i cs)
