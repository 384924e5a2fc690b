-- ===== src/Base/Outcome.antt =====
-- Code that can throw, alone and with a state; what was done before the exception stays done.
use mathlib.Core.Option.{Option, none, some}

pub data Outcome (A : Type 0) : Type 0 where
  returned : A → Outcome A
  thrown : Outcome A

-- The exception of a conversion.
abbrev pub or_throw : {A : Type 0} → Option A → Outcome A
or_throw none = thrown
or_throw (some a) = returned a

abbrev pub M : Type 0 → Type 0 → Type 0
M S A = S → Outcome A × S

abbrev pub pure : {S A : Type 0} → A → M S A
pure a s = (returned a, s)

abbrev pub bind : {S A B : Type 0} → (A → M S B) → Outcome A × S → Outcome B × S
bind f (returned a, s) = f a s
bind f (thrown, s) = (thrown, s)

infixl 5 ◌>>=◌ ◌>>◌
abbrev pub ◌>>=◌ : {S A B : Type 0} → M S A → (A → M S B) → M S B
◌>>=◌ m f s = bind f (m s)

abbrev pub ◌>>◌ : {S A B : Type 0} → M S A → M S B → M S B
m >> k = m >>= λ _. k

-- A part of the state is read, written, or worked on.
abbrev pub reads : {S A : Type 0} → (S → A) → M S A
reads f s = (returned (f s), s)

abbrev pub tries : {S A : Type 0} → (S → Outcome A) → M S A
tries f s = (f s, s)

abbrev pub changes : {S : Type 0} → (S → S) → M S (Unit {0})
changes f s = (returned tt, f s)
