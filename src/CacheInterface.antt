-- ===== src/CacheInterface.antt =====
-- src/common/CacheInterface.h: the five methods of a cache over an unknown state, and what its clients
-- rely on. `peek` is what a cache holds under a key, whether or not it is asked for it.
pub mod Lru
use fileagent_server.Base.{ℕ, ◌≡◌, ◌⊎◌, Bool, Option, none, some, Key, same, if◌then◌else◌}

pub record CacheInterface (K V : Type 0) : Type 1 where
  pub State : Type 0
  pub put : K → V → State → State
  pub get : K → State → Option V × State
  pub remove : K → State → Bool × State
  pub clear : State → State
  pub size : State → ℕ

-- A value that is put may push others out, but changes none; `get` and `remove` lose nothing else.
pub record IsLawful {K V : Type 0} ⦃k : Key K⦄ (C : CacheInterface K V) : Type 1 where
  pub IsValid : C.State → Type 0
  pub peek : K → C.State → Option V
  pub get_answer : (key : K) (s : C.State) → IsValid s → (C.get key s).0 ≡ peek key s
  pub peek-get : (key j : K) (s : C.State) → IsValid s → peek j (C.get key s).1 ≡ peek j s
  pub peek-put :
      (key j : K) (v w : V) (s : C.State)
      → IsValid s
      → peek j (C.put key v s) ≡ some w
      → (peek j s ≡ some w) ⊎ ((j ≡ key) × (w ≡ v))
  pub peek-remove :
      (key j : K) (s : C.State)
      → IsValid s
      → peek j (C.remove key s).1 ≡ (if same key j then none else peek j s)
  pub get-IsValid : (key : K) (s : C.State) → IsValid s → IsValid (C.get key s).1
  pub put-IsValid : (key : K) (v : V) (s : C.State) → IsValid s → IsValid (C.put key v s)
  pub remove-IsValid : (key : K) (s : C.State) → IsValid s → IsValid (C.remove key s).1
