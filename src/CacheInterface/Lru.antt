-- ===== src/CacheInterface/Lru.antt =====
-- src/common/LruCache.h keeps what src/common/CacheInterface.h promises.
use fileagent_server.Base.{ℕ, Key, ◌≡◌, refl, none}
use fileagent_server.Base.Assoc.{lookup}
use fileagent_server.CacheInterface.{CacheInterface, IsLawful}
use fileagent_server.LruCache
use fileagent_server.LruCache.{LruCache}
use fileagent_server.LruCache.Entries.{entries, get-entries}
use fileagent_server.LruCache.Invariant
use fileagent_server.LruCache.Invariant.{IsValid, get-IsValid, put-IsValid, remove-IsValid}
use fileagent_server.LruCache.Refinement.{held-get, held-put, held-remove}

module _ {K V : Type 0} ⦃k : Key K⦄ where
  abbrev pub lru_cache : CacheInterface K V
  lru_cache = record {
    State = LruCache K V;
    put = LruCache.put;
    get = LruCache.get;
    remove = LruCache.remove;
    clear = LruCache.clear;
    size = LruCache.size;
  }

  abbrev pub lru_cache-IsLawful : IsLawful lru_cache
  lru_cache-IsLawful = record {
    IsValid = IsValid;
    peek = λ key c. lookup key (entries c);
    get_answer = λ key c v. (get-entries key c v).0;
    peek-get = held-get;
    peek-put = λ key j x y c. held-put key j x y c;
    peek-remove = held-remove;
    get-IsValid = get-IsValid;
    put-IsValid = put-IsValid;
    remove-IsValid = remove-IsValid;
  }

  -- A new cache is valid, and holds nothing.
  pub create-IsValid :
      (capacity : ℕ)
      → lru_cache-IsLawful.IsValid (LruCache.create capacity)
        × ((key : K) → lru_cache-IsLawful.peek key (LruCache.create capacity) ≡ none)
  unfolding LruCache.create lookup
  create-IsValid capacity = (Invariant.create-IsValid capacity, λ key. refl)
