-- ===== src/LruCache/Tests.antt =====
-- Runs of the cache, and its theorems at concrete states.
use fileagent_server.Base.{nat_key, ◌≡◌, refl, ℕ, List, [], ◌∷◌, some, none, true, false}
use fileagent_server.Base.Assoc.{lookup, erase}
use fileagent_server.LruCache
use fileagent_server.LruCache.{LruCache, create, put, get}
use fileagent_server.LruCache.Invariant.{IsValid, create-IsValid, put-IsValid}
use fileagent_server.LruCache.Refinement.{
  Call, puts, gets, exists_of, removes, size_of, Answer, done, value, flag, count, call, run,
  recent_call, recent_run, call-IsValid, run-create,
}

-- Two entries, put in the order 1, 2.
abbrev two : LruCache ℕ ℕ
two = put 2 20 (put 1 10 (create 2))

two-IsValid : IsValid two
two-IsValid = put-IsValid 2 20 _ (put-IsValid 1 10 _ (create-IsValid 2))

-- 1 is used before 3 comes in, so 2 goes.
abbrev history : List (Call ℕ ℕ)
history =
    puts 1 10
    ∷ puts 2 20
    ∷ gets 1
    ∷ puts 3 30
    ∷ gets 2
    ∷ gets 1
    ∷ size_of
    ∷ removes 1
    ∷ exists_of 1
    ∷ []

abbrev answers : List (Answer ℕ)
answers =
    done
    ∷ done
    ∷ value (some 10)
    ∷ done
    ∷ value none
    ∷ value (some 10)
    ∷ count 2
    ∷ flag true
    ∷ flag false
    ∷ []

history_runs : run history (create 2) ≡ answers
unfolding run call create put get LruCache.exists LruCache.remove LruCache.size
history_runs = refl

run-create_example : run history (create 2) ≡ answers
unfolding recent_run recent_call lookup erase
run-create_example = run-create 2 history

call-IsValid_example : IsValid (call (puts 3 30) two).1
call-IsValid_example = call-IsValid (puts 3 30) two two-IsValid
