-- ===== src/TtlCache/Examples.antt =====
-- Two writes of one key, and a read of another.
use stornas.Base.{ℕ, ◌≡◌, refl, ◌↔◌, none, some, List, [], ◌∷◌, arith}
use stornas.TtlCache.{is_unexpired, is_expired, read_entry, evict, get, put}
use stornas.TtlCache.Fresh.{Put, after, last_put, IsYoung, get-after_iff}

cache_runs : Unit {0}
unfolding is_unexpired is_expired read_entry evict get put
cache_runs = tt

abbrev puts : List (Put ℕ)
puts =
    record { time = 12; key = "b"; val = 3 }
    ∷ record { time = 5; key = "a"; val = 2 }
    ∷ record { time = 1; key = "a"; val = 1 }
    ∷ []

lives : (get 14 "a" (after 10 puts) ≡ some 2) × (get 15 "a" (after 10 puts) ≡ none)
unfolding cache_runs
lives = (refl, refl)

get-after_iff_example : (get 14 "a" (after 10 puts) ≡ some 2) ↔ IsYoung 10 14 (last_put "a" puts) 2
get-after_iff_example =
    get-after_iff 10 14 "a" puts 2 (omega arith, (omega arith, (omega arith, tt)))
