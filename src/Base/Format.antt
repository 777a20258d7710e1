-- ===== src/Base/Format.antt =====
-- The texts that Go's `fmt` and `strings` make: `%d`, `strings.Join`.
use Prim.Native.Nat.{ℕ, zero, suc, ◌/◌, ◌%◌}
use Prim.Native.String.{String}
use mathlib.Core.List.{List, [], ◌∷◌}
use stornas.Base.Tests.{ltb, nat_eq, if◌then◌else◌, ◌<>◌}

digit : ℕ → String
digit n =
    if nat_eq n 0
    then "0"
    else if nat_eq n 1
    then "1"
    else if nat_eq n 2
    then "2"
    else if nat_eq n 3
    then "3"
    else if nat_eq n 4
    then "4"
    else if nat_eq n 5
    then "5"
    else if nat_eq n 6
    then "6"
    else if nat_eq n 7
    then "7"
    else if nat_eq n 8
    then "8"
    else "9"

-- A number below 10 ^ fuel.
digits_of : ℕ → ℕ → String
unfolding digit
digits_of zero n = ""
digits_of (suc f) n =
    let rest = digits_of f (n / 10) in if ltb n 10 then digit n else rest <> digit (n % 10)

-- A number has no more digits than one more than itself.
unfoldable pub decimal : ℕ → String
unfolding digits_of
decimal n = digits_of (suc n) n

unfoldable pub join : String → List String → String
join sep [] = ""
join sep (s ∷ []) = s
join sep (s ∷ t ∷ ts) = s <> sep <> join sep (t ∷ ts)
