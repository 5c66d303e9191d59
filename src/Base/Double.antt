-- ===== src/Base/Double.antt =====
-- The double-precision numbers of JavaScript that are not negative: `n : ℕ` stands for n / 2 ^ 1074, of
-- which every such number is a multiple. An operation gives the double that is nearest to its exact
-- result, of two such the one with an even significand. Results are below 2 ^ 900 here, so that nothing
-- becomes infinite, and no divisor is 0.
use Prim.Native.Nat.{ℕ, ◌+◌, ◌*◌, ◌-◌, ◌/◌, ◌%◌, ◌^◌}
use mathlib.Core.List.{List, [], ◌∷◌}
use obbian_ribe_booking_app.Base.Tests.{if◌then◌else◌, leb, ltb}

abbrev pub Double : Type 0
Double = ℕ

abbrev pub one : Double
one = 2 ^ 1074

-- The quotient, rounded, on a tie to the even number.
abbrev pub round_even : ℕ → ℕ → ℕ
round_even a b =
    if ltb (2 * (a % b)) b
    then a / b
    else if ltb b (2 * (a % b))
    then a / b + 1
    else a / b + (a / b) % 2

-- The exponent of the last of the 53 bits that a double keeps of a number: the largest e for which
-- 2 ^ (52 + e) is not above it, or 0.
exponent : List ℕ → ℕ → ℕ → ℕ
exponent [] e n = e
exponent (k ∷ ks) e n = exponent ks (if leb (2 ^ (52 + (e + k))) n then e + k else e) n

abbrev steps : List ℕ
steps = 1024 ∷ 512 ∷ 256 ∷ 128 ∷ 64 ∷ 32 ∷ 16 ∷ 8 ∷ 4 ∷ 2 ∷ 1 ∷ []

-- The double nearest to a / b, in units of 2 ^ -1074.
unfoldable pub nearest : ℕ → ℕ → Double
unfolding exponent
nearest a b = let e = exponent steps 0 (a / b) in round_even a (b * 2 ^ e) * 2 ^ e

-- The double of a fraction, as that of the decimal text of an amount or a coordinate.
unfoldable pub double : ℕ → ℕ → Double
double a b = nearest (a * one) b

unfoldable pub add : Double → Double → Double
add x y = nearest (x + y) 1

-- For y not above x.
unfoldable pub sub : Double → Double → Double
sub x y = nearest (x - y) 1

unfoldable pub mul : Double → Double → Double
mul x y = nearest (x * y) one

unfoldable pub div : Double → Double → Double
div x y = nearest (x * one) y

-- Math.round and Math.ceil
unfoldable pub round : Double → ℕ
round x = (2 * x + one) / (2 * one)

unfoldable pub ceil : Double → ℕ
ceil x = (x + one - 1) / one
