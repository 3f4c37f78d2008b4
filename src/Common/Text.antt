-- ===== src/Common/Text.antt =====
-- Go strings: concatenation and the decimal print of `%d`.
use Prim.Native.Nat.{ℕ, zero, suc, ◌/◌, ◌%◌}
use Prim.Native.String.{String, ◌++◌}
use mathlib.Core.Path.{sym, ◌∙◌}
use mathlib.Core.Logic.{◌≢◌}
use mathlib.Core.List.{List, [], ◌∷◌}
use text.Mathlib.TextLemmas.{append_cancel_left, append-nil}
use falco_operator.Common.Tests.{ltb, if◌then◌else◌}

abbrev pub append : String → String → String
append s t = s ++ t

-- `strings.Join`
unfoldable pub join_strings : String → List String → String
join_strings sep [] = ""
join_strings sep (s ∷ []) = s
join_strings sep (s ∷ t ∷ ts) = s ++ (sep ++ join_strings sep (t ∷ ts))

digit : ℕ → String
digit zero = "0"
digit (suc zero) = "1"
digit (suc (suc zero)) = "2"
digit (suc (suc (suc zero))) = "3"
digit (suc (suc (suc (suc zero)))) = "4"
digit (suc (suc (suc (suc (suc zero))))) = "5"
digit (suc (suc (suc (suc (suc (suc zero)))))) = "6"
digit (suc (suc (suc (suc (suc (suc (suc zero))))))) = "7"
digit (suc (suc (suc (suc (suc (suc (suc (suc zero)))))))) = "8"
digit (suc (suc (suc (suc (suc (suc (suc (suc (suc d))))))))) = "9"

itoa_from : ℕ → ℕ → String → String
unfolding digit
itoa_from zero n acc = acc
itoa_from (suc fuel) n acc =
    let rest = itoa_from fuel (n / 10) (digit (n % 10) ++ acc) in
    if ltb n 10 then digit n ++ acc else rest

-- `n` digits are more than enough fuel.
unfoldable pub itoa : ℕ → String
unfolding itoa_from
itoa n = itoa_from (suc n) n ""

-- `%0*d` at width 2
unfoldable pub pad2 : ℕ → String
unfolding itoa
pad2 n = if ltb n 10 then "0" ++ itoa n else itoa n

-- A suffix that is not empty makes another text.
pub append-ne : (s t : String) → t ≢ "" → (s ++ t) ≢ s
append-ne s t h e = h (append_cancel_left s t "" (e ∙ sym (append-nil s)))
