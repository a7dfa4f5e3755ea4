-- ===== src/Common/Decimal.antt =====
-- What `snprintf` makes of `%d`, and literal texts as the numbers of their characters.
use Prim.Native.Char.{code}
use Prim.Native.String.{String}
use Prim.Native.Nat.{ℕ, zero, suc, ◌+◌, ◌/◌, ◌%◌}
use mathlib.Core.List.{List, [], ◌∷◌}
use train_utils.Common.Tests.{if◌then◌else◌, ltb}

-- The code points of a text: `String` has its own `[]` and `∷`.
abbrev pub codes : String → List ℕ
codes String.[] = []
codes (String.◌∷◌ c s) = code c ∷ codes s

unfoldable pub digits_before : ℕ → ℕ → List ℕ → List ℕ
digits_before zero n rest = rest
digits_before (suc k) n rest =
    let more = digits_before k (n / 10) ((48 + n % 10) ∷ rest) in
    if ltb n 10 then (48 + n) ∷ rest else more

-- `%d`: ten digits are enough for 32 bits.
unfoldable pub decimal : ℕ → List ℕ
decimal n = digits_before 10 n []
