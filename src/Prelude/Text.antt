-- ===== src/Prelude/Text.antt =====
-- The texts of the source. A `String` holds code points; the texts that the program measures or
-- cuts (addresses, labels) are ASCII, where code points, code units and bytes agree.
use Prim.Native.Nat.{ℕ, zero, suc, ◌+◌, ◌-◌, ◌/◌, ◌%◌}
use Prim.Native.Char
use Prim.Native.String
use Prim.Native.String.{String, len, slice}
use mathlib.Core.Path.{◌≡◌, refl}
use mathlib.Core.Bool.{Bool, true, false, ◌&&◌, ◌||◌}
use mathlib.Core.List.{List, [], ◌∷◌, map}
use splits.Prelude.Tests.{ltb, leb, ◌==◌, if◌then◌else◌}

infixr 65 ◌<>◌
-- `+` on strings, and the joins of a template
unfoldable pub ◌<>◌ : String → String → String
s <> t = String.◌++◌ s t

unfoldable pub codes : String → List ℕ
codes String.[] = []
codes (String.◌∷◌ c s) = Char.code c ∷ codes s

unfoldable pub has_prefix : List ℕ → List ℕ → Bool
has_prefix [] s = true
has_prefix (p ∷ ps) [] = false
has_prefix (p ∷ ps) (c ∷ cs) = p == c && has_prefix ps cs

-- `text.includes(part)`
unfoldable pub has_infix : List ℕ → List ℕ → Bool
unfolding has_prefix
has_infix part [] = has_prefix part []
has_infix part (c ∷ cs) = has_prefix part (c ∷ cs) || has_infix part cs

unfoldable pub includes : String → String → Bool
unfolding codes has_infix
includes text part = has_infix (codes part) (codes text)

-- `toLowerCase` on ASCII letters and on the Kelvin sign, which is lowered to an ASCII letter
unfoldable pub lower_code : ℕ → ℕ
lower_code c = if leb 65 c && leb c 90 then c + 32 else if c == 8490 then 107 else c

-- `text.toLowerCase().includes(part)`
unfoldable pub lower_includes : String → String → Bool
unfolding codes has_infix lower_code
lower_includes text part = has_infix (codes part) (map lower_code (codes text))

unfoldable pub digit : ℕ → String
digit zero = "0"
digit (suc zero) = "1"
digit (suc (suc zero)) = "2"
digit (suc (suc (suc zero))) = "3"
digit (suc (suc (suc (suc zero)))) = "4"
digit (suc (suc (suc (suc (suc zero))))) = "5"
digit (suc (suc (suc (suc (suc (suc zero)))))) = "6"
digit (suc (suc (suc (suc (suc (suc (suc zero))))))) = "7"
digit (suc (suc (suc (suc (suc (suc (suc (suc zero)))))))) = "8"
digit _ = "9"

-- `n.toString()` in decimal; a number has fewer digits than its successor
unfoldable pub show_fuel : ℕ → ℕ → String
unfolding digit ◌<>◌
show_fuel zero n = ""
show_fuel (suc fuel) n =
    let rest = show_fuel fuel (n / 10) in if ltb n 10 then digit n else rest <> digit (n % 10)

unfoldable pub show : ℕ → String
unfolding show_fuel
show n = show_fuel (suc n) n

show_example : show 9900 ≡ "9900"
unfolding show
show_example = refl

-- `text.slice(0, n)` and `text.slice(-n)`
unfoldable pub first_part : String → ℕ → String
first_part s n = slice s 0 n

unfoldable pub last_part : String → ℕ → String
last_part s n = slice s (len s - n) (len s)

includes_example : lower_includes "Blockhash not found" "blockhash" ≡ true
unfolding lower_includes
includes_example = refl
