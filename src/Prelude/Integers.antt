-- ===== src/Prelude/Integers.antt =====
-- The JavaScript `bigint`, and `BigInt(text)` on the codes of a text.
pub mod Shown
use Prim.Native.Nat.{ℕ, suc, ◌+◌, ◌-◌, ◌*◌}
use Prim.Native.String.{String}
use mathlib.Core.Path.{◌≡◌, refl}
use mathlib.Core.Bool.{Bool, true, false, ◌&&◌, ◌||◌}
use mathlib.Core.List.{List, [], ◌∷◌}
use mathlib.Core.Option.{Option, none, some}
use splits.Prelude.Tests.{ltb, leb, ◌==◌, if◌then◌else◌}
use splits.Prelude.Text.{codes, show, ◌<>◌}

pub data ℤ : Type 0 where
  pos : ℕ → ℤ
  -- `negsuc n` is -(n + 1)
  negsuc : ℕ → ℤ

unfoldable pub neg : ℕ → ℤ
neg n = if ltb 0 n then negsuc (n - 1) else pos 0

unfoldable pub negate : ℤ → ℤ
unfolding neg
negate (pos n) = neg n
negate (negsuc n) = pos (suc n)

-- `m - n`
unfoldable pub minus : ℕ → ℕ → ℤ
unfolding neg
minus m n = if leb n m then pos (m - n) else neg (n - m)

infixl 60 ◌+ℤ◌
unfoldable pub ◌+ℤ◌ : ℤ → ℤ → ℤ
unfolding minus
pos m +ℤ pos n = pos (m + n)
pos m +ℤ negsuc n = minus m (suc n)
negsuc m +ℤ pos n = minus n (suc m)
negsuc m +ℤ negsuc n = negsuc (suc (m + n))

infixl 60 ◌-ℤ◌
unfoldable pub ◌-ℤ◌ : ℤ → ℤ → ℤ
unfolding ◌+ℤ◌ negate
a -ℤ b = a +ℤ negate b

-- `a * n` for a natural `n`
unfoldable pub times : ℤ → ℕ → ℤ
unfolding neg
times (pos m) n = pos (m * n)
times (negsuc m) n = neg (suc m * n)

-- `a > b`
unfoldable pub greater : ℤ → ℤ → Bool
greater (pos m) (pos n) = ltb n m
greater (pos m) (negsuc n) = true
greater (negsuc m) (pos n) = false
greater (negsuc m) (negsuc n) = ltb m n

-- `a.toString()`
unfoldable pub show_int : ℤ → String
unfolding show ◌<>◌
show_int (pos n) = show n
show_int (negsuc n) = "-" <> show (suc n)

-- the white space and the line ends of JavaScript
unfoldable pub is_space : ℕ → Bool
is_space c =
    (leb 9 c && leb c 13)
    || c == 32
    || c == 160
    || c == 5760
    || (leb 8192 c && leb c 8202)
    || c == 8232
    || c == 8233
    || c == 8239
    || c == 8287
    || c == 12288
    || c == 65279

unfoldable pub trim_start : List ℕ → List ℕ
unfolding is_space
trim_start [] = []
trim_start (c ∷ cs) = if is_space c then trim_start cs else c ∷ cs

-- white space that is followed by nothing else goes
unfoldable pub trim_end : List ℕ → List ℕ
unfolding is_space
trim_end [] = []
trim_end (c ∷ cs) = elim (trim_end cs) [
  | [] ↦ if is_space c then [] else c ∷ []
  | d ∷ ds ↦ c ∷ d ∷ ds
]

-- the value of a digit of at most 36
unfoldable pub digit_value : ℕ → ℕ
digit_value c =
    if leb 48 c && leb c 57
    then c - 48
    else if leb 97 c && leb c 122
    then c - 87
    else if leb 65 c && leb c 90
    then c - 55
    else 36

unfoldable pub read_digits : ℕ → ℕ → List ℕ → Option ℕ
unfolding digit_value
read_digits base n [] = some n
read_digits base n (c ∷ cs) =
    let rest = read_digits base (n * base + digit_value c) cs in
    if ltb (digit_value c) base then rest else none

-- at least one digit
unfoldable pub read_number : ℕ → List ℕ → Option ℕ
unfolding read_digits
read_number base [] = none
read_number base (c ∷ cs) = read_digits base 0 (c ∷ cs)

-- the base that the letter after a leading 0 names
unfoldable pub radix : ℕ → Option ℕ
radix c =
    if c == 120 || c == 88
    then some 16
    else if c == 111 || c == 79
    then some 8
    else if c == 98 || c == 66
    then some 2
    else none

unfoldable pub map_ℤ : (ℕ → ℤ) → Option ℕ → Option ℤ
map_ℤ f none = none
map_ℤ f (some n) = some (f n)

unfoldable pub read_unsigned : List ℕ → Option ℕ
unfolding read_number radix
read_unsigned (z ∷ x ∷ cs) = elim (if z == 48 then radix x else none) [
  | none ↦ read_number 10 (z ∷ x ∷ cs)
  | some base ↦ read_number base cs
]
read_unsigned cs = read_number 10 cs

unfoldable pub read_trimmed : List ℕ → Option ℤ
unfolding map_ℤ read_unsigned neg
read_trimmed [] = some (pos 0)
read_trimmed (c ∷ cs) =
    if c == 43
    then map_ℤ pos (read_number 10 cs)
    else if c == 45
    then map_ℤ neg (read_number 10 cs)
    else map_ℤ pos (read_unsigned (c ∷ cs))

unfoldable pub read_int : List ℕ → Option ℤ
unfolding trim_start trim_end read_trimmed
read_int cs = read_trimmed (trim_end (trim_start cs))

read_int_examples :
    (read_int (codes " 42 ") ≡ some (pos 42))
    × (read_int (codes "-7") ≡ some (negsuc 6))
    × (read_int (codes "0x1F") ≡ some (pos 31))
    × (read_int (codes "") ≡ some (pos 0))
    × (read_int (codes "-0x1") ≡ none)
    × (read_int (codes "1.5") ≡ none)
unfolding read_int codes
read_int_examples = (refl, refl, refl, refl, refl, refl)
