-- ===== src/Prelude/Integers/Shown.antt =====
-- `BigInt` reads the decimal text of a bigint back.
use Prim.Native.Nat.{ℕ, zero, suc, ◌+◌, ◌-◌, ◌*◌, ◌/◌, ◌%◌, ◌≤◌, ◌<◌}
use Prim.Native.String.{String}
use mathlib.Core.Path.{◌≡◌, refl, ap, subst, ◌∙◌}
use mathlib.Core.Logic.{inl, inr}
use mathlib.Core.Bool.{false}
use mathlib.Core.List.{List, [], ◌∷◌, ◌++◌}
use mathlib.Core.Option.{none, some}
use native.Mathlib.Omega.{arith}
use splits.Prelude.Tests.{ltb, ◌==◌, Bool-cases}
use splits.Prelude.Lists.{All}
use splits.Prelude.Text.{codes, show, show_fuel, digit, ◌<>◌}
use splits.Prelude.Integers.{
  ℤ, pos, negsuc, neg, show_int, is_space, trim_start, trim_end, digit_value, read_digits,
  read_number, radix, map_ℤ, read_unsigned, read_trimmed, read_int,
}
use Prim.Native.Char
use text.Mathlib.TextLemmas.{nil-append, cons-append}

abbrev Digit : ℕ → Type 0
Digit c = (48 ≤ c) × (c ≤ 57)

codes-append : (s t : String) → codes (s <> t) ≡ codes s ++ codes t
unfolding codes ◌<>◌
codes-append String.[] t = ap codes (nil-append t)
codes-append (String.◌∷◌ c s) t =
    ap codes (cons-append c s t) ∙ ap (◌∷◌ (Char.code c)) (codes-append s t)

codes-digit : (d : ℕ) → d < 10 → codes (digit d) ≡ (48 + d) ∷ []
unfolding codes digit
codes-digit zero h = refl
codes-digit (suc zero) h = refl
codes-digit (suc (suc zero)) h = refl
codes-digit (suc (suc (suc zero))) h = refl
codes-digit (suc (suc (suc (suc zero)))) h = refl
codes-digit (suc (suc (suc (suc (suc zero))))) h = refl
codes-digit (suc (suc (suc (suc (suc (suc zero)))))) h = refl
codes-digit (suc (suc (suc (suc (suc (suc (suc zero))))))) h = refl
codes-digit (suc (suc (suc (suc (suc (suc (suc (suc zero)))))))) h = refl
codes-digit (suc (suc (suc (suc (suc (suc (suc (suc (suc zero))))))))) h = refl
codes-digit (suc (suc (suc (suc (suc (suc (suc (suc (suc (suc d)))))))))) h =
    absurd (omega (arith, h))

read_digits-append :
    (n v d : ℕ) (cs : List ℕ)
    → d < 10
    → read_digits 10 n cs ≡ some v
    → read_digits 10 n (cs ++ (48 + d) ∷ []) ≡ some (v * 10 + d)
unfolding read_digits digit_value
read_digits-append n v d [] low h = ground (arith, low, h)
read_digits-append n v d (c ∷ cs) low h =
    ground (arith, h, read_digits-append (n * 10 + digit_value c) v d cs low)

All-append : (xs ys : List ℕ) → All Digit xs → All Digit ys → All Digit (xs ++ ys)
All-append [] ys h i = i
All-append (x ∷ xs) ys h i = (h.0, All-append xs ys h.1 i)

-- the digits of a number, and that they are some
abbrev Shows : List ℕ → ℕ → Type 0
Shows cs n = (read_number 10 cs ≡ some n) × All Digit cs

Shows-digit : (d : ℕ) → d < 10 → Shows ((48 + d) ∷ []) d
unfolding read_number read_digits digit_value
Shows-digit d h = (ground (arith, h), ((omega arith, omega (arith, h)), tt))

Shows-append :
    (cs : List ℕ) (n d : ℕ) → d < 10 → Shows cs n → Shows (cs ++ (48 + d) ∷ []) (n * 10 + d)
unfolding read_number
Shows-append [] n d low (h, a) = cc
Shows-append (c ∷ cs) n d low (h, a) = (
  read_digits-append 0 n d (c ∷ cs) low h,
  All-append (c ∷ cs) ((48 + d) ∷ []) a ((omega arith, omega (arith, low)), tt),
)

Shows-show_fuel : (fuel n : ℕ) → n < fuel → Shows (codes (show_fuel fuel n)) n
unfolding show_fuel
Shows-show_fuel zero n h = absurd (omega (arith, h))
Shows-show_fuel (suc fuel) n h = elim (Bool-cases (ltb n 10)) [
  | inl e ↦ let low : n < 10 = ground (arith, e) in rw (e, codes-digit n low) (Shows-digit n low)
  | inr e ↦
      let large : n / 10 < fuel = ground (arith, e, h) in
      let low : n % 10 < 10 = omega arith in
      let same : (n / 10) * 10 + n % 10 ≡ n = omega arith in
      rw (e, codes-append, codes-digit (n % 10) low)
        (subst (Shows (codes (show_fuel fuel (n / 10)) ++ (48 + n % 10) ∷ [])) same (
          Shows-append (codes (show_fuel fuel (n / 10))) (n / 10) (n % 10) low
            (Shows-show_fuel fuel (n / 10) large)))
]

pub Shows-show : (n : ℕ) → Shows (codes (show n)) n
unfolding show
Shows-show n = Shows-show_fuel (suc n) n (omega arith)

is_space-Digit : (c : ℕ) → Digit c → is_space c ≡ false
unfolding is_space
is_space-Digit c (h, i) = ground (arith, h, i)

trim_start-digits : (cs : List ℕ) → All Digit cs → trim_start cs ≡ cs
unfolding trim_start
trim_start-digits [] h = refl
trim_start-digits (c ∷ cs) h = rw (is_space-Digit c h.0) refl

trim_end-digits : (cs : List ℕ) → All Digit cs → trim_end cs ≡ cs
unfolding trim_end
trim_end-digits [] h = refl
trim_end-digits (c ∷ []) h = rw (is_space-Digit c h.0) refl
trim_end-digits (c ∷ d ∷ cs) h = rw (trim_end, trim_end-digits (d ∷ cs) h.1) refl

radix-Digit : (c : ℕ) → Digit c → radix c ≡ none
unfolding radix
radix-Digit c (h, i) = ground (arith, h, i)

read_unsigned-digits : (cs : List ℕ) → All Digit cs → read_unsigned cs ≡ read_number 10 cs
unfolding read_unsigned
read_unsigned-digits [] h = refl
read_unsigned-digits (c ∷ []) h = refl
read_unsigned-digits (c ∷ d ∷ cs) h = elim (Bool-cases (c == 48)) [
  | inl e ↦ rw (read_unsigned, e, radix-Digit d h.1.0) refl
  | inr e ↦ rw (read_unsigned, e) refl
]

read_int-digits : (cs : List ℕ) (n : ℕ) → Shows cs n → read_int cs ≡ some (pos n)
unfolding read_int read_trimmed read_number map_ℤ
read_int-digits [] n (h, a) = cc
read_int-digits (c ∷ cs) n (h, a) =
    let plus : (c == 43) ≡ false = ground (arith, a.0.0) in
    let minus : (c == 45) ≡ false = ground (arith, a.0.0) in
    rw
      (
        trim_start-digits (c ∷ cs) a,
        trim_end-digits (c ∷ cs) a,
        plus,
        minus,
        read_unsigned-digits (c ∷ cs) a,
        h,
      )
      refl

neg-suc : (n : ℕ) → neg (suc n) ≡ negsuc n
unfolding neg
neg-suc n = let same : suc n - 1 ≡ n = omega arith in ground (arith, same)

read_int-minus : (cs : List ℕ) (n : ℕ) → Shows cs (suc n) → read_int (45 ∷ cs) ≡ some (negsuc n)
unfolding read_int read_trimmed read_number map_ℤ
read_int-minus [] n (h, a) = cc
read_int-minus (c ∷ cs) n (h, a) = rw (trim_end-digits (c ∷ cs) a, h, neg-suc n) refl

pub read_int-show_int : (z : ℤ) → read_int (codes (show_int z)) ≡ some z
unfolding show_int codes
read_int-show_int (pos n) = read_int-digits (codes (show n)) n (Shows-show n)
read_int-show_int (negsuc n) =
    rw (codes-append "-" (show (suc n)))
      (read_int-minus (codes (show (suc n))) n (Shows-show (suc n)))
