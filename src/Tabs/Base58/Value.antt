-- ===== src/Tabs/Base58/Value.antt =====
-- The number that the bytes of the loops stand for, and the two positional notations.
use splits.Prelude.{
  ℕ, zero, suc, ◌+◌, ◌*◌, ◌/◌, ◌≤◌, ◌≡◌, refl, ap, ◌∙◌, String, Option, none, some, List, [], ◌∷◌,
  ◌++◌, arith,
}
use Prim.Native.Char
use splits.Tabs.Base58.{digit_of, push_carry, add_digit, leading_zeros, reverse_onto}

-- a text as a number of base 58, after the digits that make up `n`; none when a character is no digit
unfoldable pub value_58 : ℕ → String → Option ℕ
value_58 n String.[] = some n
value_58 n (String.◌∷◌ c rest) = elim (digit_of (Char.code c)) [
  | none ↦ none
  | some d ↦ value_58 (n * 58 + d) rest
]

-- bytes as a number, the high byte first
unfoldable pub value_256 : ℕ → List ℕ → ℕ
value_256 n [] = n
value_256 n (b ∷ bytes) = value_256 (n * 256 + b) bytes

-- the same, the low byte first
unfoldable pub low_first : List ℕ → ℕ
low_first [] = 0
low_first (b ∷ bytes) = b + 256 * low_first bytes

pub low_first-push_carry :
    (fuel carry : ℕ) → carry ≤ fuel → low_first (push_carry fuel carry) ≡ carry
unfolding low_first push_carry
low_first-push_carry zero carry h = omega (arith, h)
low_first-push_carry (suc fuel) carry h = ground (arith, low_first-push_carry fuel (carry / 256))

pub low_first-add_digit :
    (bytes : List ℕ) (carry : ℕ) → low_first (add_digit bytes carry) ≡ 58 * low_first bytes + carry
unfolding low_first add_digit
low_first-add_digit [] carry = omega (arith, low_first-push_carry carry carry (omega arith))
low_first-add_digit (b ∷ bytes) carry =
    omega (arith, low_first-add_digit bytes ((carry + b * 58) / 256))

low_first-leading_zeros : (cs : List ℕ) → low_first (leading_zeros cs) ≡ 0
unfolding low_first leading_zeros
low_first-leading_zeros [] = refl
low_first-leading_zeros (c ∷ cs) = ground (arith, low_first-leading_zeros cs)

low_first-append : (bytes cs : List ℕ) → low_first (bytes ++ leading_zeros cs) ≡ low_first bytes
unfolding low_first
low_first-append [] cs = low_first-leading_zeros cs
low_first-append (b ∷ bytes) cs = omega (arith, low_first-append bytes cs)

value_256-reverse_onto :
    (bytes out : List ℕ) → value_256 0 (reverse_onto bytes out) ≡ value_256 (low_first bytes) out
unfolding value_256 reverse_onto low_first
value_256-reverse_onto [] out = refl
value_256-reverse_onto (b ∷ bytes) out =
    let n : low_first bytes * 256 + b ≡ b + 256 * low_first bytes = omega arith in
    value_256-reverse_onto bytes (b ∷ out) ∙ ap (λ k. value_256 k out) n

pub value_256-bytes :
    (bytes cs : List ℕ)
    → value_256 0 (reverse_onto (bytes ++ leading_zeros cs) []) ≡ low_first bytes
unfolding value_256
value_256-bytes bytes cs =
    value_256-reverse_onto (bytes ++ leading_zeros cs) [] ∙ low_first-append bytes cs
