-- ===== src/Tabs/Base58/Canonical.antt =====
-- The bytes of a decoded text: one 0 for each leading "1", and then the shortest bytes of the
-- number that the text stands for.
use splits.Prelude.{
  subst, Option-cases, ℕ, zero, suc, ◌+◌, ◌*◌, ◌/◌, ◌%◌, ◌<◌, ◌≤◌, ◌≡◌, refl, sym, ap, ◌∙◌, inl,
  inr, String, Option, none, some, List, [], ◌∷◌, ◌++◌, ◌==◌, ltb, All, arith, Bool-cases,
}
use Prim.Native.Char
use splits.Prelude.Text.{◌<>◌, codes}
use splits.Outcome.{ok, throw, error}
use splits.Tabs.Base58.{
  digit_of, push_carry, add_digit, add_digits, leading_zeros, reverse_onto, base58_decode,
}
use splits.Tabs.Base58.Value.{
  value_58, value_256, low_first, low_first-push_carry, low_first-add_digit, value_256-bytes,
}

-- the high byte, which is the last, is not 0
abbrev Minimal : List ℕ → Type 0
Minimal [] = Unit
Minimal (b ∷ []) = 0 < b
Minimal (b ∷ c ∷ bytes) = Minimal (c ∷ bytes)

abbrev Byte : ℕ → Type 0
Byte b = b < 256

-- the first byte is not 0
abbrev pub Headed : List ℕ → Type 0
Headed [] = Unit
Headed (b ∷ bytes) = 0 < b

Minimal-cons :
    (b : ℕ) (bytes : List ℕ) → Minimal bytes → 0 < b + 256 * low_first bytes → Minimal (b ∷ bytes)
unfolding low_first
Minimal-cons b [] m h = omega (arith, h)
Minimal-cons b (c ∷ bytes) m h = m

Minimal-tail : (b : ℕ) (bytes : List ℕ) → Minimal (b ∷ bytes) → Minimal bytes
Minimal-tail b [] m = tt
Minimal-tail b (c ∷ bytes) m = m

Minimal-pos : (b : ℕ) (bytes : List ℕ) → Minimal (b ∷ bytes) → 0 < b + 256 * low_first bytes
unfolding low_first
Minimal-pos b [] m = omega (arith, m)
Minimal-pos b (c ∷ bytes) m = omega (arith, Minimal-pos c bytes m)

push_carry-Minimal : (fuel carry : ℕ) → carry ≤ fuel → Minimal (push_carry fuel carry)
unfolding push_carry
push_carry-Minimal zero carry h = tt
push_carry-Minimal (suc fuel) carry h = elim (Bool-cases (ltb 0 carry)) [
  | inl e ↦
      let less : carry / 256 ≤ fuel = omega (arith, h) in
      rw e (
        Minimal-cons (carry % 256) (push_carry fuel (carry / 256))
          (push_carry-Minimal fuel (carry / 256) less)
          (ground (arith, e, low_first-push_carry fuel (carry / 256) less)))
  | inr e ↦ rw e tt
]

add_digit-Minimal : (bytes : List ℕ) (carry : ℕ) → Minimal bytes → Minimal (add_digit bytes carry)
unfolding add_digit
add_digit-Minimal [] carry m = push_carry-Minimal carry carry (omega arith)
add_digit-Minimal (b ∷ bytes) carry m =
    let sum = carry + b * 58 in
    Minimal-cons (sum % 256) (add_digit bytes (sum / 256))
      (add_digit-Minimal bytes (sum / 256) (Minimal-tail b bytes m))
      (omega (arith, low_first-add_digit bytes (sum / 256), Minimal-pos b bytes m))

push_carry-bytes : (fuel carry : ℕ) → All Byte (push_carry fuel carry)
unfolding push_carry
push_carry-bytes zero carry = tt
push_carry-bytes (suc fuel) carry = elim (Bool-cases (ltb 0 carry)) [
  | inl e ↦ rw e (omega arith, push_carry-bytes fuel (carry / 256))
  | inr e ↦ rw e tt
]

add_digit-bytes : (bytes : List ℕ) (carry : ℕ) → All Byte (add_digit bytes carry)
unfolding add_digit
add_digit-bytes [] carry = push_carry-bytes carry carry
add_digit-bytes (b ∷ bytes) carry = (omega arith, add_digit-bytes bytes ((carry + b * 58) / 256))

-- what the outer loop returns
abbrev Digits : List ℕ → String → Option ℕ → Type 0
Digits bytes str none = (message : String) × (add_digits bytes str ≡ throw (error message))
Digits bytes str (some n) =
    (out : List ℕ) × (add_digits bytes str ≡ ok out)
    × (low_first out ≡ n)
    × Minimal out
    × All Byte out

value_58-none :
    (n : ℕ) (c : Char.Char) (rest : String)
    → digit_of (Char.code c) ≡ none
    → value_58 n (String.◌∷◌ c rest) ≡ none
unfolding value_58
value_58-none n c rest e = rw (value_58, e) refl

value_58-some :
    (n : ℕ) (c : Char.Char) (d : ℕ) (rest : String)
    → digit_of (Char.code c) ≡ some d
    → value_58 n (String.◌∷◌ c rest) ≡ value_58 (n * 58 + d) rest
unfolding value_58
value_58-some n c d rest e = rw (value_58, e) refl

Digits-cons :
    (bytes : List ℕ) (c : Char.Char) (d : ℕ) (rest : String) (o : Option ℕ)
    → digit_of (Char.code c) ≡ some d
    → Digits (add_digit bytes d) rest o
    → Digits bytes (String.◌∷◌ c rest) o
unfolding add_digits
Digits-cons bytes c d rest none e (message, h) = (message, rw (add_digits, e) h)
Digits-cons bytes c d rest (some n) e (out, h, v, m, b) = (out, rw (add_digits, e) h, v, m, b)

add_digits_lem :
    (bytes : List ℕ) (str : String)
    → Minimal bytes
    → All Byte bytes
    → Digits bytes str (value_58 (low_first bytes) str)
unfolding add_digits value_58
add_digits_lem bytes String.[] m h = (bytes, refl, refl, m, h)
add_digits_lem bytes (String.◌∷◌ c rest) m h = elim (Option-cases (digit_of (Char.code c))) [
  | inl e ↦
      subst (Digits bytes (String.◌∷◌ c rest)) (sym (value_58-none (low_first bytes) c rest e))
        ("Invalid base58 character: " <> String.◌∷◌ c String.[], rw (add_digits, e) refl)
  | inr (d, e) ↦
      let n : low_first (add_digit bytes d) ≡ low_first bytes * 58 + d =
        omega (arith, low_first-add_digit bytes d) in
      let value = value_58-some (low_first bytes) c d rest e ∙ ap (λ k. value_58 k rest) (sym n) in
      subst (Digits bytes (String.◌∷◌ c rest)) (sym value) (
        Digits-cons bytes c d rest (value_58 (low_first (add_digit bytes d)) rest) e (
          add_digits_lem (add_digit bytes d) rest (add_digit-Minimal bytes d m)
            (add_digit-bytes bytes d)))
]

reverse_onto-append :
    (xs ys out : List ℕ) → reverse_onto (xs ++ ys) out ≡ reverse_onto ys (reverse_onto xs out)
unfolding reverse_onto
reverse_onto-append [] ys out = refl
reverse_onto-append (x ∷ xs) ys out = reverse_onto-append xs ys (x ∷ out)

leading_zeros-shift :
    (cs out : List ℕ) → leading_zeros cs ++ (0 ∷ out) ≡ 0 ∷ (leading_zeros cs ++ out)
unfolding leading_zeros
leading_zeros-shift [] out = refl
leading_zeros-shift (c ∷ cs) out = elim (Bool-cases (c == 49)) [
  | inl e ↦ rw e (ap (◌∷◌ 0) (leading_zeros-shift cs out))
  | inr e ↦ rw e refl
]

reverse_onto-leading_zeros :
    (cs out : List ℕ) → reverse_onto (leading_zeros cs) out ≡ leading_zeros cs ++ out
unfolding leading_zeros reverse_onto
reverse_onto-leading_zeros [] out = refl
reverse_onto-leading_zeros (c ∷ cs) out = elim (Bool-cases (c == 49)) [
  | inl e ↦ rw e (reverse_onto-leading_zeros cs (0 ∷ out) ∙ leading_zeros-shift cs out)
  | inr e ↦ rw e refl
]

reverse_onto-Headed :
    (b : ℕ) (bytes out : List ℕ) → Minimal (b ∷ bytes) → Headed (reverse_onto (b ∷ bytes) out)
unfolding reverse_onto
reverse_onto-Headed b [] out m = m
reverse_onto-Headed b (c ∷ bytes) out m = reverse_onto-Headed c bytes (b ∷ out) m

reverse-Headed : (bytes : List ℕ) → Minimal bytes → Headed (reverse_onto bytes [])
unfolding reverse_onto
reverse-Headed [] m = tt
reverse-Headed (b ∷ bytes) m = reverse_onto-Headed b bytes [] m

reverse_onto-bytes :
    (bytes out : List ℕ) → All Byte bytes → All Byte out → All Byte (reverse_onto bytes out)
unfolding reverse_onto
reverse_onto-bytes [] out h i = i
reverse_onto-bytes (b ∷ bytes) out h i = reverse_onto-bytes bytes (b ∷ out) h.1 (h.0, i)

-- the value of the text, or what is thrown
abbrev pub Decodes : String → Option ℕ → Type 0
Decodes str none = (message : String) × (base58_decode str ≡ throw (error message))
Decodes str (some n) =
    (rest : List ℕ) × (base58_decode str ≡ ok (leading_zeros (codes str) ++ rest))
    × (value_256 0 (leading_zeros (codes str) ++ rest) ≡ n)
    × Headed rest
    × All (λ b. b < 256) rest

Decodes-of_Digits : (str : String) (o : Option ℕ) → Digits [] str o → Decodes str o
unfolding base58_decode
Decodes-of_Digits str none (message, e) = (message, rw e refl)
Decodes-of_Digits str (some n) (out, e, v, m, b) =
    let zeros = leading_zeros (codes str) in
    let same : reverse_onto (out ++ zeros) [] ≡ zeros ++ reverse_onto out [] =
      reverse_onto-append out zeros []
      ∙ reverse_onto-leading_zeros (codes str) (reverse_onto out []) in
    (
      reverse_onto out [],
      rw e (ap ok same),
      ap (value_256 0) (sym same) ∙ (value_256-bytes out (codes str) ∙ v),
      reverse-Headed out m,
      reverse_onto-bytes out [] b tt,
    )

-- For every text, `base58Decode` returns if each character is in the alphabet and throws an error
-- otherwise. The bytes are one 0 for each leading 1 of the text, followed by bytes of which the
-- first is not 0; each is below 256, and as a number of base 256 they are the text as a number of
-- base 58.
pub base58_decode_lem : (str : String) → Decodes str (value_58 0 str)
unfolding low_first
base58_decode_lem str = Decodes-of_Digits str (value_58 0 str) (add_digits_lem [] str tt tt)
