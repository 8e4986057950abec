-- ===== src/Tabs/Base58.antt =====
-- base58Decode of packages/tabs-sdk/src/helpers.ts.
pub mod Value
pub mod Canonical
use splits.Prelude.{
  ◌≡◌, refl, ℕ, zero, suc, ◌+◌, ◌*◌, ◌/◌, ◌%◌, String, Bool, Option, none, some, List, [], ◌∷◌,
  ◌++◌, ◌==◌, ltb, if◌then◌else◌,
}
use splits.Prelude.Text.{codes, ◌<>◌}
use splits.Outcome.{Result, ok, throw, Thrown, error, ◌>>=◌}
use Prim.Native.Char
use Prim.Native.String

unfoldable pub alphabet : List ℕ
unfolding codes
alphabet = codes "123456789ABCDEFGHJKLMNPQRSTUVWXYZabcdefghijkmnopqrstuvwxyz"

-- `indexOf`, from the index `i` on
unfoldable pub index_of : ℕ → ℕ → List ℕ → Option ℕ
index_of i c [] = none
index_of i c (d ∷ ds) = if d == c then some i else index_of (i + 1) c ds

-- the place of a character in the alphabet
unfoldable pub digit_of : ℕ → Option ℕ
unfolding index_of alphabet
digit_of c = index_of 0 c alphabet

-- `while (carry > 0)`; a carry that is not 0 shrinks in each round, so it bounds the rounds
unfoldable pub push_carry : ℕ → ℕ → List ℕ
push_carry zero carry = []
push_carry (suc fuel) carry =
    let rest = push_carry fuel (carry / 256) in if ltb 0 carry then carry % 256 ∷ rest else []

-- The loop over the bytes, the low one first, and the loop that follows it. A carry stays below
-- 2 ^ 14, so `& 0xff` and `>>= 8` are the remainder and the quotient.
unfoldable pub add_digit : List ℕ → ℕ → List ℕ
unfolding push_carry
add_digit [] carry = push_carry carry carry
add_digit (b ∷ bytes) carry = let sum = carry + b * 58 in sum % 256 ∷ add_digit bytes (sum / 256)

-- the outer loop
unfoldable pub add_digits : List ℕ → String → Result (List ℕ)
unfolding add_digit ◌<>◌
add_digits bytes String.[] = ok bytes
add_digits bytes (String.◌∷◌ c rest) = elim (digit_of (Char.code c)) [
  | none ↦ throw (error ("Invalid base58 character: " <> String.◌∷◌ c String.[]))
  | some value ↦ add_digits (add_digit bytes value) rest
]

-- one 0 for each leading "1"
unfoldable pub leading_zeros : List ℕ → List ℕ
leading_zeros [] = []
leading_zeros (c ∷ cs) = if c == 49 then 0 ∷ leading_zeros cs else []

-- `reverse`, onto a list
unfoldable pub reverse_onto : List ℕ → List ℕ → List ℕ
reverse_onto [] out = out
reverse_onto (b ∷ bytes) out = reverse_onto bytes (b ∷ out)

unfoldable pub base58_decode : String → Result (List ℕ)
unfolding add_digits leading_zeros reverse_onto codes
base58_decode str = do
  bytes ← add_digits [] str
  ok (reverse_onto (bytes ++ leading_zeros (codes str)) [])

decoded : base58_decode "112VfUX" ≡ ok (0 ∷ 0 ∷ 1 ∷ 2 ∷ 3 ∷ 4 ∷ [])
unfolding base58_decode digit_of
decoded = refl
