-- ===== src/Solana/Reads/Words.antt =====
-- The little-endian amounts of token accounts.
use splits.Prelude.{
  ℕ, zero, suc, ◌/◌, ◌%◌, ◌^◌, ◌<◌, ◌≡◌, refl, List, [], ◌∷◌, ◌++◌, length, take, drop, arith,
  take_append_self, ap, ◌∙◌,
}
use splits.Solana.Reads.{le_value, read_u64_le}

-- the `n` low bytes of a number, the least significant first
unfoldable pub le_bytes : ℕ → ℕ → List ℕ
le_bytes zero v = []
le_bytes (suc n) v = v % 256 ∷ le_bytes n (v / 256)

pub length-le_bytes : (n v : ℕ) → length (le_bytes n v) ≡ n
unfolding le_bytes
length-le_bytes zero v = refl
length-le_bytes (suc n) v = ap suc (length-le_bytes n (v / 256))

le_value-le_bytes : (v : ℕ) → v < 256 ^ 8 → le_value (le_bytes 8 v) ≡ v
unfolding le_value le_bytes
le_value-le_bytes v h = omega arith

pub drop_append_self : (xs ys : List ℕ) (n : ℕ) → length xs ≡ n → drop n (xs ++ ys) ≡ ys
drop_append_self [] ys zero h = refl
drop_append_self [] ys (suc n) h = absurd (omega arith)
drop_append_self (x ∷ xs) ys zero h = absurd (omega arith)
drop_append_self (x ∷ xs) ys (suc n) h = drop_append_self xs ys n (omega arith)

-- For a number below 2 ^ 64, reading eight bytes at the offset where its little-endian bytes stand
-- gives the number.
pub read_u64_le-le_bytes :
    (before after : List ℕ) (v : ℕ)
    → v < 256 ^ 8
    → read_u64_le (before ++ (le_bytes 8 v ++ after)) (length before) ≡ v
unfolding read_u64_le
read_u64_le-le_bytes before after v h =
    ap (λ (bs : List ℕ). le_value (take 8 bs)) (drop_append_self before _ (length before) refl)
    ∙ ap le_value (take_append_self (le_bytes 8 v) after 8 (length-le_bytes 8 v))
    ∙ le_value-le_bytes v h
