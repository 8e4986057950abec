-- ===== src/Solana/Atas/Missing.antt =====
-- Which token accounts are found missing, and which are created once.
use splits.Prelude.{
  ℕ, zero, suc, ◌≡◌, refl, Bool, true, false, not, ◌||◌, Option, none, some, List, [], ◌∷◌, ◌++◌,
  eq_iff, arith, ap, get_elem?, ◌&&◌,
}
use splits.Solana.Types.{Address, MissingAta}
use splits.Solana.Network.{AccountInfo}
use splits.Solana.Atas.{missing_of, has_ata, deduplicate_atas}

has_ata-append :
    (xs ys : List MissingAta) (a : Address) → has_ata (xs ++ ys) a ≡ (has_ata xs a || has_ata ys a)
unfolding has_ata
has_ata-append [] ys a = refl
has_ata-append (x ∷ xs) ys a = ground (arith, has_ata-append xs ys a)

has_ata-eq : (xs : List MissingAta) (a b : Address) → a ≡ b → has_ata xs a ≡ has_ata xs b
has_ata-eq xs a b e = ap (has_ata xs) e

kept_has_ata :
    (existing new : List MissingAta) (a : Address)
    → has_ata (deduplicate_atas existing new) a ≡ (not (has_ata existing a) && has_ata new a)
unfolding has_ata deduplicate_atas
kept_has_ata existing [] a = ground arith
kept_has_ata existing (x ∷ xs) a =
    ground (arith, eq_iff x.ata a, has_ata-eq existing x.ata a, kept_has_ata existing xs a)

-- A token account stands in the accounts to be created followed by what `deduplicateAtas` keeps of
-- the newly missing ones exactly if it stands in one of the two lists.
pub has_ata-deduplicate_atas :
    (existing new : List MissingAta) (a : Address)
    → has_ata (existing ++ deduplicate_atas existing new) a ≡ (has_ata existing a || has_ata new a)
has_ata-deduplicate_atas existing new a =
    ground (
      arith,
      has_ata-append existing (deduplicate_atas existing new) a,
      kept_has_ata existing new a,
    )

-- no token account stands in the list twice
abbrev pub Unique : List MissingAta → Type 0
Unique [] = Unit
Unique (x ∷ xs) = (has_ata xs x.ata ≡ false) × Unique xs

Unique-kept : (existing new : List MissingAta) → Unique new → Unique (deduplicate_atas existing new)
unfolding deduplicate_atas
Unique-kept existing [] u = tt
Unique-kept existing (x ∷ xs) u =
    ground (arith, kept_has_ata existing xs x.ata, Unique-kept existing xs)

Unique-append :
    (xs ys : List MissingAta)
    → Unique xs
    → Unique ys
    → ((x : MissingAta) → has_ata xs x.ata ≡ true → has_ata ys x.ata ≡ false)
    → Unique (xs ++ ys)
unfolding has_ata
Unique-append [] ys u v apart = v
Unique-append (x ∷ xs) ys u v apart = (
  ground (arith, has_ata-append xs ys x.ata, apart x, eq_iff x.ata x.ata),
  Unique-append xs ys u.1 v (λ y h. apart y (ground arith)),
)

-- If no token account stands twice in the accounts to be created nor in the newly missing ones,
-- none stands twice in the first list followed by what `deduplicateAtas` keeps of the second.
pub deduplicate_atas-Unique :
    (existing new : List MissingAta)
    → Unique existing
    → Unique new
    → Unique (existing ++ deduplicate_atas existing new)
deduplicate_atas-Unique existing new u v =
    Unique-append existing (deduplicate_atas existing new) u (Unique-kept existing new v)
      (λ x h. ground (arith, kept_has_ata existing new x.ata))

-- The token accounts that exist, by the node's answers.
unfoldable pub exists_at : List (Option AccountInfo) → ℕ → Bool
exists_at [] i = false
exists_at (none ∷ xs) zero = false
exists_at (some _ ∷ xs) zero = true
exists_at (x ∷ xs) (suc i) = exists_at xs i

-- An account of the list that was asked for is found missing if the node has not answered with an
-- account at its index.
pub missing_of_complete :
    (atas : List MissingAta) (accounts : List (Option AccountInfo)) (i : ℕ) {a : MissingAta}
    → get_elem? atas i ≡ some a
    → exists_at accounts i ≡ false
    → has_ata (missing_of atas accounts) a.ata ≡ true
unfolding has_ata missing_of exists_at
missing_of_complete [] accounts i h e = cc
missing_of_complete (x ∷ atas) [] zero {a} h e = ground (arith, eq_iff x.ata a.ata)
missing_of_complete (x ∷ atas) [] (suc i) h e = ground (arith, missing_of_complete atas [] i h e)
missing_of_complete (x ∷ atas) (none ∷ accounts) zero {a} h e = ground (arith, eq_iff x.ata a.ata)
missing_of_complete (x ∷ atas) (none ∷ accounts) (suc i) h e =
    ground (arith, missing_of_complete atas accounts i h e)
missing_of_complete (x ∷ atas) (some _ ∷ accounts) zero h e = cc
missing_of_complete (x ∷ atas) (some _ ∷ accounts) (suc i) h e =
    missing_of_complete atas accounts i h e
