-- ===== src/Solana/Equality/Entries.antt =====
-- Association lists with distinct keys: what the two loops of `recipientsEqual` compare.
use mathlib.Core.List.{Perm}
use mathlib.Core.List.Perm
use splits.Prelude.{
  suc, String, ◌≡◌, ◌≢◌, refl, none, some, [], ◌∷◌, ◌++◌, length, ◌===◌, arith, eq_iff, Bool-cases,
  inl, inr,
}
use splits.Prelude.Map
use splits.Prelude.Map.{Map}

module _ {V : Type 0} where
  -- `k` is no key of the list
  abbrev pub Fresh : String → Map V → Type 0
  Fresh k [] = Unit
  Fresh k ((j, v) ∷ m) = (j ≢ k) × Fresh k m

  abbrev pub Distinct : Map V → Type 0
  Distinct [] = Unit
  Distinct ((k, v) ∷ m) = Fresh k m × Distinct m

  -- every entry of the second list is found in the first
  abbrev pub Covers : Map V → Map V → Type 0
  Covers m [] = Unit
  Covers m ((k, v) ∷ n) = (Map.get k m ≡ some v) × Covers m n

  pub set-Fresh : (k : String) (v : V) (m : Map V) → Fresh k m → Map.set k v m ≡ m ++ ((k, v) ∷ [])
  unfolding Map.set
  set-Fresh k v [] f = refl
  set-Fresh k v ((j, w) ∷ m) f = ground (arith, eq_iff j k, set-Fresh k v m)

  pub get-Fresh : (k : String) (m : Map V) → Fresh k m → Map.get k m ≡ none
  unfolding Map.get
  get-Fresh k [] f = refl
  get-Fresh k ((j, w) ∷ m) f = ground (arith, eq_iff j k, get-Fresh k m)

  pub Fresh-of_none : (k : String) (m : Map V) → Map.get k m ≡ none → Fresh k m
  unfolding Map.get
  Fresh-of_none k [] e = tt
  Fresh-of_none k ((j, w) ∷ m) e = ground (arith, eq_iff j k, Fresh-of_none k m)

  delete-Fresh : (k : String) (m : Map V) → Fresh k m → Map.delete k m ≡ m
  unfolding Map.delete
  delete-Fresh k [] f = refl
  delete-Fresh k ((j, w) ∷ m) f = ground (arith, eq_iff j k, delete-Fresh k m)

  perm_here :
      (k : String) (v : V) (j : String) (w : V) (m : Map V)
      → Distinct ((j, w) ∷ m)
      → Map.get k ((j, w) ∷ m) ≡ some v
      → j ≡ k
      → Perm ((j, w) ∷ m) ((k, v) ∷ Map.delete k ((j, w) ∷ m))
  unfolding Map.get Map.delete
  perm_here k v j w m d e same =
      let h : (k, v) ∷ Map.delete k ((j, w) ∷ m) ≡ (j, w) ∷ m =
        ground (arith, eq_iff j k, delete-Fresh k m) in
      rw h (Perm.refl ((j, w) ∷ m))

  -- a found entry comes to the front
  pub perm_of_get :
      (k : String) (v : V) (m : Map V)
      → Distinct m
      → Map.get k m ≡ some v
      → Perm m ((k, v) ∷ Map.delete k m)
  unfolding Map.get Map.delete
  perm_of_get k v [] d e = cc
  perm_of_get k v ((j, w) ∷ m) d e = elim (Bool-cases (j === k)) [
    | inl here ↦ perm_here k v j w m d e ((eq_iff j k).0 here)
    | inr there ↦ rw there (
        Perm.trans (Perm.cons (j, w) (perm_of_get k v m d.1 (rw there at e)))
          (Perm.swap (k, v) (j, w) (Map.delete k m)))
  ]

  pub length-delete :
      (k : String) (v : V) (m : Map V)
      → Distinct m
      → Map.get k m ≡ some v
      → length m ≡ suc (length (Map.delete k m))
  unfolding Map.get Map.delete
  length-delete k v [] d e = cc
  length-delete k v ((j, w) ∷ m) d e =
      ground (arith, eq_iff j k, delete-Fresh k m, length-delete k v m)

  Fresh-delete : (k j : String) (m : Map V) → Fresh j m → Fresh j (Map.delete k m)
  unfolding Map.delete
  Fresh-delete k j [] f = tt
  Fresh-delete k j ((i, w) ∷ m) f = ground (arith, Fresh-delete k j m)

  pub Distinct-delete : (k : String) (m : Map V) → Distinct m → Distinct (Map.delete k m)
  unfolding Map.delete
  Distinct-delete k [] d = tt
  Distinct-delete k ((i, w) ∷ m) d = ground (arith, Distinct-delete k m, Fresh-delete k i m)
