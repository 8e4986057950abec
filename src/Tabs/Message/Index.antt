-- ===== src/Tabs/Message/Index.antt =====
-- The map from addresses to indices: every entry points to its address, and no address of the
-- accounts is missing.
use splits.Prelude.{
  ℕ, zero, suc, ◌+◌, ◌≡◌, refl, inl, inr, String, true, ◌||◌, some, List, [], ◌∷◌, map, drop,
  get_elem?, ◌===◌, arith, eq_iff, Bool-cases,
}
use splits.Prelude.Map
use splits.Prelude.Map.{Map, get-set}
use splits.Tabs.Message.{Address, SyncAccountMeta, listed, index_from}

abbrev pub keys : List SyncAccountMeta → List Address
keys accs = map (λ a. a.pubkey) accs

-- `has` of a map
module _ {V : Type 0} where
  pub has-set :
      (k j : String) (v : V) (m : Map V) → Map.has j (Map.set k v m) ≡ (k === j || Map.has j m)
  unfolding Map.has Map.set
  has-set k j v [] = ground arith
  has-set k j v ((i, w) ∷ m) = ground (arith, eq_iff k j, eq_iff i k, eq_iff i j, has-set k j v m)

  pub get-has : (k : String) (m : Map V) → Map.has k m ≡ true → (v : V) × (Map.get k m ≡ some v)
  unfolding Map.has Map.get
  get-has k [] h = cc
  get-has k ((j, v) ∷ m) h = elim (Bool-cases (j === k)) [
    | inl e ↦ rw e (v, refl)
    | inr e ↦ rw e (get-has k m (rw e at h))
  ]

-- every entry points to its key
abbrev pub Points : List Address → Map ℕ → Type 0
Points ks m = (k : Address) (j : ℕ) → Map.get k m ≡ some j → get_elem? ks j ≡ some k

get_elem?-drop :
    (i : ℕ) (ks : List Address) (k : Address) (rest : List Address)
    → drop i ks ≡ k ∷ rest
    → (get_elem? ks i ≡ some k) × (drop (suc i) ks ≡ rest)
get_elem?-drop zero [] k rest h = cc
get_elem?-drop zero (x ∷ ks) k rest h = (cc, cc)
get_elem?-drop (suc i) [] k rest h = cc
get_elem?-drop (suc i) (x ∷ ks) k rest h = get_elem?-drop i ks k rest h

Points-set :
    (ks : List Address) (k : Address) (i : ℕ) (m : Map ℕ)
    → get_elem? ks i ≡ some k
    → Points ks m
    → Points ks (Map.set k i m)
Points-set ks k i m here old j n h = ground (arith, eq_iff k j, get-set k j i m, old j n)

pub Points-index_from :
    (ks : List Address) (i : ℕ) (accs : List SyncAccountMeta) (m : Map ℕ)
    → drop i ks ≡ keys accs
    → Points ks m
    → Points ks (index_from i accs m)
unfolding index_from
Points-index_from ks i [] m at_i old = old
Points-index_from ks i (a ∷ rest) m at_i old =
    let (here, next) = get_elem?-drop i ks a.pubkey (keys rest) at_i in
    let n : i + 1 ≡ suc i = omega arith in
    Points-index_from ks (i + 1) rest (Map.set a.pubkey i m) (rw n next)
      (Points-set ks a.pubkey i m here old)

pub has-index_from :
    (k : Address) (i : ℕ) (accs : List SyncAccountMeta) (m : Map ℕ)
    → Map.has k (index_from i accs m) ≡ (listed (keys accs) k || Map.has k m)
unfolding index_from listed
has-index_from k i [] m = refl
has-index_from k i (a ∷ rest) m =
    ground (arith, has-index_from k (i + 1) rest (Map.set a.pubkey i m), has-set a.pubkey k i m)
