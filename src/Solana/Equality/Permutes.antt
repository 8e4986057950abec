-- ===== src/Solana/Equality/Permutes.antt =====
-- `recipientsEqual` decides whether two lists of distinct recipients hold the same entries.
use text.Mathlib.TextEquality.{IsScalar-prop}
use native.Mathlib.Nat.{ℕ_set}
use mathlib.Core.Path.{subst, subst₂, ap₂}
use mathlib.Core.Logic.{∥∥₁_elim}
use mathlib.Core.List.{Perm, Permᴰ}
use mathlib.Core.List.Perm
use splits.Prelude.{
  ℕ, suc, String, ◌≡◌, ◌≢◌, ◌↔◌, refl, ap, sym, ◌∙◌, true, Option, some, List, [], ◌∷◌, ◌++◌, map,
  length, ◌==◌, arith, eq_iff, append-nil, append_assoc, inl, inr, Option-cases, ◌&&◌, length-map,
}
use splits.Prelude.Map
use splits.Prelude.Map.{Map}
use splits.Outcome.{Result, ok, ◌>>=◌, map_result, map_result-cons, >>=-eq-ok}
use splits.Solana.Types.{JsNumber, natural, negative, not_integer, Recipient, SplitRecipient}
use splits.Solana.Equality.{
  number_eq, entry_bps, build_map, has_entry, has_entries, recipients_equal,
}
use splits.Solana.Equality.Entries.{
  Fresh, Distinct, Covers, set-Fresh, perm_of_get, length-delete, Distinct-delete,
}

module _ {V : Type 0} where
  Covers-delete : (k : String) (m n : Map V) → Fresh k n → Covers m n → Covers (Map.delete k m) n
  Covers-delete k m [] f c = tt
  Covers-delete k m ((j, w) ∷ n) f c =
      (ground (arith, Map.get-delete k j m, eq_iff k j), Covers-delete k m n f.1 c.1)

  perm_of_covers :
      (m n : Map V) → length m ≡ length n → Distinct m → Distinct n → Covers m n → Perm m n
  perm_of_covers [] [] l d e c = Perm.refl []
  perm_of_covers ((k, v) ∷ m) [] l d e c = absurd (omega arith)
  perm_of_covers m ((k, v) ∷ n) l d e c = Perm.trans (perm_of_get k v m d c.0) (
      Perm.cons (k, v)
        (perm_of_covers (Map.delete k m) n (omega (arith, length-delete k v m d c.0))
          (Distinct-delete k m d) e.1 (Covers-delete k m n e.0 c.1)))

  length_perm : {m n : Map V} → Permᴰ m n → length m ≡ length n
  length_perm Permᴰ.nil = refl
  length_perm (Permᴰ.cons e p) = ap suc (length_perm p)
  length_perm (Permᴰ.swap e f) = refl
  length_perm (Permᴰ.trans p q) = length_perm p ∙ length_perm q

  Fresh-perm : {m n : Map V} (k : String) → Permᴰ m n → Fresh k m → Fresh k n
  Fresh-perm k Permᴰ.nil f = tt
  Fresh-perm k (Permᴰ.cons {a = a} {l₂ = l} e p) f =
      subst (λ (x : String × V). Fresh k (x ∷ l)) e (f.0, Fresh-perm k p f.1)
  Fresh-perm k (Permᴰ.swap {l = l} e g) f =
      subst₂ (λ (x y : String × V). Fresh k (x ∷ y ∷ l)) g e ((f.1).0, (f.0, (f.1).1))
  Fresh-perm k (Permᴰ.trans p q) f = Fresh-perm k q (Fresh-perm k p f)

  Distinct-perm : {m n : Map V} → Permᴰ m n → Distinct m → Distinct n
  Distinct-perm Permᴰ.nil d = tt
  Distinct-perm (Permᴰ.cons {a = a} {l₂ = l} e p) d =
      subst (λ (x : String × V). Distinct (x ∷ l)) e (Fresh-perm a.0 p d.0, Distinct-perm p d.1)
  Distinct-perm (Permᴰ.swap {l = l} e g) d =
      subst₂ (λ (x y : String × V). Distinct (x ∷ y ∷ l)) g e
        (((λ h. (d.0).0 (sym h)), (d.1).0), ((d.0).1, (d.1).1))
  Distinct-perm (Permᴰ.trans p q) d = Distinct-perm q (Distinct-perm p d)

  get_swap :
      (k : String) (x y : String × V) (l : Map V)
      → y.0 ≢ x.0
      → Map.get k (x ∷ y ∷ l) ≡ Map.get k (y ∷ x ∷ l)
  unfolding Map.get
  get_swap k x y l h = ground (arith, eq_iff x.0 k, eq_iff y.0 k)

  get_cons :
      (k : String) (x : String × V) (m n : Map V)
      → Map.get k m ≡ Map.get k n
      → Map.get k (x ∷ m) ≡ Map.get k (x ∷ n)
  unfolding Map.get
  get_cons k x m n h = ground arith

  get_permᴰ : {m n : Map V} (k : String) → Permᴰ m n → Distinct m → Map.get k m ≡ Map.get k n
  get_permᴰ k Permᴰ.nil d = refl
  get_permᴰ k (Permᴰ.cons {a = a} {l₁ = m} {l₂ = n} e p) d =
      get_cons k a m n (get_permᴰ k p d.1) ∙ ap (λ (x : String × V). Map.get k (x ∷ n)) e
  get_permᴰ k (Permᴰ.swap {a = a} {b = b} {l = l} e g) d =
      get_swap k a b l (d.0).0 ∙ ap₂ (λ (x y : String × V). Map.get k (x ∷ y ∷ l)) g e
  get_permᴰ k (Permᴰ.trans p q) d = get_permᴰ k p d ∙ get_permᴰ k q (Distinct-perm p d)

  -- a list of distinct keys covers its parts
  Covers-longer : (x : String × V) (m n : Map V) → Fresh x.0 n → Covers m n → Covers (x ∷ m) n
  unfolding Map.get
  Covers-longer x m [] f c = tt
  Covers-longer x m ((j, w) ∷ n) f c = (ground (arith, eq_iff x.0 j), Covers-longer x m n f.1 c.1)

  Covers-self : (m : Map V) → Distinct m → Covers m m
  Covers-self [] d = tt
  Covers-self ((k, v) ∷ m) d = (
    unfold Map.get in ground (arith, eq_iff k k),
    Covers-longer (k, v) m m d.0 (Covers-self m d.1),
  )

  Covers-of_get :
      (m n o : Map V) → ((k : String) → Map.get k m ≡ Map.get k n) → Covers n o → Covers m o
  Covers-of_get m n [] h c = tt
  Covers-of_get m n ((k, v) ∷ o) h c = (h k ∙ c.0, Covers-of_get m n o h c.1)

found-set : IsSet (Option JsNumber)
found-set = hlevel IsScalar-prop

Covers-of_perm : (m n : Map JsNumber) → Distinct m → Distinct n → Perm m n → Covers m n
Covers-of_perm m n d e p =
    Covers-of_get m n n
      (λ k. ∥∥₁_elim p (found-set (Map.get k m) (Map.get k n)) (λ q. get_permᴰ k q d))
      (Covers-self n e)

same_length : (m n : Map JsNumber) → Perm m n → length m ≡ length n
same_length m n p = ∥∥₁_elim p (ℕ_set (length m) (length n)) length_perm

-- What each side says: its addresses, each with its basis points.
unfoldable pub entry : Recipient → Result (String × JsNumber)
entry r = do bps ← entry_bps r; ok (r.address, bps)

unfoldable pub entries : List Recipient → Result (Map JsNumber)
unfolding entry map_result
entries a = map_result entry a

unfoldable pub on_chain : SplitRecipient → String × JsNumber
on_chain r = (r.address, natural r.percentage_bps)

Fresh-middle :
    (j k : String) (v : JsNumber) (m n : Map JsNumber) → Fresh j (m ++ ((k, v) ∷ n)) → j ≢ k
Fresh-middle j k v [] n f = λ h. f.0 (sym h)
Fresh-middle j k v (x ∷ m) n f = Fresh-middle j k v m n f.1

Fresh-front :
    (m n : Map JsNumber) (k : String) (v : JsNumber) → Distinct (m ++ ((k, v) ∷ n)) → Fresh k m
Fresh-front [] n k v d = tt
Fresh-front ((j, w) ∷ m) n k v d = (Fresh-middle j k v m n d.0, Fresh-front m n k v d.1)

entries-cons :
    (r : Recipient) (rs : List Recipient) {xs : Map JsNumber}
    → entries (r ∷ rs) ≡ ok xs
    → (bps : JsNumber) × (ys : Map JsNumber) × (entry_bps r ≡ ok bps)
      × (entries rs ≡ ok ys)
      × (xs ≡ (r.address, bps) ∷ ys)
unfolding entries
entries-cons r rs h =
    let (z, zs, ez, es, e) = map_result-cons entry r rs h in
    let (bps, eb, e') = >>=-eq-ok (entry_bps r) (λ b. ok (r.address, b)) ez in (bps, zs, eb, es, cc)

build_map_lem :
    (m : Map JsNumber) (a : List Recipient) {xs : Map JsNumber}
    → entries a ≡ ok xs
    → Distinct (m ++ xs)
    → build_map m a ≡ ok (m ++ xs)
unfolding build_map entries
build_map_lem m [] {xs} h d = let e : xs ≡ [] = cc in rw (e, append-nil)
build_map_lem m (r ∷ rs) {xs} h d =
    let (bps, ys, eb, es, ex) = entries-cons r rs h in
    let d' : Distinct (m ++ ((r.address, bps) ∷ ys)) = rw ex at d in
    let at_end : Map.set r.address bps m ≡ m ++ ((r.address, bps) ∷ []) =
      set-Fresh r.address bps m (Fresh-front m ys r.address bps d') in
    let regroup : (m ++ ((r.address, bps) ∷ [])) ++ ys ≡ m ++ ((r.address, bps) ∷ ys) =
      append_assoc m ((r.address, bps) ∷ []) ys in
    rw (eb, ex, at_end)
      (build_map_lem (m ++ ((r.address, bps) ∷ [])) rs es (rw regroup d') ∙ ap ok regroup)

number_eq_iff : (x : JsNumber) (n : ℕ) → (number_eq x n ≡ true) ↔ (x ≡ natural n)
unfolding number_eq
number_eq_iff (natural m) n = ground arith
number_eq_iff (negative m) n = ground arith
number_eq_iff (not_integer text) n = ground arith

has_entry_iff :
    (m : Map JsNumber) (r : SplitRecipient)
    → (has_entry m r ≡ true) ↔ (Map.get r.address m ≡ some (natural r.percentage_bps))
has_entry_iff m r = elim (Option-cases (Map.get r.address m)) [
  | inl e ↦ unfold has_entry in rw e (cc, cc)
  | inr (x, e) ↦ unfold has_entry in rw e (ground (arith, number_eq_iff x r.percentage_bps))
]

has_entries_iff :
    (m : Map JsNumber) (b : List SplitRecipient)
    → (has_entries m b ≡ true) ↔ Covers m (map on_chain b)
unfolding has_entries on_chain
has_entries_iff m [] = (λ _. tt, λ _. refl)
has_entries_iff m (r ∷ rs) = ground (arith, has_entry_iff m r, has_entries_iff m rs)

length-entries : (a : List Recipient) {xs : Map JsNumber} → entries a ≡ ok xs → length xs ≡ length a
length-entries [] h = unfold entries in ground arith
length-entries (r ∷ rs) h =
    let (bps, ys, eb, es, ex) = entries-cons r rs h in ap length ex ∙ ap suc (length-entries rs es)

recipients_equal_lem :
    (a : List Recipient) (b : List SplitRecipient) {xs : Map JsNumber}
    → entries a ≡ ok xs
    → Distinct xs
    → recipients_equal a b ≡ ok (length a == length b && has_entries xs b)
unfolding recipients_equal
recipients_equal_lem a b h d = rw (build_map_lem [] a h d) (ground arith)

-- For recipients whose basis points can be read, with distinct addresses on both sides, the answer
-- of `recipientsEqual` is `true` exactly when the two lists, as pairs of an address and its basis
-- points, are permutations of one another.
pub recipients_equal_iff :
    (a : List Recipient) (b : List SplitRecipient) {xs : Map JsNumber}
    → entries a ≡ ok xs
    → Distinct xs
    → Distinct (map on_chain b)
    → (recipients_equal a b ≡ ok true) ↔ Perm xs (map on_chain b)
recipients_equal_iff a b {xs} h d e = rw (recipients_equal_lem a b h d) (forth, back)
  where
    same : length xs ≡ length a
    same = length-entries a h

    other : length (map on_chain b) ≡ length b
    other = length-map b on_chain

    forth : ok (length a == length b && has_entries xs b) ≡ ok true → Perm xs (map on_chain b)
    forth q =
        perm_of_covers xs (map on_chain b) (ground (arith, same, other)) d e
          ((has_entries_iff xs b).0 (ground arith))

    back : Perm xs (map on_chain b) → ok (length a == length b && has_entries xs b) ≡ ok true
    back p = ground (
      arith,
      same,
      other,
      same_length xs (map on_chain b) p,
      (has_entries_iff xs b).1 (Covers-of_perm xs (map on_chain b) d e p),
    )
