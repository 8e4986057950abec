-- ===== src/Solana/Instructions/Parts.antt =====
-- The words in which the built instructions are described: accounts with their roles, and lists
-- whose elements belong together, one by one.
use splits.Prelude.{◌≡◌, sym, subst, List, [], ◌∷◌}
use splits.Outcome.{Result, ok, >>=-eq-ok, map_result, map_result-cons}
use splits.Solana.Types.{
  Address, Recipient, OnChainRecipient, readonly, writable, signer, writable_signer, AccountMeta,
}
use splits.Solana.Recipients.{to_percentage_bps}
use splits.Solana.Instructions.{to_on_chain_recipient, to_on_chain_recipients}

abbrev pub reads : Address → AccountMeta
reads a = record { address = a; role = readonly }

abbrev pub writes : Address → AccountMeta
writes a = record { address = a; role = writable }

abbrev pub signs : Address → AccountMeta
signs a = record { address = a; role = signer }

abbrev pub pays : Address → AccountMeta
pays a = record { address = a; role = writable_signer }

-- as many elements in the one list as in the other, each in the relation to its counterpart
abbrev pub Pairwise : {A B : Type 0} → (A → B → Type 0) → List A → List B → Type 0
Pairwise R [] [] = Unit
Pairwise R [] (y ∷ ys) = ⊥
Pairwise R (x ∷ xs) [] = ⊥
Pairwise R (x ∷ xs) (y ∷ ys) = R x y × Pairwise R xs ys

module _ {A B : Type 0} (R : A → B → Type 0) (f : A → Result B)
    (h : (x : A) (y : B) → f x ≡ ok y → R x y) where
  pub map_result-Pairwise : (xs : List A) (ys : List B) → map_result f xs ≡ ok ys → Pairwise R xs ys
  unfolding map_result
  map_result-Pairwise [] [] e = tt
  map_result-Pairwise [] (y ∷ ys) e = cc
  map_result-Pairwise (x ∷ xs) ys e =
      let (z, zs, ez, es, same) = map_result-cons f x xs e in
      subst (λ ys. Pairwise R (x ∷ xs) ys) (sym same) (h x z ez, map_result-Pairwise xs zs es)

-- the on-chain form of a recipient
abbrev pub Converted : Recipient → OnChainRecipient → Type 0
Converted r c = (c.address ≡ r.address) × (to_percentage_bps r ≡ ok c.percentage_bps)

pub to_on_chain_recipients-Converted :
    (rs : List Recipient) (cs : List OnChainRecipient)
    → to_on_chain_recipients rs ≡ ok cs
    → Pairwise Converted rs cs
unfolding to_on_chain_recipients to_on_chain_recipient
to_on_chain_recipients-Converted rs cs e =
    map_result-Pairwise Converted to_on_chain_recipient
      (λ r c e.
        let (bps, made, same) =
          >>=-eq-ok (to_percentage_bps r)
            (λ bps. ok (record { address = r.address; percentage_bps = bps })) e in
        (cc, cc))
      rs cs e
