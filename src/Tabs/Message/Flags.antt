-- ===== src/Tabs/Message/Flags.antt =====
-- Which accounts of a compiled message are writable and which sign.
use splits.Prelude.{
  ◌≡◌, refl, ap, subst, ◌∙◌, inl, inr, Bool, false, not, ◌&&◌, ◌||◌, Option, none, some, List, [],
  ◌∷◌, ◌===◌, All, arith, eq_iff, Bool-cases,
}
use splits.Prelude.Map
use splits.Prelude.Map.{Map, get-set}
use splits.Tabs.Message.{
  Address, SyncAccountMeta, InnerAccount, InnerInstruction, listed, writes, signs, merged,
  first_seen, meta_of, member_meta, program_meta, add_members, add_program, add_account,
  add_accounts, add_instructions, account_map, values, remaining_accounts,
}
use splits.Tabs.Message.Accounts.{Consistent-account_map}
use splits.Tabs.Message.Keys.{All-values, All-members_first, Distinct-account_map}

-- the flags of the entry of an address, none set where there is no entry
abbrev writable_of : Option SyncAccountMeta → Bool
writable_of none = false
writable_of (some a) = a.is_writable

abbrev signer_of : Option SyncAccountMeta → Bool
signer_of none = false
signer_of (some a) = a.is_signer

-- some account of the list has this address and writes, or signs
abbrev pub written : List InnerAccount → Address → Bool
written [] k = false
written (acc ∷ accs) k = (acc.address === k && writes acc) || written accs k

abbrev pub signed : List InnerAccount → Address → Bool
signed [] k = false
signed (acc ∷ accs) k = (acc.address === k && signs acc) || signed accs k

abbrev pub any_written : List InnerInstruction → Address → Bool
any_written [] k = false
any_written (ix ∷ ixs) k = written ix.accounts k || any_written ixs k

abbrev pub any_signed : List InnerInstruction → Address → Bool
any_signed [] k = false
any_signed (ix ∷ ixs) k = signed ix.accounts k || any_signed ixs k

module _ (vault k : Address) where
  meta_of-writable :
      (acc : InnerAccount) (o : Option SyncAccountMeta)
      → (meta_of vault acc o).is_writable ≡ (writable_of o || writes acc)
  unfolding meta_of merged first_seen
  meta_of-writable acc none = refl
  meta_of-writable acc (some a) = refl

  meta_of-signer :
      (acc : InnerAccount) (o : Option SyncAccountMeta)
      → (meta_of vault acc o).is_signer
        ≡ (signer_of o || (not (acc.address === vault) && signs acc))
  unfolding meta_of merged first_seen
  meta_of-signer acc none = refl
  meta_of-signer acc (some a) = ground (arith, eq_iff acc.address vault)

  writable-add_account :
      (acc : InnerAccount) (m : Map SyncAccountMeta)
      → writable_of (Map.get k (add_account vault acc m))
        ≡ (writable_of (Map.get k m) || (acc.address === k && writes acc))
  unfolding add_account
  writable-add_account acc m = elim (Bool-cases (acc.address === k)) [
    | inl e ↦
        let same = (eq_iff acc.address k).0 e in
        rw (get-set, e)
          (meta_of-writable acc (Map.get acc.address m)
            ∙ ap (λ j. writable_of (Map.get j m) || writes acc) same)
    | inr e ↦ rw (get-set, e) (ground arith)
  ]

  signer-add_account :
      (acc : InnerAccount) (m : Map SyncAccountMeta)
      → signer_of (Map.get k (add_account vault acc m))
        ≡ (signer_of (Map.get k m) || (not (k === vault) && (acc.address === k && signs acc)))
  unfolding add_account
  signer-add_account acc m = elim (Bool-cases (acc.address === k)) [
    | inl e ↦
        let same = (eq_iff acc.address k).0 e in
        rw (get-set, e)
          (meta_of-signer acc (Map.get acc.address m)
            ∙ ap (λ j. signer_of (Map.get j m) || (not (j === vault) && signs acc)) same)
    | inr e ↦ rw (get-set, e) (ground arith)
  ]

  writable-add_accounts :
      (accs : List InnerAccount) (m : Map SyncAccountMeta)
      → writable_of (Map.get k (add_accounts vault accs m))
        ≡ (writable_of (Map.get k m) || written accs k)
  unfolding add_accounts
  writable-add_accounts [] m = ground arith
  writable-add_accounts (acc ∷ accs) m =
      ground
        (arith, writable-add_accounts accs (add_account vault acc m), writable-add_account acc m)

  signer-add_accounts :
      (accs : List InnerAccount) (m : Map SyncAccountMeta)
      → signer_of (Map.get k (add_accounts vault accs m))
        ≡ (signer_of (Map.get k m) || (not (k === vault) && signed accs k))
  unfolding add_accounts
  signer-add_accounts [] m = ground arith
  signer-add_accounts (acc ∷ accs) m =
      ground (arith, signer-add_accounts accs (add_account vault acc m), signer-add_account acc m)

has-none : {V : Type 0} (k : Address) (m : Map V) → Map.has k m ≡ false → Map.get k m ≡ none
unfolding Map.has Map.get
has-none k [] h = refl
has-none k ((j, v) ∷ m) h = ground (arith, has-none k m)

-- a program that is new sets no flag
module _ (k program : Address) (flag : Option SyncAccountMeta → Bool) where
  flag-add_program :
      (m : Map SyncAccountMeta)
      → flag (some (program_meta program)) ≡ flag none
      → flag (Map.get k (add_program program m)) ≡ flag (Map.get k m)
  unfolding add_program
  flag-add_program m unset = elim (Bool-cases (Map.has program m)) [
    | inl e ↦ rw e refl
    | inr e ↦ elim (Bool-cases (program === k)) [
      | inl here ↦
          let same = (eq_iff program k).0 here in
          let absent = has-none k m (subst (λ j. Map.has j m ≡ false) same e) in
          rw (e, get-set, here, absent) unset
      | inr there ↦ rw (e, get-set, there) refl
    ]
  ]

module _ (vault k : Address) where
  writable-add_instructions :
      (ixs : List InnerInstruction) (m : Map SyncAccountMeta)
      → writable_of (Map.get k (add_instructions vault ixs m))
        ≡ (writable_of (Map.get k m) || any_written ixs k)
  unfolding add_instructions
  writable-add_instructions [] m = ground arith
  writable-add_instructions (ix ∷ ixs) m = ground (
    arith,
    writable-add_instructions ixs
        (add_accounts vault ix.accounts (add_program ix.program_address m)),
    writable-add_accounts vault k ix.accounts (add_program ix.program_address m),
    flag-add_program k ix.program_address writable_of m refl,
  )

  signer-add_instructions :
      (ixs : List InnerInstruction) (m : Map SyncAccountMeta)
      → signer_of (Map.get k (add_instructions vault ixs m))
        ≡ (signer_of (Map.get k m) || (not (k === vault) && any_signed ixs k))
  unfolding add_instructions
  signer-add_instructions [] m = ground arith
  signer-add_instructions (ix ∷ ixs) m = ground (
    arith,
    signer-add_instructions ixs (add_accounts vault ix.accounts (add_program ix.program_address m)),
    signer-add_accounts vault k ix.accounts (add_program ix.program_address m),
    flag-add_program k ix.program_address signer_of m refl,
  )

  writable-add_members :
      (members : List Address) (m : Map SyncAccountMeta)
      → writable_of (Map.get k m) ≡ false
      → writable_of (Map.get k (add_members members m)) ≡ false
  unfolding add_members
  writable-add_members [] m h = h
  writable-add_members (a ∷ rest) m h =
      writable-add_members rest (Map.set a (member_meta a) m)
        (ground (arith, h, get-set a k (member_meta a) m))

  signer-add_members :
      (members : List Address) (m : Map SyncAccountMeta)
      → signer_of (Map.get k (add_members members m))
        ≡ (listed members k || signer_of (Map.get k m))
  unfolding add_members listed
  signer-add_members [] m = refl
  signer-add_members (a ∷ rest) m =
      ground (
        arith,
        signer-add_members rest (Map.set a (member_meta a) m),
        get-set a k (member_meta a) m,
      )

-- Each account of a compiled message is writable exactly if some instruction writes an account of
-- its address, and signs exactly if its address is a member's, or is not the vault's and some
-- instruction has it sign. So the vault signs if it is itself a member, which a comment of the code
-- denies, and otherwise never.
pub remaining_accounts-flags :
    (vault : Address) (members : List Address) (ixs : List InnerInstruction)
    → All
        (λ a.
          (a.is_writable ≡ any_written ixs a.pubkey)
          × (a.is_signer
              ≡ (listed members a.pubkey || (not (a.pubkey === vault) && any_signed ixs a.pubkey))))
        (remaining_accounts vault members ixs)
unfolding remaining_accounts account_map Map.get
remaining_accounts-flags vault members ixs =
    let start = add_members members [] in
    All-members_first _ members (values (account_map vault members ixs)) (
      All-values (account_map vault members ixs) _ (Consistent-account_map vault members ixs)
        (Distinct-account_map vault members ixs)
        (λ a e. (
          ground (
            arith,
            e,
            writable-add_instructions vault a.pubkey ixs start,
            writable-add_members vault a.pubkey members [] refl,
          ),
          ground (
            arith,
            e,
            signer-add_instructions vault a.pubkey ixs start,
            signer-add_members vault a.pubkey members [],
          ),
        )))
