-- ===== src/Tabs/Message/Accounts.antt =====
-- The map of accounts holds the members and what the instructions name, each under its address.
use mathlib.Core.List.{map-append}
use splits.Prelude.{
  ◌≡◌, refl, ◌∙◌, inl, inr, Bool, false, not, ◌||◌, Option, none, some, List, [], ◌∷◌, ◌++◌, map,
  keep, ◌===◌, arith, eq_iff, Bool-cases,
}
use splits.Prelude.Map
use splits.Prelude.Map.{Map}
use splits.Tabs.Message.{
  member_meta, program_meta, Address, SyncAccountMeta, InnerAccount, InnerInstruction, listed,
  add_members, add_program, merged, first_seen, add_account, add_accounts, add_instructions,
  meta_of, account_map, values, members_first, remaining_accounts,
}
use splits.Tabs.Message.Index.{keys, has-set}

-- the entries' keys are the addresses of their accounts
abbrev pub Consistent : Map SyncAccountMeta → Type 0
Consistent [] = Unit
Consistent ((k, a) ∷ m) = (a.pubkey ≡ k) × Consistent m

pub Consistent-set :
    (k : Address) (a : SyncAccountMeta) (m : Map SyncAccountMeta)
    → a.pubkey ≡ k
    → Consistent m
    → Consistent (Map.set k a m)
unfolding Map.set
Consistent-set k a [] h c = (h, tt)
Consistent-set k a ((j, b) ∷ m) h c = ground (arith, eq_iff j k, Consistent-set k a m h)

listed-values :
    (k : Address) (m : Map SyncAccountMeta)
    → Consistent m
    → listed (keys (values m)) k ≡ Map.has k m
unfolding listed values Map.has
listed-values k [] c = refl
listed-values k ((j, a) ∷ m) c = rw (c.0) (ground (arith, listed-values k m))

listed-append :
    (ks js : List Address) (k : Address) → listed (ks ++ js) k ≡ (listed ks k || listed js k)
unfolding listed
listed-append [] js k = refl
listed-append (x ∷ ks) js k = ground (arith, listed-append ks js k)

listed-keep :
    (p : Address → Bool) (k : Address) (accs : List SyncAccountMeta)
    → (listed (keys (keep (λ a. p a.pubkey) accs)) k
        || listed (keys (keep (λ a. not (p a.pubkey)) accs)) k)
      ≡ listed (keys accs) k
unfolding listed
listed-keep p k [] = refl
listed-keep p k (a ∷ rest) = ground (arith, listed-keep p k rest)

listed-members_first :
    (members : List Address) (k : Address) (accs : List SyncAccountMeta)
    → listed (keys (members_first members accs)) k ≡ listed (keys accs) k
unfolding members_first
listed-members_first members k accs =
    rw (map-append, listed-append) (listed-keep (listed members) k accs)

-- the map of accounts
meta_of-pubkey :
    (vault : Address) (acc : InnerAccount) (o : Option SyncAccountMeta)
    → ((a : SyncAccountMeta) → o ≡ some a → a.pubkey ≡ acc.address)
    → (meta_of vault acc o).pubkey ≡ acc.address
unfolding meta_of merged first_seen
meta_of-pubkey vault acc none h = refl
meta_of-pubkey vault acc (some a) h = h a refl

Consistent-get :
    (k : Address) (a : SyncAccountMeta) (m : Map SyncAccountMeta)
    → Consistent m
    → Map.get k m ≡ some a
    → a.pubkey ≡ k
unfolding Map.get
Consistent-get k a [] c h = cc
Consistent-get k a ((j, b) ∷ m) c h = ground (arith, eq_iff j k, Consistent-get k a m)

Consistent-add_members :
    (members : List Address) (m : Map SyncAccountMeta)
    → Consistent m
    → Consistent (add_members members m)
unfolding add_members
Consistent-add_members [] m c = c
Consistent-add_members (a ∷ rest) m c =
    Consistent-add_members rest (Map.set a _ m) (Consistent-set a _ m refl c)

Consistent-add_program :
    (program : Address) (m : Map SyncAccountMeta)
    → Consistent m
    → Consistent (add_program program m)
unfolding add_program
Consistent-add_program program m c = elim (Bool-cases (Map.has program m)) [
  | inl e ↦ rw e c
  | inr e ↦ rw e (Consistent-set program _ m refl c)
]

Consistent-add_accounts :
    (vault : Address) (accs : List InnerAccount) (m : Map SyncAccountMeta)
    → Consistent m
    → Consistent (add_accounts vault accs m)
unfolding add_accounts add_account
Consistent-add_accounts vault [] m c = c
Consistent-add_accounts vault (acc ∷ accs) m c =
    Consistent-add_accounts vault accs (add_account vault acc m) (
      Consistent-set acc.address (meta_of vault acc (Map.get acc.address m)) m
        (meta_of-pubkey vault acc (Map.get acc.address m)
          (λ a e. Consistent-get acc.address a m c e))
        c)

Consistent-add_instructions :
    (vault : Address) (ixs : List InnerInstruction) (m : Map SyncAccountMeta)
    → Consistent m
    → Consistent (add_instructions vault ixs m)
unfolding add_instructions
Consistent-add_instructions vault [] m c = c
Consistent-add_instructions vault (ix ∷ ixs) m c =
    Consistent-add_instructions vault ixs _
      (Consistent-add_accounts vault ix.accounts _ (Consistent-add_program ix.program_address m c))

pub Consistent-account_map :
    (vault : Address) (members : List Address) (ixs : List InnerInstruction)
    → Consistent (account_map vault members ixs)
unfolding account_map
Consistent-account_map vault members ixs =
    Consistent-add_instructions vault ixs (add_members members [])
      (Consistent-add_members members [] tt)

has-add_program :
    (k program : Address) (m : Map SyncAccountMeta)
    → Map.has k (add_program program m) ≡ (program === k || Map.has k m)
unfolding add_program
has-add_program k program m =
    ground (arith, eq_iff program k, has-set program k (program_meta program) m)

-- the addresses of the accounts of an instruction
abbrev pub addresses : List InnerAccount → List Address
addresses accs = map (λ a. a.address) accs

has-add_accounts :
    (k vault : Address) (accs : List InnerAccount) (m : Map SyncAccountMeta)
    → Map.has k (add_accounts vault accs m) ≡ (listed (addresses accs) k || Map.has k m)
unfolding add_accounts add_account listed
has-add_accounts k vault [] m = refl
has-add_accounts k vault (acc ∷ accs) m = ground (
  arith,
  has-add_accounts k vault accs (add_account vault acc m),
  has-set acc.address k (meta_of vault acc (Map.get acc.address m)) m,
)

-- an address that some instruction names
abbrev pub named : List InnerInstruction → Address → Bool
named [] k = false
named (ix ∷ ixs) k = ix.program_address === k || listed (addresses ix.accounts) k || named ixs k

has-add_instructions :
    (k vault : Address) (ixs : List InnerInstruction) (m : Map SyncAccountMeta)
    → Map.has k (add_instructions vault ixs m) ≡ (named ixs k || Map.has k m)
unfolding add_instructions
has-add_instructions k vault [] m = refl
has-add_instructions k vault (ix ∷ ixs) m = ground (
  arith,
  has-add_instructions k vault ixs
      (add_accounts vault ix.accounts (add_program ix.program_address m)),
  has-add_accounts k vault ix.accounts (add_program ix.program_address m),
  has-add_program k ix.program_address m,
)

has-add_members :
    (k : Address) (members : List Address) (m : Map SyncAccountMeta)
    → Map.has k (add_members members m) ≡ (listed members k || Map.has k m)
unfolding add_members listed
has-add_members k [] m = refl
has-add_members k (a ∷ rest) m =
    ground
      (arith, has-add_members k rest (Map.set a (member_meta a) m), has-set a k (member_meta a) m)

-- the accounts are the members and what the instructions name
pub listed-remaining_accounts :
    (k vault : Address) (members : List Address) (ixs : List InnerInstruction)
    → listed (keys (remaining_accounts vault members ixs)) k ≡ (named ixs k || listed members k)
unfolding remaining_accounts account_map Map.has
listed-remaining_accounts k vault members ixs =
    listed-members_first members k (values (account_map vault members ixs))
    ∙ (listed-values k (account_map vault members ixs) (Consistent-account_map vault members ixs)
        ∙ (has-add_instructions k vault ixs (add_members members [])
            ∙ ground (arith, has-add_members k members [])))
