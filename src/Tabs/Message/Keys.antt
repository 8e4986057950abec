-- ===== src/Tabs/Message/Keys.antt =====
-- The keys of the map of accounts are distinct, so each account is what its address is looked up as.
use splits.Prelude.{
  ◌≡◌, ◌≢◌, inl, inr, Bool, not, some, List, [], ◌∷◌, ◌++◌, keep, ◌===◌, All, arith, eq_iff,
  Bool-cases,
}
use splits.Prelude.Map
use splits.Prelude.Map.{Map, get-set}
use splits.Solana.Equality.Entries.{Fresh, Distinct, get-Fresh}
use splits.Tabs.Message.{
  Address, SyncAccountMeta, InnerAccount, InnerInstruction, listed, meta_of, member_meta,
  program_meta, add_members, add_program, add_account, add_accounts, add_instructions, account_map,
  values, members_first,
}
use splits.Tabs.Message.Accounts.{Consistent}

-- the keys of the map stay distinct
Fresh-set :
    {V : Type 0} (j k : Address) (v : V) (m : Map V) → k ≢ j → Fresh j m → Fresh j (Map.set k v m)
unfolding Map.set
Fresh-set j k v [] n f = (n, tt)
Fresh-set j k v ((i, w) ∷ m) n f = ground (arith, Fresh-set j k v m n)

Distinct-set :
    {V : Type 0} (k : Address) (v : V) (m : Map V) → Distinct m → Distinct (Map.set k v m)
unfolding Map.set
Distinct-set k v [] d = (tt, tt)
Distinct-set k v ((i, w) ∷ m) d = elim (Bool-cases (i === k)) [
  | inl e ↦ rw e d
  | inr e ↦ rw e (Fresh-set i k v m (ground (arith, e, eq_iff i k)) d.0, Distinct-set k v m d.1)
]

Distinct-add_members :
    (members : List Address) (m : Map SyncAccountMeta)
    → Distinct m
    → Distinct (add_members members m)
unfolding add_members
Distinct-add_members [] m d = d
Distinct-add_members (a ∷ rest) m d =
    Distinct-add_members rest (Map.set a (member_meta a) m) (Distinct-set a (member_meta a) m d)

Distinct-add_program :
    (program : Address) (m : Map SyncAccountMeta) → Distinct m → Distinct (add_program program m)
unfolding add_program
Distinct-add_program program m d = elim (Bool-cases (Map.has program m)) [
  | inl e ↦ rw e d
  | inr e ↦ rw e (Distinct-set program (program_meta program) m d)
]

Distinct-add_accounts :
    (vault : Address) (accs : List InnerAccount) (m : Map SyncAccountMeta)
    → Distinct m
    → Distinct (add_accounts vault accs m)
unfolding add_accounts add_account
Distinct-add_accounts vault [] m d = d
Distinct-add_accounts vault (acc ∷ accs) m d =
    Distinct-add_accounts vault accs (add_account vault acc m)
      (Distinct-set acc.address (meta_of vault acc (Map.get acc.address m)) m d)

Distinct-add_instructions :
    (vault : Address) (ixs : List InnerInstruction) (m : Map SyncAccountMeta)
    → Distinct m
    → Distinct (add_instructions vault ixs m)
unfolding add_instructions
Distinct-add_instructions vault [] m d = d
Distinct-add_instructions vault (ix ∷ ixs) m d =
    Distinct-add_instructions vault ixs
      (add_accounts vault ix.accounts (add_program ix.program_address m))
      (Distinct-add_accounts vault ix.accounts (add_program ix.program_address m)
        (Distinct-add_program ix.program_address m d))

pub Distinct-account_map :
    (vault : Address) (members : List Address) (ixs : List InnerInstruction)
    → Distinct (account_map vault members ixs)
unfolding account_map
Distinct-account_map vault members ixs =
    Distinct-add_instructions vault ixs (add_members members [])
      (Distinct-add_members members [] tt)

-- an entry of a map with distinct keys is what its address is looked up as
pub All-values :
    (m : Map SyncAccountMeta) (P : SyncAccountMeta → Type 0)
    → Consistent m
    → Distinct m
    → ((a : SyncAccountMeta) → Map.get a.pubkey m ≡ some a → P a)
    → All P (values m)
unfolding values Map.get
All-values [] P c d h = tt
All-values ((k, a) ∷ m) P c d h = (
  h a (ground (arith, eq_iff k a.pubkey, c.0)),
  All-values m P c.1 d.1 (λ b e. h b (ground (arith, eq_iff k b.pubkey, e, get-Fresh k m d.0))),
)

All-keep :
    (P : SyncAccountMeta → Type 0) (p : SyncAccountMeta → Bool) (accs : List SyncAccountMeta)
    → All P accs
    → All P (keep p accs)
All-keep P p [] h = tt
All-keep P p (a ∷ rest) h = elim (Bool-cases (p a)) [
  | inl e ↦ rw e (h.0, All-keep P p rest h.1)
  | inr e ↦ rw e (All-keep P p rest h.1)
]

All-append :
    (P : SyncAccountMeta → Type 0) (xs ys : List SyncAccountMeta)
    → All P xs
    → All P ys
    → All P (xs ++ ys)
All-append P [] ys h i = i
All-append P (x ∷ xs) ys h i = (h.0, All-append P xs ys h.1 i)

pub All-members_first :
    (P : SyncAccountMeta → Type 0) (members : List Address) (accs : List SyncAccountMeta)
    → All P accs
    → All P (members_first members accs)
unfolding members_first
All-members_first P members accs h =
    All-append P _ _ (All-keep P (λ a. listed members a.pubkey) accs h)
      (All-keep P (λ a. not (listed members a.pubkey)) accs h)
