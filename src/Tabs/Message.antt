-- ===== src/Tabs/Message.antt =====
-- compileToSynchronousMessage of packages/tabs-sdk/src/helpers.ts: inner instructions in the bytes
-- that the smart account program reads, and the accounts that their indices stand for.
pub mod Decode
pub mod Index
pub mod Accounts
pub mod Keys
pub mod Flags
pub mod Refines
use splits.Prelude.{
  ℕ, ◌+◌, ◌/◌, ◌%◌, String, Bool, true, false, not, ◌&&◌, ◌||◌, Option, none, some, List, [], ◌∷◌,
  ◌++◌, map, length, keep, ◌==◌, ◌===◌, if◌then◌else◌,
}
use splits.Prelude.Text.{◌<>◌}
use splits.Prelude.Map
use splits.Prelude.Map.{Map}
use splits.Outcome.{Result, ok, throw, error, map_result, ◌>>=◌}

abbrev pub Address : Type 0
Address = String

pub record SyncAccountMeta : Type 0 where
  pub pubkey : Address
  pub is_signer : Bool
  pub is_writable : Bool

-- an account of an inner instruction: role 0 reads, 1 writes, 2 signs, 3 writes and signs
pub record InnerAccount : Type 0 where
  pub address : Address
  pub role : ℕ

pub record InnerInstruction : Type 0 where
  pub program_address : Address
  pub accounts : List InnerAccount
  -- bytes
  pub payload : List ℕ

pub record SyncMessageResult : Type 0 where
  pub instructions : List ℕ
  pub accounts : List SyncAccountMeta

unfoldable pub writes : InnerAccount → Bool
writes acc = acc.role == 1 || acc.role == 3

unfoldable pub signs : InnerAccount → Bool
signs acc = acc.role == 2 || acc.role == 3

-- `members.includes(key)`
unfoldable pub listed : List Address → Address → Bool
listed [] key = false
listed (m ∷ ms) key = m === key || listed ms key

abbrev pub member_meta : Address → SyncAccountMeta
member_meta a = record { pubkey = a; is_signer = true; is_writable = false }

abbrev pub program_meta : Address → SyncAccountMeta
program_meta program = record { pubkey = program; is_signer = false; is_writable = false }

unfoldable pub add_members : List Address → Map SyncAccountMeta → Map SyncAccountMeta
add_members [] m = m
add_members (a ∷ rest) m = add_members rest (Map.set a (member_meta a) m)

unfoldable pub add_program : Address → Map SyncAccountMeta → Map SyncAccountMeta
add_program program m = if Map.has program m then m else Map.set program (program_meta program) m

-- the assignments to the fields of an entry that is there; the vault signs by itself
unfoldable pub merged : Address → InnerAccount → SyncAccountMeta → SyncAccountMeta
unfolding writes signs
merged vault acc existing = record {
  pubkey = existing.pubkey;
  is_signer = if acc.address === vault then existing.is_signer else existing.is_signer || signs acc;
  is_writable = existing.is_writable || writes acc;
}

unfoldable pub first_seen : Address → InnerAccount → SyncAccountMeta
unfolding writes signs
first_seen vault acc = record {
  pubkey = acc.address;
  is_signer = not (acc.address === vault) && signs acc;
  is_writable = writes acc;
}

unfoldable pub meta_of : Address → InnerAccount → Option SyncAccountMeta → SyncAccountMeta
unfolding merged first_seen
meta_of vault acc none = first_seen vault acc
meta_of vault acc (some existing) = merged vault acc existing

unfoldable pub add_account : Address → InnerAccount → Map SyncAccountMeta → Map SyncAccountMeta
unfolding meta_of
add_account vault acc m = Map.set acc.address (meta_of vault acc (Map.get acc.address m)) m

unfoldable pub add_accounts :
    Address → List InnerAccount → Map SyncAccountMeta → Map SyncAccountMeta
unfolding add_account
add_accounts vault [] m = m
add_accounts vault (acc ∷ accs) m = add_accounts vault accs (add_account vault acc m)

unfoldable pub add_instructions :
    Address → List InnerInstruction → Map SyncAccountMeta → Map SyncAccountMeta
unfolding add_program add_accounts
add_instructions vault [] m = m
add_instructions vault (ix ∷ ixs) m =
    add_instructions vault ixs (add_accounts vault ix.accounts (add_program ix.program_address m))

unfoldable pub account_map : Address → List Address → List InnerInstruction → Map SyncAccountMeta
unfolding add_instructions add_members
account_map vault members ixs = add_instructions vault ixs (add_members members [])

-- `accountMap.values()`
unfoldable pub values : Map SyncAccountMeta → List SyncAccountMeta
values [] = []
values ((k, a) ∷ m) = a ∷ values m

-- the members first
unfoldable pub members_first : List Address → List SyncAccountMeta → List SyncAccountMeta
unfolding listed
members_first members accs =
    keep (λ a. listed members a.pubkey) accs ++ keep (λ a. not (listed members a.pubkey)) accs

unfoldable pub remaining_accounts :
    Address → List Address → List InnerInstruction → List SyncAccountMeta
unfolding members_first values account_map
remaining_accounts vault members ixs =
    members_first members (values (account_map vault members ixs))

-- `remainingAccounts.forEach`, from the index `i` on
unfoldable pub index_from : ℕ → List SyncAccountMeta → Map ℕ → Map ℕ
index_from i [] m = m
index_from i (a ∷ rest) m = index_from (i + 1) rest (Map.set a.pubkey i m)

-- an element of a `Uint8Array` keeps the low byte
abbrev pub byte : ℕ → ℕ
byte n = n % 256

unfoldable pub serialize_compiled_instruction : ℕ → List ℕ → List ℕ → List ℕ
serialize_compiled_instruction program indexes payload =
    (byte program ∷ byte (length indexes) ∷ [])
    ++ (map byte indexes ++ (byte (length payload) ∷ byte (length payload / 256) ∷ payload))

unfoldable pub found_index : String → Option ℕ → Result ℕ
found_index message (some i) = ok i
found_index message none = throw (error message)

unfoldable pub account_index : Map ℕ → InnerAccount → Result ℕ
unfolding found_index ◌<>◌
account_index index acc =
    found_index ("Account " <> acc.address <> " not found in accounts") (Map.get acc.address index)

unfoldable pub program_index : Map ℕ → InnerInstruction → Result ℕ
unfolding found_index ◌<>◌
program_index index ix =
    found_index ("Program " <> ix.program_address <> " not found in accounts")
      (Map.get ix.program_address index)

unfoldable pub serialize_instruction : Map ℕ → InnerInstruction → Result (List ℕ)
unfolding program_index account_index serialize_compiled_instruction
serialize_instruction index ix = do
  program ← program_index index ix
  indexes ← map_result (account_index index) ix.accounts
  ok (serialize_compiled_instruction program indexes ix.payload)

unfoldable pub joined : List (List ℕ) → List ℕ
joined [] = []
joined (p ∷ ps) = p ++ joined ps

unfoldable pub compile_to_synchronous_message :
    Address → List Address → List InnerInstruction → Result SyncMessageResult
unfolding remaining_accounts index_from serialize_instruction joined
compile_to_synchronous_message vault members ixs = do
  let accounts = remaining_accounts vault members ixs
  parts ← map_result (serialize_instruction (index_from 0 accounts [])) ixs
  ok (record { instructions = byte (length ixs) ∷ joined parts; accounts = accounts })
