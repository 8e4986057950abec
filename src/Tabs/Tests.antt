-- ===== src/Tabs/Tests.antt =====
-- Tests and examples of the tabs SDK and application.
mod Payments
mod Accounts
use splits.Prelude.{
  ◌≡◌, refl, ℕ, zero, suc, ◌+◌, ◌<◌, ◌≤◌, String, Bool, true, false, not, ◌&&◌, ◌||◌, ◌===◌, Option,
  none, some, List, [], ◌∷◌, ◌++◌, map, length, All, arith,
}
use splits.Prelude.Map
use splits.Prelude.Integers.{ℤ}
use splits.Outcome.{Result, ok, throw, error}
use splits.Tabs.Action.{Store}
use splits.Tabs.Message.{
  Address, SyncAccountMeta, InnerAccount, InnerInstruction, SyncMessageResult, listed,
  remaining_accounts, compile_to_synchronous_message,
}
use splits.Tabs.Message.Decode.{Compiled, decode}
use splits.Tabs.Message.Index.{keys}
use splits.Tabs.Message.Accounts.{named}
use splits.Tabs.Message.Flags.{any_written, any_signed, remaining_accounts-flags}
use splits.Tabs.Message.Refines.{
  Small, resolved, original, compile_to_synchronous_message_lem, compile-returns,
}
use splits.Tabs.Base58.Value.{value_58}
use splits.Tabs.Base58.Canonical.{Decodes, base58_decode_lem}
use splits.Tabs.Squads.Confirmation.{Status, Poll, meets_commitment, wait_for_confirmation}
use splits.Tabs.Squads.Confirmation.Waits.{
  FirstUndecided, wait_for_confirmation-Confirms, wait_for_confirmation-times_out,
}
use splits.Tabs.Squads.Withdraw.{AccountMeta, BuiltInstruction, Instruction, Builders, account_meta}
use splits.Tabs.Squads.Withdraw.Transfers.{inner_transfer}

abbrev account : String → ℕ → InnerAccount
account address role = record { address = address; role = role }

abbrev transfer_ix : InnerInstruction
transfer_ix =
    inner_transfer
      (account "vault ata" 1 ∷ account "mint" 0 ∷ account "owner ata" 1 ∷ account "vault" 2 ∷ [])
      (12 ∷ 64 ∷ [])

abbrev two_ixs : List InnerInstruction
two_ixs =
    transfer_ix
    ∷ record {
      program_address = "other";
      accounts = account "owner" 3 ∷ account "vault" 1 ∷ account "friend" 2 ∷ [];
      payload = [];
    }
    ∷ []

abbrev flags_of : SyncAccountMeta → String × (Bool × Bool)
flags_of a = (a.pubkey, (a.is_signer, a.is_writable))

-- the vault does not sign, the friend does, and the owner is first
compiled_two :
    map {B = String × (Bool × Bool)} flags_of (remaining_accounts "vault" ("owner" ∷ []) two_ixs)
    ≡ ("owner", (true, true))
      ∷ ("TokenkegQfeZyiNwAJbNbGKPFXCWuBvf9Ss623VQ5DA", (false, false))
      ∷ ("vault ata", (false, true))
      ∷ ("mint", (false, false))
      ∷ ("owner ata", (false, true))
      ∷ ("vault", (false, true))
      ∷ ("other", (false, false))
      ∷ ("friend", (true, false))
      ∷ []
unfolding remaining_accounts Map.get Map.set Map.has
compiled_two = refl

compile_to_synchronous_message_lem_example :
    (r : SyncMessageResult) × ((cs : List Compiled) × ((compile_to_synchronous_message "vault"
            ("owner" ∷ [])
            two_ixs
          ≡ ok r)
        × ((decode r.instructions ≡ some cs)
            × (map (resolved (keys r.accounts)) cs ≡ map original two_ixs))))
unfolding remaining_accounts Map.get Map.set Map.has
compile_to_synchronous_message_lem_example =
    compile_to_synchronous_message_lem "vault" ("owner" ∷ []) two_ixs (omega arith)
      ((omega arith, omega arith), ((omega arith, omega arith), tt)) (omega arith)

compile-returns_example :
    (r : SyncMessageResult) × ((compile_to_synchronous_message "vault" ("owner" ∷ []) two_ixs
        ≡ ok r)
      × ((k : Address) → listed (keys r.accounts) k ≡ (named two_ixs k || listed ("owner" ∷ []) k)))
compile-returns_example = compile-returns "vault" ("owner" ∷ []) two_ixs

remaining_accounts-flags_example :
    All
      (λ a.
        (a.is_writable ≡ any_written two_ixs a.pubkey)
        × (a.is_signer ≡ (
            listed ("owner" ∷ []) a.pubkey
            || (not (a.pubkey === "vault") && any_signed two_ixs a.pubkey))))
      (remaining_accounts "vault" ("owner" ∷ []) two_ixs)
remaining_accounts-flags_example = remaining_accounts-flags "vault" ("owner" ∷ []) two_ixs

base58_decode_lem_example : Decodes "112VfUX" (value_58 0 "112VfUX")
base58_decode_lem_example = base58_decode_lem "112VfUX"

-- a node that knows the signature from the second poll on
abbrev confirmed_status : Status
confirmed_status = record { err = none; confirmation_status = some "finalized" }

node : String → ℕ → Result (Option Status) × ℕ
node signature zero = (ok none, 1)
node signature (suc n) = (ok (some confirmed_status), suc n)

-- and one that never does
silent_node : String → ℕ → Result (Option Status) × ℕ
silent_node signature n = (ok none, n)

abbrev store : Store ℕ Poll
store = record { world = 0; trace = [] }

wait_for_confirmation-Confirms_example :
    let (r, s') = wait_for_confirmation node "signature" "confirmed" store in
    (r ≡ ok tt) × (length s'.trace ≡ 0 + 2)
unfolding node meets_commitment
wait_for_confirmation-Confirms_example =
    wait_for_confirmation-Confirms node "signature" "confirmed" store 1 (omega arith)
      (none, refl, tt, tt) (some confirmed_status, refl, (refl, refl))

silent : (n w : ℕ) → FirstUndecided silent_node "signature" "confirmed" n w
unfolding silent_node
silent zero w = tt
silent (suc n) w = (none, refl, tt, silent n w)

wait_for_confirmation-times_out_example :
    let (r, s') = wait_for_confirmation silent_node "signature" "confirmed" store in
    (r ≡ throw (error "Transaction confirmation timeout")) × (length s'.trace ≡ 0 + 60)
wait_for_confirmation-times_out_example =
    wait_for_confirmation-times_out silent_node "signature" "confirmed" store (silent 60 0)

-- builders of a transfer and of an execution
abbrev meta : String → Bool → Bool → AccountMeta
meta address is_signer is_writable = record {
  address = some address;
  pubkey = none;
  is_signer = some is_signer;
  is_writable = some is_writable;
  role = none;
}

abbrev built : BuiltInstruction
built = record {
  accounts =
      meta "vault ata" false true
      ∷ meta "mint" false false
      ∷ meta "owner ata" false true
      ∷ meta "vault" true false
      ∷ [];
  payload = 12 ∷ 64 ∷ [];
}

abbrev sync_ix : List ℕ → Instruction
sync_ix bytes = record {
  program_address = "squads";
  accounts = account "settings" 1 ∷ [];
  payload = bytes;
}

builders : Builders
builders = record {
  get_transfer_checked_instruction = λ input. ok built;
  get_execute_transaction_sync_instruction = λ input. ok (sync_ix input.instructions);
}

abbrev withdrawn : Instruction
withdrawn = record {
  program_address = "squads";
  accounts =
      account "settings" 1
      ∷ account "owner" 2
      ∷ account "TokenkegQfeZyiNwAJbNbGKPFXCWuBvf9Ss623VQ5DA" 0
      ∷ account "vault ata" 1
      ∷ account "mint" 0
      ∷ account "owner ata" 1
      ∷ account "vault" 0
      ∷ [];
  payload = 1 ∷ 1 ∷ 4 ∷ 2 ∷ 3 ∷ 4 ∷ 5 ∷ 2 ∷ 0 ∷ 12 ∷ 64 ∷ [];
}
