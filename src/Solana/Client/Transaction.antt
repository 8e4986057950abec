-- ===== src/Solana/Client/Transaction.antt =====
-- buildTransaction of packages/splits-sdk/src/client/buildTransaction.ts, and the `try` in which
-- each operation of the client builds its transaction and hands it to the wallet.
pub mod Trace
use mathlib.Core.Option
use splits.Prelude.{ℕ, Bool, Option, none, some, List, [], ◌∷◌, ◌++◌}
use splits.Solana.Types.{
  Address, Signature, Instruction, set_compute_unit_limit, set_compute_unit_price, Lifetime,
  TransactionMessage, Commitment, confirmed,
}
use splits.Solana.Network.{Network, SendOptions}
use splits.Solana.Action.{Action, pure, outside, sign_and_send, ◌>>=◌}

pub record BuildOptions : Type 0 where
  pub compute_unit_limit : Option ℕ
  pub compute_unit_price : Option ℕ

abbrev pub compute_budget_program : Address
compute_budget_program = "ComputeBudget111111111111111111111111111111"

-- the library's two instructions
unfoldable pub limit_instruction : Option ℕ → List Instruction
limit_instruction none = []
limit_instruction (some units) =
    record {
      program_address = compute_budget_program;
      accounts = [];
      payload = set_compute_unit_limit units;
    }
    ∷ []

unfoldable pub price_instruction : Option ℕ → List Instruction
price_instruction none = []
price_instruction (some price) =
    record {
      program_address = compute_budget_program;
      accounts = [];
      payload = set_compute_unit_price price;
    }
    ∷ []

unfoldable pub budget : BuildOptions → List Instruction
unfolding limit_instruction price_instruction
budget options =
    limit_instruction options.compute_unit_limit ++ price_instruction options.compute_unit_price

unfoldable pub message_of :
    Address → List Instruction → BuildOptions → Lifetime → TransactionMessage
unfolding budget
message_of fee_payer instructions options lifetime = record {
  fee_payer = fee_payer;
  instructions = budget options ++ instructions;
  lifetime_constraint = lifetime;
}

module _ {W : Type 0} (net : Network W) where
  unfoldable pub build_transaction :
      Address → List Instruction → BuildOptions → Action W TransactionMessage
  unfolding message_of
  build_transaction fee_payer instructions options = do
    lifetime ← outside net.get_latest_blockhash
    pure (message_of fee_payer instructions options lifetime)

  -- `commitment = "confirmed"` is the default
  unfoldable pub submit :
      Address → List Instruction → BuildOptions → Option Commitment → Bool → Action W Signature
  unfolding build_transaction
  submit fee_payer instructions options commitment with_abort_signal = do
    message ← build_transaction fee_payer instructions options
    sign_and_send net message (record {
      commitment = Option.get_or commitment confirmed;
      with_abort_signal = with_abort_signal;
    })
