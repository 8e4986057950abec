-- ===== src/Tabs/History.antt =====
-- apps/tabs/src/react-app/lib/transaction-parser.ts: what a transaction did to the vault.
use splits.Prelude.{
  ◌≡◌, refl, ℕ, String, Bool, true, false, ◌&&◌, ◌||◌, Option, none, some, List, [], ◌∷◌, ◌===◌,
  if◌then◌else◌,
}
use splits.Prelude.Text.{◌<>◌, includes}
use splits.Prelude.Integers.{ℤ, pos, negate, ◌-ℤ◌, greater, times}
use splits.Outcome.{Result, ok, ◌>>=◌, big_int}
use splits.Tabs.Derive.{smart_account_program}
use splits.Tabs.Message.{Address}
use splits.Tabs.Worker.{usdc_mint}

pub data ParsedTxType : Type 0 where
  deposit withdraw set_limit revoke_limit api_spend unknown : ParsedTxType

pub record TokenBalance : Type 0 where
  pub mint : Address
  pub owner : Address
  -- `uiTokenAmount?.amount`
  pub amount : Option String

-- the members of the transaction that are read
pub record HeliusTransaction : Type 0 where
  -- `signatures[0]`
  pub signature : String
  -- seconds
  pub block_time : ℤ
  pub fee : ℕ
  pub program_ids : List Address
  pub pre_token_balances : Option (List TokenBalance)
  pub post_token_balances : Option (List TokenBalance)
  pub log_messages : Option (List String)

pub record ParsedTransaction : Type 0 where
  pub signature : String
  pub tx_type : ParsedTxType
  -- milliseconds
  pub timestamp : ℤ
  pub amount : Option ℤ
  pub fee : ℕ

-- `find`, of an owner's balance of USDC
unfoldable pub find_balance : Address → List TokenBalance → Option TokenBalance
find_balance owner [] = none
find_balance owner (b ∷ bs) =
    if b.owner === owner && b.mint === usdc_mint then some b else find_balance owner bs

unfoldable pub balance_in : Address → Option (List TokenBalance) → Option TokenBalance
unfolding find_balance
balance_in owner none = none
balance_in owner (some bs) = find_balance owner bs

-- `?? "0"`
unfoldable pub amount_text : Option TokenBalance → String
amount_text none = "0"
amount_text (some b) = elim b.amount [ none ↦ "0" | some text ↦ text ]

unfoldable pub get_usdc_balance_change : HeliusTransaction → Address → Result ℤ
unfolding balance_in amount_text big_int ◌-ℤ◌
get_usdc_balance_change tx owner = do
  pre ← big_int (amount_text (balance_in owner tx.pre_token_balances))
  post ← big_int (amount_text (balance_in owner tx.post_token_balances))
  ok (post -ℤ pre)

-- `join("\n")`
unfoldable pub joined_lines : List String → String
unfolding ◌<>◌
joined_lines [] = ""
joined_lines (l ∷ []) = l
joined_lines (l ∷ k ∷ ls) = l <> "\n" <> joined_lines (k ∷ ls)

unfoldable pub log_text : Option (List String) → String
unfolding joined_lines
log_text none = ""
log_text (some lines) = joined_lines lines

unfoldable pub has_program : List Address → Bool
has_program [] = false
has_program (p ∷ ps) = p === smart_account_program || has_program ps

unfoldable pub base_of : HeliusTransaction → ParsedTransaction
unfolding times
base_of tx = record {
  signature = tx.signature;
  tx_type = unknown;
  timestamp = times tx.block_time 1000;
  amount = none;
  fee = tx.fee;
}

unfoldable pub limit_type : Bool → String → ParsedTxType
unfolding includes
limit_type false logs = unknown
limit_type true logs =
    if includes logs "AddSpendingLimit"
    then set_limit
    else if includes logs "RemoveSpendingLimit"
    then revoke_limit
    else unknown

unfoldable pub parsed_change : HeliusTransaction → ℤ → String → ParsedTransaction
unfolding base_of greater negate includes limit_type has_program
parsed_change tx change logs =
    if greater change (pos 0)
    then record (base_of tx) { tx_type = deposit; amount = some change }
    else if greater (pos 0) change
    then record (base_of tx) {
      tx_type = if includes logs "UseSpendingLimit" then api_spend else withdraw;
      amount = some (negate change);
    }
    else record (base_of tx) { tx_type = limit_type (has_program tx.program_ids) logs }

unfoldable pub parse_transaction : HeliusTransaction → Address → Result ParsedTransaction
unfolding parsed_change get_usdc_balance_change log_text
parse_transaction tx vault = do
  change ← get_usdc_balance_change tx vault
  ok (parsed_change tx change (log_text tx.log_messages))

abbrev spend : HeliusTransaction
spend = record {
  signature = "sig";
  block_time = pos 10;
  fee = 5000;
  program_ids = smart_account_program ∷ [];
  pre_token_balances =
      some (record { mint = usdc_mint; owner = "vault"; amount = some "700" } ∷ []);
  post_token_balances =
      some (record { mint = usdc_mint; owner = "vault"; amount = some "450" } ∷ []);
  log_messages = some ("Program log" ∷ "Instruction: UseSpendingLimit" ∷ []);
}

parsed_spend :
    parse_transaction spend "vault"
    ≡ ok (record {
      signature = "sig";
      tx_type = api_spend;
      timestamp = pos 10000;
      amount = some (pos 250);
      fee = 5000;
    })
unfolding parse_transaction
parsed_spend = refl
