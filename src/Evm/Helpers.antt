-- ===== src/Evm/Helpers.antt =====
-- packages/splits-sdk-evm/src/helpers.ts and addresses.ts.
use splits.Prelude.{
  ℕ, ◌+◌, ◌*◌, Bool, false, Option, none, some, List, [], ◌∷◌, if◌then◌else◌, ◌==◌,
}
use splits.Prelude.Text.{◌<>◌, show}
use splits.Outcome.{Result, ok, throw, error, map_result}
use splits.Evm.Types.{Address, EvmRecipient, EvmRecipientInput, Clients}
use splits.Evm.Action.{Action, pure, outside, attempt, ◌>>=◌}

-- `r.percentageBps ?? (r.share !== undefined ? r.share * 99 : undefined)`
unfoldable pub input_bps : Option ℕ → Option ℕ → Option ℕ
input_bps (some bps) share = some bps
input_bps none (some share) = some (share * 99)
input_bps none none = none

unfoldable pub with_bps : Address → Option ℕ → Result EvmRecipient
with_bps address none = throw (error "Recipient must have either share or percentageBps")
with_bps address (some bps) = ok (record { addr = address; percentage_bps = bps })

unfoldable pub usdc_address : ℕ → Result Address
unfolding show ◌<>◌
usdc_address chain_id =
    if chain_id == 8453
    then ok "0x833589fCD6eDb6E08f4c7C32D4f71b54bdA02913"
    else if chain_id == 84532
    then ok "0x036CbD53842c5426634e7929541eC2318f3dCF7e"
    else throw (
        error (
          "USDC not configured for chain "
          <> show chain_id
          <> ". Supported chains: Base (8453), Base Sepolia (84532)"))

unfoldable pub split_factory_address : ℕ → Result Address
unfolding show ◌<>◌
split_factory_address chain_id =
    if chain_id == 8453
    then ok "0x946Cd053514b1Ab7829dD8fEc85E0ade5550dcf7"
    else if chain_id == 84532
    then ok "0x946Cd053514b1Ab7829dD8fEc85E0ade5550dcf7"
    else throw (
        error (
          "SplitFactory not deployed on chain "
          <> show chain_id
          <> ". Supported chains: Base (8453), Base Sepolia (84532)"))

-- `evmRecipients.reduce((sum, r) => sum + r.percentageBps, 0)`
unfoldable pub total_bps : List EvmRecipient → ℕ
total_bps [] = 0
total_bps (r ∷ rs) = r.percentage_bps + total_bps rs

unfoldable pub valid_or_false : Result Bool → Bool
valid_or_false (ok b) = b
valid_or_false (throw e) = false

module _ {W : Type 0} (clients : Clients W) where
  unfoldable pub to_evm_recipient : EvmRecipientInput → Result EvmRecipient
  unfolding input_bps with_bps ◌<>◌
  to_evm_recipient r =
      if clients.is_address r.address
      then with_bps r.address (input_bps r.percentage_bps r.share)
      else throw (error ("Invalid address: " <> r.address))

  unfoldable pub to_evm_recipients : List EvmRecipientInput → Result (List EvmRecipient)
  unfolding map_result to_evm_recipient
  to_evm_recipients recipients = map_result to_evm_recipient recipients

  unfoldable pub is_cascade_split : Address → Action W Bool
  unfolding valid_or_false
  is_cascade_split address = do
    outcome ← attempt (outside (clients.is_cascade_split_config address))
    pure (valid_or_false outcome)
