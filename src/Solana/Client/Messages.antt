-- ===== src/Solana/Client/Messages.antt =====
-- The texts of packages/splits-sdk/src/client/messages.ts.
use Prim.Native.String.{len}
use splits.Prelude.{ℕ, ◌-◌, String, List, [], ◌∷◌, map, length, take, ltb, leb, ◌==◌, if◌then◌else◌}
use splits.Prelude.Text.{◌<>◌, show, first_part, last_part}
use splits.Outcome.{join}

-- a text of at most 12 characters is kept
unfoldable pub truncate_address : String → String
unfolding first_part last_part ◌<>◌
truncate_address address =
    if leb (len address) 12 then address else first_part address 4 <> "..." <> last_part address 4

unfoldable pub vault_not_empty_message : ℕ → String
unfolding show ◌<>◌
vault_not_empty_message balance =
    "Vault has "
    <> show balance
    <> " tokens (raw). Execute the split first to distribute funds, then try again."

unfoldable pub unclaimed_pending_message : ℕ → ℕ → String
unfolding show ◌<>◌
unclaimed_pending_message count total =
    (if count == 1 then "1 recipient has" else show count <> " recipients have")
    <> " "
    <> show total
    <> " tokens (raw) unclaimed. Execute the split to clear unclaimed amounts, then try again."

unfoldable pub not_authority_message : String → String → String
unfolding truncate_address ◌<>◌
not_authority_message expected actual =
    "Only the split authority ("
    <> truncate_address expected
    <> ") can perform this action. Connected wallet is "
    <> truncate_address actual
    <> "."

unfoldable pub recipients_without_accounts : List String → String
unfolding truncate_address show join ◌<>◌
recipients_without_accounts missing =
    show (length missing)
    <> " recipients don't have token accounts: "
    <> join (map truncate_address (take 2 missing))
    <> (if ltb 2 (length missing) then " and " <> show (length missing - 2) <> " more" else "")
    <> ". They need to create accounts before receiving funds."

unfoldable pub recipient_atas_missing_message : List String → String
unfolding recipients_without_accounts truncate_address ◌<>◌
recipient_atas_missing_message (address ∷ []) =
    "Recipient "
    <> truncate_address address
    <> " doesn't have a token account. They need to create one before receiving funds."
recipient_atas_missing_message missing = recipients_without_accounts missing

unfoldable pub wallet_rejected_message : String
wallet_rejected_message =
    "Transaction was rejected. Please try again and approve the transaction in your wallet."

unfoldable pub wallet_disconnected_message : String
wallet_disconnected_message = "Wallet disconnected. Please reconnect your wallet and try again."

unfoldable pub network_error_message : String → String
unfolding ◌<>◌
network_error_message detail =
    if len detail == 0
    then "Network error. Check your connection and try again."
    else "Network error: " <> detail <> ". Check your connection and try again."

unfoldable pub transaction_expired_message : String
transaction_expired_message =
    "Transaction expired before confirmation. The network may be congested. Please try again."

unfoldable pub not_found_message : String → String
unfolding truncate_address ◌<>◌
not_found_message vault =
    "Vault " <> truncate_address vault <> " not found. It may not exist or has been closed."

unfoldable pub not_a_split_message : String → String
unfolding truncate_address ◌<>◌
not_a_split_message address =
    "Address " <> truncate_address address <> " is not a Cascade split. Skipping execution."
