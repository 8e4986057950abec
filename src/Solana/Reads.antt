-- ===== src/Solana/Reads.antt =====
-- The read functions of packages/splits-sdk/src/helpers.ts.
pub mod Caching
pub mod Words
pub mod Silence
use splits.Prelude.{
  ℕ, ◌+◌, ◌*◌, Bool, Option, none, some, List, [], ◌∷◌, map, length, take, drop, keep, ltb, arith,
  if◌then◌else◌,
}
use splits.Outcome.{
  Thrown, Result, ok, throw, splits_error, split_config_not_found_error, vault_not_found_error,
  invalid_token_account_error, protocol_not_initialized_error,
}
use splits.Solana.Types.{
  Address, SplitConfig, SplitRecipient, OnChainRecipient, UnclaimedAmount, ProtocolConfig,
}
use splits.Solana.Recipients.{percentage_bps_to_shares}
use splits.Solana.Network.{Network, SplitConfigData, ProtocolConfigData, AccountInfo}
use splits.Solana.Action.{
  Action, pure, raise, lift, gets, attempt, outside, set_protocol_config, ◌>>=◌, ◌>>◌,
}
use splits.Solana.Derive.{derive_protocol_config}

-- `readBigUInt64LE`: eight bytes from the offset, the least significant first. Past the end of the
-- data the source throws a RangeError; its caller has checked that the eight bytes are there.
unfoldable pub le_value : List ℕ → ℕ
le_value [] = 0
le_value (b ∷ bs) = b + 256 * le_value bs

unfoldable pub read_u64_le : List ℕ → ℕ → ℕ
unfolding le_value
read_u64_le bytes offset = le_value (take 8 (drop offset bytes))

-- the object that `getSplitConfig` builds from the decoded account
unfoldable pub with_share : OnChainRecipient → SplitRecipient
with_share r = record {
  address = r.address;
  percentage_bps = r.percentage_bps;
  share = percentage_bps_to_shares r.percentage_bps;
}

unfoldable pub is_unclaimed : UnclaimedAmount → Bool
is_unclaimed u = ltb 0 u.amount

unfoldable pub to_split_config : Address → SplitConfigData → SplitConfig
unfolding with_share is_unclaimed
to_split_config split_config d = record {
  address = split_config;
  version = d.version;
  authority = d.authority;
  mint = d.mint;
  vault = d.vault;
  unique_id = d.unique_id;
  bump = d.bump;
  recipients = map with_share (take d.recipient_count d.recipients);
  unclaimed_amounts = keep is_unclaimed d.unclaimed_amounts;
  protocol_unclaimed = d.protocol_unclaimed;
  last_activity = d.last_activity;
  rent_payer = d.rent_payer;
}

unfoldable pub existing_split_config : Address → Option SplitConfigData → Result SplitConfig
unfolding to_split_config
existing_split_config split_config none =
    throw (splits_error (split_config_not_found_error split_config))
existing_split_config split_config (some d) = ok (to_split_config split_config d)

-- a token account: mint (32), owner (32), amount (8)
unfoldable pub vault_owner : (List ℕ → Address) → Address → Option AccountInfo → Result Address
vault_owner decode vault none = throw (splits_error (vault_not_found_error vault))
vault_owner decode vault (some a) =
    if ltb (length a.bytes) 72
    then throw (splits_error (invalid_token_account_error vault))
    else ok (decode (take 32 (drop 32 a.bytes)))

unfoldable pub token_amount : Address → Option AccountInfo → Result ℕ
unfolding read_u64_le
token_amount vault none = ok 0
token_amount vault (some a) =
    if ltb (length a.bytes) 72
    then throw (splits_error (invalid_token_account_error vault))
    else ok (read_u64_le a.bytes 64)

unfoldable pub to_protocol_config : Address → ProtocolConfigData → ProtocolConfig
to_protocol_config address d = record {
  address = address;
  authority = d.authority;
  pending_authority = d.pending_authority;
  fee_wallet = d.fee_wallet;
  bump = d.bump;
}

module _ {W : Type 0} where
  -- the `try` of `getProtocolConfig`: every throw becomes `ProtocolNotInitializedError`
  unfoldable pub fetched_protocol_config :
      Address → Result ProtocolConfigData → Action W ProtocolConfig
  unfolding to_protocol_config
  fetched_protocol_config address (throw e) = raise (splits_error protocol_not_initialized_error)
  fetched_protocol_config address (ok d) = do
    set_protocol_config (some (to_protocol_config address d))
    pure (to_protocol_config address d)

module _ {W : Type 0} (net : Network W) where
  unfoldable pub get_split_config : Address → Action W SplitConfig
  get_split_config split_config = do
    account ← outside (net.fetch_maybe_split_config split_config)
    lift (existing_split_config split_config account)

  unfoldable pub get_split_config_address_from_vault : Address → Action W Address
  get_split_config_address_from_vault vault = do
    info ← outside (net.get_account_info vault)
    lift (vault_owner net.decode_address vault info)

  unfoldable pub get_split_config_from_vault : Address → Action W SplitConfig
  get_split_config_from_vault vault = do
    split_config ← get_split_config_address_from_vault vault
    get_split_config split_config

  unfoldable pub get_vault_balance : Address → Action W ℕ
  get_vault_balance vault = do
    info ← outside (net.get_account_info vault)
    lift (token_amount vault info)

  unfoldable pub cached_or_fetched : Option ProtocolConfig → Action W ProtocolConfig
  unfolding fetched_protocol_config
  cached_or_fetched (some config) = pure config
  cached_or_fetched none = do
    address ← lift (derive_protocol_config net)
    account ← attempt (outside (net.fetch_protocol_config address))
    fetched_protocol_config address account

  unfoldable pub get_protocol_config : Action W ProtocolConfig
  unfolding cached_or_fetched
  get_protocol_config = do cached ← gets (λ s. s.cached_protocol_config); cached_or_fetched cached

  unfoldable pub invalidate_protocol_config_cache : Action W Unit
  invalidate_protocol_config_cache = set_protocol_config none

module _ {W : Type 0} where
  -- the `catch` that its callers put around `getSplitConfig`: only `SplitConfigNotFoundError` is
  -- taken for an absent config
  unfoldable pub absent_if_not_found : Result SplitConfig → Action W (Option SplitConfig)
  absent_if_not_found (ok config) = pure (some config)
  absent_if_not_found (throw (splits_error (split_config_not_found_error a))) = pure none
  absent_if_not_found (throw e) = raise e

unfoldable pub find_split_config :
    {W : Type 0} (net : Network W) → Address → Action W (Option SplitConfig)
unfolding absent_if_not_found
find_split_config net split_config = do
  outcome ← attempt (get_split_config net split_config)
  absent_if_not_found outcome
