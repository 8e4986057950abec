-- ===== src/Solana/Client/Results.antt =====
-- The result types of packages/splits-sdk/src/client/types.ts. A `message` is the text for the
-- user; the optional `error` of a failure is the thrown value.
use splits.Prelude.{ℕ, String, Bool, Option, List}
use splits.Outcome.{Thrown}
use splits.Solana.Types.{Address, Signature, Recipient, Commitment}

pub data BlockedReason : Type 0 where
  vault_not_empty unclaimed_pending not_authority recipient_atas_missing : BlockedReason

pub data SkippedReason : Type 0 where
  not_found not_a_split : SkippedReason

pub data FailedReason : Type 0 where
  wallet_rejected wallet_disconnected network_error transaction_expired program_error : FailedReason

-- `FailedResult` of client/errors.ts
pub record FailedResult : Type 0 where
  pub reason : FailedReason
  pub message : String
  pub error : Thrown

-- `atasCreated` is absent where no account was created.
pub data EnsureResult : Type 0 where
  created : Address → Address → Signature → ℕ → Option (List Address) → EnsureResult
  no_change : Address → Address → EnsureResult
  updated : Address → Address → Signature → Option (List Address) → EnsureResult
  blocked : BlockedReason → String → EnsureResult
  failed : FailedResult → EnsureResult

pub data UpdateResult : Type 0 where
  updated : Signature → Option (List Address) → UpdateResult
  no_change : UpdateResult
  blocked : BlockedReason → String → UpdateResult
  failed : FailedResult → UpdateResult

pub data CloseResult : Type 0 where
  closed : Signature → ℕ → Option (List Address) → CloseResult
  already_closed : CloseResult
  blocked : BlockedReason → String → CloseResult
  failed : FailedResult → CloseResult

pub data ExecuteResult : Type 0 where
  executed : Signature → ExecuteResult
  skipped : SkippedReason → String → ExecuteResult
  failed : FailedResult → ExecuteResult

-- `SplitsClientConfig`
pub record ClientConfig : Type 0 where
  pub commitment : Option Commitment
  pub compute_unit_price : Option ℕ

-- `EnsureParams`, with the mint and the id that the callers of `ensureSplitImpl` always give
pub record EnsureParams : Type 0 where
  pub recipients : List Recipient
  pub mint : Address
  pub unique_id : Address
  pub payer : Option Address
  pub create_missing_atas : Option Bool

pub record UpdateParams : Type 0 where
  pub recipients : List Recipient
  pub create_missing_atas : Option Bool
