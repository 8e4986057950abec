-- ===== src/Tabs/Worker/Verify.antt =====
-- POST /api/verify of apps/tabs/src/worker/index.ts.
pub mod Covers
use splits.Prelude.{ℕ, String, Option, none, some}
use splits.Prelude.Text.{◌<>◌, codes, show}
use splits.Prelude.Integers.{ℤ, pos, greater, show_int}
use splits.Outcome.{Result, big_int}
use splits.Tabs.Action.{Action, pure, lift, outside, return_if, ◌>>=◌}
use splits.Tabs.ApiKey.{TabsApiKeyPayload, decode_tabs_api_key}
use splits.Tabs.Worker.{Bindings, SpendingLimit, Kit, Event}

pub record VerifyRequest : Type 0 where
  pub api_key : String
  pub amount : String

pub data VerifyReply : Type 0 where
  -- status and error
  not_valid : ℕ → String → VerifyReply
  valid : (remaining_allowance per_tx_limit : String) → VerifyReply

module _ {W I : Type 0} (kit : Kit W I) where
  unfoldable pub check_allowance :
      ℤ → TabsApiKeyPayload → Option SpendingLimit → Action W Event VerifyReply
  unfolding show show_int greater ◌<>◌
  check_allowance amount payload none = pure (not_valid 404 "Spending limit not found")
  check_allowance amount payload (some limit) =
      return_if (greater amount (pos limit.remaining_amount))
        (not_valid 400 ("Insufficient remaining allowance: " <> show limit.remaining_amount))
        (pure (valid (show limit.remaining_amount) (show_int payload.per_tx_max)))

  unfoldable pub verify_payload :
      Bindings → VerifyRequest → Option TabsApiKeyPayload → Action W Event VerifyReply
  unfolding return_if big_int greater check_allowance show_int ◌<>◌
  verify_payload env request none = pure (not_valid 400 "Invalid API key")
  verify_payload env request (some payload) = do
    amount ← lift (big_int request.amount)
    return_if (greater amount payload.per_tx_max)
        (not_valid 400
          ("Amount " <> show_int amount <> " exceeds per-tx limit " <> show_int payload.per_tx_max))
        (do
          limit ← outside (kit.fetch_maybe_spending_limit payload.spending_limit_pda)
          check_allowance amount payload limit)

  -- `parsed` is what `c.req.json` gives
  unfoldable pub verify : Bindings → Result VerifyRequest → Action W Event VerifyReply
  unfolding verify_payload decode_tabs_api_key codes
  verify env parsed = do
    request ← lift parsed
    verify_payload env request (decode_tabs_api_key kit.codec (codes request.api_key))
