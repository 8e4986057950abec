-- ===== src/Solana/Recipients.antt =====
-- packages/splits-sdk/src/recipients.ts: shares and basis points.
pub mod Bounds
use splits.Prelude.{String, ℕ, ◌+◌, ◌*◌, ◌/◌, Option, none, some, ltb, if◌then◌else◌, ◌||◌}
use splits.Prelude.Text.{◌<>◌, show}
use splits.Outcome.{Result, ok, throw, Thrown, splits_error, invalid_recipients_error}
use splits.Solana.Types.{JsNumber, natural, negative, not_integer, Recipient}

-- `!Number.isInteger(x) || x < lo || x > hi` fails: the number, as a natural
unfoldable pub integer_in : ℕ → ℕ → JsNumber → Option ℕ
integer_in lo hi (natural n) = if ltb n lo || ltb hi n then none else some n
integer_in lo hi (negative n) = none
integer_in lo hi (not_integer text) = none

-- a number in a template; from 10 ^ 21 on JavaScript writes an exponent
unfoldable pub number_text : JsNumber → String
unfolding show ◌<>◌
number_text (natural n) = show n
number_text (negative n) = "-" <> show (n + 1)
number_text (not_integer text) = text

unfoldable pub invalid_share : JsNumber → Thrown
unfolding number_text
invalid_share share =
    splits_error
      (invalid_recipients_error ("Share must be integer 1-100, got " <> number_text share))

unfoldable pub share_to_percentage_bps : JsNumber → Result ℕ
unfolding integer_in invalid_share
share_to_percentage_bps share = elim (integer_in 1 100 share) [
  | none ↦ throw (invalid_share share)
  | some s ↦ ok (s * 99)
]

-- `Math.round(bps / 99)`: 99 is odd, so no quotient lies half way between two integers. The
-- argument is a u16 of the chain, so that the number of the source is exact.
unfoldable pub percentage_bps_to_shares : ℕ → ℕ
percentage_bps_to_shares bps = (2 * bps + 99) / 198

unfoldable pub invalid_bps : JsNumber → Thrown
unfolding number_text
invalid_bps bps =
    splits_error
      (invalid_recipients_error ("percentageBps must be integer 1-9900, got " <> number_text bps))

unfoldable pub checked_bps : JsNumber → Result ℕ
unfolding integer_in invalid_bps
checked_bps bps = elim (integer_in 1 9900 bps) [ none ↦ throw (invalid_bps bps) | some b ↦ ok b ]

unfoldable pub share_bps : Option JsNumber → Result ℕ
unfolding share_to_percentage_bps
share_bps none =
    throw
      (splits_error (invalid_recipients_error "Recipient must have either share or percentageBps"))
share_bps (some share) = share_to_percentage_bps share

unfoldable pub to_percentage_bps : Recipient → Result ℕ
unfolding checked_bps share_bps
to_percentage_bps r = elim r.percentage_bps [
  | some bps ↦ checked_bps bps
  | none ↦ share_bps r.share
]
