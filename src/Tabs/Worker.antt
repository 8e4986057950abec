-- ===== src/Tabs/Worker.antt =====
-- apps/tabs/src/worker/index.ts: the facilitator. The RPC client, the clock, the keys and the
-- generated instruction builders are parameters; console output and CORS are left out.
pub mod Verify
pub mod Settle
pub mod Echo
use splits.Prelude.{
  ℕ, zero, suc, ◌+◌, ◌/◌, String, Bool, true, false, Option, none, some, List, [], ◌∷◌, ltb, ◌==◌,
  if◌then◌else◌,
}
use splits.Prelude.Integers.{ℤ, pos, negsuc, neg}
use splits.Outcome.{Result, ok, throw, Thrown, error}
use splits.Solana.Client.Execute.{error_message}
use splits.Tabs.Action.{Action, Store, pure, lift, attempt, outside, observed, ◌>>=◌, Triple}
use splits.Tabs.ApiKey.{KeyCodec}
use splits.Tabs.Derive.{Seed}
use splits.Tabs.Message.{Address}

abbrev pub usdc_mint : Address
usdc_mint = "EPjFWdd5AufqSSqeM2qN1xzybapC8G4wEGGkZwyTDt1v"

abbrev pub usdc_decimals : ℕ
usdc_decimals = 6

-- of @solana-program/token
abbrev pub token_program_address : Address
token_program_address = "TokenkegQfeZyiNwAJbNbGKPFXCWuBvf9Ss623VQ5DA"

-- `Env`: none where a binding is missing or empty
pub record Bindings : Type 0 where
  pub helius_rpc_url : Option String
  pub executor_key : Option String

-- a number of JSON as a fraction, `numerator / (below + 1)`
pub record JsonNumber : Type 0 where
  pub numerator : ℤ
  pub below : ℕ

pub record UseSpendingLimitInput : Type 0 where
  pub settings : Address
  pub signer : Address
  pub spending_limit : Address
  pub smart_account : Address
  pub destination : Address
  pub mint : Address
  pub smart_account_token_account : Address
  pub destination_token_account : Address
  pub token_program : Address
  pub amount : ℤ
  pub decimals : ℕ

pub record TransferCheckedInput : Type 0 where
  pub source : Address
  pub mint : Address
  pub destination : Address
  pub authority : Address
  pub amount : ℤ
  pub decimals : ℕ

pub record CreateAtaInput : Type 0 where
  pub payer : Address
  pub owner : Address
  pub mint : Address
  pub ata : Address
  pub token_program : Address

-- a transaction message of version 0; `I` is the type of the instructions
pub record Message (I : Type 0) : Type 0 where
  pub fee_payer : Address
  pub blockhash : String
  pub instructions : List I

pub record SpendingLimit : Type 0 where
  pub remaining_amount : ℕ

pub record SignatureStatus : Type 0 where
  pub confirmation_status : Option String
  -- `err` is set
  pub failed : Bool

pub record Kit (W I : Type 0) : Type 0 where
  pub codec : KeyCodec
  pub get_program_derived_address : Address → List Seed → Result Address
  -- `address`
  pub checked_address : String → Result Address
  -- the address of the signer of the secret key
  pub create_key_pair_signer_from_bytes : List ℕ → W → Result Address × W
  -- owner, mint and token program
  pub find_associated_token_pda : Address → Address → Address → Result Address
  pub set_compute_unit_price : ℤ → Result I
  pub create_associated_token_idempotent : CreateAtaInput → Result I
  pub use_spending_limit : UseSpendingLimitInput → Result I
  pub transfer_checked : TransferCheckedInput → Result I
  -- `result.result?.priorityFeeEstimate` of the answer at this URL
  pub priority_fee_estimate : String → W → Result (Option JsonNumber) × W
  pub get_latest_blockhash : W → Result String × W
  pub fetch_maybe_spending_limit : Address → W → Result (Option SpendingLimit) × W
  -- `compileTransaction`, `partiallySignTransaction` with the signer's key, and the wire format
  pub sign : Address → Message I → W → Result String × W
  pub send_transaction : String → W → Result String × W
  -- `value[0]`
  pub get_signature_status : String → W → Result (Option SignatureStatus) × W

-- what the worker sends to the chain and what it asks of it
pub data Event : Type 0 where
  sent : String → Result String → Event
  -- of the transaction with this signature
  polled : String → Result (Option SignatureStatus) → Event

-- `Math.ceil`, then `BigInt`
unfoldable pub ceil : JsonNumber → ℤ
unfolding neg
ceil x = elim x.numerator [
  | pos n ↦ pos ((n + x.below) / suc x.below)
  | negsuc n ↦ neg (suc n / suc x.below)
]

unfoldable pub is_zero : ℤ → Bool
is_zero (pos n) = n == 0
is_zero (negsuc n) = false

-- the estimate, or 50,000 where there is none or the request fails
unfoldable pub fee_or_default : Result (Option JsonNumber) → ℤ
unfolding ceil is_zero
fee_or_default (throw e) = pos 50000
fee_or_default (ok none) = pos 50000
fee_or_default (ok (some x)) = if is_zero x.numerator then pos 50000 else ceil x

-- `error instanceof Error ? error.message : otherwise`
unfoldable pub message_or : String → Thrown → String
unfolding error_message
message_or otherwise e = elim (error_message e) [ none ↦ otherwise | some message ↦ message ]

-- `try { … } catch (error) { return … }`
unfoldable pub recovered : {A : Type 0} → (Thrown → A) → Result A → Result A
recovered f (ok a) = ok a
recovered f (throw e) = ok (f e)

unfoldable pub catching : {W E A : Type 0} → (Thrown → A) → Action W E A → Action W E A
unfolding recovered
catching f m s = let (r, s') = m s in (recovered f r, s')

module _ {W I : Type 0} (kit : Kit W I) where
  unfoldable pub get_priority_fee_estimate : String → Action W Event ℤ
  unfolding fee_or_default
  get_priority_fee_estimate rpc_url = do
    estimate ← attempt (outside (kit.priority_fee_estimate rpc_url))
    pure (fee_or_default estimate)

-- what a caught action ends with
recovered_lem :
    {E A : Type 0} (Q R : Result A → List E → Type 0) (f : Thrown → A) (r : Result A) (t : List E)
    → ((a : A) (t : List E) → Q (ok a) t → R (ok a) t)
    → ((e : Thrown) (t : List E) → Q (throw e) t → R (ok (f e)) t)
    → Q r t
    → R (recovered f r) t
unfolding recovered
recovered_lem Q R f (ok a) t h fail q = h a t q
recovered_lem Q R f (throw e) t h fail q = fail e t q

module _ {W E A : Type 0} (P : List E → Type 0) (Q R : Result A → List E → Type 0) where
  pub Triple-catching :
      (f : Thrown → A) (m : Action W E A)
      → Triple P m Q
      → ((a : A) (t : List E) → Q (ok a) t → R (ok a) t)
      → ((e : Thrown) (t : List E) → Q (throw e) t → R (ok (f e)) t)
      → Triple P (catching f m) R
  unfolding catching
  Triple-catching f m triple h fail = record {
    at = λ s p. recovered_lem Q R f (m s).0 (m s).1.trace h fail (triple.at s p);
  }
