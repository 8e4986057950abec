-- ===== src/Tabs/Tests/Payments.antt =====
-- Tests and examples of the payments: tabsFetch and the facilitator.
use splits.Prelude.{
  ◌≡◌, ◌↔◌, refl, ℕ, ◌+◌, ◌==◌, String, true, false, Option, none, some, [], ◌∷◌, if◌then◌else◌,
}
use splits.Prelude.Map
use splits.Outcome.{Result, ok, throw, error, big_int}
use splits.Tabs.Action.{Store}
use splits.Tabs.ApiKey.{KeyCodec}
use splits.Tabs.Base58.{digit_of}
use splits.Tabs.Fetch.{
  PaymentRequirements, TabsFetchOptions, resource_request, settle_request, Fetcher, Event,
  requested, headers_object, tabs_fetch, select_option, settled,
}
use splits.Tabs.Fetch.Conversation.{Conversation, tabs_fetch_lem}
use splits.Tabs.Worker.{Bindings, SpendingLimit, SignatureStatus, Message, Kit, sent, polled}
use splits.Tabs.Worker.Settle
use splits.Tabs.Worker
use Prim.Native.String
use splits.Tabs.Worker.Verify.{VerifyRequest, valid, verify}
use splits.Tabs.Worker.Verify.Covers.{IsCovered, verify_valid_iff}
use splits.Tabs.Worker.Echo.{PaymentHeader, echo}
use splits.Tabs.Worker.Echo.Order.{Echoed, echo_lem}

abbrev offer : PaymentRequirements
offer = record {
  scheme = "exact";
  network = "solana";
  max_amount_required = "10000";
  resource = "https://api.example/r";
  pay_to = "shop";
}

-- a shop that wants to be paid once, and a facilitator that settles; an answer is its number
shop : Fetcher ℕ Unit ℕ
shop = record {
  fetch = λ request w. (ok w, w + 1);
  status = λ r. if r == 0 then 402 else 200;
  payment_options = λ r. ok (some (offer ∷ []));
  settle_answer = λ r. ok (record { success = true; transaction = some "tx"; error_text = none });
  encode_payment = λ payment. ok payment.transaction;
}

abbrev get_options : TabsFetchOptions Unit
get_options = record {
  tabs_api_key = "tabs_key";
  facilitator_url = none;
  network = none;
  fetch_options = record { headers = headers_object (("Accept", "text/plain") ∷ []); others = tt };
}

abbrev start : Store ℕ (Event Unit ℕ)
start = record { world = 0; trace = [] }

paid_fetch :
    (tabs_fetch shop "https://api.example/r" get_options start).1.trace
    ≡ requested (resource_request "https://api.example/r" get_options.fetch_options) (ok 0)
      ∷ requested
          (settle_request "https://tabs.cascade.fyi/api/settle" "tabs_key" "shop" "10000")
          (ok 1)
      ∷ requested
          (resource_request "https://api.example/r" (record {
            headers = headers_object (("Accept", "text/plain") ∷ ("X-PAYMENT", "tx") ∷ []);
            others = tt;
          }))
          (ok 2)
      ∷ []
unfolding shop tabs_fetch select_option settled big_int Map.set splits.Tabs.Action.◌>>=◌
paid_fetch = refl

tabs_fetch_lem_example :
    let (r, s) = tabs_fetch shop "https://api.example/r" get_options start in
    Conversation shop "https://api.example/r" get_options s.trace r
tabs_fetch_lem_example = tabs_fetch_lem shop "https://api.example/r" get_options 0

-- the key "tabs_" stands for this payload
codec : KeyCodec
codec = record {
  encode = λ payload. ok [];
  decode = λ text. ok (record {
    settings_pda = "settings";
    spending_limit_pda = "limit";
    per_tx_max = "1000000";
    version = 1;
  });
}

-- a node that takes every transaction and confirms it at the second poll
abbrev seen : SignatureStatus
seen = record { confirmation_status = some "confirmed"; failed = false }

kit : Kit ℕ String
kit = record {
  codec = codec;
  get_program_derived_address = λ program seeds. ok "vault";
  checked_address = λ text. ok text;
  create_key_pair_signer_from_bytes = λ bytes w. (ok "executor", w);
  find_associated_token_pda = λ owner mint program. ok (String.◌++◌ owner " ata");
  set_compute_unit_price = λ fee. ok "price";
  create_associated_token_idempotent = λ input. ok "create";
  use_spending_limit = λ input. ok "use limit";
  transfer_checked = λ input. ok "transfer";
  priority_fee_estimate = λ url w. (throw (error "offline"), w);
  get_latest_blockhash = λ w. (ok "hash", w);
  fetch_maybe_spending_limit = λ address w. (ok none, w);
  sign = λ signer message w. (ok "wire", w);
  send_transaction = λ wire w. (ok wire, w);
  get_signature_status = λ signature w. (if w == 0 then ok none else ok (some seen), w + 1);
}

abbrev env : Bindings
env = record { helius_rpc_url = some "https://rpc"; executor_key = some "112VfUX" }

abbrev quiet_start : Store ℕ Worker.Event
quiet_start = record { world = 0; trace = [] }

settled_example :
    (Settle.settle kit env
      (ok (record { api_key = "tabs_"; pay_to = "shop"; amount = "10000" }))
      quiet_start).0
    ≡ ok (Settle.settled "wire")
unfolding kit codec Settle.settle digit_of splits.Tabs.Action.◌>>=◌
settled_example = refl

above_limit :
    (Settle.settle kit env
      (ok (record { api_key = "tabs_"; pay_to = "shop"; amount = "1000001" }))
      quiet_start).0
    ≡ ok (Settle.not_settled 400 "Amount exceeds per-tx limit")
unfolding kit codec Settle.settle digit_of splits.Tabs.Action.◌>>=◌
above_limit = refl

-- the same with a spending limit on the chain
limited_kit : Kit ℕ String
unfolding kit
limited_kit = record kit {
  fetch_maybe_spending_limit = λ address w. (ok (some (record { remaining_amount = 20000 })), w);
}

abbrev verify_request : VerifyRequest
verify_request = record { api_key = "tabs_"; amount = "10000" }

verified : (verify limited_kit env (ok verify_request) quiet_start).0 ≡ ok (valid "20000" "1000000")
unfolding limited_kit codec verify splits.Tabs.Action.◌>>=◌
verified = refl

verify_valid_iff_example :
    ((verify limited_kit env (ok verify_request) quiet_start).0 ≡ ok (valid "20000" "1000000"))
    ↔ IsCovered limited_kit verify_request 0 "20000" "1000000"
verify_valid_iff_example =
    verify_valid_iff limited_kit env verify_request quiet_start "20000" "1000000"

abbrev header : Option (Result PaymentHeader)
header = some (ok (record { transaction = some "payment"; tabs_api_key = some "tabs_" }))

echoed :
    (echo kit env header quiet_start).1.trace
    ≡ sent "payment" (ok "payment")
      ∷ polled "payment" (ok none)
      ∷ polled "payment" (ok (some seen))
      ∷ sent "wire" (ok "wire")
      ∷ []
unfolding kit codec echo digit_of splits.Tabs.Action.◌>>=◌
echoed = refl

echo_lem_example : let (r, s) = echo kit env header quiet_start in Echoed kit env header r s.trace
echo_lem_example = echo_lem kit env header 0
