-- ===== src/Tabs/Fetch.antt =====
-- packages/tabs-sdk/src/tabsFetch.ts: a fetch that pays when the answer is 402. The network, the
-- JSON of an answer and the encodings are parameters; a `TabsPaymentError` is thrown as the error
-- with its message, and an event of the trace tells its fields.
pub mod Choice
pub mod Repeats
pub mod Conversation
use splits.Prelude.{
  ◌++◌, ℕ, suc, String, Bool, true, false, not, ◌||◌, ◌&&◌, Option, none, some, List, [], ◌∷◌, map,
  ◌==◌, ◌===◌, if◌then◌else◌,
}
use splits.Prelude.Text.{◌<>◌, codes, has_prefix, show}
use splits.Prelude.Integers.{ℤ, show_int}
use splits.Prelude.Map
use splits.Prelude.Map.{Map}
use splits.Outcome.{Result, ok, throw, Thrown, error, join, big_int}
use splits.Tabs.Action.{Action, Store, pure, raise, lift, observed, return_if, ◌>>=◌}

-- the members that a request reads; `description` and `extra` are passed on unread
pub record PaymentRequirements : Type 0 where
  pub scheme : String
  pub network : String
  pub max_amount_required : String
  pub resource : String
  pub pay_to : String

pub record TabsPaymentError : Type 0 where
  pub message : String
  pub facilitator_error : Option String
  pub payment_requirements : Option PaymentRequirements

-- `HeadersInit`, or no headers: an object, a `Headers`, or pairs of a name and a value
pub data HeadersInit : Type 0 where
  no_headers : HeadersInit
  headers_object headers_instance : Map String → HeadersInit
  headers_pairs : List (String × String) → HeadersInit

-- `RequestInit` with its headers, and the members that are passed on unread
pub record FetchOptions (O : Type 0) : Type 0 where
  pub headers : HeadersInit
  pub others : O

pub record TabsFetchOptions (O : Type 0) : Type 0 where
  pub tabs_api_key : String
  pub facilitator_url : Option String
  pub network : Option String
  pub fetch_options : FetchOptions O

-- the request to the resource, or the JSON that is posted to the facilitator
pub data Request (O : Type 0) : Type 0 where
  resource_request : String → FetchOptions O → Request O
  settle_request : String → (api_key pay_to amount : String) → Request O

pub record SettleAnswer : Type 0 where
  pub success : Bool
  pub transaction : Option String
  pub error_text : Option String

-- what is encoded in the header `X-PAYMENT`, with version 1 and the scheme "exact"
pub record Payment : Type 0 where
  pub network : String
  pub transaction : String
  pub tabs_api_key : String

pub record Fetcher (W O R : Type 0) : Type 0 where
  pub fetch : Request O → W → Result R × W
  pub status : R → ℕ
  -- `(await response.json()).accepts`
  pub payment_options : R → Result (Option (List PaymentRequirements))
  -- `await settleRes.json()`
  pub settle_answer : R → Result SettleAnswer
  -- `btoa(JSON.stringify(payment))`
  pub encode_payment : Payment → Result String

pub data Event (O R : Type 0) : Type 0 where
  requested : Request O → Result R → Event O R
  payment_failed : TabsPaymentError → Event O R

unfoldable pub find_option :
    (PaymentRequirements → Bool) → List PaymentRequirements → Option PaymentRequirements
find_option p [] = none
find_option p (r ∷ rs) = if p r then some r else find_option p rs

unfoldable pub or_else : {A : Type 0} → Option A → Option A → Option A
or_else none other = other
or_else (some a) other = some a

unfoldable pub select_option : String → List PaymentRequirements → Option PaymentRequirements
unfolding find_option or_else
select_option network options =
    or_else (find_option (λ r. r.network === network) options)
      (find_option (λ r. r.network === "solana" || r.network === "solana-devnet") options)

unfoldable pub default_to : {A : Type 0} → A → Option A → A
default_to a none = a
default_to a (some b) = b

-- the transaction of an answer that settles: not `!settle.success || !settle.transaction`
unfoldable pub settled : SettleAnswer → Option String
settled answer = elim answer.transaction [
  | none ↦ none
  | some tx ↦ if answer.success && not (tx === "") then some tx else none
]

-- the indices of an array as keys; as the value of a header, a pair is the text of its elements
unfoldable pub indexed : ℕ → List (String × String) → Map String
unfolding ◌<>◌ show
indexed i [] = []
indexed i ((name, value) ∷ pairs) = (show i, name <> "," <> value) ∷ indexed (suc i) pairs

-- the own enumerable properties that `{ ...headers }` copies: a `Headers` has none
unfoldable pub spread : HeadersInit → Map String
unfolding indexed
spread no_headers = []
spread (headers_object entries) = entries
spread (headers_instance entries) = []
spread (headers_pairs pairs) = indexed 0 pairs

abbrev pub default_facilitator_url : String
default_facilitator_url = "https://tabs.cascade.fyi"

module _ {W O R : Type 0} (net : Fetcher W O R) where
  unfoldable pub fetch : Request O → Action W (Event O R) R
  fetch request = observed (net.fetch request) (requested request)

  -- `throw new TabsPaymentError(…)`
  unfoldable pub throw_payment_error : {A : Type 0} → TabsPaymentError → Action W (Event O R) A
  throw_payment_error e s =
      (throw (error e.message), record s { trace = s.trace ++ payment_failed e ∷ [] })

  -- the request with the header that pays
  unfoldable pub with_payment : String → FetchOptions O → FetchOptions O
  unfolding spread
  with_payment encoded options = record options {
    headers = headers_object (Map.set "X-PAYMENT" encoded (spread options.headers));
  }

  unfoldable pub retry : String → TabsFetchOptions O → String → Action W (Event O R) R
  unfolding fetch with_payment default_to
  retry url options tx = do
    encoded ← lift (
        net.encode_payment (record {
          network = default_to "solana" options.network;
          transaction = tx;
          tabs_api_key = options.tabs_api_key;
        }))
    fetch (resource_request url (with_payment encoded options.fetch_options))

  unfoldable pub settle : String → TabsFetchOptions O → PaymentRequirements → Action W (Event O R) R
  unfolding fetch throw_payment_error default_to settled retry big_int show_int ◌<>◌
  settle url options req = do
    amount ← lift (big_int req.max_amount_required)
    response ← fetch (
        settle_request (default_to default_facilitator_url options.facilitator_url <> "/api/settle")
          options.tabs_api_key req.pay_to (show_int amount))
    answer ← lift (net.settle_answer response)
    elim (settled answer) [
      | none ↦ throw_payment_error (record {
        message = "Settlement failed";
        facilitator_error = answer.error_text;
        payment_requirements = some req;
      })
      | some tx ↦ retry url options tx
    ]

  abbrev pub plain_error : String → TabsPaymentError
  plain_error message = record {
    message = message;
    facilitator_error = none;
    payment_requirements = none;
  }

  unfoldable pub pay :
      String → TabsFetchOptions O → List PaymentRequirements → Action W (Event O R) R
  unfolding select_option default_to settle throw_payment_error join ◌<>◌
  pay url options [] = throw_payment_error (plain_error "No payment options in 402 response")
  pay url options (r ∷ rs) = elim (select_option (default_to "solana" options.network) (r ∷ rs)) [
    | none ↦ throw_payment_error (
        plain_error
          ("No Solana payment option. Available: " <> join (map (λ a. a.network) (r ∷ rs))))
    | some req ↦ settle url options req
  ]

  unfoldable pub tabs_fetch : String → TabsFetchOptions O → Action W (Event O R) R
  unfolding fetch pay return_if default_to has_prefix codes
  tabs_fetch url options =
      if has_prefix (codes "tabs_") (codes options.tabs_api_key)
      then (do
        response ← fetch (resource_request url options.fetch_options)
        return_if (not (net.status response == 402)) response (do
          accepts ← lift (net.payment_options response)
          pay url options (default_to [] accepts)))
      else raise (error "Invalid Tabs API key")
