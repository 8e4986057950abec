-- ===== src/Tabs/Fetch/Conversation.antt =====
-- The conversations that `tabsFetch` can have, as a relation between the trace and the outcome.
use splits.Prelude.{
  ap, Option, ◌≡◌, sym, subst, String, Bool, true, false, some, List, [], ◌∷◌, ◌++◌, ◌==◌, arith,
  none, refl, if◌then◌else◌, not,
}
use splits.Prelude.Text.{◌<>◌, codes, has_prefix}
use splits.Prelude.Integers.{ℤ, show_int}
use splits.Outcome.{Result, ok, throw, Thrown, error, big_int}
use splits.Tabs.Action.{
  lift, raise, return_if, ◌>>=◌, Triple-raise, Triple-return_if, Triple-bind, Triple, Triple-lifted,
  Triple-observed,
}
use splits.Tabs.Fetch.Repeats.{Repeats, with_payment-Repeats}
use splits.Tabs.Fetch.Choice.{Chosen, select_option-Chosen}
use splits.Tabs.Fetch.{
  tabs_fetch, pay, settle, PaymentRequirements, TabsPaymentError, TabsFetchOptions,
  resource_request, settle_request, SettleAnswer, Fetcher, Event, requested, payment_failed,
  select_option, default_to, settled, default_facilitator_url, fetch, throw_payment_error,
  with_payment, retry, FetchOptions,
}

-- a failure without an event, or one that an event tells
pub data Failure {O R : Type 0} : List (Event O R) → Thrown → Type 0 where
  silent : (e : Thrown) → Failure [] e
  told : (x : TabsPaymentError) → Failure (payment_failed x ∷ []) (error x.message)

module _ {W O R : Type 0} (net : Fetcher W O R) (url : String) (options : TabsFetchOptions O) where
  abbrev pub network : String
  network = default_to "solana" options.network

  abbrev pub asked : Result R → Event O R
  asked r = requested (resource_request url options.fetch_options) r

  abbrev pub settling : PaymentRequirements → ℤ → Result R → Event O R
  settling req amount r =
      requested
        (settle_request
          (default_to default_facilitator_url options.facilitator_url <> "/api/settle")
          options.tabs_api_key req.pay_to (show_int amount))
        r

  abbrev pub paying : FetchOptions O → Result R → Event O R
  paying repeated r = requested (resource_request url repeated) r

  -- the answer 402 offers the option, with this amount
  abbrev pub Offer : R → PaymentRequirements → ℤ → Type 0
  Offer res req amount =
      ((net.status res == 402) ≡ true)
      × (offered : List PaymentRequirements) × (net.payment_options res ≡ ok (some offered))
      × Chosen network offered req
      × (big_int req.max_amount_required ≡ ok amount)

  -- the facilitator's answer gives the transaction that the header carries
  abbrev pub Payable : R → String → Type 0
  Payable res encoded =
      (answer : SettleAnswer) × (tx : String) × (net.settle_answer res ≡ ok answer)
      × (settled answer ≡ some tx)
      × (net.encode_payment
            (record { network = network; transaction = tx; tabs_api_key = options.tabs_api_key })
          ≡ ok encoded)

  pub data Conversation : List (Event O R) → Result R → Type 0 where
    refused :
        (e : Thrown)
        → has_prefix (codes "tabs_") (codes options.tabs_api_key) ≡ false
        → Conversation [] (throw e)
    unreachable : (e : Thrown) → Conversation (asked (throw e) ∷ []) (throw e)
    free : (res : R) → (net.status res == 402) ≡ false → Conversation (asked (ok res) ∷ []) (ok res)
    unpayable :
        (res : R) (notes : List (Event O R)) (e : Thrown)
        → (net.status res == 402) ≡ true
        → Failure notes e
        → Conversation (asked (ok res) ∷ notes) (throw e)
    unsettled :
        (res : R) (req : PaymentRequirements) (amount : ℤ) (answer : Result R)
        (notes : List (Event O R)) (e : Thrown)
        → Offer res req amount
        → Failure notes e
        → Conversation (asked (ok res) ∷ settling req amount answer ∷ notes) (throw e)
    paid :
        (res : R) (req : PaymentRequirements) (amount : ℤ) (answer : R) (encoded : String)
        (repeated : FetchOptions O) (last : Result R)
        → Offer res req amount
        → Payable answer encoded
        → Repeats encoded options.fetch_options repeated
        → Conversation
            (asked (ok res) ∷ settling req amount (ok answer) ∷ paying repeated last ∷ [])
            last

  -- the outcome `r` and the trace are a conversation
  abbrev Ends : Result R → List (Event O R) → Type 0
  Ends r t = Conversation t r

  throw-Triple :
      (P : List (Event O R) → Type 0) (x : TabsPaymentError)
      → ((t : List (Event O R))
          → P t
          → Conversation (t ++ payment_failed x ∷ []) (throw (error x.message)))
      → Triple P (throw_payment_error net x) Ends
  unfolding throw_payment_error
  throw-Triple P x h = record { at = λ s p. h s.trace p }

  retry-Triple :
      (res : R) (req : PaymentRequirements) (amount : ℤ) (answer : R) (reply : SettleAnswer)
      (tx : String)
      → Offer res req amount
      → net.settle_answer answer ≡ ok reply
      → settled reply ≡ some tx
      → Triple
          (λ t. t ≡ asked (ok res) ∷ settling req amount (ok answer) ∷ [])
          (retry net url options tx)
          Ends
  unfolding retry fetch
  retry-Triple res req amount answer reply tx offer a b =
      Triple-lifted _ Ends _ _
        (λ e t h p.
          subst (λ t. Conversation t (throw e)) (sym p)
            (unsettled res req amount (ok answer) [] e offer (silent e)))
        (λ encoded h. Triple-observed _ Ends _ _ (λ r t p.
          let repeated = with_payment net encoded options.fetch_options in
          subst (λ t. Conversation (t ++ paying repeated r ∷ []) r) (sym p)
            (paid res req amount answer encoded repeated r offer (reply, tx, a, b, h)
              (with_payment-Repeats net encoded options.fetch_options))))

  answer-Triple :
      (res : R) (req : PaymentRequirements) (amount : ℤ) (answer : R) (reply : SettleAnswer)
      (o : Option String)
      → Offer res req amount
      → net.settle_answer answer ≡ ok reply
      → settled reply ≡ o
      → Triple
          (λ t. t ≡ asked (ok res) ∷ settling req amount (ok answer) ∷ [])
          (elim o [
            | none ↦ throw_payment_error net (record {
              message = "Settlement failed";
              facilitator_error = reply.error_text;
              payment_requirements = some req;
            })
            | some tx ↦ retry net url options tx
          ])
          Ends
  answer-Triple res req amount answer reply none offer a b =
      let x : TabsPaymentError = record {
        message = "Settlement failed";
        facilitator_error = reply.error_text;
        payment_requirements = some req;
      } in
      throw-Triple _ x (λ t p.
        subst (λ t. Conversation (t ++ payment_failed x ∷ []) (throw (error x.message))) (sym p)
          (unsettled res req amount (ok answer) (payment_failed x ∷ []) (error x.message) offer
            (told x)))
  answer-Triple res req amount answer reply (some tx) offer a b =
      retry-Triple res req amount answer reply tx offer a b

  settle-Triple :
      (res : R) (req : PaymentRequirements)
      → ((net.status res == 402) ≡ true)
      → (offered : List PaymentRequirements) → (net.payment_options res ≡ ok (some offered))
      → Chosen network offered req
      → Triple (λ t. t ≡ asked (ok res) ∷ []) (settle net url options req) Ends
  unfolding settle fetch
  settle-Triple res req due offered a b =
      Triple-lifted _ Ends _ _
        (λ e t h p.
          subst (λ t. Conversation t (throw e)) (sym p) (unpayable res [] e due (silent e)))
        (λ amount n.
          let offer : Offer res req amount = (due, offered, a, b, n) in
          Triple-bind _ Ends _ _ (λ r t. t ≡ asked (ok res) ∷ settling req amount r ∷ [])
            (Triple-observed _ _ _ _ (λ r t p. ap (λ t. t ++ settling req amount r ∷ []) p))
            (λ e t p.
              subst (λ t. Conversation t (throw e)) (sym p)
                (unsettled res req amount (throw e) [] e offer (silent e)))
            (λ answer.
              Triple-lifted _ Ends _ _
                (λ e t h p.
                  subst (λ t. Conversation t (throw e)) (sym p)
                    (unsettled res req amount (ok answer) [] e offer (silent e)))
                (λ reply h.
                  answer-Triple res req amount answer reply (settled reply) offer h refl)))

  unpayable-Triple :
      (res : R) (x : TabsPaymentError)
      → (net.status res == 402) ≡ true
      → Triple (λ t. t ≡ asked (ok res) ∷ []) (throw_payment_error net x) Ends
  unpayable-Triple res x due = throw-Triple _ x (λ t p.
      subst (λ t. Conversation (t ++ payment_failed x ∷ []) (throw (error x.message))) (sym p)
        (unpayable res (payment_failed x ∷ []) (error x.message) due (told x)))

  select-Triple :
      (res : R) (rs : List PaymentRequirements) (o : Option PaymentRequirements)
      (x : TabsPaymentError)
      → (net.status res == 402) ≡ true
      → net.payment_options res ≡ ok (some rs)
      → select_option network rs ≡ o
      → Triple
          (λ t. t ≡ asked (ok res) ∷ [])
          (elim o [ none ↦ throw_payment_error net x | some req ↦ settle net url options req ])
          Ends
  select-Triple res rs none x due a b = unpayable-Triple res x due
  select-Triple res rs (some req) x due a b =
      settle-Triple res req due rs a (select_option-Chosen network rs req b)

  pay-Triple :
      (res : R) (accepts : Option (List PaymentRequirements))
      → (net.status res == 402) ≡ true
      → net.payment_options res ≡ ok accepts
      → Triple (λ t. t ≡ asked (ok res) ∷ []) (pay net url options (default_to [] accepts)) Ends
  unfolding pay default_to
  pay-Triple res none due a = unpayable-Triple res _ due
  pay-Triple res (some []) due a = unpayable-Triple res _ due
  pay-Triple res (some (r ∷ rs)) due a =
      select-Triple res (r ∷ rs) (select_option network (r ∷ rs)) _ due a refl

  fetch-Triple :
      (key : Bool)
      → has_prefix (codes "tabs_") (codes options.tabs_api_key) ≡ key
      → Triple
          (λ t. t ≡ [])
          (if key
            then (do
              response ← fetch net (resource_request url options.fetch_options)
              return_if (not (net.status response == 402)) response (do
                accepts ← lift (net.payment_options response)
                pay net url options (default_to [] accepts)))
            else raise (error "Invalid Tabs API key"))
          Ends
  unfolding fetch
  fetch-Triple false h = Triple-raise _ Ends (error "Invalid Tabs API key") (λ t p.
      subst (λ t. Conversation t (throw (error "Invalid Tabs API key"))) (sym p) (refused _ h))
  fetch-Triple true h =
      Triple-bind _ Ends _ _ (λ r t. t ≡ asked r ∷ [])
        (Triple-observed _ _ _ _ (λ r t p. ap (λ t. t ++ asked r ∷ []) p))
        (λ e t p. subst (λ t. Conversation t (throw e)) (sym p) (unreachable e))
        (λ res.
          Triple-return_if _ Ends _ res _
            (λ t b p. subst (λ t. Conversation t (ok res)) (sym p) (free res (ground (arith, b))))
            (λ b.
              Triple-lifted _ Ends _ _
                (λ e t h p.
                  subst (λ t. Conversation t (throw e)) (sym p)
                    (unpayable res [] e (ground (arith, b)) (silent e)))
                (λ accepts a. pay-Triple res accepts (ground (arith, b)) a)))

-- Run with an empty trace, `tabsFetch` has one of six conversations. A key without the prefix is
-- refused before any request. The first request is the given one; where it fails, or is not
-- answered by 402, its outcome is the result and no other request is made. A 402 answer that cannot
-- be paid ends in an error. Only after a 402 answer with an option of the wanted network, or of a
-- Solana one, is the facilitator asked, with the key, the option's payee and its amount; where that
-- does not settle, or the payment cannot be encoded, the result is an error. Only after a
-- settlement with a transaction is the given request repeated, once, with the encoding of that
-- transaction in its header, and its outcome is the result. The repeated request has the given
-- headers as well only where they are an object; those of a `Headers` are lost, and pairs do not
-- keep their names.
pub tabs_fetch_lem :
    {W O R : Type 0} (net : Fetcher W O R) (url : String) (options : TabsFetchOptions O) (w : W)
    → let (r, s) = tabs_fetch net url options (record { world = w; trace = [] }) in
      Conversation net url options s.trace r
unfolding tabs_fetch
tabs_fetch_lem net url options w =
    (fetch-Triple net url options (has_prefix (codes "tabs_") (codes options.tabs_api_key)) refl).at
      (record { world = w; trace = [] }) refl
