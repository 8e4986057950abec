-- ===== src/Tabs/Worker/Echo/Order.antt =====
-- What /api/echo/resource sends and asks, for each of its outcomes.
use splits.Prelude.Text.{codes}
use splits.Tabs.Message.{Address}
use splits.Tabs.ApiKey.{TabsApiKeyPayload, decode_tabs_api_key}
use splits.Tabs.Base58.{base58_decode}
use splits.Prelude.{◌≡◌, refl, ℕ, ◌⊎◌, inl, inr, String, Option, List, [], none, some, arith}
use splits.Outcome.{Result, ok, throw}
use splits.Tabs.Action.{Triple, Triple-pure, Triple-lifted, Triple-called}
use splits.Tabs.Worker.{Kit, Event, Triple-catching, Bindings}
use splits.Tabs.Worker.Echo.{
  EchoReply, refused, payment_required, refund_skipped, refunded, PaymentHeader, truthy, submit,
  echo_paid, echo_header, echo_in, echo,
}
use splits.Tabs.Worker.Echo.Paid.{Asked, InOrder, Sent, submit-Sent}

truthy_lem : (o : Option String) (text : String) → truthy o ≡ some text → o ≡ some text
unfolding truthy
truthy_lem none text h = cc
truthy_lem (some t) text h = ground arith

module _ {W I : Type 0} (kit : Kit W I) (env : Bindings)
    (header : Option (Result PaymentHeader)) where
  -- the secret key of the worker makes this signer
  pub record IsExecutor (executor : Address) : Type 0 where
    pub secret : String
    pub bytes : List ℕ
    pub before : W
    pub bound : env.executor_key ≡ some secret
    pub decoded : base58_decode secret ≡ ok bytes
    pub made : (kit.create_key_pair_signer_from_bytes bytes before).0 ≡ ok executor

  -- the header carries this payment, and a key that decodes to this payload
  pub record Asks (asked : Asked) : Type 0 where
    pub decoded : PaymentHeader
    pub key : String
    pub given : header ≡ some (ok decoded)
    pub tx_given : decoded.transaction ≡ some asked.tx
    pub key_given : decoded.tabs_api_key ≡ some key
    pub payload_decoded : decode_tabs_api_key kit.codec (codes key) ≡ some asked.payload
    pub signer : IsExecutor asked.executor

  -- the outcome and the trace
  abbrev pub Echoed : Result EchoReply → List Event → Type 0
  Echoed (throw e) t = t ≡ []
  Echoed (ok (payment_required payee)) t = (t ≡ []) × (header ≡ none) × IsExecutor payee
  Echoed (ok (refused status text)) t =
      (t ≡ []) ⊎ ((asked : Asked) × Asks asked × InOrder kit asked t)
  Echoed (ok (refund_skipped payment)) t =
      (asked : Asked) × Asks asked × Sent kit asked (ok (refund_skipped payment)) t
  Echoed (ok (refunded payment signature vault)) t =
      (asked : Asked) × Asks asked × Sent kit asked (ok (refunded payment signature vault)) t

  -- inside the `try`
  abbrev Tried : Result EchoReply → List Event → Type 0
  Tried (ok reply) t = Echoed (ok reply) t
  Tried (throw e) t = (t ≡ []) ⊎ ((asked : Asked) × Asks asked × InOrder kit asked t)

  of_Sent :
      (asked : Asked)
      → Asks asked
      → (r : Result EchoReply) (t : List Event) → Sent kit asked r t
      → Tried r t
  of_Sent asked a (ok (refund_skipped payment)) t h = (asked, a, h)
  of_Sent asked a (ok (refunded payment signature vault)) t h = (asked, a, h)
  of_Sent asked a (ok (refused status text)) t h = absurd h
  of_Sent asked a (ok (payment_required payee)) t h = absurd h
  of_Sent asked a (throw e) t h = inr (asked, a, h)

  submit-Triple :
      (rpc_url key tx : String) (executor : Address) (decoded : PaymentHeader)
      (o : Option TabsApiKeyPayload)
      → IsExecutor executor
      → header ≡ some (ok decoded)
      → decoded.transaction ≡ some tx
      → decoded.tabs_api_key ≡ some key
      → decode_tabs_api_key kit.codec (codes key) ≡ o
      → Triple (λ t. t ≡ []) (submit kit rpc_url executor tx o) Tried
  unfolding submit
  submit-Triple rpc_url key tx executor decoded none x h a b c =
      Triple-pure _ Tried _ (λ t q. inl q)
  submit-Triple rpc_url key tx executor decoded (some payload) x h a b c =
      let asked : Asked = record { executor = executor; tx = tx; payload = payload } in
      let asks : Asks asked = record {
        decoded = decoded;
        key = key;
        given = h;
        tx_given = a;
        key_given = b;
        payload_decoded = c;
        signer = x;
      } in
      record { at = λ s p. of_Sent asked asks _ _ ((submit-Sent kit asked rpc_url).at s p) }

  echo_paid-Triple :
      (rpc_url : String) (executor : Address) (decoded : PaymentHeader) (tx key : Option String)
      → IsExecutor executor
      → header ≡ some (ok decoded)
      → truthy decoded.transaction ≡ tx
      → truthy decoded.tabs_api_key ≡ key
      → Triple (λ t. t ≡ []) (echo_paid kit rpc_url executor tx key) Tried
  unfolding echo_paid
  echo_paid-Triple rpc_url executor decoded none key x h a b = Triple-pure _ Tried _ (λ t q. inl q)
  echo_paid-Triple rpc_url executor decoded (some tx) none x h a b =
      Triple-pure _ Tried _ (λ t q. inl q)
  echo_paid-Triple rpc_url executor decoded (some tx) (some key) x h a b =
      submit-Triple rpc_url key tx executor decoded (decode_tabs_api_key kit.codec (codes key)) x h
        (truthy_lem decoded.transaction tx a) (truthy_lem decoded.tabs_api_key key b) refl

  echo_header-Triple :
      (rpc_url : String) (executor : Address) (given : Option (Result PaymentHeader))
      → IsExecutor executor
      → header ≡ given
      → Triple (λ t. t ≡ []) (echo_header kit rpc_url executor given) Echoed
  unfolding echo_header
  echo_header-Triple rpc_url executor none x h = Triple-pure _ Echoed _ (λ t q. (q, h, x))
  echo_header-Triple rpc_url executor (some given) x h =
      Triple-catching _ Tried _ _ _
        (Triple-lifted _ Tried _ _ (λ e t h q. inl q)
          (λ decoded e.
            echo_paid-Triple rpc_url executor decoded (truthy decoded.transaction)
              (truthy decoded.tabs_api_key) x (cc) refl refl))
        (λ a t q. q) (λ e t q. q)

  echo_in-Triple :
      (rpc_url key : Option String)
      → env.executor_key ≡ key
      → Triple (λ t. t ≡ []) (echo_in kit rpc_url key header) Echoed
  unfolding echo_in
  echo_in-Triple none key h = Triple-pure _ Echoed _ (λ t q. inl q)
  echo_in-Triple (some rpc_url) none h = Triple-pure _ Echoed _ (λ t q. inl q)
  echo_in-Triple (some rpc_url) (some key) h =
      Triple-lifted _ Echoed _ _ (λ e t h q. q)
        λ bytes a.
          Triple-called _ Echoed _ _ (λ e t q. q)
            λ executor w made.
              echo_header-Triple rpc_url executor header
                (record {
                  secret = key;
                  bytes = bytes;
                  before = w;
                  bound = h;
                  decoded = a;
                  made = made;
                })
                refl

-- Run with an empty trace, the echo resource sends and asks in one order only: the text of the
-- transaction in the request's header; polls of the signature that the node gave for it, of which
-- none but the last confirms; and, after one that confirms, a transaction signed and paid by the
-- executor that transfers the price of the echo from the executor's token account to that of the
-- vault derived from the request's key. A reply with a refund has gone through all of them, and
-- names the payment's and the refund's signatures and the vault; one that skips the refund has sent
-- the payment and made 30 polls without a confirmation; one that asks for a payment came without a
-- header and has done nothing, and a throw has done nothing; an error may come at any point of that
-- order. No trace is longer than 32.
pub echo_lem :
    {W I : Type 0} (kit : Kit W I) (env : Bindings) (header : Option (Result PaymentHeader)) (w : W)
    → let (r, s) = echo kit env header (record { world = w; trace = [] }) in
      Echoed kit env header r s.trace
unfolding echo
echo_lem kit env header w =
    (echo_in-Triple kit env header env.helius_rpc_url env.executor_key refl).at
      (record { world = w; trace = [] }) refl
