-- ===== src/Tabs/Worker/Verify/Covers.antt =====
-- When POST /api/verify answers that a payment is covered.
use splits.Prelude.{◌≡◌, ◌↔◌, refl, String, false, Option, none, some, Bool-cases, inl, inr, arith}
use splits.Prelude.Text.{codes, show}
use splits.Prelude.Integers.{ℤ, pos, greater, show_int}
use splits.Outcome.{ok, Result-cases, big_int}
use splits.Tabs.Action.{Store, ◌>>=◌}
use splits.Tabs.ApiKey.{TabsApiKeyPayload, decode_tabs_api_key}
use splits.Tabs.Worker.{Bindings, SpendingLimit, Kit, Event}
use splits.Tabs.Worker.Verify.{VerifyRequest, valid, check_allowance, verify_payload, verify}

module _ {W I : Type 0} (kit : Kit W I) where
  -- the request's amount is within the key's limit per transaction, and within the allowance that
  -- the spending limit has on the chain
  pub record IsCovered (request : VerifyRequest) (w : W) (remaining per_tx : String) : Type 0 where
    pub payload : TabsApiKeyPayload
    pub amount : ℤ
    pub limit : SpendingLimit
    pub key_decoded : decode_tabs_api_key kit.codec (codes request.api_key) ≡ some payload
    pub amount_read : big_int request.amount ≡ ok amount
    pub below_limit : greater amount payload.per_tx_max ≡ false
    pub fetched : (kit.fetch_maybe_spending_limit payload.spending_limit_pda w).0 ≡ ok (some limit)
    pub below_allowance : greater amount (pos limit.remaining_amount) ≡ false
    pub remaining_shown : remaining ≡ show limit.remaining_amount
    pub per_tx_shown : per_tx ≡ show_int payload.per_tx_max

  check_allowance_lem :
      (amount : ℤ) (payload : TabsApiKeyPayload) (o : Option SpendingLimit) (s : Store W Event)
      (remaining per_tx : String)
      → (check_allowance kit amount payload o s).0 ≡ ok (valid remaining per_tx)
      → (limit : SpendingLimit) × (o ≡ some limit)
        × (greater amount (pos limit.remaining_amount) ≡ false)
        × (remaining ≡ show limit.remaining_amount)
        × (per_tx ≡ show_int payload.per_tx_max)
  unfolding check_allowance splits.Tabs.Action.return_if splits.Tabs.Action.pure
  check_allowance_lem amount payload none s remaining per_tx h = absurd (cc)
  check_allowance_lem amount payload (some limit) s remaining per_tx h =
      elim (Bool-cases (greater amount (pos limit.remaining_amount))) [
        | inl e ↦ absurd (ground arith)
        | inr e ↦ (limit, refl, e, ground arith, ground arith)
      ]

  covered :
      (env : Bindings) (request : VerifyRequest) (o : Option TabsApiKeyPayload) (s : Store W Event)
      (remaining per_tx : String)
      → decode_tabs_api_key kit.codec (codes request.api_key) ≡ o
      → (verify_payload kit env request o s).0 ≡ ok (valid remaining per_tx)
      → IsCovered request s.world remaining per_tx
  unfolding verify_payload ◌>>=◌
  covered env request none s remaining per_tx d h = absurd (cc)
  covered env request (some payload) s remaining per_tx d h =
      elim (Result-cases (big_int request.amount)) [
        | inl (e, a) ↦ absurd (ground arith)
        | inr (amount, a) ↦ elim (Bool-cases (greater amount payload.per_tx_max)) [
          | inl b ↦ absurd (ground arith)
          | inr b ↦
              elim (Result-cases
                (kit.fetch_maybe_spending_limit payload.spending_limit_pda s.world).0) [
                  | inl (e, f) ↦ absurd (ground arith)
                  | inr (o, f) ↦
                      let (limit, found, c, x, y) =
                        check_allowance_lem amount payload o
                          (record s {
                            world =
                                (kit.fetch_maybe_spending_limit payload.spending_limit_pda
                                  s.world).1;
                          })
                          remaining per_tx (ground arith) in
                      record {
                        payload = payload;
                        amount = amount;
                        limit = limit;
                        key_decoded = d;
                        amount_read = a;
                        below_limit = b;
                        fetched = cc;
                        below_allowance = c;
                        remaining_shown = x;
                        per_tx_shown = y;
                      }
                ]
        ]
      ]

  answers :
      (env : Bindings) (request : VerifyRequest) (s : Store W Event) (remaining per_tx : String)
      → IsCovered request s.world remaining per_tx
      → (verify kit env (ok request) s).0 ≡ ok (valid remaining per_tx)
  unfolding verify ◌>>=◌
  answers env request s remaining per_tx c =
      rw
        (
          c.key_decoded, c.amount_read, c.below_limit, c.fetched, c.below_allowance,
          c.remaining_shown, c.per_tx_shown,
        )
        refl

  -- For a request that was read, `verify` answers `valid` with two texts in a state exactly if the
  -- request's key decodes, its amount is an integer that is at most the key's limit per
  -- transaction, the fetch of the key's spending limit finds one, the amount is at most what
  -- remains of it, and the two texts show what remains and the limit per transaction.
  pub verify_valid_iff :
      (env : Bindings) (request : VerifyRequest) (s : Store W Event) (remaining per_tx : String)
      → ((verify kit env (ok request) s).0 ≡ ok (valid remaining per_tx))
        ↔ IsCovered request s.world remaining per_tx
  unfolding verify ◌>>=◌
  verify_valid_iff env request s remaining per_tx = (
    covered env request (decode_tabs_api_key kit.codec (codes request.api_key)) s remaining per_tx
        refl,
    answers env request s remaining per_tx,
  )
