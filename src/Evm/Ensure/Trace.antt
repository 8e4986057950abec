-- ===== src/Evm/Ensure/Trace.antt =====
-- What ensureSplit of the EVM SDK writes, for each outcome.
use mathlib.Core.Option
use splits.Prelude.{
  String, ℕ, ◌≡◌, refl, ◌⊎◌, inl, inr, false, not, Option, none, some, List, [], ◌∷◌, ◌==◌, arith,
  append-nil,
}
use splits.Outcome.{Result, ok, throw}
use splits.Evm.Types.{
  Address, EvmRecipient, EvmEnsureParams, EvmEnsureResult, created, no_change, failed, Clients,
  Call, create_split_config,
}
use splits.Evm.Action.{
  WritesAt, Store, Writes, Writes-pure, Writes-return_if, Reads-outside, write_contract-Writes,
  Writes-bind, Writes-finish, Writes-bind-Reads, Writes-bind_lift,
}
use splits.Evm.Helpers.{to_evm_recipients, total_bps}
use splits.Evm.Ensure.{
  ensure_outcome, token_or_default, create_at, ensure_body, ensure_with, ensure_connected,
  ensure_split,
}

module _ {W : Type 0} (clients : Clients W) (shown : String) (factory : Address)
    (params : EvmEnsureParams) where
  -- One creation was written: the converted recipients, which sum to 9900 basis points, for the
  -- given authority or else the connected account.
  pub record CreationWritten (new : List Call) : Type 0 where
    pub account : Address
    pub chain_id : ℕ
    pub token : Address
    pub recipients : List EvmRecipient
    pub token_found : token_or_default params.token chain_id ≡ ok token
    pub converted : to_evm_recipients clients params.recipients ≡ ok recipients
    pub sums : total_bps recipients ≡ 9900
    pub connected : clients.account ≡ some account
    pub written :
        new
        ≡ create_split_config factory
            (Option.get_or params.authority account)
            token
            params.unique_id
            recipients
          ∷ []

  abbrev pub EnsureTrace : Result EvmEnsureResult → List Call → Type 0
  EnsureTrace (ok (created split hash)) new = CreationWritten new
  EnsureTrace (ok (no_change split)) new = new ≡ []
  EnsureTrace (ok (failed failure)) new = (new ≡ []) ⊎ CreationWritten new
  EnsureTrace (throw e) new = new ≡ []

  -- of the body of the `try`, where a throw may follow the writing
  abbrev BodyTrace : Result EvmEnsureResult → List Call → Type 0
  BodyTrace (ok result) new = EnsureTrace (ok result) new
  BodyTrace (throw e) new = (new ≡ []) ⊎ CreationWritten new

  module _ (account : Address) (connected : clients.account ≡ some account) (chain_id : ℕ)
      (token : Address) (token_found : token_or_default params.token chain_id ≡ ok token)
      (recipients : List EvmRecipient)
      (converted : to_evm_recipients clients params.recipients ≡ ok recipients)
      (sums : total_bps recipients ≡ 9900) where
    creation : CreationWritten (
        create_split_config factory
          (Option.get_or params.authority account)
          token
          params.unique_id
          recipients
        ∷ [])
    creation = record {
      account = account;
      chain_id = chain_id;
      token = token;
      recipients = recipients;
      token_found = token_found;
      converted = converted;
      sums = sums;
      connected = connected;
      written = refl;
    }

    create_at-Writes :
        (predicted : Address)
        → Writes BodyTrace (
            create_at clients shown factory params
              (Option.get_or params.authority account)
              token
              recipients
              predicted)
    unfolding create_at
    create_at-Writes predicted =
        Writes-bind _ _ _ _ (write_contract-Writes clients _) (λ e new h. rw h (inr creation))
          (λ hash new h.
            Writes-bind-Reads _ _ _ (Reads-outside _) (λ e. rw (append-nil new, h) (inr creation))
              (λ receipt. Writes-pure _ _ (rw (append-nil new, h) creation)))

    ensure_body-Writes : Writes BodyTrace (
        ensure_body clients shown factory params
          (Option.get_or params.authority account)
          token
          recipients)
    unfolding ensure_body
    ensure_body-Writes =
        Writes-bind-Reads _ _ _ (Reads-outside _) (λ e. inl refl)
          (λ predicted.
            Writes-bind-Reads _ _ _ (Reads-outside _) (λ e. inl refl)
              (λ code. Writes-return_if _ _ _ _ (λ _. refl) (λ _. create_at-Writes predicted)))

  finish :
      (r : Result EvmEnsureResult) (new : List Call)
      → BodyTrace r new
      → EnsureTrace (ensure_outcome shown r) new
  unfolding ensure_outcome
  finish (ok result) new h = h
  finish (throw e) new h = h

  is_9900 : (n : ℕ) → not (n == 9900) ≡ false → n ≡ 9900
  is_9900 n h = ground arith

  ensure_with-Writes :
      (account : Address)
      → clients.account ≡ some account
      → Writes EnsureTrace (ensure_with clients shown factory params account)
  unfolding ensure_with
  ensure_with-Writes account connected =
      Writes-bind-Reads _ _ _ (Reads-outside _) (λ e. refl)
        (λ chain_id.
          Writes-bind_lift _ _ _ (λ e _. refl)
            (λ token token_found.
              Writes-bind_lift _ _ _ (λ e _. refl)
                (λ recipients converted.
                  Writes-return_if _ _ _ _ (λ _. inl refl)
                    (λ total.
                      Writes-finish _ _ _ _
                        (ensure_body-Writes account connected chain_id token token_found recipients
                          converted (is_9900 _ total))
                        finish))))

  ensure_connected-Writes :
      (o : Option Address)
      → clients.account ≡ o
      → Writes EnsureTrace (ensure_connected clients shown factory params o)
  unfolding ensure_connected
  ensure_connected-Writes none h = Writes-pure _ _ (inl refl)
  ensure_connected-Writes (some account) h = ensure_with-Writes account h

  pub ensure_split-Writes : Writes EnsureTrace (ensure_split clients shown factory params)
  unfolding ensure_split
  ensure_split-Writes = ensure_connected-Writes clients.account refl

  -- Run in any state, `ensureSplit` of the EVM SDK appends to the trace of contract calls exactly
  -- what its outcome says: `created` one creation at the factory, for the given authority or else
  -- the connected account, with the given recipients converted and a total of 9900 basis points;
  -- `no_change` nothing; a failure nothing or that one creation; a throw nothing.
  pub ensure_split_lem :
      (s : Store W) → WritesAt EnsureTrace (ensure_split clients shown factory params) s
  ensure_split_lem s = ensure_split-Writes.at s
