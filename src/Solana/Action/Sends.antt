-- ===== src/Solana/Action/Sends.antt =====
-- What an action hands to the wallet, one rule for each way to build an action.
use splits.Prelude.{
  ◌≡◌, refl, sym, ap, append_assoc, ◌∙◌, Bool, true, false, Option, List, [], ◌++◌, if◌then◌else◌,
  append-nil,
}
use splits.Outcome.{Result, ok, throw, Thrown}
use splits.Prelude.Map.{Map}
use splits.Solana.Types.{Address, ProtocolConfig, TransactionMessage}
use splits.Solana.Action.{
  Store, Action, pure, raise, lift, gets, attempt, outside, set_split_cache, set_protocol_config,
  set_mint_program, continue, ◌>>=◌, return_if,
}

-- `m` hands nothing to the wallet
pub record Quiet {W A : Type 0} (m : Action W A) : Type 0 where
  pub at : (s : Store W) → (m s).1.sent ≡ s.sent

module _ {W A : Type 0} where
  pub Quiet-pure : (a : A) → Quiet {W = W} (pure a)
  unfolding pure
  Quiet-pure a = record { at = λ s. refl }

  pub Quiet-raise : (e : Thrown) → Quiet {W = W} {A = A} (raise e)
  unfolding raise
  Quiet-raise e = record { at = λ s. refl }

  pub Quiet-lift : (r : Result A) → Quiet {W = W} (lift r)
  unfolding lift
  Quiet-lift r = record { at = λ s. refl }

  pub Quiet-gets : (f : Store W → A) → Quiet (gets f)
  unfolding gets
  Quiet-gets f = record { at = λ s. refl }

  pub Quiet-outside : (f : W → Result A × W) → Quiet (outside f)
  unfolding outside
  Quiet-outside f = record { at = λ s. refl }

  pub Quiet-attempt : (m : Action W A) → Quiet m → Quiet (attempt m)
  unfolding attempt
  Quiet-attempt m q = record { at = q.at }

  pub Quiet-return_if : (b : Bool) (a : A) (m : Action W A) → Quiet m → Quiet (return_if b a m)
  unfolding return_if
  Quiet-return_if true a m q = Quiet-pure a
  Quiet-return_if false a m q = q

  pub Quiet-if : (b : Bool) (m n : Action W A) → Quiet m → Quiet n → Quiet (if b then m else n)
  Quiet-if true m n p q = p
  Quiet-if false m n p q = q

module _ {W : Type 0} where
  pub Quiet-set_split_cache : (f : Map Bool → Map Bool) → Quiet {W = W} (set_split_cache f)
  unfolding set_split_cache
  Quiet-set_split_cache f = record { at = λ s. refl }

  pub Quiet-set_protocol_config :
      (c : Option ProtocolConfig) → Quiet {W = W} (set_protocol_config c)
  unfolding set_protocol_config
  Quiet-set_protocol_config c = record { at = λ s. refl }

  pub Quiet-set_mint_program : (f : Map Address → Map Address) → Quiet {W = W} (set_mint_program f)
  unfolding set_mint_program
  Quiet-set_mint_program f = record { at = λ s. refl }

module _ {W A B : Type 0} where
  continue-Quiet :
      (r : Result A) (f : A → Action W B) (s : Store W)
      → ((a : A) → Quiet (f a))
      → (continue r f s).1.sent ≡ s.sent
  continue-Quiet (ok a) f s q = (q a).at s
  continue-Quiet (throw e) f s q = refl

  pub Quiet-bind :
      (m : Action W A) (f : A → Action W B) → Quiet m → ((a : A) → Quiet (f a)) → Quiet (m >>= f)
  unfolding ◌>>=◌
  Quiet-bind m f p q = record { at = λ s. let (r, s') = m s in continue-Quiet r f s' q ∙ p.at s }

pub ruleset quiet_rules = (
  Quiet-pure, Quiet-raise, Quiet-lift, Quiet-gets, Quiet-outside, Quiet-attempt, Quiet-if,
  Quiet-return_if, Quiet-bind, Quiet-set_split_cache, Quiet-set_protocol_config,
  Quiet-set_mint_program,
)

-- Run in the state `s`, `m` appends some messages `new` to the trace, and the outcome and `new`
-- are as `Q` says.
abbrev pub SendsAt :
    {W A : Type 0} → (Result A → List TransactionMessage → Type 0) → Action W A → Store W → Type 0
SendsAt Q m s = (new : List TransactionMessage) × ((m s).1.sent ≡ s.sent ++ new) × Q (m s).0 new

-- `m` hands the messages `new` to the wallet, and the outcome and `new` are as `Q` says
pub record Sends {W A : Type 0} (Q : Result A → List TransactionMessage → Type 0) (m : Action W A)
    : Type 0 where
  pub at :
      (s : Store W)
      → (new : List TransactionMessage) × ((m s).1.sent ≡ s.sent ++ new) × Q (m s).0 new

module _ {W A : Type 0} (Q : Result A → List TransactionMessage → Type 0) where
  pub Sends-pure : (a : A) → Q (ok a) [] → Sends {W = W} Q (pure a)
  unfolding pure
  Sends-pure a q = record { at = λ s. ([], sym (append-nil s.sent), q) }

  pub Sends-raise : (e : Thrown) → Q (throw e) [] → Sends {W = W} Q (raise e)
  unfolding raise
  Sends-raise e q = record { at = λ s. ([], sym (append-nil s.sent), q) }

  pub Sends-lift : (r : Result A) → Q r [] → Sends {W = W} Q (lift r)
  unfolding lift
  Sends-lift r q = record { at = λ s. ([], sym (append-nil s.sent), q) }

  pub Sends-return_if :
      (b : Bool) (a : A) (m : Action W A) → Q (ok a) [] → Sends Q m → Sends Q (return_if b a m)
  unfolding return_if
  Sends-return_if true a m q p = Sends-pure a q
  Sends-return_if false a m q p = p

  -- the rest knows that the guard has failed
  pub Sends-return_guard :
      (b : Bool) (a : A) (m : Action W A)
      → Q (ok a) []
      → (b ≡ false → Sends Q m)
      → Sends Q (return_if b a m)
  unfolding return_if
  Sends-return_guard true a m q p = Sends-pure a q
  Sends-return_guard false a m q p = p refl

module _ {W A : Type 0} (P Q : Result A → List TransactionMessage → Type 0) where
  pub Sends-weaken :
      (m : Action W A)
      → ((r : Result A) (new : List TransactionMessage) → P r new → Q r new)
      → Sends P m
      → Sends Q m
  Sends-weaken m f p = record {
    at = λ s. let (new, grown, holds) = p.at s in (new, grown, f (m s).0 new holds);
  }

module _ {W A B : Type 0} (Q : Result B → List TransactionMessage → Type 0) where
  -- a part that sends nothing comes first; its throw is the outcome
  pub Sends-bind-Quiet :
      (m : Action W A) (f : A → Action W B)
      → Quiet m
      → ((e : Thrown) → Q (throw e) [])
      → ((a : A) → Sends Q (f a))
      → Sends Q (m >>= f)
  unfolding ◌>>=◌
  Sends-bind-Quiet m f p thrown q = record { at = λ s. go s (m s).0 (m s).1 (p.at s) }
    where
      go :
          (s : Store W) (r : Result A) (s' : Store W)
          → s'.sent ≡ s.sent
          → (new : List TransactionMessage) × ((continue r f s').1.sent ≡ s.sent ++ new)
            × Q (continue r f s').0 new
      go s (ok a) s' e = let (new, grown, holds) = (q a).at s' in (new, cc, holds)
      go s (throw x) s' e = ([], e ∙ sym (append-nil s.sent), thrown x)

module _ {W A B : Type 0} (Q : Result A → Result B → List TransactionMessage → Type 0) where
  -- what is sent depends on the outcome of a first part that sends nothing
  pub Sends-after :
      (m : Action W A) (f : A → Action W B)
      → Quiet m
      → ((e : Thrown) → Q (throw e) (throw e) [])
      → ((a : A) → Sends (Q (ok a)) (f a))
      → (s : Store W) → SendsAt (Q (m s).0) (m >>= f) s
  unfolding ◌>>=◌
  Sends-after m f p thrown q s = go (m s).0 (m s).1 (p.at s)
    where
      go :
          (r : Result A) (s' : Store W)
          → s'.sent ≡ s.sent
          → (new : List TransactionMessage) × ((continue r f s').1.sent ≡ s.sent ++ new)
            × Q r (continue r f s').0 new
      go (ok a) s' e = let (new, grown, holds) = (q a).at s' in (new, cc, holds)
      go (throw x) s' e = ([], e ∙ sym (append-nil s.sent), thrown x)

module _ {W A B : Type 0} (P : Result A → List TransactionMessage → Type 0)
    (Q : Result B → List TransactionMessage → Type 0) where
  -- a `try` whose handler sends as well
  pub Sends-try :
      (m : Action W A) (k : Result A → Action W B)
      → Sends P m
      → ((r : Result A) (new : List TransactionMessage)
          → P r new
          → Sends (λ out more. Q out (new ++ more)) (k r))
      → Sends Q (attempt m >>= k)
  unfolding ◌>>=◌ attempt
  Sends-try m k p q = record {
    at = λ s.
        let (new, grown, holds) = p.at s in
        let (more, grown', holds') = (q (m s).0 new holds).at (m s).1 in
        (new ++ more, grown' ∙ ap (λ l. l ++ more) grown ∙ append_assoc s.sent new more, holds');
  }

  -- a `try` after which only the outcome is made up
  pub Sends-finish :
      (m : Action W A) (f : Result A → Result B)
      → Sends P m
      → ((r : Result A) (new : List TransactionMessage) → P r new → Q (f r) new)
      → Sends Q (attempt m >>= λ r. lift (f r))
  unfolding ◌>>=◌ attempt lift
  Sends-finish m f p q = record {
    at = λ s. let (new, grown, holds) = p.at s in (new, grown, q (m s).0 new holds);
  }

-- the same in one state, where the rest knows what the first part returned there
module _ {W A B : Type 0} (Q : Result B → List TransactionMessage → Type 0) where
  pub SendsAt-bind :
      (m : Action W A) (f : A → Action W B) (s : Store W)
      → Quiet m
      → ((e : Thrown) → Q (throw e) [])
      → ((a : A) → (m s).0 ≡ ok a → SendsAt Q (f a) (m s).1)
      → SendsAt Q (m >>= f) s
  unfolding ◌>>=◌
  SendsAt-bind m f s p thrown q = go (m s).0 (m s).1 (p.at s) q
    where
      go :
          (r : Result A) (s' : Store W)
          → s'.sent ≡ s.sent
          → ((a : A) → r ≡ ok a → SendsAt Q (f a) s')
          → (new : List TransactionMessage) × ((continue r f s').1.sent ≡ s.sent ++ new)
            × Q (continue r f s').0 new
      go (ok a) s' e q = let (new, grown, holds) = q a refl in (new, cc, holds)
      go (throw x) s' e q = ([], e ∙ sym (append-nil s.sent), thrown x)

  pub SendsAt-bind_lift :
      (r : Result A) (f : A → Action W B) (s : Store W)
      → ((e : Thrown) → Q (throw e) [])
      → ((a : A) → r ≡ ok a → SendsAt Q (f a) s)
      → SendsAt Q (lift r >>= f) s
  unfolding ◌>>=◌
  SendsAt-bind_lift (ok a) f s thrown q = q a refl
  SendsAt-bind_lift (throw e) f s thrown q = ([], sym (append-nil s.sent), thrown e)

module _ {W A B : Type 0} (P : Result A → List TransactionMessage → Type 0)
    (Q : Result B → List TransactionMessage → Type 0) where
  -- a `try` in one state, whose handler knows the outcome
  pub SendsAt-try :
      (m : Action W A) (k : Result A → Action W B) (s : Store W)
      → Sends P m
      → ((new : List TransactionMessage)
          → P (m s).0 new
          → Sends (λ out more. Q out (new ++ more)) (k (m s).0))
      → SendsAt Q (attempt m >>= k) s
  unfolding ◌>>=◌ attempt
  SendsAt-try m k s p q =
      let (new, grown, holds) = p.at s in
      let (more, grown', holds') = (q new holds).at (m s).1 in
      (new ++ more, grown' ∙ ap (λ l. l ++ more) grown ∙ append_assoc s.sent new more, holds')
