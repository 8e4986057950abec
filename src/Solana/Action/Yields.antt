-- ===== src/Solana/Action/Yields.antt =====
-- What is known of the value that an action returns, and rules that hand it to what follows.
use splits.Prelude.{
  ◌≡◌, refl, sym, subst, ◌∙◌, Bool, true, false, List, [], ◌++◌, if◌then◌else◌, append-nil,
}
use splits.Outcome.{Result, ok, throw, Thrown}
use splits.Solana.Types.{TransactionMessage}
use splits.Solana.Action.{raise, return_if, Store, Action, pure, lift, attempt, continue, ◌>>=◌}
use splits.Solana.Action.Sends.{Quiet, Sends}

-- every value that `m` returns is as `P` says
pub record Yields {W A : Type 0} (P : A → Type 0) (m : Action W A) : Type 0 where
  pub at : (s : Store W) (a : A) → (m s).0 ≡ ok a → P a

-- run in the state `s`, every value that `m` returns is as `P` says
abbrev pub YieldsAt : {W A : Type 0} → (A → Type 0) → Action W A → Store W → Type 0
YieldsAt {A = A} P m s = (a : A) → (m s).0 ≡ ok a → P a

module _ {W A : Type 0} (P : A → Type 0) where
  pub Yields-pure : (a : A) → P a → Yields {W = W} P (pure a)
  unfolding pure
  Yields-pure a p = record { at = λ s b e. subst P (cc) p }

  pub Yields-raise : (e : Thrown) → Yields {W = W} P (raise e)
  unfolding raise
  Yields-raise e = record { at = λ s b h. absurd (cc) }

  pub Yields-lift : (r : Result A) → ((a : A) → r ≡ ok a → P a) → Yields {W = W} P (lift r)
  unfolding lift
  Yields-lift r p = record { at = λ s b e. p b e }

  pub Yields-return_if :
      (b : Bool) (a : A) (m : Action W A) → P a → Yields P m → Yields P (return_if b a m)
  unfolding return_if
  Yields-return_if true a m p y = Yields-pure a p
  Yields-return_if false a m p y = y

  -- of the outcome of a `try`
  pub Yields-attempt :
      (m : Action W A) → Yields P m → Yields (λ r. (a : A) → r ≡ ok a → P a) (attempt m)
  unfolding attempt
  Yields-attempt m y = record { at = λ s r e. λ a h. y.at s a (cc) }

module _ {W A B : Type 0} (P : B → Type 0) where
  pub Yields-bind :
      (m : Action W A) (f : A → Action W B) → ((a : A) → Yields P (f a)) → Yields P (m >>= f)
  unfolding ◌>>=◌
  Yields-bind m f q = record { at = λ s b e. go (m s).0 (m s).1 b e }
    where
      go : (r : Result A) (s : Store W) (b : B) → (continue r f s).0 ≡ ok b → P b
      go (ok a) s b e = (q a).at s b e
      go (throw x) s b e = absurd (cc)

  -- the rest knows what the first part returned in this state
  pub YieldsAt-bind :
      (m : Action W A) (f : A → Action W B) (s : Store W)
      → ((a : A) → (m s).0 ≡ ok a → YieldsAt P (f a) (m s).1)
      → YieldsAt P (m >>= f) s
  unfolding ◌>>=◌
  YieldsAt-bind m f s q = go (m s).0 (m s).1 q
    where
      go :
          (r : Result A) (s' : Store W)
          → ((a : A) → r ≡ ok a → YieldsAt P (f a) s')
          → (b : B) → (continue r f s').0 ≡ ok b
          → P b
      go (ok a) s' q b e = q a refl b e
      go (throw x) s' q b e = absurd (cc)

  pub Yields-bind_lift :
      (r : Result A) (f : A → Action W B)
      → ((a : A) → r ≡ ok a → Yields P (f a))
      → Yields P (lift r >>= f)
  unfolding ◌>>=◌
  Yields-bind_lift (ok a) f q = record { at = (q a refl).at }
  Yields-bind_lift (throw e) f q = record { at = λ s b h. absurd (cc) }

  pub YieldsAt-bind_pure :
      (a : A) (f : A → Action W B) (s : Store W) → YieldsAt P (f a) s → YieldsAt P (pure a >>= f) s
  unfolding ◌>>=◌
  YieldsAt-bind_pure a f s q = q

  pub YieldsAt-bind_attempt :
      (m : Action W A) (f : Result A → Action W B) (s : Store W)
      → YieldsAt P (f (m s).0) (m s).1
      → YieldsAt P (attempt m >>= f) s
  unfolding ◌>>=◌
  YieldsAt-bind_attempt m f s q = q

  pub Yields-bind_pure : (a : A) (f : A → Action W B) → Yields P (f a) → Yields P (pure a >>= f)
  unfolding ◌>>=◌
  Yields-bind_pure a f q = record { at = q.at }

  -- what is known of the first part's value is handed on
  pub Yields-then :
      (R : A → Type 0) (m : Action W A) (f : A → Action W B)
      → Yields R m
      → ((a : A) → R a → Yields P (f a))
      → Yields P (m >>= f)
  unfolding ◌>>=◌
  Yields-then R m f y q = record { at = λ s b e. go (m s).0 (m s).1 (y.at s) b e }
    where
      go :
          (r : Result A) (s : Store W)
          → ((a : A) → r ≡ ok a → R a)
          → (b : B) → (continue r f s).0 ≡ ok b
          → P b
      go (ok a) s h b e = (q a (h a refl)).at s b e
      go (throw x) s h b e = absurd (cc)

module _ {W A B : Type 0} (P : A → Type 0) (Q : Result B → List TransactionMessage → Type 0) where
  -- a part that sends nothing, and of whose value something is known
  pub Sends-bind-Yields :
      (m : Action W A) (f : A → Action W B)
      → Quiet m
      → Yields P m
      → ((e : Thrown) → Q (throw e) [])
      → ((a : A) → P a → Sends Q (f a))
      → Sends Q (m >>= f)
  unfolding ◌>>=◌
  Sends-bind-Yields m f p y thrown q = record { at = λ s. go s (m s).0 (m s).1 (p.at s) (y.at s) }
    where
      go :
          (s : Store W) (r : Result A) (s' : Store W)
          → s'.sent ≡ s.sent
          → ((a : A) → r ≡ ok a → P a)
          → (new : List TransactionMessage) × ((continue r f s').1.sent ≡ s.sent ++ new)
            × Q (continue r f s').0 new
      go s (ok a) s' e h = let (new, grown, holds) = (q a (h a refl)).at s' in (new, cc, holds)
      go s (throw x) s' e h = ([], e ∙ sym (append-nil s.sent), thrown x)

module _ {W A B : Type 0} (Q : Result B → List TransactionMessage → Type 0) where
  pub Sends-bind_lift :
      (r : Result A) (f : A → Action W B)
      → ((e : Thrown) → Q (throw e) [])
      → ((a : A) → r ≡ ok a → Sends Q (f a))
      → Sends Q (lift r >>= f)
  unfolding ◌>>=◌
  Sends-bind_lift (ok a) f thrown q = record { at = (q a refl).at }
  Sends-bind_lift (throw e) f thrown q = record {
    at = λ s. ([], sym (append-nil s.sent), thrown e);
  }

module _ {W B : Type 0} (Q : Result B → List TransactionMessage → Type 0) where
  pub Sends-if :
      (b : Bool) (m n : Action W B) → Sends Q m → Sends Q n → Sends Q (if b then m else n)
  Sends-if true m n p q = p
  Sends-if false m n p q = q
