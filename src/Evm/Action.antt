-- ===== src/Evm/Action.antt =====
-- The asynchronous functions of the EVM SDK as actions on the world and on the trace of the calls
-- that were given to `writeContract`; and what an action writes, one rule for each construct.
use splits.Prelude.{
  ◌≡◌, refl, sym, ap, append_assoc, append-nil, ◌∙◌, Bool, true, false, List, [], ◌∷◌, ◌++◌,
}
use splits.Outcome.{Result, ok, throw, Thrown}
use splits.Evm.Types.{Call, Clients, Hash}

pub record Store (W : Type 0) : Type 0 where
  pub world : W
  -- the oldest first
  pub written : List Call

abbrev pub Action : Type 0 → Type 0 → Type 0
Action W A = Store W → Result A × Store W

module _ {W A : Type 0} where
  pub pure : A → Action W A
  pure a s = (ok a, s)

  pub lift : Result A → Action W A
  lift r s = (r, s)

  pub attempt : Action W A → Action W (Result A)
  attempt m s = let (r, s') = m s in (ok r, s')

  pub outside : (W → Result A × W) → Action W A
  outside f s = let (r, w) = f s.world in (r, record s { world = w })

  -- an early `return`
  unfoldable pub return_if : Bool → A → Action W A → Action W A
  unfolding pure
  return_if true result rest = pure result
  return_if false result rest = rest

module _ {W A B : Type 0} where
  abbrev pub continue : Result A → (A → Action W B) → Action W B
  continue (ok a) f s = f a s
  continue (throw e) f s = (throw e, s)

  infixl 5 ◌>>=◌
  unfoldable pub ◌>>=◌ : Action W A → (A → Action W B) → Action W B
  unfolding pure lift attempt outside
  ◌>>=◌ m f s = let (r, s') = m s in continue r f s'

unfoldable pub write_contract : {W : Type 0} (clients : Clients W) → Call → Action W Hash
write_contract clients call s =
    let (r, w) = clients.write_contract call s.world in
    (r, record s { world = w; written = s.written ++ call ∷ [] })

-- Run in the state `s`, `m` appends some calls `new` to the trace, and the outcome and `new` are as
-- `Q` says.
abbrev pub WritesAt :
    {W A : Type 0} → (Result A → List Call → Type 0) → Action W A → Store W → Type 0
WritesAt Q m s = (new : List Call) × ((m s).1.written ≡ s.written ++ new) × Q (m s).0 new

-- `m` writes the calls `new`, and the outcome and `new` are as `Q` says
pub record Writes {W A : Type 0} (Q : Result A → List Call → Type 0) (m : Action W A) : Type 0 where
  pub at : (s : Store W) → (new : List Call) × ((m s).1.written ≡ s.written ++ new) × Q (m s).0 new

-- `m` writes nothing
abbrev pub Reads : {W A : Type 0} → Action W A → Type 0
Reads m = Writes (λ r new. new ≡ []) m

module _ {W A : Type 0} (Q : Result A → List Call → Type 0) where
  pub Writes-lift : (r : Result A) → Q r [] → Writes {W = W} Q (lift r)
  unfolding lift
  Writes-lift r q = record { at = λ s. ([], sym (append-nil s.written), q) }

  pub Writes-pure : (a : A) → Q (ok a) [] → Writes {W = W} Q (pure a)
  unfolding pure
  Writes-pure a q = record { at = λ s. ([], sym (append-nil s.written), q) }

  pub Writes-return_if :
      (b : Bool) (a : A) (m : Action W A)
      → (b ≡ true → Q (ok a) [])
      → (b ≡ false → Writes Q m)
      → Writes Q (return_if b a m)
  unfolding return_if
  Writes-return_if true a m q p = Writes-pure a (q refl)
  Writes-return_if false a m q p = p refl

pub Reads-outside : {W A : Type 0} (f : W → Result A × W) → Reads (outside f)
unfolding outside
Reads-outside f = record { at = λ s. ([], sym (append-nil s.written), refl) }

pub Reads-attempt : {W A : Type 0} (m : Action W A) → Reads m → Reads (attempt m)
unfolding attempt
Reads-attempt m h = record { at = h.at }

pub write_contract-Writes :
    {W : Type 0} (clients : Clients W) (call : Call)
    → Writes (λ r new. new ≡ call ∷ []) (write_contract clients call)
unfolding write_contract
write_contract-Writes clients call = record { at = λ s. (call ∷ [], refl, refl) }

module _ {W A B : Type 0} (P : Result A → List Call → Type 0)
    (Q : Result B → List Call → Type 0) where
  -- what follows is told what was written before
  pub Writes-bind :
      (m : Action W A) (f : A → Action W B)
      → Writes P m
      → ((e : Thrown) (new : List Call) → P (throw e) new → Q (throw e) new)
      → ((a : A) (new : List Call) → P (ok a) new → Writes (λ r more. Q r (new ++ more)) (f a))
      → Writes Q (m >>= f)
  unfolding ◌>>=◌
  Writes-bind m f p thrown q = record { at = λ s. go s (m s).0 (m s).1 (p.at s) }
    where
      go :
          (s : Store W) (r : Result A) (s' : Store W)
          → (new : List Call) × (s'.written ≡ s.written ++ new) × P r new
          → (new : List Call) × ((continue r f s').1.written ≡ s.written ++ new)
            × Q (continue r f s').0 new
      go s (throw x) s' (new, grown, h) = (new, grown, thrown x new h)
      go s (ok a) s' (new, grown, h) =
          let (more, grown', h') = (q a new h).at s' in
          (new ++ more, grown' ∙ ap (λ l. l ++ more) grown ∙ append_assoc s.written new more, h')

  pub Writes-finish :
      (m : Action W A) (f : Result A → Result B)
      → Writes P m
      → ((r : Result A) (new : List Call) → P r new → Q (f r) new)
      → Writes Q (attempt m >>= λ r. lift (f r))
  unfolding ◌>>=◌ attempt lift
  Writes-finish m f p q = record {
    at = λ s. let (new, grown, holds) = p.at s in (new, grown, q (m s).0 new holds);
  }

module _ {W A B : Type 0} (Q : Result B → List Call → Type 0) where
  -- a part that writes nothing comes first; its throw is the outcome
  pub Writes-bind-Reads :
      (m : Action W A) (f : A → Action W B)
      → Reads m
      → ((e : Thrown) → Q (throw e) [])
      → ((a : A) → Writes Q (f a))
      → Writes Q (m >>= f)
  Writes-bind-Reads m f p thrown q =
      Writes-bind (λ r new. new ≡ []) Q m f p (λ e new h. rw h (thrown e)) (λ a new h. rw h (q a))

  pub Writes-bind_lift :
      (r : Result A) (f : A → Action W B)
      → ((e : Thrown) → r ≡ throw e → Q (throw e) [])
      → ((a : A) → r ≡ ok a → Writes Q (f a))
      → Writes Q (lift r >>= f)
  unfolding ◌>>=◌
  Writes-bind_lift (ok a) f thrown q = record { at = (q a refl).at }
  Writes-bind_lift (throw e) f thrown q = record {
    at = λ s. ([], sym (append-nil s.written), thrown e refl);
  }
