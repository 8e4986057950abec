-- ===== src/Tabs/Action.antt =====
-- The asynchronous functions of the tabs SDK and application as actions on the world and on a
-- trace of events; and rules on what an action adds to the trace.
use splits.Prelude.{◌≡◌, refl, subst, sym, Bool, true, false, List, [], ◌∷◌, ◌++◌, ◌∙◌}
use splits.Outcome.{Result, ok, throw, Thrown}

pub record Store (W E : Type 0) : Type 0 where
  pub world : W
  -- the oldest first
  pub trace : List E

abbrev pub Action : Type 0 → Type 0 → Type 0 → Type 0
Action W E A = Store W E → Result A × Store W E

module _ {W E A : Type 0} where
  unfoldable pub pure : A → Action W E A
  pure a s = (ok a, s)

  unfoldable pub raise : Thrown → Action W E A
  raise e s = (throw e, s)

  unfoldable pub lift : Result A → Action W E A
  lift r s = (r, s)

  unfoldable pub attempt : Action W E A → Action W E (Result A)
  attempt m s = let (r, s') = m s in (ok r, s')

  -- a call outside that leaves no event
  unfoldable pub outside : (W → Result A × W) → Action W E A
  outside f s = let (r, w) = f s.world in (r, record s { world = w })

  -- a call outside whose event tells its outcome
  unfoldable pub observed : (W → Result A × W) → (Result A → E) → Action W E A
  observed f event s =
      let (r, w) = f s.world in (r, record s { world = w; trace = s.trace ++ event r ∷ [] })

  -- an early `return`
  unfoldable pub return_if : Bool → A → Action W E A → Action W E A
  unfolding pure
  return_if true result rest = pure result
  return_if false result rest = rest

module _ {W E A B : Type 0} where
  abbrev pub continue : Result A → (A → Action W E B) → Action W E B
  continue (ok a) f s = f a s
  continue (throw e) f s = (throw e, s)

  infixl 5 ◌>>=◌
  unfoldable pub ◌>>=◌ : Action W E A → (A → Action W E B) → Action W E B
  unfolding pure raise lift attempt outside observed
  ◌>>=◌ m f s = let (r, s') = m s in continue r f s'

-- `m` adds no event
pub record Quiet {W E A : Type 0} (m : Action W E A) : Type 0 where
  pub at : (s : Store W E) → (m s).1.trace ≡ s.trace

-- From a trace that is as `P` says, `m` ends with an outcome and a trace that are as `Q` says.
pub record Triple {W E A : Type 0} (P : List E → Type 0) (m : Action W E A)
    (Q : Result A → List E → Type 0) : Type 0 where
  pub at : (s : Store W E) → P s.trace → Q (m s).0 (m s).1.trace

module _ {W E A : Type 0} where
  pub Quiet-pure : (a : A) → Quiet {W = W} {E = E} (pure a)
  unfolding pure
  Quiet-pure a = record { at = λ s. refl }

  pub Quiet-lift : (r : Result A) → Quiet {W = W} {E = E} (lift r)
  unfolding lift
  Quiet-lift r = record { at = λ s. refl }

  pub Quiet-outside : (f : W → Result A × W) → Quiet {E = E} (outside f)
  unfolding outside
  Quiet-outside f = record { at = λ s. refl }

  pub Quiet-attempt : (m : Action W E A) → Quiet m → Quiet (attempt m)
  unfolding attempt
  Quiet-attempt m q = record { at = q.at }

module _ {W E A B : Type 0} where
  continue-Quiet :
      (r : Result A) (f : A → Action W E B) (s : Store W E)
      → ((a : A) → Quiet (f a))
      → (continue r f s).1.trace ≡ s.trace
  continue-Quiet (ok a) f s q = (q a).at s
  continue-Quiet (throw e) f s q = refl

  pub Quiet-bind :
      (m : Action W E A) (f : A → Action W E B)
      → Quiet m
      → ((a : A) → Quiet (f a))
      → Quiet (m >>= f)
  unfolding ◌>>=◌
  Quiet-bind m f p q = record { at = λ s. let (r, s') = m s in continue-Quiet r f s' q ∙ p.at s }

module _ {W E A : Type 0} (P : List E → Type 0) (Q : Result A → List E → Type 0) where
  pub Triple-lift : (r : Result A) → ((t : List E) → P t → Q r t) → Triple {W = W} P (lift r) Q
  unfolding lift
  Triple-lift r h = record { at = λ s p. h s.trace p }

  pub Triple-pure : (a : A) → ((t : List E) → P t → Q (ok a) t) → Triple {W = W} P (pure a) Q
  unfolding pure
  Triple-pure a h = record { at = λ s p. h s.trace p }

  pub Triple-raise :
      (e : Thrown) → ((t : List E) → P t → Q (throw e) t) → Triple {W = W} P (raise e) Q
  unfolding raise
  Triple-raise e h = record { at = λ s p. h s.trace p }

  pub Triple-weaken :
      (R : List E → Type 0) (m : Action W E A)
      → ((t : List E) → P t → R t)
      → Triple R m Q
      → Triple P m Q
  Triple-weaken R m h triple = record { at = λ s p. triple.at s (h s.trace p) }

  pub Triple-observed :
      (f : W → Result A × W) (event : Result A → E)
      → ((r : Result A) (t : List E) → P t → Q r (t ++ event r ∷ []))
      → Triple P (observed f event) Q
  unfolding observed
  Triple-observed f event h = record { at = λ s p. h (f s.world).0 s.trace p }

  pub Triple-return_if :
      (b : Bool) (a : A) (m : Action W E A)
      → ((t : List E) → b ≡ true → P t → Q (ok a) t)
      → (b ≡ false → Triple P m Q)
      → Triple P (return_if b a m) Q
  unfolding return_if
  Triple-return_if true a m h rest = Triple-pure a (λ t p. h t refl p)
  Triple-return_if false a m h rest = rest refl

module _ {W E A B : Type 0} (P : List E → Type 0) (Q : Result B → List E → Type 0) where
  continue-Triple :
      (r : Result A) (f : A → Action W E B) (M : Result A → List E → Type 0) (s : Store W E)
      → ((e : Thrown) (t : List E) → M (throw e) t → Q (throw e) t)
      → ((a : A) → Triple (M (ok a)) (f a) Q)
      → M r s.trace
      → Q (continue r f s).0 (continue r f s).1.trace
  continue-Triple (ok a) f M s fail next h = (next a).at s h
  continue-Triple (throw e) f M s fail next h = fail e s.trace h

  pub Triple-bind :
      (m : Action W E A) (f : A → Action W E B) (M : Result A → List E → Type 0)
      → Triple P m M
      → ((e : Thrown) (t : List E) → M (throw e) t → Q (throw e) t)
      → ((a : A) → Triple (M (ok a)) (f a) Q)
      → Triple P (m >>= f) Q
  unfolding ◌>>=◌
  Triple-bind m f M h fail next = record {
    at = λ s p. let (r, s') = m s in continue-Triple r f M s' fail next (h.at s p);
  }

  -- a step without events
  pub Triple-after :
      (m : Action W E A) (f : A → Action W E B)
      → Quiet m
      → ((e : Thrown) (t : List E) → P t → Q (throw e) t)
      → ((a : A) → Triple P (f a) Q)
      → Triple P (m >>= f) Q
  Triple-after m f q fail next =
      Triple-bind m f (λ r t. P t) (record { at = λ s p. subst P (sym (q.at s)) p }) fail next

  -- a lifted result, with the equation of its value
  pub Triple-lifted :
      (r : Result A) (f : A → Action W E B)
      → ((e : Thrown) (t : List E) → r ≡ throw e → P t → Q (throw e) t)
      → ((a : A) → r ≡ ok a → Triple P (f a) Q)
      → Triple P (lift r >>= f) Q
  unfolding ◌>>=◌ lift
  Triple-lifted (ok a) f fail next = record { at = λ s p. (next a refl).at s p }
  Triple-lifted (throw e) f fail next = record { at = λ s p. fail e s.trace refl p }

  called-Triple :
      (g : A → Action W E B) (s : Store W E) (r : Result A)
      → ((e : Thrown) (t : List E) → P t → Q (throw e) t)
      → ((a : A) → r ≡ ok a → Triple P (g a) Q)
      → P s.trace
      → Q (continue r g s).0 (continue r g s).1.trace
  called-Triple g s (ok a) fail next p = (next a refl).at s p
  called-Triple g s (throw e) fail next p = fail e s.trace p

  -- a call outside, with the equation of its value
  pub Triple-called :
      (f : W → Result A × W) (g : A → Action W E B)
      → ((e : Thrown) (t : List E) → P t → Q (throw e) t)
      → ((a : A) (w : W) → (f w).0 ≡ ok a → Triple P (g a) Q)
      → Triple P (outside f >>= g) Q
  unfolding ◌>>=◌ outside
  Triple-called f g fail next = record {
    at = λ s p.
        called-Triple g (record s { world = (f s.world).1 }) (f s.world).0 fail
          (λ a e. next a s.world e) p;
  }

-- a bind after an outcome that is known
module _ {W E A B : Type 0} (m : Action W E A) (f : A → Action W E B) (s : Store W E) where
  pub >>=-ok : (a : A) → (m s).0 ≡ ok a → (m >>= f) s ≡ f a (m s).1
  unfolding ◌>>=◌
  >>=-ok a h = rw h refl

  pub >>=-throw : (e : Thrown) → (m s).0 ≡ throw e → (m >>= f) s ≡ (throw e, (m s).1)
  unfolding ◌>>=◌
  >>=-throw e h = rw h refl
