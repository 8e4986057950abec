-- ===== src/Tabs/Discovery/Agrees.antt =====
-- The two searches of discovery.ts agree.
use splits.Prelude.{
  ◌≡◌, ◌≢◌, ◌↔◌, refl, ap, ◌∙◌, inl, inr, Bool, true, false, Option, none, List, [], ◌∷◌, length,
  ltb, arith, suc,
}
use splits.Outcome.{Result, ok, throw, Thrown, Result-cases}
use splits.Tabs.Action.{
  Action, Store, pure, ◌>>=◌, Triple, Triple-bind, Triple-pure, >>=-ok, >>=-throw,
}
use splits.Tabs.Message.{Address}
use splits.Tabs.Discovery.{
  SmartAccountState, Memcmp, Node, find_settings, state_of, fetch_smart_account_state_by_owner,
  has_smart_account,
}

module _ {W E : Type 0} (node : Node W) where
  abbrev Any : {A : Type 0} → Result A → List E → Type 0
  Any r t = Unit

  abbrev Something : Result (Option SmartAccountState) → List E → Type 0
  Something r t = r ≢ ok none

  anything : {A : Type 0} (m : Action W E A) → Triple {E = E} (λ t. Unit) m Any
  anything m = record { at = λ s p. tt }

  -- a settings account that was found gives a state or a throw
  state_of-some :
      (settings : Address) (others : List Address) (executor mint : Option Address)
      → Triple {E = E} (λ t. Unit) (state_of node (settings ∷ others) executor mint) Something
  unfolding state_of
  state_of-some settings others executor mint =
      Triple-bind _ Something _ _ Any (anything _) (λ e t u h. cc)
        λ vault.
          Triple-bind _ Something _ _ Any (anything _) (λ e t u h. cc)
            λ limit.
              Triple-bind _ Something _ _ Any (anything _) (λ e t u h. cc)
                λ balance. Triple-pure _ Something _ (λ t u h. cc)

  -- what the search finds
  abbrev found : Bool → Address → Store W E → Result (List Address)
  found sliced owner s = (find_settings node sliced owner s).0

  -- the outcomes of the two functions, from what their searches find
  has_smart_account-found :
      (owner : Address) (s : Store W E) (accounts : List Address)
      → found true owner s ≡ ok accounts
      → (has_smart_account node owner s).0 ≡ ok (ltb 0 (length accounts))
  unfolding has_smart_account pure
  has_smart_account-found owner s accounts h =
      ap (λ x. x.0) (>>=-ok (find_settings node true owner) _ s accounts h)

  has_smart_account-throw :
      (owner : Address) (s : Store W E) (e : Thrown)
      → found true owner s ≡ throw e
      → (has_smart_account node owner s).0 ≡ throw e
  unfolding has_smart_account
  has_smart_account-throw owner s e h =
      ap (λ x. x.0) (>>=-throw (find_settings node true owner) _ s e h)

  module _ (executor mint : Option Address) where
    fetch-none :
        (owner : Address) (s : Store W E)
        → found false owner s ≡ ok []
        → (fetch_smart_account_state_by_owner node owner executor mint s).0 ≡ ok none
    unfolding fetch_smart_account_state_by_owner state_of pure
    fetch-none owner s h = ap (λ x. x.0) (>>=-ok (find_settings node false owner) _ s [] h)

    fetch-some :
        (owner : Address) (s : Store W E) (settings : Address) (others : List Address)
        → found false owner s ≡ ok (settings ∷ others)
        → (fetch_smart_account_state_by_owner node owner executor mint s).0 ≢ ok none
    unfolding fetch_smart_account_state_by_owner
    fetch-some owner s settings others h =
        rw
          (>>=-ok (find_settings node false owner)
            (λ accounts. state_of node accounts executor mint) s (settings ∷ others) h)
          ((state_of-some settings others executor mint).at (find_settings node false owner s).1 tt)

    fetch-throw :
        (owner : Address) (s : Store W E) (e : Thrown)
        → found false owner s ≡ throw e
        → (fetch_smart_account_state_by_owner node owner executor mint s).0 ≡ throw e
    unfolding fetch_smart_account_state_by_owner
    fetch-throw owner s e h = ap (λ x. x.0) (>>=-throw (find_settings node false owner) _ s e h)

    agrees :
        (owner : Address) (s : Store W E) (r : Result (List Address))
        → found true owner s ≡ r
        → found false owner s ≡ r
        → ((has_smart_account node owner s).0 ≡ ok false)
          ↔ ((fetch_smart_account_state_by_owner node owner executor mint s).0 ≡ ok none)
    agrees owner s (throw e) h i =
        let a = has_smart_account-throw owner s e h in
        let b = fetch-throw owner s e i in (λ x. absurd (cc (a, x)), λ y. absurd (cc (b, y)))
    agrees owner s (ok []) h i =
        (λ x. fetch-none owner s i, λ y. has_smart_account-found owner s [] h)
    agrees owner s (ok (settings ∷ others)) h i =
        let a : (has_smart_account node owner s).0 ≡ ok true =
          has_smart_account-found owner s (settings ∷ others) h
          ∙ (let positive : ltb 0 (suc (length others)) ≡ true = ground arith in ap ok positive) in
        (λ x. absurd (cc (a, x)), λ y. absurd (fetch-some owner s settings others i y))

found_same :
    {W E : Type 0} (node : Node W) (owner : Address) (s : Store W E)
    → ((program : Address) (filters : List Memcmp) (w : W)
        → (node.get_program_accounts program true filters w).0
          ≡ (node.get_program_accounts program false filters w).0)
    → found node true owner s ≡ found node false owner s
unfolding find_settings ◌>>=◌
found_same node owner s h = elim (Result-cases (node.encode_address owner)) [
  | inl (e, q) ↦ rw q refl
  | inr (bytes, q) ↦ rw q (h _ _ _)
]

-- Where the node finds the same accounts whether or not their data is sliced away,
-- `hasSmartAccount` answers `false` in a state exactly if `fetchSmartAccountStateByOwner` returns
-- null there, with any executor and mint.
pub has_smart_account-fetch :
    {W E : Type 0} (node : Node W) (owner : Address) (executor mint : Option Address)
    (s : Store W E)
    → ((program : Address) (filters : List Memcmp) (w : W)
        → (node.get_program_accounts program true filters w).0
          ≡ (node.get_program_accounts program false filters w).0)
    → ((has_smart_account node owner s).0 ≡ ok false)
      ↔ ((fetch_smart_account_state_by_owner node owner executor mint s).0 ≡ ok none)
has_smart_account-fetch node owner executor mint s h =
    agrees node executor mint owner s (found node false owner s) (found_same node owner s h) refl
