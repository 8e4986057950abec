-- ===== src/Solana/Action.antt =====
-- The asynchronous functions of the Solana SDK as actions on a state: the world outside, the
-- module's caches (packages/splits-sdk/src/helpers.ts), and the trace of the messages that were
-- handed to the wallet. `await` is `>>=`; a throw ends the rest and keeps what was done before.
pub mod Sends
pub mod Yields
use splits.Prelude.{ℕ, String, Option, none, some, Bool, true, false, List, [], ◌∷◌, ◌++◌}
use splits.Prelude.Map.{Map}
use splits.Outcome.{Result, ok, throw, Thrown}
use splits.Solana.Types.{Address, Signature, ProtocolConfig, TransactionMessage}
use splits.Solana.Network.{Network, SendOptions}

pub record Store (W : Type 0) : Type 0 where
  pub world : W
  pub split_cache : Map Bool
  pub cached_protocol_config : Option ProtocolConfig
  pub mint_program_cache : Map Address
  -- the messages handed to the wallet, the oldest first
  pub sent : List TransactionMessage

abbrev pub Action : Type 0 → Type 0 → Type 0
Action W A = Store W → Result A × Store W

module _ {W A : Type 0} where
  pub pure : A → Action W A
  pure a s = (ok a, s)

  pub raise : Thrown → Action W A
  raise e s = (throw e, s)

  -- a computation without effects that may throw
  pub lift : Result A → Action W A
  lift r s = (r, s)

  pub gets : (Store W → A) → Action W A
  gets f s = (ok (f s), s)

  -- `try`: the outcome as a value
  pub attempt : Action W A → Action W (Result A)
  attempt m s = let (r, s') = m s in (ok r, s')

  -- a call outside
  pub outside : (W → Result A × W) → Action W A
  outside f s = let (r, w) = f s.world in (r, record s { world = w })

module _ {W : Type 0} where
  -- the assignments to the three caches
  pub set_split_cache : (Map Bool → Map Bool) → Action W Unit
  set_split_cache f s = (ok tt, record s { split_cache = f s.split_cache })

  pub set_protocol_config : Option ProtocolConfig → Action W Unit
  set_protocol_config c s = (ok tt, record s { cached_protocol_config = c })

  pub set_mint_program : (Map Address → Map Address) → Action W Unit
  set_mint_program f s = (ok tt, record s { mint_program_cache = f s.mint_program_cache })

module _ {W A B : Type 0} where
  abbrev pub continue : Result A → (A → Action W B) → Action W B
  continue (ok a) f s = f a s
  continue (throw e) f s = (throw e, s)

  infixl 5 ◌>>=◌
  unfoldable pub ◌>>=◌ : Action W A → (A → Action W B) → Action W B
  unfolding pure raise lift gets attempt outside set_split_cache set_protocol_config
      set_mint_program
  ◌>>=◌ m f s = let (r, s') = m s in continue r f s'

module _ {W B : Type 0} where
  infixl 5 ◌>>◌
  abbrev pub ◌>>◌ : Action W Unit → Action W B → Action W B
  m >> n = m >>= λ _. n

-- an early `return`
unfoldable pub return_if : {W B : Type 0} → Bool → B → Action W B → Action W B
unfolding pure
return_if true result rest = pure result
return_if false result rest = rest

-- `wallet.signAndSend`, with the trace of what it was given
unfoldable pub sign_and_send :
    {W : Type 0} (net : Network W) → TransactionMessage → SendOptions → Action W Signature
sign_and_send net message options s =
    let (r, w) = net.sign_and_send message options s.world in
    (r, record s { world = w; sent = s.sent ++ message ∷ [] })
