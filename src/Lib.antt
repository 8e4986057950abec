-- ===== src/Lib.antt =====
-- Cascade: the TypeScript SDKs that build and submit the transactions of a payment splitter on
-- Solana and on EVM chains, and the SDK and the facilitator of Tabs, which pays for HTTP requests
-- under the spending limits of a smart account.
--
-- The parts. On Solana, packages/splits-sdk/src reads split configs and caches some answers
-- (helpers.ts), converts recipients (recipients.ts), builds instructions (instructions.ts), and
-- offers a client (client/) whose operations ensure, update, close and execute read the chain,
-- decide, and hand at most a few transactions to a wallet. On EVM chains,
-- packages/splits-sdk-evm/src does the same with contract calls (ensure.ts, execute.ts). Tabs:
-- packages/tabs-sdk/src compiles instructions for a smart account, decodes API keys (helpers.ts) and
-- pays for a request that is answered by 402 (tabsFetch.ts); apps/tabs/src/worker/index.ts is the
-- facilitator that signs these payments, and apps/tabs/src/react-app/lib/squads.ts waits for
-- confirmations and builds withdrawals on the compiler.
--
-- The files.
--   Prelude: tests on numbers and texts, lists, JavaScript's Map, texts.
--   Outcome: what the SDK throws (splits-sdk/src/errors.ts, client/wallet-errors.ts), and results.
--   Solana.Types, Solana.Network: the data, and the libraries that the SDK calls, as parameters.
--   Solana.Action: asynchronous functions as actions on a store of the world outside, the module's
--     three caches and the trace of the messages that the wallet was given. Its children hold the
--     rules for what an action sends and returns.
--   Solana.Recipients: recipients.ts. Solana.Derive, Reads, Detect, Equality, Atas: helpers.ts
--     (deriveX, getX, detectTokenProgram and isCascadeSplit, recipientsEqual, checkRecipientAtas
--     and getCreateAtaInstructions). Solana.Instructions: instructions.ts,
--     with Parts, the words in which its instructions are described, Shape the creation, Changes
--     the update and the closing, Execution the execution.
--     Solana.Labels: labelToSeed and seedToLabel, with the runtime's codecs as parameters.
--   Solana.Client: client/. Results is types.ts, Messages messages.ts, Failures errors.ts,
--     Transaction buildTransaction.ts with the call of the wallet, Shared shared.ts, and Ensure,
--     Update, Close and Execute the operations ensureSplitImpl, updateImpl, closeImpl and
--     executeImpl. Bundle is the transaction that an update and a close have in common.
--   Evm: packages/splits-sdk-evm/src. Action has the trace of the contract calls, Helpers is
--     helpers.ts and addresses.ts, Failures the classification of errors that ensure.ts and
--     execute.ts repeat, Ensure and Execute the operations.
--   Tabs: packages/tabs-sdk/src and apps/tabs/src. Action has actions with a trace of events and the
--     rules on them. Message is compileToSynchronousMessage (Decode is a reader of its format),
--     Base58, Derive, ApiKey and Builders the other parts of helpers.ts, Fetch is
--     tabsFetch.ts with the three forms of a request's headers, Discovery discovery.ts, History
--     react-app/lib/transaction-parser.ts. Worker is worker/index.ts, with Verify, Settle and Echo
--     its handlers; Echo.Phases is the machine that reads a trace, Echo.Refunds describes a refund.
--     Squads is react-app/lib/squads.ts: Confirmation and Withdraw.
--   The theorems stand in child modules named for what they prove; Tests hold concrete inputs.
--
-- The model. A function's await is the action's bind, a throw is a value that keeps what was done
-- before it, a try is `attempt`. What runs in Promise.all runs in order. A step of a long body is a
-- function of its own: ensure_existing is step 4 of ensureSplitImpl. Calls of the Solana library,
-- of viem and of the wallet are fields of Network and Clients: functions on an arbitrary state of
-- the world, so that they may fail, change between calls and answer anything; nothing is assumed of
-- them. The retry of executeImpl is bounded by its flag, the polls of
-- waitForConfirmation and of the echo resource by their 60 and 30 rounds; the carry that
-- base58Decode pushes bounds its own loop, since a quotient by 256 is smaller.
-- Amounts are unbounded naturals, in Tabs integers (bigint); a JavaScript number in a recipient is
-- an integer or the text of anything else, and on EVM chains a natural, since viem encodes no other
-- as a uint16.
--
-- Not modelled: the generated encoders (an instruction keeps its data unencoded), the factories and
-- wrappers that fill in defaults, the amounts' texts, the simulation and the user interface of
-- Tabs, the dashboard, the on-chain programs.
-- `toLowerCase` is that of ASCII letters and of the Kelvin sign; U+0130, which JavaScript lowers to
-- two characters, is left as it is.
pub mod Prelude
pub mod Outcome
pub mod Solana
pub mod Evm
pub mod Tabs
