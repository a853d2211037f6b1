-- ===== src/Lib.antt =====
-- Verification library for ARC (the package arc/), a trading bot for five-minute Up/Down
-- markets of a venue. The library models the program's deciding and executing core: which
-- intents are admitted, which side of a market is chosen, how an approved intent becomes orders
-- and is followed to its end, and the flags under which any of it may happen. Paths are from
-- the repository's root.
--
-- The parts, in the order in which an intent passes them:
-- - Domain (arc/domain/enums.py, arc/domain/models.py): Domain/Enums.antt has the enums with
--   their sets of live and terminal states; Domain/Models.antt the order, the fill and the
--   intent; Domain/Window.antt the window whose values freeze together; Domain/Market.antt the
--   market with its observations; Domain/Money.antt `quantize_price`, Domain/Timing.antt the
--   grid of markets, Domain/Health.antt the health snapshot. A Decimal is an integer number of
--   units of 10^-6; an instant is a number of milliseconds.
-- - Risk (arc/risk/engine.py): Risk/Context.antt has RiskContext, Risk/Gates.antt one function
--   for each `_gate_*` method, Risk/Engine.antt `evaluate`, which asks the gates in GATE_ORDER
--   and returns the first denial. Risk/Conditions.antt states each gate's condition on its own;
--   Risk/Admission.antt and Risk/Denial.antt prove what an evaluation means.
-- - Majority (arc/majority): Majority/Trigger.antt has the trigger and the determination on a
--   book snapshot, Majority/State.antt the state of one window, each method a function from
--   state to state or to the error that it raises. Majority/Config.antt is the configuration,
--   and Majority/Config/Build.antt its builder from settings (config.py). Majority/Engine.antt
--   is `MajorityEngine` (engine.py): Engine/Entry.antt has `_evaluate_entry` and `_fire`,
--   Engine/Read.antt the fresh read, Engine/Intent.antt the price, the intent and the risk
--   context, Engine/Gate.antt the direction gate, Engine/Submission.antt `_submit`,
--   Engine/Tick.antt the tick and the life of a market, Engine/Event.antt what happens to an
--   engine, and Engine/Runs.antt sequences of events with restarts, with what the engine
--   promises of the tables over them, of which Engine/Advance.antt has one window's pass.
-- - Market (arc/market/rotation.py, arc/market/ptb.py, with the markets table of
--   arc/storage/store.py): Market/Ptb.antt resolves the official opening reference of a market;
--   Market/Table.antt is the markets table; Market/Rotation.antt is `MarketRotator`, and
--   Market/Freezing.antt the paths of arc/runtime/engine.py that freeze an opening reference,
--   with runs of a rotator's events. Market/Freezing/Coherent.antt states what holds between
--   the live markets and their rows.
-- - Execution (arc/execution, with the orders and fills tables of arc/storage/store.py):
--   Execution/Ids.antt derives the ids of orders; Execution/Orders.antt is the order's state
--   machine; Execution/Venue.antt the errors and their classification (errors.py, retry.py);
--   Execution/Store.antt the two tables as lists of rows, and Execution/Intents.antt the
--   intents table; Execution/Fills.antt `FillEngine.ingest`; Execution/Sweep.antt
--   `Sweeper.sweep`; Execution/Split.antt `split_size` with `quantize_floor` of
--   arc/domain/money.py; Execution/Submit.antt `Submitter`. Execution/Reconcile.antt is
--   `Reconciler`; Execution/Reprice.antt `RepricePolicy` and `Repricer`;
--   Execution/RateLimit.antt `TokenBucket`, which counts thousandths of tokens.
-- - Runtime (arc/runtime): Runtime/State.antt has the flags that permit trading and the table
--   that they are written to, with restarts; Runtime/Recovery.antt is `RecoveryRunner`
--   (recovery.py), which a restart begins with; an exception of a hook or of the venue is there
--   one that the runner catches, or one that leaves it.
--
-- How the parts interact: the majority engine decides a side on a book that it reads, proposes
-- an intent, and asks the risk layer and its own last gate; what passes is recorded in the
-- intents table before it is submitted; submission divides its size and writes each order to
-- the store before the venue is called, fills, repricing, reconciliation and the sweep move the
-- stored orders on by the same transitions. The store is passed through explicitly; an
-- exception is a value of a result type, and where a method has written to the store before it
-- raises, the store that it leaves is returned beside the exception.
--
-- The venue is not part of the program. Its answers are arguments of the definitions, as
-- functions of the order and, where a call is repeated, of the number of the attempt; the
-- theorems hold for every such function.
--
-- Bounds and fuel: the retry loop of a submission has IMMEDIATE_RETRY_LIMIT as its fuel, and a
-- theorem shows that the loop ends before the fuel is out; the loop of the split has the
-- remainder as its fuel, and the closed form of the split shows that this is enough; printing a
-- number has the number plus one. The mean of a market's observations is kept as the quotient
-- of its two parts, and compared by multiplying out. Quantities of a split, the venue's minimum
-- and its step are natural numbers of units; Python's decimal context of 28 digits is taken to
-- be exact on them.
--
-- Not modelled: the network clients of market data, the HTTP interface, the dashboard and
-- notifications, which are input and output; logging and prose reasons; the token bucket's wait
-- within a submission, which delays a call and changes no state of the model; the asynchronous
-- loops of arc/runtime; faults of the database other than that of a foreign key.
pub mod Prelude
pub mod Domain
pub mod Risk
pub mod Majority
pub mod Market
pub mod Execution
pub mod Runtime
