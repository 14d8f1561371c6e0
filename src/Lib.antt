-- ===== src/Lib.antt =====
-- The Daily Alpha engine: what its trading core computes, and that it is correct.
--
-- The program is a Python package that replays a Pine strategy on daily bars, turns its signals into
-- paper trades, and gates these by portfolio risk, governance and a trade lifecycle. The paths below
-- start at the repository's root.
--
-- Pine (src/daily_alpha/pine_v24_parity.py). `run_v24_parity` checks the symbol and the order of the
-- bars, computes each indicator over all bars, and runs one loop. Pine/Bars holds `DailyBar` and
-- `V24Parameters` with the checks of their constructors; Pine/Indicators the functions from `_sma` to
-- `_average_dollar_volume`, as folds over the bars; Pine/State the variables of the loop as two records,
-- `TrendState` and `RunnerState`, and what a bar reads as a third, `BarContext`. The body of the loop is
-- `bar_step` of Pine/Run, composed of Pine/Trend (the bands), Pine/Gap (earnings gaps), Pine/Entry (the
-- gates), Pine/Runner (adds, harvest and exit reasons) and Pine/Fills (signals and fills), in the
-- source's order. Pine/Phases and Pine/Coherent are the abstract view: a position is flat, a starter,
-- built once or twice, or harvested.
-- Paper (src/daily_alpha/models.py, sizing.py, runner.py, ledger.py, fallback.py
-- and config.py). Paper/Models holds the values; Paper/Sizing how many units a trade is for and their split over the runner; Paper/Fallback
-- the choice of an option, else a stock, else nothing; Paper/Ledger the events of `PaperLedger` and what
-- `find_open` reads from them, and Paper/Ledger/Operations the four operations, which pass the store on.
-- Pine/Armed (src/daily_alpha/pine_v25_armed_parity.py) is the machine of version 2.5 that keeps a
-- breakout armed over later bars: `step`, of `arm` and `settle`. Pine/Armed/Origin follows an arm back to
-- its bar.
-- Pine/V25 (src/daily_alpha/pine_v25_parity.py) is the engine of version 2.5, `run_v25_parity`. What the
-- two engines compute alike, the indicators, the bands, the earnings gaps, the runner's signals and fills, is that of
-- version 2.4, at `shared_parameters`; Pine/V25/Entry has its gates and rejections, Pine/V25/Exits its
-- exits and orders, Pine/V25/Run the loop, a round of which is `v25_round`: the step of the machine, then
-- `v25_settle`. The loop ends where the machine raises. `v25_context` is what a round reads.
-- Paper/Dynamo (src/daily_alpha/dynamo_ledger.py) is the ledger of AWS staging: keys and items, and in
-- Paper/Dynamo/Operations the transactions and the operations. The boto3 client is the record `Client`,
-- two calls on a state of its own; Paper/Dynamo/Table states what DynamoDB documents of them, `IsClient`
-- for a client whose requests may fail at any time, and `IsAnswering` for one that always answers.
-- Paper/Pipeline (src/daily_alpha/pipeline.py and signals.py) turns a signal into calls of a ledger, which
-- is the record `LedgerApi`: Paper/Pipeline/Enter is `process_entry`, Paper/Pipeline/Rounds the loops of
-- `process_add`, `process_partial` and `process_exit`. Common/Stateful is what they are written in: a
-- call takes a state and gives a state and a result, so that a raise keeps what was written before it.
-- Replay (src/daily_alpha/armed_replay.py, and `mark_execution` of src/daily_alpha/pine_processor.py) is the
-- worker that replays armed events: `claim_armed_ingress` and the loop of `replay_armed_events`, whose
-- body is `replay_one`. Replay/Table states what DynamoDB documents of a conditional update; the executor
-- is the record `Executor`. Replay/Served is the abstract view: what a run does to the table, record by
-- record.
-- Lifecycle (src/daily_alpha/lifecycle.py). A `TradeRecord` is a plan and a list of events. `create` and
-- `transition` are the operations; Lifecycle/Manage has `evaluate_management`, whose tests behind the
-- guards are `decide`. Fields that share a name with a reason or a state are renamed there
-- (`pine_exits`, `turtle_exits`, `assignment`, `exercise`, `feed_failed`).
-- Governance (src/daily_alpha/governance.py). Versions of a strategy; `_transition` is `move`.
-- Portfolio (src/daily_alpha/portfolio.py) and Risk (src/daily_alpha/risk.py). A snapshot's sums, and the
-- gate `PortfolioRiskEngine.evaluate` with its table of checks.
-- Common holds what these share: numbers and their tests, results, lists, texts, scans.
--
-- Floats are an interface, `Floats` of Common/Floats: its operations are arguments, and no law of them is
-- assumed, except by a theorem that names `IsOrdered`, which IEEE comparison meets also for NaN.
-- Common/Fixed is a fixed-point instance for the examples. Integers are unbounded, as in Python. An
-- exception is a value of the module's error type in a `Result`; it carries no text. A time of a bar is
-- its instant in microseconds, other times are the texts that the code keeps; the clock is an argument.
-- Every loop is structural recursion, over the bars, the events or the candidates, so there is no fuel.
-- `upper` changes ASCII letters only, and the hexadecimal test of governance is over ASCII texts.
--
-- Not modelled: negative integers among the parameters of the Pine engines; the conversions to
-- dictionaries; PortfolioSnapshot.create; the constructor and the JSON texts of the DynamoDB ledger; the
-- parsing of a signal; paper execution, the scan for armed events and its monitor, ingress and
-- orchestration; and the evidence files, backtests, model training, data feeds, newsletters, handlers and
-- scripts, which are statistics or input and output around this core.
pub mod Common
pub mod Pine
pub mod Paper
pub mod Lifecycle
pub mod Governance
pub mod Portfolio
pub mod Risk
pub mod Tests
pub mod Replay
