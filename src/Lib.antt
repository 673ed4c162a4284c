-- ===== src/Lib.antt =====
-- A verification library for GestaltWorkframe, a framework that answers support questions with
-- local and cloud models. Modelled are the parts that decide which model may serve a turn, what may
-- be spent on cloud models, how often a client may call, and what becomes of the finds and the
-- newsletter that an operator curates:
--
--   - gestaltworkframe/core/cloud_budget.py: `CloudBudgetGate` reserves a call before it is made
--     (`reserve`), previews one (`availability`), and books what it used (`record_usage`), over three
--     tables of a database; `ProviderBudgetGate` caps one provider's spend over the same table of events
--     (`check_and_record`); `MultiProviderBudgetGate` asks the global gate first and then the provider's.
--   - gestaltworkframe/core/budget_alerts.py: `BudgetAlertManager`, which a gate calls after booking, and
--     which is to send an alert per threshold once a day.
--   - gestaltworkframe/core/session_cost_tracker.py: `SessionCostTracker`, which a gate calls last, and
--     which is to alert once for each expensive session.
--   - gestaltworkframe/core/model_resolver.py: `resolve_lane`, which filters the models of
--     gestaltworkframe/core/model_catalog.py by a lane of gestaltworkframe/core/model_lanes.py and ranks
--     what is left by a tier.
--   - gestaltworkframe/core/router.py, with gestaltworkframe/core/runtime.py and
--     gestaltworkframe/core/model_transport.py: `LLMRouter` decides which routes a turn may take and in
--     which order, asks the budget, calls the providers, and counts failures and running generations.
--   - gestaltworkframe/core/discovery_queue.py, with gestaltworkframe/kb/watchlist.py and the tables of
--     gestaltworkframe/core/db/models.py: what an operator decides about the finds that watchers bring in.
--   - gestaltworkframe/core/discovery_scheduler.py: which sources are due, and what a poll leaves of one.
--   - gestaltworkframe/core/newsletter.py: the issues of the newsletter, which take finds of that desk and
--     are approved, scheduled and sent by workers that may run at once.
--   - gestaltworkframe/core/rate_limiter.py: `TokenBucketRateLimiter`, one bucket of tokens a client.
--
-- The files:
--   - Prelude: tests, options, lists, integers and association lists that all parts share.
--   - Budget/Clock, Budget/Database, Budget/Config: days and months (`_current_day`, `_current_month`),
--     the rows of the tables and the notices that go out, and the configuration with its environment.
--   - Budget/Alerts: core/budget_alerts.py (Defs), with Once (calls one after the other), Overlap and
--     Exact for its theorems.
--   - Budget/SessionCost: core/session_cost_tracker.py, with Alert (calls one after the other) and Overlap
--     for its theorems.
--   - Budget/Gate: `CloudBudgetGate` (Defs: the small helpers; Methods: `reserve`, `availability`;
--     Recording: `record_usage`, `clear_accounting_block`, `_sqlite_usage`); Calls runs sequences of
--     calls, and Caps, Admission, Accounting and Spending hold the theorems.
--   - Budget/Provider: `ProviderBudgetGate`, with Ledger for its theorems.
--   - Budget/Multi: `MultiProviderBudgetGate` (Defs, Methods, Upkeep), with Reserving and Caching for its
--     theorems.
--   - RateLimiter: core/rate_limiter.py (Defs); Level is about one call and Bound about runs of them.
--   - Resolver: core/model_resolver.py and what it reads (Catalog: models and lanes; Screen: the filters
--     on one model; Order: the gate, the order and `resolve_lane`); Clears, Ahead, Shortlist and Reported are
--     about the filters, the order and the result.
--   - Router: core/router.py (Routes: `ProviderRoute`; State: the fields of `LLMRouter`, the cache of
--     probes, the breaker; Slots: the limits of core/runtime.py; Gate: why a route is not taken; Transport:
--     core/model_transport.py; Synthesis and Capability: the routes from the catalog and the lane's order;
--     Order: the score and `_ordered_routes`; Chat and Stream: `chat` and `stream_chat`; Budgets: the gates
--     of Budget behind the interface `SpendGate`). Passed, Chosen, Families, Limits, Turns, Streams, Source,
--     Breaker and Spending hold the theorems, and Frame and Orderly what they rest on.
--   - Discovery: the queue of finds (Rows: the tables; Decide, Curate, Library, Sources: its operations;
--     Lists: the ticker; Watchlist: kb/watchlist.py); Calls runs sequences of calls, Curated, Cadence,
--     Ticker and Decisions hold the theorems, and Found and Frame what they share.
--   - Scheduler: core/discovery_scheduler.py (Poll), with Due and Polite for its theorems.
--   - Newsletter: core/newsletter.py (Rows: the tables; Labels, Schedule, Finds, Dispatch: its operations);
--     Calls has the steps of operators and workers; Letters, Blocked, Window, Delivered, Hidden and Once
--     hold the theorems, and Found, Sent, Keeps, Spares, Mails and Orderly what they rest on.
--   - Budget/Tests, Discovery/Tests, Newsletter/Tests, RateLimiter/Tests, Resolver/Tests, Router/Tests,
--     Scheduler/Tests: inputs, runs, and the theorems applied to them.
--
-- A method is a function from its arguments, the object's fields and the world (the database's rows
-- and the notices sent) to the object, the world and the answer, called `g`, `w` and the decision.
-- A method is modelled as one run with nothing in between, and a theorem over a list of calls is
-- about calls that come one after the other. For `CloudBudgetGate.reserve` and the limiter's
-- methods a lock in the code sees to that. The other methods of the gates, the alerts and the costs
-- of sessions take no lock around their reads and writes: `record_usage`, `check_and_record`,
-- `check_and_alert` and `record_cost` await in between, and what their runs may do when they
-- overlap is not what the lists of calls say. Overlapping runs of `check_and_alert` and of
-- `record_cost` are modelled too, in Budget/Alerts/Overlap and Budget/SessionCost/Overlap, cut
-- where they read the mark, call the webhook and write the mark; those of `record_usage` and
-- `check_and_record` are not. What fails (a database access, the webhook) is an argument of the
-- method, a field of `Faults`, `AlertFaults`, `TrackerFaults`, `ProviderFaults` or `MultiFaults`,
-- and the theorems hold for all of them unless they say so; a transaction that fails leaves no
-- writes.
--
-- An amount of money is a whole number of 10^-12 USD and a price one of 10^-6 USD for a million
-- tokens, so that tokens times price is a cost with no division, where the code rounds floats. An
-- instant is a number of microseconds, read once in a call; the calendar that gives its day and
-- month is an argument, and a theorem that needs it to be monotone takes `IsCalendar`, which
-- `plain_calendar` meets. The limiter counts 10^-12 tokens, so that time times rate is such a
-- count; a rate of 0, which the code divides by, is an answer of its own. The resolver's prices are
-- whole numbers, possibly below 0, its indices natural numbers, and the ratios of the tier `auto`
-- and the share of 0.35 are compared multiplied out; what it asks of Python's texts and dates is an
-- argument, the record `Python`. The discovery queue is one value too, `d : Desk`: its tables, the
-- files of the library's repository and the finds whose text the vector store holds; what
-- publishing, deleting and ingesting answer is an argument. The newsletter adds the tables of
-- issues and deliveries and the emails that were tried, `p : Press`, and the steps of its workers
-- cut `_dispatch_issue` into the claim, the snapshot, the number or what failed of it, the revert
-- after collisions, the second revert, the emails and the end, and `unpublish_issue` into its read
-- and its write, which has no condition. The other calls of operators are one step each: they write
-- under a condition on the status, leave the status alone, or delete the row whatever it is.
-- Delivered is about `dispatch_issue`, which is a dispatch that nothing comes in between. A cap of
-- 0 is no cap. The letters of a label are made on fuel, one more than the index, which is enough;
-- all other recursion is on lists or on the number of attempts.
--
-- A turn of the router is one run of `chat` or `stream_chat` from a state of `LLMRouter` and of the
-- budget; other turns do not change the state in between, but for the slots, where Limits takes
-- starts and ends in any order. What a provider, its probe and its stream answer or raise, and the
-- clocks, are arguments, `Surroundings` and `Chunks`; what the process finds around it is
-- `Deployment`. The texts that the router compares go through `Words`. Prices are not below 0, and
-- neither are the token counts that a provider reports. The dictionaries of diagnostics, which no
-- decision reads, are left out.
--
-- Not modelled: the snapshots that the interface shows, the reports over session costs, and the SQL
-- that creates tables; the providers and their registry, the fetching and parsing of the catalog,
-- the watchers, the rest of their scheduler, the composer, cycle, renderers and subscriptions of
-- the newsletter, the knowledge base, the HTTP interface and the connectors.
pub mod Prelude
pub mod Budget
pub mod RateLimiter
pub mod Resolver
pub mod Router
pub mod Scheduler
pub mod Discovery
pub mod Newsletter
