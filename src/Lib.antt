-- ===== src/Lib.antt =====
-- 1-tok: a marketplace in which buyers order work in milestones from providers, and agents settle it.
--
-- The parts. The core (internal/core/workflow.go) is the life of one order: its milestones run,
-- collect usage charges, hit their budget, are settled and disputed. The platform
-- (internal/platform) keeps the orders with requests, bids, disputes, messages, ratings, credit
-- limits and the bindings, liquidity pools and reservations of the providers, and calls the core
-- on the orders. Reconciliation (internal/reconciliation/reconciler.go) is called at each
-- settlement. The carrier service and its ledger (internal/carrier/service.go, ledger.go) keep
-- the jobs that do the work, and the callbacks about them. The settlement service
-- (internal/services/settlement) sweeps the deposits of buyers into the treasury, credits them, and
-- reconciles the states of invoices and withdrawals. Around them stand the rate limits of the
-- gateway and of IAM (internal/ratelimit/service.go) and the accounts (internal/identity).
--
-- The files.
--   Prelude: the shared names. Prelude/Int has 64-bit integers with the wrap-around of Go's
--     int64 (add64, sub64, mul64, quot64); Prelude/Dict is a map, Prelude/Keyed a slice that is
--     scanned for an id.
--   Core/Types, Core/Order, Core/Credit: the types of workflow.go, and its methods with their
--     guards in order. A method on *Order that may fail returns the new order with the result, or
--     the error. SettleMilestone is settle_milestone, RecordUsageCharge is record_usage_charge,
--     OpenDispute is open_dispute, ResolveDispute is resolve_dispute, Decide is decide.
--   Core/Settlement, Usage, Dispute, Soundness, CreditBounds: their theorems.
--   Reconciliation: Reconcile, over a record Float that stands for float64.
--   Platform/Types, LiquidityTypes, App/State, App/Repositories: the state of App, a monad of
--     state and error over it, and the memory repositories of app.go.
--   Platform/Orders, Settlement, Credit, Feedback, Exposure: the calls of app.go; a call of the
--     same name as a method of the core begins with app_.
--   Platform/Rfqs, Split: CreateRFQ, CreateBid and AwardRFQ (app.go, bids.go), and
--     DefaultMilestoneSplit (milestones.go).
--   Platform/Liquidity: provider_settlement.go; Pool has what is written into a pool.
--   Platform/Triples: triples about the monad. Platform/Invariant, OrderSoundness: the soundness of
--     the stored orders, call by call. Platform/Calls: the calls as one type, and sequences of them.
--   Platform/Awards, Bids, CreditOwed, CreditChecks, SplitBounds, Liquidity/Reserves, Reserving,
--     Touched, Recovered, Recovery: further theorems on these calls.
--   Platform/Market: listings, providers, order lists, statistics, timelines and the leaderboard of
--     app.go; Platform/Market/Ranking has the theorem on the leaderboard.
--   Carrier/Evidence, Callbacks: evidence.go, profile.go, callback.go and normalize.go, and
--     internal/usageproof/verify.go.
--   Pagination: internal/httputil/pagination.go.
--   Carrier/Jobs, Attempts, Ledger: the service and the ledger, each method a function from the
--     state to a result and a state; Carrier/Transitions, Replay, Chains, Sequences: their theorems.
--   Deposits/Types, Amounts, Repositories, Service, Sync: buyer_deposits.go and the memory part of
--     funding.go; SyncDeposits is sync_deposits, one round of its loop sync_one.
--   Deposits/Reconciler: reconciler.go; Sync is sync, RunReconcilerLoop is run_reconciler_loop over a
--     list of ticks. RoundTrip, Lists, Accounted, Once, Reachable, Indices, Passes, Settling, Loop: the
--     theorems.
--   RateLimit/Service, Policies: the memory store and the service, and the built-in policies.
--     RateLimit/Windows: sequences of calls.
--   Identity/Store, Checks: store.go, roles.go and validation.go. Identity/Calls, Accounts: sequences of
--     calls and the theorems.
--   Prelude/Trim, Blank, Casing, Numerals: the functions of strings and strconv that the source calls;
--     Prelude/Reading: what they do with digits.
--   Gateway: the milestone, the prompt and the quoted shell command of an award
--     (internal/gateway/carrier_award_executor.go), and how a shell reads the quotes.
--   Tests: the theorems at concrete data.
--
-- Choices. A call is one atomic step: the mutex of App is held for less than a whole call in some
-- methods, and interleavings inside a call are not modelled. Every loop of the source runs over a
-- list, so the recursion is structural and no fuel is needed. time.Now and the clock, the
-- publisher, the provisioner and the profile validator are functions of the environment, which see
-- the number of calls made before. So are the deposit wallet and the Fiber client, whose `none` is
-- an error. A float64 is the parameter Float or FloatRating, the HMAC one of Signer. A loop over a
-- Go map takes the entries in the order of their insertion. ToLower is a parameter;
-- EqualFold and ToUpper are exact where one side is ASCII. Ids count up in the natural numbers.
--
-- Not modelled: the gateway but for the commands of an award, the fiber adapter and the FNN
-- provisioner, the CKB wallet and the HTTP handlers of the settlement, execution and IAM services,
-- the postgres and Redis stores, notifications, Discord, observability, the release checks and the
-- web portal. Most are network or storage glue around the calls above.
pub mod Prelude
pub mod Core
pub mod Reconciliation
pub mod Platform
pub mod Carrier
pub mod Deposits
pub mod RateLimit
pub mod Identity
pub mod Pagination
pub mod Gateway
pub mod Tests
