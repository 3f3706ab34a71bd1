-- ===== src/Lib.antt =====
-- StakeBasket: the services and routes of the backend (backend/src), and the parts of the client (src)
-- that calculate and keep state.
--
-- The contract monitor and the validator monitor measure; the alert manager evaluates its rules on
-- what they measured and keeps the alerts; the automated rebalancer asks the validator monitor at
-- intervals, decides whether to rebalance, and keeps a history. The metrics collector keeps the
-- last measurements. The automation engine runs its due tasks over the monitors and reports to
-- alerts of its own. The rate limiter and the role check stand before the routes; the faucet uses
-- the limiter and the schemas of requests. The governance service reads votes and proposals in
-- cycles and acts on them. In the client, the request limiter paces what is fetched, and dual
-- staking proposes, checks and stores deposits. The oracle updater writes prices at intervals. A
-- redemption is calculated, and a withdrawal runs through its steps, over transactions whose
-- errors are classified; the networks and the store of contract addresses say what they talk to. The
-- hooks of transactions check wallet, contract and network, call the wallet, and show what came of it.
--
-- Files:
--   Prelude      shared names; arrays, sorting, maps and capped logs as JavaScript has them; the
--                non-negative numbers of the program as exact fractions (Prelude/Fractions), and what rounding keeps of them (Prelude/Rounding)
--   Monitoring   backend/src/services/ContractMonitor.ts, and the interfaces of ValidatorMonitor.ts
--   AlertRules   the data and the rule table of backend/src/services/AlertManager.ts
--   Alerts       the class AlertManager; its sessions of calls are in Alerts/Calls
--   Validators   backend/src/services/ValidatorMonitor.ts
--   RebalancePlan  the plan of a rebalancing of ValidatorMonitor.ts
--   Rebalancing  the thresholds, the recommendation and the results of a check of
--                backend/src/services/AutomatedRebalancer.ts
--   Metrics      backend/src/services/MetricsCollector.ts
--   Automation   backend/src/services/AutomationEngine.ts; its loop over the tasks is Automation/Loop
--   Access       the rate limiter and the roles of backend/src/middleware/auth.ts; its tokens and keys are Tokens
--   Rebalancer   the class AutomatedRebalancer, its scheduler and its history
--   Validation   backend/src/middleware/validation.ts
--   Faucet       the cooldown and the two sending routes of backend/src/routes/faucet.ts
--   Governance   the readings and a cycle of backend/src/services/CoreDAOGovernanceService.ts and
--                GovernanceAutomationService.ts; the class of the latter is Governance/Service
--   OracleUpdater  backend/src/services/OracleUpdater.ts
--   CoreApi        backend/src/services/CoreAPIService.ts
--   OracleRoutes   backend/src/routes/oracle.ts over OracleUpdater and CoreApi; which updaters it reaches is Reach
--   RequestLimiter  src/utils/requestLimiter.ts; its runs are Steps, its invariant Service, and that
--                every request is served is Progress
--   DualStaking  src/config/dualStakingTiers.ts, src/hooks/useDualStakingTiers.ts and
--                useDualStakingValidation.ts; DualStaking/Store is src/store/useDualStakingStore.ts
--   ContractStore  src/store/useContractStore.ts over the tables of src/config/contracts.ts
--   Networks     src/utils/networkHandler.ts
--   Redemption   src/utils/redemptionCalculator.ts; Redemption/Hybrid is src/hooks/useHybridRedemption.ts and
--                useApiBasedRedemption.ts
--   WithdrawFlow  src/hooks/useWithdrawFlow.ts
--   TransactionErrors  src/utils/transactionErrorHandler.ts; its manager of notifications is Toasts
--   Transactions  the calls of src/hooks/useStakeBasketTransactions.ts, useDualStakingTransactions.ts
--                (Dual), useGovernanceTransactions.ts (Proposals) and useSparksTransactions.ts (Sparks),
--                with src/utils/networkValidation.ts: up to the wallet in Submission, what follows in
--                Transactions and Handlers, the effects of a render in Effects, DualEffects and Renders
--   History      src/hooks/useTransactionHistory.ts
--   Singleton    src/hooks/useSingletonData.ts
--   Prices       src/hooks/useRealPriceData.ts, with calculateBtcPrice of src/utils/coreApi.ts
--
-- State and calls: a class is a record of its fields, a method a function of the same name in
-- snake case that returns the new state beside its result. An asynchronous method is split at its
-- first await where other calls can come between (begin_check and finish_check). The clock,
-- chance, the answers of contract calls and the printing of numbers are arguments. A method that
-- does not wait reads the clock once. Timers of the runtime are part of the state of the
-- rebalancer, of the oracle updater and of the request limiter. The stores of the client are
-- records, and their actions functions on them.
--
-- Numbers: counts, milliseconds and amounts are natural numbers; shares, percentages and prices are
-- fractions, where a zero denominator stands for Infinity or NaN as JavaScript makes them, and for
-- undefined in a comparison. A signed intermediate value that the program cuts off at 0 is cut off
-- where it is made. In DualStaking (but for its Store) and Redemption, where a threshold or a balance is compared with
-- a calculated number, every operation is followed by `round`, a parameter, which is the rounding to
-- double precision; elsewhere the rounding of floating point numbers is not modelled, nor the loss
-- of digits of amounts above 2^53. Texts that hold a number are data, by their template. An identifier
-- made of a prefix and a time is the pair of both. Every recursion is structural, so no fuel is used.
--
-- Not modelled: network and wallet calls, logging, the components of React, the Solidity contracts, and
-- the services that the manifest lists as such.
pub mod Prelude
pub mod Monitoring
pub mod AlertRules
pub mod Alerts
pub mod Access
pub mod Metrics
pub mod DualStaking
pub mod Governance
pub mod Validation
pub mod Faucet
pub mod RequestLimiter
pub mod Automation
pub mod Validators
pub mod RebalancePlan
pub mod Rebalancing
pub mod Rebalancer
pub mod ContractStore
pub mod Networks
pub mod Redemption
pub mod WithdrawFlow
pub mod TransactionErrors
pub mod OracleRoutes
pub mod OracleUpdater
pub mod Transactions
pub mod History
pub mod Singleton
pub mod Prices
pub mod CoreApi
