-- ===== src/Lib.antt =====
-- A verification library for the trading and strategy logic of the AlphaGrid API worker.
--
-- The worker lets an agent's strategy trade on chain. A scheduled tick takes the due agents and
-- runs each: it reads the agent's positions, risk state and quote, asks an adapter for a decision,
-- checks the decision against guardrails, and has its actions executed. Beside it the worker
-- reports an agent's risk state, its metrics and its trade activity, which it scans out of the
-- chain's logs. An agent begins as a draft: its owner names it, has a signer's key made for it, and
-- launches it, which registers it on chain and moves the key from the draft to a signer and a
-- profile, the rows that the tick reads. Its owner on chain may then update and archive it. The
-- subgraph indexes the events of the contracts into the entities that the API reads.
--
-- Common                the helpers that the parts share: Boolean tests, lists measured by native
--                       numbers, thrown errors as values (Results), BigInt and safe integers (Int),
--                       strings as lists of code units (Text), trim, split, padEnd and BigInt(text)
--                       (Decimal), the number that digits spell (Decimal.Value), toString
--                       (Decimal.Print).
-- Tokens.Catalog        api/src/lib/tokens/catalog.ts
-- Tokens.Amount         api/src/lib/tokens/amount-utils.ts: parseHumanAmount
-- Tokens.Usd            api/src/lib/tokens/utils.ts
-- Trading.Metrics       api/src/lib/trading/metrics.ts
-- Trading.Risk          getRiskState of api/src/services/trading.service.ts
-- Trading.LogScan       api/src/lib/trading/trade-log-scan.ts and log-from-block.ts
-- Trading.Activity      api/src/lib/trading/trade-events.ts
-- Strategy.Decision     the data of api/src/schemas/strategy.ts and api/src/lib/strategy/decision.ts
-- Strategy.Guardrails   api/src/lib/strategy/guardrails.ts
-- Strategy.ExitRules    api/src/lib/trading/exit-rule-convention.ts and intent-builder.ts
-- Strategy.Cooldown     api/src/lib/strategy/run-cooldown.ts and schedule.ts
-- Strategy.Executor     the loop of api/src/lib/strategy/executor.ts
-- Strategy.Adapter      api/src/lib/strategy/adapters: the outcome of an answer, the choice of an adapter
-- Strategy.Runner       runAgent, runAgentById and tick of api/src/services/strategy-runner.service.ts
-- Db.Actions            api/src/errors.ts, and calls that write a state and may throw; Db.Outcomes has
--                       the rules for what holds when they throw and when they return
-- Db.Keys               the unique indexes of api/src/db/schema.ts and the orders of the queries
-- Db.Profiles           api/src/db/agent-profiles.repository.ts
-- Db.Signers            api/src/db/agent-signers.repository.ts
-- Db.DraftRows          api/src/db/agent-drafts.repository.ts
-- Db.Database           the three tables together
-- Managed               api/src/services/managed-agent.service.ts
-- Drafts.Service        api/src/services/agent-drafts.service.ts
-- Drafts.Wallet         api/src/services/agent-draft-wallet.service.ts
-- Drafts.Signing        api/src/services/agent-launch.service.ts, what a launch computes before it writes
-- Drafts.Launch         api/src/services/agent-launch.service.ts, what it writes
-- Drafts.Requests       the requests on drafts and api/src/jobs/abandon-stale-agent-drafts.ts, with
--                       what their surroundings answer
-- Drafts.Lifecycle      the life cycle of a draft, the abstract view that Drafts.Refinement is about
-- Indexer.Entities      subgraph/schema.graphql and subgraph/src/lib/entities.ts
-- Indexer.Snapshots     subgraph/src/lib/equity-snapshot.ts and position.ts
-- Indexer.Symbols       subgraph/src/lib/token-symbol.ts
-- Indexer.Activities    subgraph/src/trade-router.ts
-- Indexer.Handlers      subgraph/src/agent-registry.ts, allocation-manager.ts and position-manager.ts
-- Indexer.Events        the events that they handle, and histories of them
-- Orders.Errors         api/src/lib/evm/viem-revert.ts and mapSubmitError of the trading service
-- Orders.Chain          what the trading services read and write on chain
-- Orders.Checks         the checks of api/src/services/trading.service.ts, and api/src/lib/eip712
-- Orders.Router         api/src/services/trade-router.service.ts
-- Orders.Submit         submitIntent of api/src/services/trading.service.ts
-- Orders.Adjust         submitAdjustIntent of the same file
-- Orders.Positions      mapPositionRecord, getPosition and listOpenPositions
-- Orders.Quotes         getQuote and the quotes for a position
-- Orders.Closed         the on-chain scan of listClosedPositions
-- Orders.History        api/src/lib/subgraph/mappers.ts, api/src/services/subgraph.service.ts, and the
--                       histories of the trading service that read the index first
-- Orders.Execute        executeOpen, executeAdd and executeReduce of api/src/lib/strategy/executor.ts
-- Registration.Agents   api/src/services/agent-registry.service.ts
-- Registration.Service  api/src/services/agent-registration.service.ts
-- Registration.Quote    getQuote of the same file
-- Registration.Guards   what `register` requires
-- Registration.Replay   a request that comes again
-- Examples              the theorems at concrete inputs
--
-- A function of the source is the definition of its name in snake_case (parseHumanAmount is
-- parse_human_amount); a definition that the source does not name is a step of one, as its comment
-- says. A thrown error is `err`, with one constructor for each message where the messages differ.
-- Asynchronous calls that the code awaits together are read in order; where two of them fail, a
-- parameter `race` says which rejection comes first, or it is the first of them in order (in
-- Orders and Registration).
-- The database is a list of rows. The chain is a state that only the execution of an action changes,
-- and there only the transaction that the router service sends: what comes before it reads, and is a
-- result. Between the reads of a request and its transaction nobody else changes the chain. A multicall
-- answers at each place what the single read answers.
--
-- A launch is two parts, before and after the registration is sent; the second one is defined on any
-- database, since other requests may have come between. Within a part, and within any other request,
-- the reads and writes follow each other without another request between them.
--
-- Numbers that the source keeps as BigInt are naturals where they cannot be negative and integers
-- elsewhere. The subgraph's counters of positions are the bits of an i32, which wrap around; other
-- machine numbers are taken as exact: basis points and counts are far below 2 ^ 53.
--
-- Fuel: the halving fetch takes 1000 rounds, more than the 999 blocks of the widest window; the
-- scan's rounds are the 128 chunks that the source allows itself; the causes of an error are
-- followed four deep, as in the source; the scan of closed positions takes 11 turns, ten batches of 50
-- ids and the one that ends it. Every other function is structurally recursive.
--
-- Not modelled: the contracts behind the reads and transactions, hashes, signature schemes, the
-- answers of the subgraph and the model call of the adapter, which are arguments; the vault and
-- token services, and the loading of the configuration; failures of
-- the database other than a violated unique index; the JSON texts of a run's row and of a draft's
-- identity, which stand as the values that they encode; the routes, authentication, payments and MCP
-- tools; the contracts.
pub mod Common
pub mod Tokens
pub mod Trading
pub mod Db
pub mod Strategy
pub mod Managed
pub mod Drafts
pub mod Indexer
pub mod Orders
pub mod Registration
pub mod Examples
