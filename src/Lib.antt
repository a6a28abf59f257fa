-- ===== src/Lib.antt =====
-- The money path and the citations of ai-text: a server that sells credits through several payment
-- channels, and spends them on generations of a language model over a user's sources, whose
-- answers cite the sources.
--
-- Parts, and how they meet. The wallet (src/app/wallet/service.py) is the only writer of balances
-- and of the ledger; every movement carries an idempotency key. The payments journal
-- (src/app/billing/payments.py) takes the events of App Store, Adapty and CloudPayments, prices
-- them by the product catalogue (src/app/products.py), and grants or takes back credits through the
-- wallet. Purchases in the App Store come to it by src/app/subscription/service.py and
-- src/app/token_purchase/service.py. The policy (src/app/policy/engine.py,
-- src/app/policy/loader.py) decides from the subscription, the trial and the balance who may
-- generate. The generation service
-- (src/app/generation/service.py, src/app/generation/repository.py) asks the policy, writes an
-- anchor row, calls the provider, and settles the price (src/app/generation/pricing.py,
-- src/app/domain/pricing.py) through the wallet. Generations are run by background workers
-- (src/app/domain/worker.py) that lease jobs from a table (src/app/domain/jobs.py). The text of a
-- source is split into chunks (src/app/domain/text.py); the model sees chunks and proposes quotes,
-- and the server keeps those that it finds in the text (src/app/domain/citations.py). Users are found
-- by device or by Apple account (src/app/auth/service.py), and payments find them by the same tables
-- (src/app/billing_common/resolve.py).
--
-- Files.
--   Prelude      library names and Boolean tests; Prelude.Tests, Prelude.Lists
--   Database     the rows of src/app/models/tables.py that the money path writes, as lists in the
--                order of insertion; identifiers and the clock
--   Action       a method inside a session: from a database to a result or an error of
--                src/app/errors.py, with the database as it is then. `transaction` commits, or rolls
--                back on an error. Action.Ensures holds the rules for postconditions
--   Wallet       src/app/wallet/service.py (`consume`, `grant`, and a helper for each branch), and
--                `AuditService.log` of src/app/audit/service.py. Wallet.Calls: sequences of calls,
--                the order in which PostgreSQL serialises concurrent transactions
--   Products     the catalogue of src/app/products.py, as a list that is given
--   Payments     `record_and_grant` of src/app/billing/payments.py; Payments.Projection
--                has `sanitize_payload`, Payments.Refund has `record_refund`
--   Policy       `evaluate`, lazy expiry, the chain of gates, `effective`
--   StoreKit     `sync` and `get_subscription` of src/app/subscription/service.py, and `purchase` of
--                src/app/token_purchase/service.py
--   Pricing      the ceiling, the three modes, the prices of answers and summaries, and the plan of
--                the parts of a summary (src/app/domain/provider.py)
--   Generation   `GenerationService.run` in its two transactions, with an arbitrary change of the
--                database by other sessions between them; Generation.Repository has the SQL
--   Jobs         the table of background jobs, src/app/domain/jobs.py, and the failure policy of
--                src/app/domain/worker.py; Jobs.Active has the steps that sessions and workers take
--                in any order, and Jobs.Exclusive what may happen while a job is leased
--   Text         `normalize_with_map`, `find_quote`, `chunk_text` and `page_at` of
--                src/app/domain/text.py, over lists of code points
--   Citations    `CitationResolver` of src/app/domain/citations.py over the context of a run;
--                Citations.Claims has `verify_claims`, Citations.Table `CitationTable`, and
--                Citations.Numbers what that table promises
--   Auth         src/app/auth/service.py: Auth has registration and the issue of pairs, Auth.Apple
--                the Apple sign-in, Auth.Refresh the refresh; Auth.Reach sequences of these methods
--                that interleave; Auth.Resolve is `resolve_user` of src/app/billing_common/resolve.py
--   Examples     the statements at concrete inputs
-- An operation keeps the name that it has in the source; the tail of a method after a test or a
-- query has a name of its own (`consume_inserted`, `consume_updated`). Every SQL statement is a
-- function on the table, with the unique index or the constraint that it meets.
--
-- Numbers. Amounts are natural numbers. A negative amount takes the branch of 0 in the wallet, and
-- the constraints of the tables keep balances and amounts from being negative. BIGINT overflow is not
-- modelled. Identifiers are the values of a function `gen` on the number of draws; a theorem that
-- needs fresh ones says so. Loops go down a list, but for two: the search for a quote with an
-- elision and the splitting into chunks run on fuel, one unit more than the text has characters (in
-- its normal form, for the search), since every round starts further on. Running out of fuel is a
-- result of its own, which the theorems exclude. Unicode's tables are an argument.
--
-- Not modelled. Logs, metrics, the redaction of audit payloads, columns that only record times,
-- latency and amounts in money. Foreign keys: no method that is modelled deletes a row, and each
-- writes a row after the one that it refers to. The HTTP layer, receipts and signatures, network calls and the
-- language model are outside: what they return are arguments. The pricing modes `units` and `tokens`
-- multiply integers by floats and round up: the rounded products, with the rates and weights that
-- they look up, are arguments, and the ceiling on them is modelled. The webhooks of Adapty and CloudPayments, the work
-- of the jobs, the choice of a context and the queries of the domain's HTTP services are not
-- modelled. Of the text module `clean_text` and `has_meaningful_text` are not modelled, and of the
-- citations the titles, the JSON forms and `markers`.
pub mod Prelude
pub mod Database
pub mod Action
pub mod Wallet
pub mod Products
pub mod Payments
pub mod Policy
pub mod StoreKit
pub mod Pricing
pub mod Generation
pub mod Jobs
pub mod Text
pub mod Citations
pub mod Auth
pub mod Examples
