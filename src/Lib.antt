-- ===== src/Lib.antt =====
-- Verification library of the Rust backend (backend-rs/crates).
--
-- The backend holds users' crypto and naira in a double-entry ledger (crates/ledger), watches the
-- chains for deposits (crates/watcher), signs users in (crates/auth) and serves them over HTTP
-- (crates/api); crates/core names the assets and the chains. The library models these parts as
-- functions on records of the database's tables.
--
-- Core (Core/) is crates/core: Core/Asset.antt is asset.rs and Core/Chain.antt is chain.rs.
--
-- Ledger (Ledger/) is crates/ledger. Ledger/Account.antt is account.rs. Ledger/Journal.antt is the
-- builder of journal.rs: `build` is `JournalBuilder::build`, its two loops are `sum_entries` and
-- `check_sums`, and the HashMap of sums is a list in the order of the first insertions, in which
-- the refusal for imbalance may name another asset than a run with its random order. Ledger/Post.antt
-- is `Journal::post` on the tables `ledger_journals` and `ledger_entries`.
--
-- Watcher (Watcher/) is crates/watcher. Watcher/Network.antt is network.rs, Watcher/Deposit.antt is
-- deposit.rs, and Watcher/Store.antt is store.rs, with its tables as the record `StoreDb` (rows and
-- queries in Watcher/Store/Rows.antt, ledger accounts in Watcher/Store/Accounts.antt).
-- Watcher/Scan.antt has the three passes of main.rs: `handle_transfer`, `advance_pending` and
-- `check_reorgs`. Watcher/Topics.antt is the topics of addresses in evm.rs, Watcher/LogWindow.antt its
-- `LogWindow`, and Watcher/Watch.antt is the loop `watch_evm` of main.rs, one round at a time. The passes call the store, the store builds journals
-- with Watcher/Deposit.antt and posts them with Ledger/Post.antt.
--
-- Auth (Auth/) is crates/auth: Auth/Tier.antt, Auth/Identifier.antt, Auth/Otp.antt,
-- Auth/Pin.antt, Auth/Session.antt and Auth/Identity.antt are the files of those names, the last with
-- `claims_to_identity` of oidc.rs.
--
-- Api (Api/) is crates/api. Api/Error.antt is error.rs. Api/Sessions.antt has `start_session`,
-- `refresh` and `logout` of auth_routes.rs on the table `sessions`, and Api/SignIn.antt the part that
-- `verify_otp` and `google_sign_in` of the same file share: which user a proven identity signs in, on
-- the tables `identities`, `users` and `wallets`, with the addresses of a new user as a parameter.
-- Api/Otp.antt is `request_otp` and `verify_otp`, Api/Unlock.antt is `unlock`. Api/Naira.antt has the
-- accounts in naira that the handlers find or open, and below it is what they share: what an account
-- holds (Held), a journal that moves an amount (Transfer), a debit (Debit), and that no user is owed
-- less than nothing (Solvent).
--
-- Api/Funding.antt is funding_routes.rs: how top-ups are opened and settled, with the answers of Paystack
-- in Api/Funding/Provider.antt (funding_provider.rs) and the sweep of funding_reconciler.rs in
-- Api/Funding/Sweep.antt. Api/Payouts.antt is `create_payout` of payout_routes.rs, on the tables of
-- Api/Payouts/Rows.antt.
--
-- Api/Purchase.antt is `create_order` of number_routes.rs, which sells a phone number: Request has its
-- checks and the order that a key repeats, Quotes the price, Shop the tables of the catalogue,
-- number_sell.rs and the ranking of number_aggregator.rs, Hold the order and its journal, Supply the
-- loop over the suppliers. What other transactions do while the suppliers are asked is an argument of
-- `create_order` (`Others`). Api/Cancel.antt is `cancel_order` of the same file, and Api/Reconcile.antt the
-- sweep of number_reconciler.rs over open orders. Api/Orders.antt has `apply_inner` of number_order_transitions.rs, which
-- settles or refunds an order through the ledger and which these three call, Api/Orders/Checks.antt
-- its `apply_check`, Api/Orders/Messages.antt the messages that `apply_check` keeps, and
-- Api/Orders/Rows.antt their tables.
--
-- Conventions. Decimals are exact integers in units of 10^-18, the scale of the database's columns;
-- the overflow of a Decimal is not modelled. A uuid is a number drawn from a counter in the tables,
-- so that new ones never repeat. Text is the list of its bytes, ASCII where it is read. Block
-- numbers are natural numbers: a head below the re-scan depth starts the watcher at block 0. Instants
-- are numbers of milliseconds. An asset is stored as its value, so that reading it back from its
-- column cannot fail.
--
-- No function is on fuel: every loop of the modelled code that ends is structural recursion on a
-- list, and the endless loop of `watch_evm` is the relation `Run` of its rounds.
--
-- Parameters: the answers of a node (`Node`, `Endpoint`), which may differ from one question to the
-- next; Argon2 (a record of its two functions); the delivery of a code; the hash and the random secret
-- of a refresh token; the digest that names a message of a supplier; the HTTP answers of Paystack and
-- of the suppliers of numbers (`Suppliers`); the parsers of decimals and of uuids; the check of a PIN
-- against its hash in a payout, and the kept hash in `unlock`; the bank's name of an account.
--
-- Not modelled: failures of the database and of the network inside a transaction, though the rollback
-- of a transaction on an error of the code is; two transactions at once; the sleeps and the restart of
-- a watcher; the TRON loop, the amounts of logs and the RPC client; the signing of access tokens, and
-- the Google tokens behind a claim; the list of early addresses of `google_sign_in`; cookies but for a
-- given token; wallets and their keys; the rest of crates/api, among it the synchronisation of the
-- catalogue, the alerts of operators and the administration. The tasks of a sweep of the reconciler
-- run one after the other. Of an order
-- the columns that only count or time the reconciler's looks are left out (the number of failed looks
-- is an argument), and what the supplier charged.
pub mod Base
pub mod Core
pub mod Ledger
pub mod Watcher
pub mod Auth
pub mod Api
