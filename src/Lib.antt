-- ===== src/Lib.antt =====
-- keyserver-rust: a server that keeps metadata (public keys and other data) by Bitcoin Cash
-- address, takes a payment for each update, and pulls metadata from the peers that the chain
-- announces.
--
-- The program's parts, and the files that model them (paths from the repository's root):
--
-- - src/bitcoin/mod.rs: Bitcoin/Network (the three networks), Bitcoin/Script
--   (`extract_pubkey_hash`, `extract_op_return`, `generate_outputs`, byte by byte; Script/Shape,
--   Script/RoundTrip and Script/Scenarios), Bitcoin/Wallet
--   (`WalletState`, `check_p2pkh`, `check_outputs`; Wallet/Payments, Wallet/Lifetime, and
--   Wallet/Interleaving for concurrent calls).
-- - src/bitcoin/client.rs: Bitcoin/Client. src/bitcoin/tx_stream.rs: Bitcoin/TxStream.
-- - src/crypto: Crypto (the trait `SigScheme` as a record, secp256k1, `validate`;
--   Crypto/Validation) and Crypto/Token (Token/Scenarios).
-- - src/db.rs: Db (`expired`, `ttl_filter`, `put`, `get`, `check_timestamp`), with Db/Expiry,
--   Db/Contents (the database as a map), Db/Timestamps, Db/Compaction and Db/Scenarios (the test
--   `test_ttl_ok`; Scenarios/Expires).
-- - src/net/mod.rs: Net/Keys (`get_key`, `put_key`), with Keys/Reading, Keys/Writes, Keys/Reads,
--   Keys/ReadBack and Keys/Acceptance; Keys/Scenarios (the tests of the module as runs of the
--   handlers; Scenarios/Generated, Scenarios/Passes), with the client's half of the crates in
--   Crates/Client. src/net/errors.rs and src/crypto/errors.rs: Errors and Errors/Statuses.
-- - src/net/payments.rs: Net/Payments (`payment_handler`; Payments/Handled), Net/CheckPayment (the
--   middleware; CheckPayment/Tokens, CheckPayment/Invoices, CheckPayment/Service,
--   CheckPayment/Totality, and CheckPayment/Scenarios for the test `test_put_no_token`;
--   Scenarios/NoToken) and Net/PaymentFlow (both together).
-- - src/net/peer.rs: Net/Peer and Peer/Polls.
-- - src/settings.rs: Settings, Settings/Load (`Settings::new`) and Settings/Precedence, with the
--   crates that they call in Crates/Environment.
-- - Server/Integrity: the handlers, the polling and compaction as steps on one database;
--   Server/Polling: a stream of announcements to its end; Server/Register: the abstract register
--   that the database implements (Register/Refinement, Register/Order).
-- - src/main.rs: Server/Routes (the resource of keys, with the middleware around its two routes)
--   and Server/App (the application: keys, payments and static files on one wallet and one
--   database), with App/Totality, App/Steps (runs of the application) and App/Tally; Server/Chain
--   (the background task) and Chain/Announced. Server/Start is `main` (Start/Started), with what it
--   calls in Crates/System; Start/Workers has a request cut into its critical sections and calls of
--   the database (Start/Alone: one that is not disturbed), Start/Pulls a poll, and Start/Life and Start/Calm the server
--   that `main` has started, with its requests and polls in any order. Server/Concurrent has
--   the handlers of keys on several workers, with Concurrent/Alone (one that is not disturbed),
--   Concurrent/Safe, Concurrent/Integrity, Concurrent/Bounded and Concurrent/Fairness (every
--   interleaving), and Concurrent/Answers, Concurrent/Overwritten and Concurrent/Dropped (two
--   handlers of one key).
-- - Prelude: the shared types, tests, lists, integers, bytes, UTF-8 and assertions; Tests: runs and
--   instances at concrete inputs, with a stand-in for the crates.
--
-- How state is modelled. A handler is a function from the state that it changes to its outcome and
-- the new state (`Exec`): the database for Db, Net/Keys and Net/Peer, the wallet for Net/Payments
-- and Net/CheckPayment, both for Server/App. An outcome is a value, an error or a panic, so that
-- `unwrap` and slices that can panic are seen. `?` with a conversion is `try`, `map_err` or `ok_or`
-- with the conversion. One handler runs at a time, but in Wallet/Interleaving, where a call of
-- `check_p2pkh` is two critical sections, and in Server/Concurrent, where a handler of keys is a
-- sequence of calls of the database, and in Server/Start/Workers, where a whole request is both;
-- there a schedule says which of them goes on. The functions of
-- the source are cut where a proof wants a name for a part; the parts are composed as the source
-- composes them.
--
-- The source's own tests. The modules called Scenarios have the tests of src/bitcoin/mod.rs,
-- src/db.rs, src/crypto/token.rs, src/net/mod.rs and src/net/payments.rs as runs of the functions
-- that they call; Server/Scenarios is the test `test_put_payment` (Scenarios/Paying,
-- Scenarios/Requests, Scenarios/Purchase), with the calls to the wallet of the node in Crates/Payer
-- and the equality of messages in Models/Equal. A failed assertion and an `unwrap` of an error are
-- panics; the drawn secret key, the database, the settings and each reading of the clock are
-- arguments, so that a theorem says for which of them a test passes. The framework answers an error
-- of a handler by `error_response`.
--
-- What is a parameter. The crates and the generated encoders stand in Crates as records of
-- operations, and what the program relies on of them in Crates/Laws as records of laws. The
-- messages (Models) have the fields that the source builds and reads. RocksDB is a state with calls
-- that may fail; its laws speak of the contents as a map. Each reading of the clock is an argument,
-- in whole seconds from the epoch, and a clock before the epoch is not modelled. What the node, a
-- peer or the network answers is an argument of the call. A byte string is a list of numbers; the
-- range of a byte is a hypothesis nowhere, since no result needs it.
--
-- Numbers. `i64` sums wrap, as in the release build that the README describes; a debug build panics
-- there. The length byte of an announcement is computed modulo 256. Every loop is over a list, but
-- for the digits of a number (Prelude/Decimal), whose fuel is more than the number: they are read
-- back.
--
-- What is not modelled: logging, the waiting period before a poll, the closing of the database, and
-- how requests are spread over workers. src/build.rs and the example client are outside the
-- development.
pub mod Prelude
pub mod Models
pub mod Crates
pub mod Settings
pub mod Http
pub mod Errors
pub mod Bitcoin
pub mod Crypto
pub mod Db
pub mod Net
pub mod Server
pub mod Tests
