-- ===== src/Lib.antt =====
-- Neo-Bank: its ledger, the transfers, deposits and withdrawals that post to it, the accounts, and
-- the packages that the services share.
--
-- The program is a set of Go services around Postgres. ledger-svc keeps an append-only log of
-- double entries, with a cached balance for each account. transfers-svc keeps the transfers,
-- deposits and withdrawals and calls ledger-svc over gRPC; what ends a transfer or credits a deposit
-- also queues an event in an outbox table, from which a relay publishes it to Kafka. fraud-svc scores
-- a transfer before it settles. A worker in transfers-svc settles what was left open, from what the
-- ledger and Stripe say. accounts-svc opens an account, and its ledger account, for each user that
-- is activated. notifications-svc mails the customers about their transfers.
--
-- Files and what they model:
--   Prelude          shared names; Int (BIGINT amounts), Lists (tables as lists of rows), Sorting
--                    (ORDER BY), Members and Top (lemmas on tables and on their first rows), Db
--                    (transactions that may fail at each statement and at the commit), Rpc (calls
--                    whose request or reply may be lost)
--   Ledger           services/ledger-svc/ledger.go and grpc_server.go. State: the tables; Post:
--                    executeTransfer, postUncheckedTransfer, deposit, reverseDeposit; Reads:
--                    getBalance, getHistory, getTransactionByReference, rebuildBalance,
--                    createLedgerAccount; Server: the gRPC handlers. Execute and Unchecked classify
--                    the outcomes; Invariant, Effects, Replay and Rebuild hold the results
--   Outbox           pkg/outbox/outbox.go, relay.go and cleanup.go. State: the table and InsertEvent;
--                    Relay: RelayBatch, RunRelay's passes and CleanupPublished. Sent, Ordered,
--                    Delivered, Drained and Cleaned hold the results
--   Transfers        services/transfers-svc/transfer.go, reconcile.go and http.go. State: the rows;
--                    Mark: markTransferCompleted and its kin; Create: createTransfer; Settle:
--                    settleTransfer, checkTransferFraud; Reconcile: reconcileOnce; Handler:
--                    createTransferHandler. Admits, Served, Requests, Returned, Settled, Resolved,
--                    Advances, Announced and FailClosed hold the results
--   Deposits         services/transfers-svc/deposit.go, deposit_reconcile.go, webhook.go and
--                    withdrawal.go. Rows, Create, Credit, Webhook and Withdraw model them; Backed,
--                    Kept, Delivered, Once and Payouts hold the results
--   History          services/transfers-svc/history.go, cursor.go, the history query of transfer.go and
--                    listTransfersHandler of http.go. Rows: cursors and the three page queries;
--                    Pages: getOperationHistoryPage; Serve: the handler. Complete, Operations, Follow,
--                    Continued, Sequel and Cursors hold the results
--   Accounts         services/accounts-svc/accounts.go, kafka.go, grpc_server.go and rate_limit.go. State:
--                    the tables and reads; Create: createAccountForUser; Status: updateAccountStatus;
--                    Resolve: the gRPC server; Activate: handleUserActivated. Opened, Provisioned,
--                    Sound and Closed hold the results
--   Iban             pkg/iban/iban.go. Text: characters and mod97Remainder; Code: Generate, Validate and
--                    Format. Digits, Generated, Round, Detects and Formatted hold the results
--   Pgha             pkg/pgha/errors.go and retry.go. Errors: IsUnavailable; Retry: Retry; Ends holds
--                    the results
--   Notifications    services/notifications-svc/kafka.go, contacts.go and email.go. State: contacts and
--                    barrier rows; Send: the handlers of transfer events and their mails; Consume:
--                    handleTransferMessageWithRetry. Once and Ends hold the results
--   Fraud            services/fraud-svc/fraud.go. Check: checkTransfer; Limits holds the results
--
-- A Go function f that takes a pool becomes a function of the tables, in snake case, that returns
-- its result and the tables afterwards. What it meets outside the repository is an argument: a Conn
-- says which statements of a transaction fail and whether the COMMIT takes effect, fails, or takes
-- effect with its acknowledgement lost; a Network says whether a call's request and reply arrive and, if
-- not, which of the codes that gRPC itself makes the caller sees;
-- the replies of accounts-svc, fraud-svc and Stripe are values; what Kafka does with a message,
-- encoding/base64 and encoding/json, and what an error says of itself are values too, as are drawn
-- ids and times. Row locks and unique constraints make the transactions on one row, reference or key
-- follow one another; interleavings are sequences of whole transactions. createTransfer takes what
-- others write between its SELECT and its INSERT as a function of the tables, and reconcileOnce what
-- they write before each resolution. checkTransfer takes no lock; it is modelled over the log that
-- it reads.
--
-- Amounts are integers checked against the range of a BIGINT where the code casts or stores a sum;
-- UUIDs, keys and Stripe's ids are numbers, a UUID the same one however it is spelled. IBANs are lists of ASCII codes. The loops run over lists,
-- but for four: Retry has fuel for 29 attempts, which its delays and its budget of two minutes
-- never exceed; handleTransferMessageWithRetry has fuel for 155, its five attempts and one for each
-- two seconds of its budget; Format's fuel is the length of its text; createAccountForUser makes the
-- code's 10 attempts.
--
-- Not modelled: auth-svc, the gateway, the projections and the texts of the mails in
-- notifications-svc, the HTTP handlers of accounts-svc, the consumer loops, balance history, tracing,
-- and the wiring of the processes.
pub mod Prelude
pub mod Ledger
pub mod Outbox
pub mod Transfers
pub mod Deposits
pub mod Accounts
pub mod Pgha
pub mod Notifications
pub mod Fraud
pub mod Iban
pub mod History
