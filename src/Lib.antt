-- ===== src/Lib.antt =====
-- The backend of a mobile bank: the parts that move money, let customers in, open accounts, hold video
-- calls, read QR codes and keep service tickets, modelled and verified.
--
-- Parts and files.
--
-- * `Transfer` is the transfer of money. A request passes the service, `Transfer/Service`
--   (internal/domain/transaction/service_execute.go), which claims the idempotency key
--   (internal/pkg/idempotency/idempotency.go), consumes the verification token and the inquiry from the cache
--   (internal/repository/redis/transaction_cache.go), checks them, and calls the executor,
--   `Transfer/Executor` (internal/repository/postgres/transfer_executor.go), which runs one SERIALIZABLE
--   transaction and retries it. `Service.Flow.execute` is ExecuteTransfer of the service,
--   `Executor.execute_transfer` ExecuteTransfer of the executor and `try_execute` its tryExecute, cut
--   into the steps of its comments: `Resolve` (the accounts of the transfer), `Lock` (the order of the
--   row locks and the balances read under them), `Post` (the checks and the new balances), `Record`
--   (the transaction row, the mutation rows, the daily usage). `Data` has the records and `Db` the
--   tables with the SQL statements as functions of them. `Ledger` has what is proved of the executor:
--   `Rows`, `Snapshot`, `Writes`, `Balances` and `Mutations` follow the tables through the writes,
--   `Legs` and `Apart` the accounts, `Posting`, `Committed` and `Outcome` the attempts, and the rest
--   draws the conclusions.
--   `Service/Inquire` is CreateInquiry, CreateVerificationToken and ConsumeVerificationToken of
--   internal/domain/transaction/service.go, which fill the caches that a transfer consumes from, and
--   `Service/Offers` and `Service/Tokens` what is proved of them.
-- * `Access` is who gets in. `RateLimit` is the sliding window of internal/repository/redis/ratelimit.go
--   with the limits of auth_ratelimit.go; `Score`, `History`, `Window` and `Admission` are its proofs. `Store` and `Sessions`
--   are internal/domain/auth/session_service.go over the table of sessions and their markers in Redis
--   (session_repo.go, session_cache.go, token_revocation.go): `refresh_token`, `logout`, `logout_all` and
--   `is_session_active` are the methods of these names; `Revocation`, `Rotation` and `Once` the proofs.
--   `Step`, `Lockout` and `Login` are LoginByPIN and VerifyPIN of internal/domain/auth/service.go with the
--   locks and nonces of internal/repository/redis/lockout.go and nonce.go; a login goes through
--   `RateLimit` and leaves a session in `Store`. `Guess`, `Verify`, `Replay` and `Locked` are the proofs.
-- * `Qris` is internal/domain/qris/decoder.go: `Tlv` parseTLV, `Payload` ParseEMVCo, `Grammar` the
--   payloads that the parser is measured by.
-- * `Ticket` is internal/domain/ticket with internal/repository/postgres/ticket_repo.go: `Data` the
--   entities, `Store` the tables, `Service` the operations (create, find, get, update, add_note, list
--   are the methods of these names), `Stamps`, `Laws` and `Paging` the proofs.
-- * `Onboarding` is internal/domain/onboarding/entity.go and session_service.go with the session's table
--   (internal/repository/postgres/onboarding_repo.go) and cache
--   (internal/repository/redis/onboarding_cache.go): `Steps` the order of the steps, `Session` the
--   lookup, transition and cancellation, `Create` the creation, `Order`, `Progress` and `Cancel` the
--   proofs. `Liveness` is pickActions of liveness_challenge_service.go, with `Shuffle` and `Challenge` its
--   proofs.
-- * `VideoCall` is internal/domain/onboarding/video_call_service.go: `Calls` the table and the queue,
--   `Service` JoinQueue, AgentSignalingURL, SubmitResult and CancelForSession (`join_queue`,
--   `agent_signaling_url`, `submit_result`, `cancel_for_session`), `Listing` ListQueued (`list_queued`). An approval goes through `advance` of
--   `Onboarding`. `Moves`, `Life` and `Run` follow the calls through any operations, `Decision` is about
--   agents, `Progress` about the session.
-- * `Common` has the Boolean tests, lists, errors (internal/pkg/apperr/apperr.go) and integers that the
--   parts share, and `State`, the functions that change a state and may fail after they changed it.
--
-- State and errors. A function that the code lets fail gives a `Result`; where it changes a store, it
-- gives the store after it, or a pair of result and store where a failure changes the store too. An
-- error that the code wraps keeps its prefix and its cause; ids inside its text are left out.
--
-- Numbers. A UUID is a number: canonical texts have one width, so that their order is that of the
-- numbers. A `decimal.Decimal` is an integer number of hundredths, as the DECIMAL(18,2) columns keep it;
-- `decimal.NewFromInt n` is 100 * n. A time is a number of seconds, in `Access` of
-- nanoseconds, and a WIB date a number of days. A score of the limiter is a float64, which is modelled for
-- the times of the years 2006 to 2043; the seconds that Redis reports of a lock are rounded as it does.
--
-- Outside the code, and so parameters: what the database refuses and with which SQLSTATE, its sequences,
-- `hashtext`, the text functions of Go, hashing, random ids, clocks, and cache failures. The driver's
-- value of a NULL id is a parameter too; theorems that need it assume that no account has that id. A
-- commit either happens or not: a lost answer to a commit is not modelled.
--
-- Bounds and fuel. The retry loop of the executor runs on `max_serialization_retries`, the constant of
-- the code, so that no fuel is invented. The loop of the QRIS parser
-- runs on fuel for the length of the text, and each round takes four bytes at least. All other loops are
-- structural.
--
-- Not modelled: HTTP handlers and routing, configuration and start-up, metrics, push and text messages,
-- PDF receipts, cryptography and signaling tokens, the contact centre's search and dashboards, cards,
-- e-wallets and QRIS payments, biometric login and the change of a PIN, histories, the schedules of
-- video calls, the other parts of onboarding; audit rows, notifications, favourites, display
-- caches and cache invalidation, which the code treats as best effort.
pub mod Access
pub mod Common
pub mod Onboarding
pub mod Qris
pub mod Ticket
pub mod Transfer
pub mod VideoCall
