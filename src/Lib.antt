-- ===== src/Lib.antt =====
-- Models and proofs for lodestar-server, the server of a member and learning platform (TypeScript,
-- NestJS, PostgreSQL, Redis). The larger part of what is modelled decides who gets in: signing in with its
-- limits, the devices of a member, the codes that are mailed to bind a device, the tokens of reset mails,
-- the guards of the endpoints, and the trust in an origin. Around it stand the app's information with its
-- copy in Redis, the import of members and coins, the progress of programs and packages, the
-- statements and deliveries of events, the invoices of payments, and the runners of background jobs with
-- their lock.
--
-- How the parts interact. A request passes the same-site guard (Cors.Guard), which trusts an origin under
-- the rules of credentialed CORS (Cors.Origin). A sign-in counts its attempt, finds the member, compares
-- the password and signs a payload (Auth.Login, Auth.Payload); then the device is checked against the
-- limits of the app (Auth.Device.Service). At the limit of bound devices the member gets a challenge in
-- Redis (Auth.Limits) and a code by mail (MailCode.Service); the code is verified against the challenge,
-- and the oldest device is removed. At the limit of sign-ins a challenge lets the same browser sign older
-- devices out. Refreshing a token looks at the device again (Auth.Refresh). Every counter, cooldown and
-- challenge is a key of one Redis server (Auth.Keys, Redis.Model). The hosts and the settings that these
-- parts ask for come from the app service, which keeps them in the same Redis server (Apps.Hosts,
-- Apps.Info). A spreadsheet is imported row by row, each in a transaction of its own (Import.Settle), and
-- both imports count their rows in the same way (Import.Tally). Events are inserted by statements that are
-- put together from the objects of a request (Events.Batch). A runner takes the distributed lock for the
-- time of a run (Jobs.Lock, Jobs.Runner); the one for invoices selects the payments that are due, issues
-- each (Invoices.Issue) and counts the attempts in the payment's own columns (Invoices.Payments).
--
-- Which file models which code. The functions keep their names in snake_case.
--   Redis/Model          the interface of the server: GET, SET with EX and NX, DEL, INCR, DECR, EXPIRE,
--                        SADD, HSET and the passing of seconds, with the laws that Redis documents
--   Auth/Keys            src/auth/auth-limits.ts: LIMITS, authKeys, safeEqual, normalizeIdentifier
--   Auth/Limits          src/auth/auth-limits.ts: the Lua scripts and the helpers over Redis
--   Auth/Device          src/auth/device/device.infra.ts and the device queries of member.infra.ts
--   Auth/Device/Service  src/auth/device/device.service.ts
--   Auth/Directory       the tables that sign-in reads, with the queries of src/member/member.infra.ts
--   Auth/Payload         src/auth/auth.service.ts: buildJwtPayload, checkUndoneSignUpProperty, signJWT
--   Auth/Token           src/auth/auth-token.ts
--   Auth/Login           src/auth/auth.service.ts: generalLogin, sendResetPasswordEmail, resolveAppLinkHost
--   Auth/Refresh         src/auth/auth.service.ts: refreshToken
--   Auth/TmpPassword     src/auth/auth.service.ts: generateTmpPassword; src/auth/auth.infra.ts
--   Auth/Session         src/session.ts: rotateSessionIdentity
--   Auth/Endpoint        src/auth/auth.controller.ts: generalLogin;
--                        src/auth/device/device.controller.ts
--   Auth/TmpEndpoint     src/auth/auth.controller.ts: generateTmpPassword
--   Auth/RefreshEndpoint src/auth/auth.controller.ts: refreshToken
--   Auth/Legacy          src/auth/legacy-token-endpoint.middleware.ts
--   MailCode             src/mailVerificationCode/mailVerificationCode.infra.ts
--   MailCode/Service     src/mailVerificationCode/mailVerificationCode.service.ts
--   MailCode/Controller  src/mailVerificationCode/mailVerificationCode.controller.ts
--   MailCode/Attempts    verifyDeviceBindCode under concurrency, as a step function on the requests under way
--   Cors/Hostname        src/cors.ts: the host names of the request and of the origin
--   Cors/Origin          src/cors.ts: evaluateOrigin and evaluateCors
--   Cors/Guard           src/auth/same-site.guard.ts
--   Apps                 src/app/app.infra.ts: the tables of apps and their queries
--   Apps/Hosts           src/app/app.service.ts: getAppHostNames
--   Apps/Info            src/app/app.service.ts: getAppInfoByHost, getAppInfo, getAppCache, setAppCache
--   Import/Cells         src/utils.ts: the parsers of cells
--   Import/Settle        the settled transactions of both imports
--   Import/Tally         the counts of both imports
--   Import/CoinHeader    src/coin/class
--   Import/Coins         src/coin/coin.service.ts
--   Import/MemberHeader  src/member/class
--   Import/Members       src/member/member.service.ts: rawCsvToMember, with Import/Members/Rows
--   Import/Members/Save  src/member/member.service.ts: processImportFromFile
--   Programs/Progress    src/program/program.service.ts: trackProgramContentProgress
--   Programs/Plans       src/program/program.service.ts: getProgramsByMemberId
--   Programs/Package     src/program-package/program-package.service.ts: getEnrolledProgramPackageById
--   Events/Batch         src/event/batchHelpers.ts
--   Events/Invitations   src/event/event.service.ts
--   Invoices/Rounding    src/utils.ts: getRoundedListWithCompensation; src/invoice/invoice.service.ts:
--                        roundProductList
--   Invoices/Request     src/invoice/invoice.service.ts: issueInvoice
--   Invoices/Payments    src/payment/payment.infra.ts: getShouldIssueInvoicePaymentLogs; the updates and the
--                        checks of src/invoice/invoice.service.ts
--   Invoices/Issue       src/invoice/invoice.service.ts: issueInvoiceByPayment, issueInvoiceDirectly,
--                        insertInvoice;
--                        src/runner/invoice.runner.ts: execute
--   Jobs/Lock            src/utility/lock/distributed_lock.service.ts
--   Jobs/Runner          src/runner/runner.ts
--   Access               src/auth/auth.guard.ts, permission.guard.ts and access-control.service.ts
-- The other files under these hold proofs about them; Tests holds concrete data, runs and instances.
--
-- How state is modelled. A table is the list of its rows, and a query is the function on rows that its
-- condition says. The Redis store is a parameter with an interface; a helper that awaits Redis takes the
-- store and returns its result with the store that it leaves, so a sequence of calls is explicit passing
-- of the store. Each command is one step, and so is each Lua script, as Redis runs them; JSON values are
-- kept as objects, and the time to live in seconds. What an asynchronous handler does between two
-- commands can interleave with other requests; Auth.Limits.Window and MailCode.Attempts say so by
-- sequences of events, as Apps.Recent and Jobs.Runner do for the passing of time. An exception is a value
-- of the result type. The run of the invoice runner is one transaction, which a statement that fails in the
-- database aborts and its commit then rolls back, while the requests of a payment's own are issued in
-- transactions of their own (Invoices.Issue). A run of a runner reads its interval twice, for the lock and
-- for the timer, and a process that is stopping releases its lock before it is gone (Jobs.Runner). Amounts of invoices are exact and not negative, where the code has floating point;
-- a progress is an exact number of the smallest steps of its column; the lock's time is in milliseconds.
--
-- Parameters. SHA-256, bcrypt, the signature and the verification of a token, the URL parser, the public
-- suffix list, JSON.parse in src/cors.ts and in the app service, the user agent parser, random texts, new
-- ids and the clock; for the imports, class-validator, dayjs, the number and date parsers, what TypeORM's
-- save makes of a row, and what the database objects to; for the invoices, what the invoice service answers.
-- Where a theorem needs it, the hash is assumed free of collisions or of colons, as a named hypothesis.
-- trim and toLowerCase are modelled on ASCII texts; the length of a text counts its characters.
--
-- Fuel. The one loop without a bound of its own, the drawing of a code that is not taken, runs on the list
-- of the codes drawn: as many as the generator gives. Everything else recurs on its list, text or number.
--
-- Not modelled. Logs, audit rows of devices and cookies; failures of the database, but for the transactions
-- of the imports and the uniqueness of an order's invoice, and of Redis, but for the caches of the app
-- service and the lock. The constraints of the tables beside those, such as the foreign keys of a progress,
-- whose insertion throws for a content that does not exist; the waiting of one transaction for the locks of
-- another. The queries that are
-- long SQL statements, whose rows are arguments. The names and units of the items of an invoice, and the
-- client of the invoice service. The export of members, the categories of a package, orders, payments beside
-- their invoices, triggers, media, reports and the taskers are not covered.
pub mod Prelude
pub mod Redis
pub mod Auth
pub mod MailCode
pub mod Cors
pub mod Access
pub mod Import
pub mod Apps
pub mod Invoices
pub mod Jobs
pub mod Programs
pub mod Events
mod Tests
