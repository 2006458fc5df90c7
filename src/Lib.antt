-- ===== src/Lib.antt =====
-- Firefox Accounts: the customs server, the store of accounts, and the parts of the auth server that
-- use the two.
--
-- The customs server is the service that the auth server asks, at every request that could be abused,
-- whether to let it through. It remembers what was done of late by each email address, IP address,
-- pair of the two, phone number and signed-in account, in records that it keeps in memcached, and
-- answers with a block and a time to wait.
--
-- A request to fxa-customs-server/lib/server.js fetches the records it touches, lets each of them
-- count the action and say how long to wait, takes the greatest wait, lets the blocklists, the
-- reputation of the address and the user-defined rules add to it, writes the records back, and lets
-- the allow lists overrule the answer. The files of this library, and what they model (paths from
-- fxa-customs-server/lib unless they are given whole):
--
--   Prelude                      names of the libraries, Boolean tests, lemmas on lists
--   Customs/Time                 the tests of the clock and the rounding to seconds of all records
--   Customs/Window               the loop of the trimHits methods (Window/Trim: what it keeps;
--                                Window/Covers: trimming against remembering everything)
--   Customs/Objects              lookups in plain objects, which find inherited names
--   Customs/Actions              actions.js
--   Customs/Limits               settings/limits.js, setAll
--   Customs/EmailRecord          email_record.js (Outcome: the early returns of its update)
--   Customs/IpEmailRecord        ip_email_record.js
--   Customs/SmsRecord            sms_record.js
--   Customs/RuleRecord           record.js, the record of a user-defined rule
--   Customs/Limiter              the specification of the two files before, no code of the program
--   Customs/UidRecord            uid_record.js
--   Customs/IpRecord             ip_record.js (Unique: its _trim and counting loops; Weights: the
--                                weights of bad logins)
--   Customs/Reputation           reputationService.js, block_reasons.js
--   Customs/Allowed              settings/allowed_ips.js, allowed_email_domains.js and
--                                allowed_phone_numbers.js, the isAllowed methods
--   Customs/Blocklist            ip_blocklist.js, ip_blocklist_manager.js
--   Customs/Settings             settings/settings.js, and the allow lists as settings: setAll, validate,
--                                toJSON
--   Customs/Rules                computeUserDefinedRules of server.js
--   Customs/Server               what the handlers of server.js share: fetchRecords, setRecords,
--                                allowWhitelisted, optionallyReportIp
--   Customs/Server/Check         /check
--   Customs/Server/CheckIpOnly   /checkIpOnly
--   Customs/Server/CheckAuthenticated  /checkAuthenticated
--   Customs/Server/Events        /failedLoginAttempt, /passwordReset, /blockEmail, /blockIp, and
--                                bans/handler.js
--   Customs/Tests                runs at concrete inputs
--
-- The store (fxa-auth-db-mysql/lib/db/mem.js, the implementation in memory of the interface of the
-- database) keeps accounts with their devices, sessions and other tokens, addresses, codes, keys,
-- reminders and security events in plain objects. Its methods change several of them at once:
--
--   AuthDb/Table                 the objects as tables (Table/Laws: what they hold after each change)
--   AuthDb/Store                 the data of all tables, the answers and the errors
--   AuthDb/Accounts              accounts: created, read, reset, deleted, verified
--   AuthDb/Tokens                sessions and the tokens of keys and passwords: created, changed,
--                                deleted
--   AuthDb/Devices               devices, and the deletion of sessions, which takes them along
--   AuthDb/Reads                 tokens and addresses: read
--   AuthDb/Verification          tokens: verified (with a method of lib/db/util.js)
--   AuthDb/Emails                addresses and bounces
--   AuthDb/Codes                 unblock, sign-in and recovery codes, one-time passwords, recovery
--                                keys, reminders, security events
--   AuthDb/Steps                 every call that changes the store, as one step
--   AuthDb/Links, AuthDb/OneEach, AuthDb/Valid   the validity of a store and that every call keeps it
--   AuthDb/Deletion, AuthDb/Sessions, AuthDb/Unverified, AuthDb/Primary, AuthDb/OneTime
--                                what the calls on accounts, sessions, addresses and codes come to
--
-- The auth server (fxa-auth-server/lib) reads sessions and bounces from the store, and asks the
-- customs server:
--
--   AuthServer/Bounces           bounces.js (ByType: its loop by each type of bounce; Tallies:
--                                against a description of the rules, and with the bounces of the store)
--   AuthServer/AuthMethods       authMethods.js
--   AuthServer/Tokens            tokens/token.js, session_token.js and password_forgot_token.js
--                                (Lifetimes: when they expire; Assurance: with the sessions of the
--                                store)
--   AuthServer/CustomsClient     customs.js, and what it uses of backendService.js (Blocked: with the
--                                bans of the customs server)
--   AuthServer/Db                db.js, the calls that the routes below make
--   AuthServer/Routes            routes/token-codes.js, signin-codes.js, recovery-codes.js,
--                                recovery-key.js, and a part of unblock-codes.js (Recovery: a sign-in
--                                by a recovery code, from the route to the store)
--   AuthServer/Reset             routes/password.js, POST /password/forgot/verify_code, with the
--                                authentication of server.js (Guesses: how many codes can be tried)
--
-- AuthDb/Tests and AuthServer/Tests hold runs at concrete inputs.
--
-- The other modules hold the proofs and are named for what they prove.
--
-- How the code is read. A method becomes a function that takes the limits and the reading of the clock
-- first and returns the record as it leaves it; a method that both changes its record and answers
-- returns the pair. The clock is read once per request: `now` is a parameter of the source's modules,
-- and a request runs to its end without a wait between the readings of one record. Times are
-- milliseconds, natural numbers; differences, which may be negative, are moved across comparisons.
-- `undefined` is `none`; a missing text parameter is the empty text. Every loop of the source runs
-- over a list whose length bounds it, so the loops are recursions on the list or on an index, without
-- fuel.
--
-- memcached, ip.mask, parseInt, the CSV parser, the reputation client, toLowerCase and the hash of
-- utils.js are parameters: `Env` and `Memcached` of Customs/Server, and the sections of
-- Customs/Blocklist. A read may fail, find nothing or find an object; a failed read counts as no
-- object, since an error has none of the fields. Which writes succeed is any function of the write.
-- The handlers return the response, the writes that were tried and the violations reported. A
-- lifetime is kept in milliseconds. Lookups by `in` and by index in a plain object find the names of
-- Object.prototype (Customs/Objects), but for `timestampsByAction` of uid_record.js, whose keys are
-- the actions of the auth server.
--
-- A call of the store takes the store and returns its answer, `ok` or `err`, with the store as it is
-- then; an object that is changed in place is put back under its key. A method that waits for a
-- promise is one step, so that calls do not interleave. Buffers are their hexadecimal texts, and no
-- key is named like a member of Object.prototype. A row of the source has the fields that some method
-- reads. An access to a field of a missing account is the error `type_error`. Sorting is stable. The
-- hashes, the package ip and the random codes are arguments.
--
-- Not modelled: the validation of the limits and of the request checks (settings/limits.js,
-- settings/requestChecks.js) that a refresh brings, the polling of settings and files, the GET
-- handlers, the configuration, logging, metrics and the subscription to the data flow of the customs
-- server; ping and close of the store, its implementation in MySQL, whose logic is in stored
-- procedures, and the HTTP server before it; of the auth server the other routes, the schemas of
-- payloads, the derivation of keys, the connection pool, push messages, metrics and the text of mails
-- (whether a mail is taken is an argument of a route); and the other services of the repository, which
-- are user interface or wrappers of libraries.
pub mod Prelude
pub mod Customs
pub mod AuthDb
pub mod AuthServer
