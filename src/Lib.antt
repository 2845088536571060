-- ===== src/Lib.antt =====
-- DukanPro is a shop's point of sale: tills that work offline, and a server that they push their
-- operations to and pull changes from. This library models the rules of the server and the gate
-- that every pushed operation passes.
--
-- The parts, with the files that model them; paths on the right are from the repository's root:
--   Domain/Sales         server/dukan/domain/sales.py: line totals, totals, settlement, returns
--   Domain/Numbers       server/dukan/domain/numbers.py, and format_quantity of catalog.py
--   Domain/Catalog, Inventory, Customers, Purchasing, Identity, Branches, Insights
--                        the files of server/dukan/domain with these names
--   Domain/Money, Limits, Errors
--                        server/dukan/shared/money.py, limits.py, errors.py
--   Access               server/dukan/application/access.py
--   Sync                 server/dukan/application/sync_policy.py and sync.py
--     Types, Values      the records, the SyncReader port, and the values of a payload
--     Fields             clean_fields and _check; Fields/Specs the tables _INSERT and _UPDATE
--     EventTime          event_time and parse_recorded_at
--     Guards, Changes    _need to _violates and _own_shift; what an update changes
--     Handlers           the 17 handlers: Catalog (products, barcodes, units), Parties (customers,
--                        suppliers), Stock, Sales (sales, returns, voids), Lines, Payments, Debts
--                        (charges, payments, write-offs, reversals), Suppliers, Shifts
--     Dispatch           _HANDLERS, check_envelope and plan_op
--     Pull               is_cacheable, clamp_pull_limit and PullScope
--     Plans, Accepted    what every accepted plan holds, handler by handler
--   Push                 _transactions of server/dukan/infrastructure/sync_service.py
--   SyncService          push of the same file: Applying (_apply), Settling (_settle, _replay,
--                        _current), Deciding (_push_one, _push_single), Transacting (_push_together),
--                        Codes the texts of the codes; Once, Kept and Groups what stays recorded,
--                        Replays an operation sent again, Refusing and AllOrNone transactions, Named,
--                        Results and Answers the answers of a push
--   Feed                 pull of the same file, over the rows of change_log
--   Store                the tables of server/dukan/infrastructure/db/models.py that the services
--                        use; Store/Queries the queries, with scope.py and shift_cash.py
--   SalesService         server/dukan/infrastructure/sales_service.py: Settle, Voids, Refunds, Shifts,
--                        Views (get_sale)
--   Accounts             the tables of models.py of users, branches, assignments, sessions and the audit
--                        trail; Accounts/Queries what iam_service.py reads of them, Owners who owns
--                        every branch
--   IamService           server/dukan/infrastructure/iam_service.py: Employees, Roles, Branches;
--                        IamService/Owners what each call leaves, IamService/Calls
--                        the calls in any order
--   AuthService          server/dukan/infrastructure/auth_service.py: sign-in, refresh, sign-out and the
--                        user of a request; Lock and Out what they promise,
--                        Sessions and Later through any calls of both services
--   Prelude              names passed on, integers, texts and dictionaries
--   Tests                a small shop and runs of the code on it
--
-- A pushed operation goes through check_envelope, then plan_op: its payload is cleaned against
-- the table's allow-list, the handler of its table and operation authorises the actor and checks
-- the payload against the database, which it reads through SyncReader, and the branch must be
-- active. The handlers use the rules of Domain. A function of the source that raises is a
-- function to Result, whose errors are the class and code of the source's; a helper for one branch
-- of a long handler is named beside it.
--
-- Python's integers are unbounded, and so are the ones here; the bounds of the database's
-- columns are tests in the code (MONEY_MAX, INT32_MAX) and written out. An instant is a number
-- of microseconds of UTC, without the bounds of datetime. A set of permissions is its
-- characteristic function, and any other set is a list. A dictionary is a list of pairs in
-- insertion order. Texts are native strings, in the parsers lists of code points. All loops are
-- structural recursion. The reading of a number has no limit of digits, where int() has one of
-- 4300; the printing runs on as much fuel as the number, which has fewer digits than that.
--
-- datetime.fromisoformat is a parameter (Clock): it reads a text as an instant, with whether the
-- text names a time zone. change_token and scope_fingerprint, SHA-256 sums, are parameters of
-- Feed, whose theorem holds for any; Feed's pulls is a device that pulls n times in a row. The
-- database is the record SyncReader, a function for each lookup.
--
-- A call of SalesService reads the tables of Store and gives back the tables after its commit, or the
-- error that rolls it back. new_id is the ids that the server draws, in order, and number prints
-- the invoice number of a count of sales: both are parameters. A sum or search in SQL is a
-- function over the list of rows, `with_for_update` locks are left out, and so are times, authors
-- and the JSON of the audit.
--
-- SyncService's push runs alone: no other request commits between its steps, so an
-- IntegrityError comes of the request's own rows, and it ends as ROW_INVALID. The tables are one
-- list of rows with the name of their table; what _SqlSyncReader reads of them is a parameter,
-- as are the unique indexes and the sequence of change_log, whose rows are kept without their
-- post-image. An OperationalError, which ends the request, and the log are left out.
--
-- IamService and AuthService share the tables of Accounts, so that a disabled user's tokens can be
-- followed from the one to the other. A call of AuthService gives back its tables with its answer,
-- since a refused sign-in commits an entry of the audit trail. The libraries behind
-- server/dukan/infrastructure/security (jwt, argon2, SHA-256, secrets) and the ids are the record
-- Server of functions.
--
-- The models leave out the context of errors, the texts under the two sums, role_label, and everything
-- behind the port: the rest of the services in server/dukan/infrastructure, the routers, and
-- the client in Dart. A payload's null where the allow-list admits none is a crash in the handlers
-- here, as is a missing key.
pub mod Prelude
pub mod Errors
pub mod Domain
pub mod Access
pub mod Sync
pub mod Push
pub mod Feed
pub mod Store
pub mod SalesService
pub mod Accounts
pub mod IamService
pub mod AuthService
pub mod SyncService
pub mod Tests
