-- ===== src/Lib.antt =====
-- A model of didstorage, the platform that rents phone numbers (DIDs), authorises and charges the
-- calls to them, and bills the rentals.
--
-- Asterisk asks the platform about every call: internal/sipctl decides from the tables of numbers,
-- orders, users and rate cards, reserves a channel in Redis, picks a clip of an audio group
-- (internal/audiogroup) and enters the call into the index of live calls (internal/livecalls), from
-- which a reconciler sweeps calls that are gone. internal/domain holds the arithmetic of charges, of
-- dates and of addresses that all parts share; internal/billing charges the monthly fees;
-- internal/didsimport fills the table of numbers. The web interface and the reseller API place, move,
-- block and end the orders that the decisions and the bills read.
--
-- Which file models what:
--   Prelude      numbers, lists, bytes and integers; no part of the program
--   Domain       internal/domain/domain.go: Time (NextAnniversary), Charge (ChargeForCall,
--                SupplierChargeForCall, MaxSecondsForBalance), CallState, Uri (NormalizeRouteTarget,
--                CleanCallerURI, SanitizeCallID)
--   Billing      internal/billing/billing.go: Run and processOne over the tables that they touch
--   Sipctl       internal/sipctl/sipctl.go: Number (parseE164), Channels (reserveLua and
--                releaseChannelByCallID), Records and Rows (what a decision reads and writes),
--                Decide (decide, step by step in the order of the source), Cdr (cdr and
--                fillUnbilledCDR)
--   Livecalls    internal/livecalls: the index (livecalls.go), Pending (pending.go), Sweep
--                (reconciler.go)
--   Audiogroup   internal/audiogroup/audiogroup.go: PickMember
--   Didsimport   internal/didsimport: Parsers (ParseRange, ParseBulk of parsers.go), Csv (ParseCSV),
--                Prefixes (prefixes.go with its whole table), Worker (Run of worker.go with the counters
--                of job.go)
--   Strconv      what the program calls of the package strconv, with the laws of written numbers
--   Snapshots    the tables that are kept in memory: Causes (internal/causes/causes.go) and Settings
--                (internal/settings/settings.go)
--   Pagination   internal/web/pagination.go
--   Siptrace     internal/siptrace/siptrace.go: derive and Sanitize, and Shared, the cache with LookupWindow
--   Uploads      the names of uploaded files (internal/kyc/kyc.go, internal/audio/audio.go)
--   Orders       the handlers of orders: Tables (what they read and write), Create (orderCreate),
--                Api (createOrder), Release (orderCancel, cancelOrder, orderSwapDID, didRetire, didReserve,
--                didRelease), Block (userBlock, userUnblock), Kyc (ApproveBundle, RejectBundle), Update
--                (orderUpdate), Patch (updateOrder), Accounts (userTopup, topupUser, userDelete), of
--                internal/web/crud.go, did_handlers.go, block_handlers.go, kyc_handlers.go,
--                internal/resellerapi and internal/kyc. Orders.Placed.Steps has all of them as the steps
--                of one state; Orders.Blocking and Orders.Served read that state by a decision.
-- The files below a part that are named for a property hold the proofs about it; Examples hold
-- concrete runs.
--
-- State is passed explicitly: a table is a list of rows, a Redis key a list of values with the second
-- at which they expire, and an operation returns the state after it. A statement can fail: which one
-- does is a parameter. A transaction is a single step, and one that fails leaves the tables as they
-- were. float64 is a parameter, a record of operations with the monotonicity of IEEE 754 rounding
-- (Domain.Charge); Domain.Charge.SixPlaces is an instance of it. The channel sets are a parameter
-- with the documented effect of SADD, SREM, SCARD and SCAN (Sipctl.Channels); Sipctl.Channels.Listed
-- is an instance. Text is a list of bytes; trimming and case act on ASCII; the name of an
-- upload is a list of runes, with the digits beyond ASCII as a parameter.
--
-- Bounds: every loop is over a list or counts down, but for the one of ParseRange, which runs on
-- fuel: 10001 rounds are enough where it ends (Didsimport.Ranges). Its numbers wrap around as int64
-- does, and so do the offset of a page and the count of pages. The digits of a number are written
-- on fuel 20, which is enough for every int64 (Strconv). Other amounts and identifiers are
-- unbounded numbers, without the wrap-around of int64, which amounts in cents do not reach.
--
-- Not modelled: the pages and lists of the web interface and the reseller API, the reading of
-- capture files (tshark) and call quality, configuration of Asterisk and Kamailio, certificates,
-- the files and conversions of uploads; of the modelled parts the sort of the page of causes, the
-- log lines, the four-hour expiry of a channel set, the DNS cache, a failing update in
-- fillUnbilledCDR, and the order of equal rows in a query, the history of reservations, compliance
-- events and the files of a deleted user.
pub mod Prelude
pub mod Domain
pub mod Strconv
pub mod Billing
pub mod Sipctl
pub mod Livecalls
pub mod Audiogroup
pub mod Didsimport
pub mod Snapshots
pub mod Pagination
pub mod Siptrace
pub mod Uploads
pub mod Orders
