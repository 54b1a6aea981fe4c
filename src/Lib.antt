-- ===== src/Lib.antt =====
-- GRUVAX finds the shelf cube of a record in a record collection. This library models the core of its
-- position estimator, the Python package gruvax/estimator (src/gruvax/estimator in the repository),
-- the sessions that guard its administration, its event bus, and the loop that reads a collection.
--
-- Parts, and how they meet. A catalog number becomes a comparison key (`Normalize`). A collection is
-- a snapshot, grouped by label (`Snapshot`); the cut points of the cubes and the admin's width
-- overrides are a boundary cache (`Boundaries`). From these two the segment cache is derived: each
-- record goes to the bin of a cut point, and each bin is shared out among its labels (`Segments`).
-- The estimator reads the snapshot and the segment cache, and answers with a cube and a band in it
-- (`Locate`); `BinMath` serves the cube pages from the same caches. What changes boundaries is behind
-- an admin session (`Sessions`): a PIN makes one, and each request checks it and moves its expiry.
-- Changes are announced to the kiosks on an event bus (`Events`). The collection is read from its
-- server page by page (`Pages`). The admin edits cut points by requests (`Editing`): each is checked
-- against the boundary cache, written in one transaction with rows in a log of changes, and followed by
-- a rebuild of both caches and an event; a later request can revert a change set of the log.
--
-- Files and sources (paths from the repository's root):
-- - Base: numbers, lists, total orders, Python's stable `sorted`, dictionaries, exact fractions.
-- - Unicode: the Unicode functions that the source calls, as a record of parameters.
-- - Normalize: src/gruvax/estimator/normalize.py. `parse_key` returns a list of `Token`s, whose order
--   is Python's on the tuples; `find_tokens` is the regular expression `_TOKEN`.
-- - Snapshot: src/gruvax/estimator/collection_snapshot.py, a record with a function for each method.
-- - Boundaries: src/gruvax/estimator/boundary_cache.py, likewise.
-- - Segments: src/gruvax/estimator/segment_cache.py. `derive` is long, and is modelled in the order of
--   its steps: Assign (steps 1 to 3), Fractions (the arithmetic of steps 4 and 5), Bins (steps 4 to 6
--   for one bin), Derive (the whole, and the lookups).
-- - BinMath: src/gruvax/estimator/boundary_math.py.
-- - Confidence: src/gruvax/estimator/constants.py and the constants of
--   src/gruvax/estimator/contract.py.
-- - Locate: src/gruvax/estimator/algorithm.py and the result types of contract.py.
-- - Sessions: src/gruvax/auth/sessions.py, src/gruvax/auth/session_policy.py, src/gruvax/auth/pin.py,
--   the login and logout of src/gruvax/api/admin/login.py, `change_pin` of
--   src/gruvax/api/admin/settings.py and `require_admin` of src/gruvax/api/deps.py. The session table
--   is a list of rows; a `History` is a sequence of handler runs at increasing times.
-- - Events: src/gruvax/events/bus.py and the loop of src/gruvax/api/events.py. A queue's identity is the
--   number of queues made before it.
-- - Pages: src/gruvax/discogsography/snapshot_pages.py and the page loop of
--   src/gruvax/discogsography/client.py. The server is a function that may answer each round as it
--   likes. The loop has no bound of its own, and is modelled on fuel: two rounds more than the total of
--   the first page are enough. What a snapshot holds is a parameter; Complete assumes of the server that
--   an envelope is a slice of the snapshot that its token names.
-- - Editing: src/gruvax/api/admin/validation.py (Validation), `insert_cut`, `put_bin_cut` and
--   `set_bin_overrides` of src/gruvax/api/admin/segments.py (Insert, Replace, Widths),
--   `put_cube_boundary` and `bulk_write_cubes` of src/gruvax/api/admin/cubes.py (Bulk, with the keys of
--   Idempotency), its dry run `validate_boundary` (Preview) and `suggest_cube_midpoint` (Suggest),
--   `revert_change_set` of src/gruvax/api/admin/history.py (Revert), src/gruvax/api/admin/cache_rebuild.py and the statements of
--   src/gruvax/db/queries.py that these run (Editing itself). The tables of one profile are lists of
--   rows; an UPDATE maps over the table and counts the rows that it met. A transaction gives the new
--   tables or a refusal, which leaves the old ones. Requests has the handlers as steps of a profile.
-- - Devices: src/gruvax/api/admin/devices.py and src/gruvax/api/devices.py. Bind is `bind_device` with the
--   four statements that write a device, Handlers the other handlers that change a table, Show those that
--   read. A statement on the devices fails when it violates one of the two partial unique indexes. A
--   transaction that fails leaves the old state.
-- - Formats: src/gruvax/io/boundary_yaml.py, on the value between the code and the YAML library, and
--   src/gruvax/io/boundary_csv.py (Csv), on the rows that the CSV library reads.
-- - Tests: a small shelf, evaluations, and the theorems at it.
--
-- Conventions. A Python `str` is its list of code points. A method that changes its object returns the
-- new state; one that may raise returns `none`, or the old state with a flag. A `dict` is an
-- association list in insertion order. Loops over collections are recursions on lists; only the page
-- loop is on fuel. Floats are exact fractions of natural numbers: every float of the estimator is zero
-- or more, and a difference that could be negative is tested or cut off at zero by the source.
-- Rounding is not modelled. A handler or a round of a loop is one step: how two requests mix between
-- their database calls is not modelled. `changed_at` of a change is the time of its transaction, a
-- number; an error message of an edit is given as its kind, and the label that it names. Ids of change
-- sets are texts: that Postgres rejects a text that is no UUID is left out.
--
-- Not modelled: the database (a load takes the rows that its SELECT returns), log messages, the
-- timestamp of a result, cookies that a response sets, HTTP, and the rest of the repository. The
-- casefold, NFKC and digit tables of Unicode and pyuca's collation keys are parameters, of which only
-- idempotence of casefold and the range of a digit are assumed; `Unicode.Ascii` is an instance. So are
-- itsdangerous, passlib, `str.isdigit` of a PIN, the answer of the rate limiter, and the comparison of
-- a page's expiry with the clock, of which nothing is assumed.
pub mod Base
pub mod Unicode
pub mod Normalize
pub mod Snapshot
pub mod Boundaries
pub mod Segments
pub mod BinMath
pub mod Confidence
pub mod Locate
pub mod Sessions
pub mod Events
pub mod Pages
pub mod Editing
pub mod Devices
pub mod Formats
pub mod Tests
