-- ===== src/Lib.antt =====
-- edav: a CalDAV and CardDAV server that stores the bytes of its clients verbatim.
--
-- Clients send vCard and iCalendar objects. The storage layer keeps each object's bytes in SQLite,
-- together with a change log for each collection; sync-collection requests are answered from that log.
-- Forms of the administration interface edit a stored object line by line, so that what a client wrote
-- and the form does not know is kept. Requests are admitted by HTTP Basic authentication, with a limit
-- on failures and a cache of verified credentials.
--
-- Base is shared: tests on numbers, lists over the native numbers, byte strings with the calls of Go's
-- package strings (text is ASCII where case matters), decimal numbers, maps with string keys
-- (Base/Table) and SQL statements on tables as lists of rows (Base/Rows).
--
-- ContentLine is internal/contentline. ContentLine/Lines has nextLogicalLine, unfold and splitLine as
-- scans with an explicit state, ContentLine/Lines/Params has Param and Params, ContentLine/Fold has
-- fold, ContentLine/Escape has Escape, Unescape and SplitStructured, ContentLine/Document has Parse and
-- Bytes, and ContentLine/Edit has components, lookups and edits. A Document is its list of lines; an
-- edit gives the new document and the new span. fold has fuel one more than the text is long, as a
-- round that does not back off over its whole line takes a byte; Parse has the length of its input as
-- fuel, as each round takes a byte, and Delete the number of lines, as each round takes one away. Remove of
-- a group is modelled with the array that it writes while it reads it.
--
-- Vcard is internal/vcard: edit.go, where a card is a document and the span of its VCARD, and in
-- Vcard/Contact contact.go, the contact of a form.
--
-- Ical is internal/ical/event.go: Ical has Parse and readTime, Ical/Edit what a form reads and writes, and
-- Ical/Duration formatDuration and parseDuration, in nanoseconds modulo 2^64. Times are whole seconds since
-- the beginning of the year 0 (Base/Time, with the layouts of package time that the code uses), so the
-- fraction of a second that ParseInLocation accepts is dropped. Zone names are checked by a parameter.
--
-- Storage is internal/storage: the database is a record of tables (Storage), each operation a function
-- from the database to the database and a result. Storage/Collections, Storage/Objects, Storage/Users
-- and Storage/Sessions are the files of those names; Storage/Changes and Storage/History are about the
-- change log, and Storage/Integrity about the schema's keys and references under all calls of the layer.
-- Transactions are atomic, unique indexes and cascades are those of the migrations, and the
-- clock and SHA-256 are parameters. Text search (LIKE) and failures of the driver are not modelled.
-- Sequence numbers are unbounded; tokens are read as 64-bit integers.
--
-- Dav is internal/dav: Dav/Paths is path.go and Dav/Sync is sync.go. What carddav.go and caldav.go have in
-- common is in Dav/Backend, over the storage model: a function of the kind of path, the type of
-- collection and the index of an object's text. Dav/Calendars and Dav/Books apply it, and Dav/Calendars
-- adds the deletion of either a calendar or an object, and the query by time (Dav/Calendars/Query), which
-- takes the parser and the generic filter of internal/dav/caldav as parameters. Parsing entity tags and
-- vCards is a parameter, and so is the index of a calendar object, which Recurrence has. Reading objects for
-- some components or properties only, which parses the stored bytes, is modelled in the query by time
-- alone.
--
-- Recurrence is internal/recurrence: expand.go, and timezone.go in Recurrence/Timezones, with offsetAt in
-- its Offsets and Resolve and ToUTC in its Resolver. Recurrence/Expander has Expand, Overlaps and Summarise with
-- all they call; the expander takes the zones as parameters. A time is its number of seconds since the
-- year 0, so a difference that would be before it is 0, and a duration is less than the 292 years that time.Duration has. The zone database of
-- package time, properties, rules and durations of go-ical and the sets of rrule-go are parameters; a set is
-- the list of its times, as rrule-go ends it with the year 9999. The loop of expandMaster has
-- maxOccurrences as fuel, which is its own limit. The order of instances that start together is left to
-- sort.Slice and to the map in the code, and is that of the object in the model.
--
-- Auth is internal/auth: Auth/Throttle is throttle.go, Auth/Cache is cache.go, Auth/Basic is basic.go
-- and Auth/Session is session.go.
-- Whether a request has a slot of throttle.go before its context ends is an argument of Auth/Basic.
-- A mutex makes each of their methods one step. VerifyPassword and HMAC-SHA-256 are parameters of theirs.
-- Auth/Password is password.go, with Argon2id for a parameter, and Auth/Base64 is the encoding that it uses.
--
-- Admin is internal/admin: Admin/Accounts is what the handlers of users.go do to the accounts, for the user
-- of the session, with HashPassword for a parameter. Admin/Slugs is Slugify and freeSlug of collections.go,
-- with the 98 rounds of its loop, and Admin/Collections its handlers. Admin/Objects is what the handlers of
-- events.go and contacts.go share, and Admin/Events and Admin/Contacts are their forms. Admin/Login is doLogin,
-- doLogout and requireAdmin of admin.go. New UIDs, tokens, the clock and PostFormValue are parameters.
--
-- Not modelled: the forked WebDAV layer and its XML, which is another project's, the query of address books,
-- the pages of the administration interface with their templates, listings and descriptions, configuration
-- and the command line.
--
-- Tests has runs on concrete inputs.
pub mod Base
pub mod ContentLine
pub mod Storage
pub mod Dav
pub mod Auth
pub mod Admin
pub mod Ical
pub mod Recurrence
pub mod Vcard
pub mod Tests
