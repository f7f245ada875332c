-- ===== src/Lib.antt =====
-- musicd, a music streaming server in C: the parts of it that carry its own logic, as definitions
-- that run, and theorems about them. Paths are from the repository's root.
--
-- Parts and files. Function names are the source's.
-- - Base: numbers, lists and C strings as lists of bytes without NUL (Base/CStrings), integers
--   (Base/Int). Memory: blocks of bytes with bounds; a run ends with a result or a fault (a write
--   out of bounds, a failed assertion, a loop that uses up its fuel).
-- - Strings (src/strings.c): the growing buffer on a block of memory; `string_*` in Strings, what
--   they do to the text held in Strings/Contents (appending) and Strings/Whole (removing, making),
--   the loop around vsnprintf in Strings/Format, and the searches in Strings/Search.
-- - Tasks (src/task.c): the queue and the pool of threads. Each critical section is one step of
--   `Works`; `Reach` is every interleaving of these with `task_start` and `task_launch`.
-- - Sessions (src/session.c): the list of sessions, newest first, with reference counts; a session
--   is known by its address. `session_mutex` makes each call one step.
-- - Queries (src/query.c): fields, filters, sorting; the SQL text and the values bound to it in
--   Queries/Sql, and `query_index` over the answers of the database in Queries/Index.
-- - Json (src/json.c): the serializer, on the text of its buffer.
-- - Config (src/config.c): the settings and their hooks, configuration files, arguments of the
--   command line.
-- - Http (src/protocol_http.c): arguments, percent decoding, cookies, and the query that a request
--   makes (Http, Http/Filters); sessions and authorisation of requests (Http/Access). A request
--   from the bytes received to the reply is in Http/Process, headers and documents are in
--   Http/Reply, the login in Http/Auth, lists of rows in Http/Lists, and the status in Http/Status;
--   images, lyrics and the tree of directories are in Http/Media, the beginning and feeding of
--   streams with the codecs of src/format.c in Http/Open. Http/Answered joins a request for lyrics
--   with the task and the library.
-- - Client (src/client.c, src/protocol.h): one connection with its buffers and states, and
--   `client_process`; what the kernel answers to `read` and `write` is an argument.
-- - Server (src/server.c): the list of clients, the array for `poll` and the loop around them.
-- - Cue (src/cue.c): lines, strings and file names in Cue, `cue_read` and its instructions in
--   Cue/Sheet.
-- - Scan (src/scan.c): the prefixes of image names and the choice of an album's image; the thread
--   that scans in Scan/Thread, and the walk over the directories in Scan/Walk.
-- - Library (src/library.c, the tables of src/db.c): the tables are lists of rows (Library/Rows), a
--   statement is what its SQL does to them, and each function is a `Query`, which changes a database
--   (Library/Statements): files and tracks in Library/Files, directories in Library/Directories,
--   images and albums in Library/Images, lyrics and the rest in Library/Words. `answers` says which
--   statements fail; `working` databases have none that does. Library/Calls is the sequences of
--   calls that change an empty database, with the arguments that the program passes: parents of
--   directories come from the table, and tracks without an album have no album number.
-- - Lyrics (src/lyrics.c): the pages and their names, the search in three steps, the task.
-- - Streams (src/stream.c): `stream_next` and what it calls, from packets of the source to packets of
--   the encoder, in Streams, and the choice of formats in Streams/Choice.
--
-- How they interact: Queries and Json append to buffers, where their models take the text held for
-- the buffer; Server calls `client_process` of Client, which calls a protocol, a record of
-- functions; Http is the protocol's code, sends with `client_write`, looks up sessions in Sessions
-- and sets filters and sorting in Queries. Http/Media, Http/Open and Lyrics call the functions of
-- Library on the database that they pass on; Cue and Scan call the library through arguments.
--
-- Bounds and fuel. `size_t` wraps at 2^64; a buffer's size doubles at most 64 times on its way
-- there (`doublings`). The loop around vsnprintf has fuel as an argument, and the theorems say how
-- much is enough. `cue_read` takes the depth to which sheets are read for one another, and the walk
-- of Scan/Walk the depth of directories. Loops over a text have one round more than it has bytes.
-- `session_new` makes room in at most `n_sessions` rounds, and tries as many ids as its fuel says;
-- 10000 sessions are kept at most. A directory is deleted with the depth as fuel, and parents have
-- smaller numbers than what stands below them. Each turn of the loops of Streams takes a packet of
-- the source or a block. Rowids are numbers, and `sqlite3_column_int` keeps their 32 bits. Counters
-- of type int are taken as numbers, since the limits keep them small.
--
-- Arguments of the definitions: `vsnprintf`, the texts of numbers, `time`, the ids tried, addresses
-- that `malloc` gives, the home directory, `sscanf` on numbers, and the database's answers.
-- `malloc` succeeds, and so does `pthread_create` in Tasks; `accept` may fail, which aborts the server.
--
-- Not modelled: what src/db.c does besides the columns of its tables, src/url.c, src/image.c,
-- src/cache.c, src/libav.c, src/track.c and the rest of src/stream.c and src/format.c (calls of
-- sqlite3, libcurl, FreeImage, libav and of files), src/log.c and src/musicd.c (output and start-up);
-- of the parts above `string_iconv`, the readers of rows of src/query.c, and the socket calls of
-- src/server.c. Of SQLite, transactions are not modelled: each statement is done or fails whole.
-- In Scan/Thread a step is what one thread does up to where another can come in: the code sets
-- `thread_running` only after it has released the mutex, and two calls that overlap there create two
-- threads, which is shown there. That the walk of Scan/Walk ends is not shown: it depends on the disk.
pub mod Base
pub mod Library
pub mod Lyrics
pub mod Streams
pub mod Memory
pub mod Strings
pub mod Tasks
pub mod Sessions
pub mod Queries
pub mod Json
pub mod Config
pub mod Http
pub mod Client
pub mod Cue
pub mod Scan
pub mod Server
