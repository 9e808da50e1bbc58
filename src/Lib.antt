-- ===== src/Lib.antt =====
-- dudld is a music server: clients connect over TCP and send lines of text, a player plays what they
-- queue and what a random choice adds, and a filter language says which tracks the choice is made from.
-- This library models the parts of it that carry its logic and proves what they do. The files below
-- are named from the repository's root.
--
-- - Common: bytes, lists and tests on the natural numbers, shared by all parts; Common/Char has the
--   functions of ctype.h in the C locale.
-- - ParseBuf: commondb/parsebuf.c, the input of the parser, a text with a position and a mark.
-- - ParseExpr: commondb/parseexpr.c and .h, the filter language. Syntax has the tree, Tables the names and
--   the table of allowed tests, Lexer the reader of tokens (its child modules say what it reads), Parser
--   the recursive descent (parse_expr, parse_one_expr and parse_expr_not call each other), Text what
--   expr_fmt writes into a buffer that is large enough, Print expr_fmt into an array of any size, Messages
--   the texts of the errors, and RoundTrip what the parser makes of a printed text. Progress, Termination
--   and Sound are about every text that it is given.
-- - Player: player.c, the player. State is its static variables together with the world they act on,
--   Tracks the functions on the database (db_getnext, db_finish), Backend the functions on GStreamer (bp_*,
--   the timers, cb_bus), Control the functions that clients call (player_*), Step one step of the player
--   and Reach a run of them, in any order. Picks, Records, Timers and Safety are about these, Crash about bp_seek,
--   which reads the current track through NULL where there is none: `crashed` marks that, and ends the program.
-- - Client: client.c. Line has the input buffer of a connection and client_getline, FirstLine what it
--   returns from a buffer in order, Bounds what client_read leaves, Search, Lines and Answers what client_getline
--   does with any buffer that holds a 0 behind its input; Connections has the list of clients with its cursor and
--   the reference counts, and proto_delclient of proto.c, which broadcasts over the same list when a client is
--   freed; Loop is what the loops over the list share, Broadcast and Closing what client_bcast and client_close do.
-- - Proto: proto.c with proto_val.c and proto_helper.h, from a line to the command that it runs: Dispatch has
--   cmd_find, cmd_parse and proto_line, Rights who may run what. Reply is proto_helper.c, the lines that
--   answer a client, Lines what a line holds, and Answers what makes a whole answer of them.
-- - Format: proto_fmt.c. Table has ecpy and mkvtab, Records the mk* functions, Dump the dump_* functions;
--   Fits says what mkvtab writes where its buffer is large enough, Columns how a client reads it, Lines and
--   Rows what it reads of a track, and Sending what it gets of one.
-- - Commands: proto_cmd.c and proto_bcast.c. Session has the state that a handler works on, with the interface
--   Database for the functions of pgdb and World for the rest; Handlers has the shapes that handlers share,
--   Users, Playing, Tracks, Tags and Albums the handlers, Broadcast what all clients are told, and Requests
--   one command of any kind with mkproto.pl's state for it. Answers, Special and Served are about each
--   handler, Login about the steps of a login, Sessions about runs of commands, Help about what
--   cmd_help lists.
-- - Sql: pgdb/filter.c and db_escape of pgdb/dudldb.c. Asking has the printing that also asks the database,
--   Filter the SQL of a filter, Escape the escaping of a text, Table the tests that there is SQL for, Reading how
--   PostgreSQL reads quotes, Pieces and Texts what a filter prints, Bounds what sql_expr stores.
-- - Pgdb: pgdb, what asks PostgreSQL. Server has what these functions work on, Connection the connection and
--   db_query of pgdb/dudldb.c, Shapes what the functions share, Rows the records that they make of a row, Users
--   pgdb/user.c, Tags pgdb/tag.c and sfilter.c, Albums pgdb/artist.c and album.c, Tracks pgdb/track.c, Queues
--   pgdb/queue.c, Random pgdb/random.c and history.c, Filters what filter.c asks, Startup the functions of main.c
--   that load, keep and save the filter, and Database all of them as the interface of the commands. Statement
--   says how a query is read, with standard_conforming_strings on, Runs and Kept what each function sends and clears,
--   Open that db_connected leaves a connection open, Connected is about db_conn and the passwords, Safety and
--   Sent about all texts that are sent. Commands/Preserving says what a command does with the database, for a
--   state of it that the functions keep.
-- - Sleep: sleep.c, the timer that pauses the player: Timer has its functions, Armed the runs of them.
--
-- Bytes are numbers below 256. An `int` of the filter language is its 32-bit pattern, and arithmetic on
-- it wraps around. The loops of the lexer recur on the number of bytes left. The parser recurs on fuel, two
-- units for each byte left and three more: every nested call of it follows a byte that was read.
-- GStreamer is a parameter, Pipeline, and so are the volume and the replay gain, which are floating
-- point numbers there. Allocation is taken to succeed, but for
-- that of the replies, where strdup is a parameter.
--
-- An array of C is its bytes with a mark of whether anything was stored outside of it (Common/Memory); code
-- that prints into one piece by piece is a Writer (Common/Writer). The `int`s of the records and of the
-- handlers are 32-bit patterns too. What is left of strdup, of client_send and of the array on the stack is
-- a parameter, Host.
--
-- PostgreSQL and libpq are a parameter, Server: whatever it answers, the model of pgdb counts the results that
-- were not cleared and keeps the texts that were sent. So are strtol, crypt, random, time and open, what the
-- program computes of random() with floating point numbers, and what its arrays hold before. An iterator over
-- records is taken as the list of them at once.
--
-- Not modelled: what PostgreSQL makes of a statement, the sockets, the main loop and the options, the gains of tracks,
-- the reference counts of records and filters, and the two commands that close the connections of other
-- clients (cmd_clientclose, cmd_clientcloseuser).
pub mod Common
pub mod ParseBuf
pub mod ParseExpr
pub mod Player
pub mod Client
pub mod Proto
pub mod Sleep
pub mod Commands
pub mod Format
pub mod Pgdb
pub mod Sql
