-- ===== src/Lib.antt =====
-- A model of CLICON's configuration daemon, of the messages that its clients send to it, of its
-- transactions and its event loop, of the hash tables that hold its options, and of the strings and XML
-- trees of its library with the input and the filters of the NETCONF client.
--
-- CLICON is a configuration manager. A daemon (apps/config) keeps a candidate and a running
-- database. Clients (the command line, netconf) connect over a socket and send binary messages
-- (lib/src/clicon_proto_encode.c): change an entry of a database, copy, load or save it, commit the
-- candidate to the running database, take and give up the lock on the candidate, kill a session,
-- subscribe to notifications. The event loop calls `from_client` (apps/config/config_client.c) for each
-- message; it decodes the message, checks the lock (apps/config/config_lock.c), calls the database
-- layer, and answers with an OK or an error message (lib/src/clicon_proto.c). A commit
-- (apps/config/config_commit.c) compares the two databases, makes a vector of the plugins' callbacks
-- that depend on what differs (apps/config/config_dbdep.c), validates, calls the callbacks in one of
-- three orders, copies the candidate to the running database, and rolls back where anything fails.
--
-- Files:
--   Base            the shared names: numbers, lists, Boolean tests, C strings
--   Proto/Types     message types and header of lib/clicon/clicon_proto.h
--   Proto/Buffer    memcpy, strncpy, htonl and the chunk allocator, with their bounds
--   Proto/Encode    clicon_msg_*_encode of lib/src/clicon_proto_encode.c, under the same names
--   Proto/Decode    clicon_msg_*_decode of that file, under the same names
--   Proto/Wire      the bodies as clicon_proto.h documents them, a sequence of fields
--   Proto/Writing, Proto/Reading, Proto/Layout, Proto/RoundTrip
--                   the lemmas on both, the bytes of each message, and decoding what was encoded
--   Backend/Types   the daemon's state, and the operations that it takes from elsewhere
--   Backend/Reply   send_msg_ok, send_msg_reply, send_msg_err of lib/src/clicon_proto.c
--   Backend/Clients the client list of apps/config/config_handle.c and config_client.c
--   Backend/Handlers, Backend/Sessions
--                   from_client_change, _save, _load, _initdb, _rm, _copy, and from_client_lock,
--                   _unlock, _kill, _debug, _call, _subscription of apps/config/config_client.c
--   Backend/Commit  from_client_commit and from_client_validate of apps/config/config_commit.c
--   Backend/Dispatch  from_client
--   Backend/Accept  config_accept_client of apps/config/config_socket.c
--   Backend/Sockets, Backend/Alive
--                   which sockets are registered, and for which clients
--   Backend/Quiet, Backend/Cases, Backend/Answers, Backend/Lock, Backend/Guard, Backend/Holder,
--   Backend/Refusal, Backend/Request, Backend/Request/Served
--                   what each kind of command leaves alone, and the theorems on `from_client`
--   Transaction/Types
--                   commit operations, differences, dependencies, and what plugins are
--   Transaction/Match
--                   dbdep_match_key and dbdep_match of apps/config/config_dbdep.c
--   Transaction/Vector
--                   registration and dbdep_commitvec of that file
--   Transaction/Callbacks, Transaction/Commit
--                   candidate_commit, candidate_validate and the loops over the vector of
--                   apps/config/config_commit.c, the hooks of apps/config/config_plugin.c
--   Transaction/Loops, Transaction/Adds
--                   one round of a loop, and the events that a part of a transaction adds
--   Transaction/Rollback, Transaction/Trace, Transaction/Complete, Transaction/Error,
--   Transaction/Match/*, Transaction/Vector/*
--                   the theorems on transactions, patterns and the commit vector
--   Event, Event/Loop
--                   lib/src/clicon_event.c: the lists of descriptors and timers, and event_loop
--   Event/Timers, Event/Registry, Event/Pointers, Event/Loop/*
--                   the order of timers, and what the loop does with the lists
--   Client/Socket   atomicio and clicon_msg_rcv of lib/src/clicon_proto.c
--   Client/Rpc      clicon_rpc and clicon_rpc_connect of that file, and the functions of
--                   lib/src/clicon_proto_client.c
--   Client/Receive, Client/Sized, Client/Errors
--                   what is received of what was sent, and the daemon's error in the client
--   Hash/Table      the hash tables of lib/src/clicon_hash.c, under the names of that file
--   Hash/Chain, Hash/Laws, Hash/Keys
--                   one bucket as a map, the table as a map, and the list of its keys
--   Options, Options/Names
--                   the options of lib/src/clicon_options.c, in such a table
--   Options/Access, Options/Decimal, Options/Defaults, Options/Defaults/*
--                   setting and getting, integers as digits, clicon_option_default
--   Strings         lib/src/clicon_string.c, under the names of that file
--   Strings/Split, Strings/Join, Strings/Trim, Strings/Separate
--                   the pieces of a string and their joining, white space, the parts of `a[b]`
--   Xml/Tree, Xml/Find, Xml/Copy, Xml/Insert, Xml/Print, Xml/Read
--                   the nodes of lib/src/clicon_xml.c, searches among children, copies, moves,
--                   clicon_xml2cbuf, and clicon_xml_parse_file up to the parser
--   Xml/Read/Bounds, Xml/Read/Endtag
--                   the reader's buffer, and where it stops
--   Netconf/Input   detect_endtag of apps/netconf/netconf_lib.c, netconf_input_cb of netconf_main.c
--   Netconf/Filter  the subtree filter, get_operation and netconf_clean of netconf_filter.c
--   Netconf/Input/*, Netconf/Filter/*
--                   the messages that are handled, and what the filter leaves
--   */Tests         runs on concrete data
--
-- How the state corresponds: a `World` holds `_db_locked`, the client list and its counter of
-- `struct backend_handle`, the sockets registered with the event loop, the last error
-- (`clicon_errno`, `clicon_suberrno`, `clicon_err_reason`), the files, the messages sent, the debug
-- level, whether the log callback is set, and the processes that were sent SIGTERM. A handler takes a
-- `World` to a `World` and to true where the source returns 0. A client entry is told apart by its
-- number `ce_nr`, as the source does by its address. A decoder or an encoder returns `ok`, `failed`
-- (-1 or NULL), or `overrun` where the code would touch bytes outside its buffer; the result theorems
-- show `ok`, so they show the bounds too. A `Msg` body is the list of its bytes, a C string the list
-- of its characters without the NUL. Message lengths are numbers without a bound but for the 16 bits
-- of the header field; strings are taken to be shorter than 2^31, so that `int len` does not wrap.
-- There is no fuel but in `event_loop`, whose argument is the number of rounds, as the loop ends only
-- on a signal or an error: every other function is structural, `serve` on the list of inputs, and
-- `match_from` on the pattern.
--
-- In a transaction (`Tx`) the state is what plugins and the database layer see, next to the last error
-- and a trace of the callbacks, the hooks and the copies that were tried, the newest first. A loop over the vector is
-- `run_callbacks` with a function that says what is called for an entry; a rollback is
-- `revert_callbacks`. The labels of `candidate_commit` are the functions `commit_phase`, `copy_back`
-- and `done_label`. A dependency is told apart by its number `dp_nr`, as the source does by its
-- address. In Event a `Process` is the static variables of clicon_event.c and all else.
--
-- Parameters (the record `Env`), none of which is given a definition: which chunk and malloc requests
-- are granted, which sockets take a message, the texts of the format strings, whether a process is
-- alive, the options, the database operations (`db_lv_op_exec`, `db_init`, `load_xml_to_db`, ...), the
-- file operations, `candidate_commit` and `candidate_validate` with their plugins, `plugin_downcall`
-- with the decoding of its request. `Frame` in Backend/Guard is what is supposed of the operations on
-- files: each leaves files of other names alone.
--
-- In the record `Plugins`: callbacks, hooks, `db_diff`, `file_cp`, `stat`, `generic_validate`, `qsort`
-- and the commit order. `Reversible` in Transaction/Rollback is what is supposed of plugins: the
-- reverse of a call that succeeded brings their state back, and a call that failed changed nothing.
-- Nothing is supposed of a copy that fails: file_cp truncates its target. In
-- the record `Host`: `select`, `gettimeofday` and the functions that were registered; `Stepping` in
-- Event/Loop/Rounds supposes that they change the lists of events by the calls of this file only.
--
-- What comes in on a socket is a list of `Arrival`s, one for each thing that a call of `read` finds; in
-- the record `Remote` are the allocator, the order of bytes of the host, and what the daemon's socket
-- answers.
--
-- A hash table is a function from bucket numbers to chains; a bucket of the source is a ring, here the
-- list of its entries from the head on. `hash_add` takes what its three allocations have as an
-- argument; `hash_keys` is taken to have the memory for its result.
--
-- An option's table is the argument `copt`, in place of the handle that holds it. An `int` is its 32 bits
-- as a number. `decimal_from` has fuel for the ten digits of such a number.
--
-- An XML tree is a node with the vector of its children, each a tree: the pointers to parents and the
-- place that `xml_child_each` keeps in a child are not there, a traversal is the list of the children of
-- its type, and a child to be moved or pruned is given by its place. A name is never NULL. A function
-- that wants memory gives `none` for its error return, and the trees that it leaves then are not
-- described. Its fuel is in `move_children` only, one more than there are children, and
-- `Xml.Insert.insert-Gives` shows that this is enough. The reader's input is the list of what its calls
-- of `read` give. Parameters there: the memory, what printf prints for NULL, and the grammar, which
-- is generated from clicon_xml_parse.l and clicon_xml_parse.y. In Netconf/Input what `packet` does
-- with a message is a parameter, but for how it ends; a read is a list of bytes.
--
-- Not modelled: labels of chunk groups, debug output, `strdup` (its results are not checked by the
-- source), the decoding of CLICON_MSG_CALL, two names of one file. A reason that contains a `%` is read by `send_msg_err` as a format where a handler passes
-- `clicon_err_reason` as one; the model takes the text as it stands. A socket that was closed may
-- still be written to in the model. Of transactions: the variable
-- part of a dependency's key, which nothing reads, failures of malloc, and a difference without a
-- name. Of the event loop: the texts for debugging, and the codes that it reports. Of the client
-- library: clicon_proto_subscription, and the numbers of the sockets. Of the options:
-- reading the configuration file and the options of the command line. Of the strings:
-- clicon_strmatch, which calls the regular expressions of the C library. Of XML: xml_free, the setting of
-- a vector by its places, the scanner and the parser, and lengths of 2^31 and more. Of the NETCONF client:
-- edit-config, requests and replies. The databases, the specifications and the command line are left out.
pub mod Base
pub mod Proto
pub mod Backend
pub mod Transaction
pub mod Event
pub mod Client
pub mod Hash
pub mod Options
pub mod Strings
pub mod Xml
pub mod Netconf
