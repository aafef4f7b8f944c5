-- ===== src/Lib.antt =====
-- MADAI copies the mail that an MTA receives to a second server. This library models the program
-- and proves what it does.
--
-- The program is a milter. At the start, src/madai.c reads the command line and the configuration
-- file and hands over to libmilter (`milter_start` of src/milter.c), which calls back for each
-- step of each SMTP connection (`mdfi_…` of src/milter.c). A callback finds the session of its
-- connection through the milter's private data, and sends the same step to the copy server over a
-- socket of the session (src/smtp.c). A session holds the configuration set that was current when
-- it began (`get_config` and `release_config` of src/config.c). SIGHUP makes another thread read
-- the file again and replace the current set (src/thread_control.c, `reload_config`). The file is
-- read, and its values are checked, by src/libdg/libdgconfig.c. Messages go through src/log.c.
--
-- Which file models which part:
--   Types, Sys      the structs; memory, trace and commands, which the other parts are written in
--   Smtp            src/smtp.c: write_msg, read_msg, send_from, send_rcpt, send_header, send_eoh,
--                   send_body, send_eom, send_data; Smtp/Start: start_smtp
--   Config          src/config.c: free_config_set, get_config, release_config and the locked part
--                   of reload_config; Config/Load: cfe, init_config_data, make_config_data,
--                   init_config_set, make_config_set, setup_config_set, startup_config,
--                   reload_config; Config/Print: print_config_data; Config/Threads: the
--                   interleavings of sessions and reloads; Config/Steps: release_config
--                   and reload_config as rows of such steps; Config/Snapshot: the view of them with
--                   a copy of the configuration for each session in place of counts
--   Milter          src/milter.c: session_data_init, free_session_data, every callback, mdfilter;
--                   run_callbacks (Milter/Relay), mail_and_close (Milter/Whole) and connection
--                   (Milter/Connection) make them in the order of libmilter; Milter/Sockets and
--                   Smtp/Quiet follow the descriptors, Milter/Receiver is the copy server's side
--   Libdg           src/libdg/libdgconfig.c: Libdg/Checks the is_ functions and syslog_facility,
--                   Libdg/Entry struct cfentry, Libdg/Reader read_config with its switch on the
--                   type of a term in Libdg/Values, Libdg/Reader/Meaning what a file is to mean
--                   apart from how it is read, Libdg/Solaris the table of facilities and
--                   _inet_aton, which are compiled for Solaris; Libdg/Decimal the digits that `%d`
--                   prints
--   Log             init_log and switch_log of src/log.c, dgloginit and dglogchange of
--                   src/libdg/libdgconfig.c
--   ThreadControl   src/thread_control.c: do_hup, wait_hup
--   Daemon          the callbacks of all connections and the reloads, in any order (daemon and
--                   life), against a table of the open connections (Daemon/Table): Daemon/Serving
--                   is how the memory and the descriptors stand for the table, Daemon/Contract what
--                   an event may do, Daemon/Wire what the copy server is sent for one connection,
--                   Daemon/Path the path of the file over the callbacks
--   Madai           main of src/madai.c, milter_start of src/milter.c
--   Examples        the theorems at concrete inputs
--
-- State. `Memory` holds the configuration sets and the sessions by address, the current set, the
-- private data pointers and the log targets. No two sets share a config_data and strings are never
-- shared, so both are values. `malloc` hands out each address once. The trace records each system
-- call with its answer. A command returns, or is a `fault` where the C is undefined: a dangling or
-- NULL pointer, an overflow of a text buffer or of a reference count, a message that is no format.
-- Two things that C leaves open are parameters of the host: `spare` says whether the byte is no
-- one's that mdfi_body stores behind its array, and `prints_null` whether printf(3) prints
-- something for a NULL text. Where they are false the model faults there.
--
-- The outside world is an `Env`: the answers of the kernel, the C library's resolver and libmilter
-- as functions of the trace so far. A file can be another one each time that it is read. Laws of
-- write(2) that a theorem needs are `WriteLaws`, those of the address parser and of the names of
-- facilities are `HostLaws`; `Hosted` has them all, for the daemon, with `prints_null`, libmilter
-- keeping each pointer and the kernel's own name fitting `hostname`, and `FreshSockets` is the law
-- of socket(2). `SmallFile` is what is asked of the configuration file: it can be counted by an
-- `int`, and if it cannot be read its path and the reason fit `errbuf` and stand for a format.
-- Lengths pass through `int` as the code passes them. C library functions on strings (strtol,
-- strtoul, strcasecmp, strchr) are written out.
--
-- Bounds. The loop of write_msg runs on `env.rounds`; more rounds than bytes are enough, since each
-- write takes a byte or fails. The loop of send_header has a round for each byte of the value, and
-- the loop over the lines of the file one for each byte of the file; each round takes a newline.
--
-- The daemon runs its callbacks and reloads one after the other; the steps in which the threads
-- touch the shared sets are interleaved in any order in Config/Threads. `serve`, which is main
-- behind startup_config, follows config_data each time, and takes what the thread that it has
-- started does before that as an argument, so that a set that is freed meanwhile is a fault.
--
-- Not modelled: what is printed by usage and for a message (LOG, NoLOG, errorlog and systemlog are
-- one event each, with the message and not its text), the messages of read_config, which are a
-- list in its result and no events, the config_data that place_config loses where there is no
-- memory for its set, since a configuration is a value, the strings that read_config loses when a
-- term is set twice, the results of setsockopt, which the code ignores, and the build files.
pub mod Base
pub mod Types
pub mod Sys
pub mod Libdg
pub mod Log
pub mod Smtp
pub mod Config
pub mod Milter
pub mod ThreadControl
pub mod Daemon
pub mod Madai
mod Examples
