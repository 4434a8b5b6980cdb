-- ===== src/Lib.antt =====
-- libptytty: pseudo terminals and session databases, with an optional helper process that keeps
-- the privileges the program gives up.
--
-- The parts, and the code each is about:
--   Base      Boolean tests and lists over native numbers, C's `int`, and C strings.
--   Sys       System calls. `Os` holds the answer of each as a function of all calls made before
--             and of its arguments, and nothing is assumed of an answer but what a theorem names.
--             A run (`M`) appends each call with its answer to a trace, and ends with a result, an
--             exception, or a crash where the code reads a null pointer, an object that does
--             not live or a field that was not assigned. Balance counts how often a descriptor was
--             opened and closed in a trace, and Notes says which calls of a kind a run adds.
--   Config    What the build decides: the macros of config.h.cmake, src/ptytty_conf.h and
--             src/ptytty.h, as one record. A definition covers every build at once.
--   Unix      src/ptytty.C: the four versions of `get_pty` (Unix.GetPty), `get_tty`, `control_tty`,
--             and the class `ptytty_unix` with its base class as the record `Unix`: `new_unix`,
--             `get`, `put`, `close_tty`, `set_utf8_mode`, `make_controlling_tty`.
--   Session   src/logging.C: `log_session`, the records (Session.Records), `updwtmp` with its lock
--             (Session.Wtmp); `ptytty_unix::login` and `~ptytty_unix` (`delete_unix`).
--   Estl      src/estl.h: `simplevec` as the record `Vec` over a buffer of slots (Estl.Slots), all
--             of its operations (Estl.Vec), its comparisons and `find` (Estl.Compare),
--             `is_simple_enough` (Estl.Simple), `scoped_ptr` and `scoped_array` (Estl.Scoped).
--   FdPass    src/fdpass.C: `send_fd` and `recv_fd`.
--   Proxy     src/proxy.C: the helper's `serve` (Proxy.Server) with its vector of objects as a
--             list, and as the `simplevec` that it is (Proxy.Server.Vector); the client's class
--             `ptytty_proxy` (Proxy.Client); the token that serialises clients, as steps of a
--             system of processes on the sockets `lock_fd` and `sock_fd` (Proxy.Lock); a client and
--             the helper together, on the commands that one writes and the other handles
--             (Proxy.Commands, Proxy.Server.Direct, Proxy.Remote), and the helper between clients
--             (Proxy.Server.Tracked).
--   Process   src/proxy.C: `init`, `use_helper`, `drop_privileges`, `sanitise_stdfd`; what is
--             documented of the ids of a process (Process.Ids) and of its descriptors.
--   Api       src/c-api.C and `ptytty::create`: an object of either class, and each call dispatched
--             to its class; the functions that forward to a static function; a program that calls
--             `ptytty_init` and uses a terminal.
--   Error     src/libptytty.h: `ptytty_error`, with the blocks of its messages.
--   Sample    eg/c-sample.c: a program of the C API, the parent and the child of its fork.
--   Tests     A system and a build to run all that on, and the theorems at concrete inputs.
--
-- How they interact: `serve` reads the commands that clients write and runs `ptytty_unix` objects
-- for them, from Unix and Session; it passes the two descriptors of an object by FdPass, and
-- `ptytty_proxy` receives them there. Objects of the helper live in a list by address
-- (Proxy.Server.Objects); a client names an object by that address.
--
-- Descriptors are counted by `Shifts n a w b v`: from trace `w` to trace `v` the code that had
-- descriptor `n` in hand `a` times has it `b` times. A close of a descriptor not in hand, a second
-- close and a leak all break the equation. The standard descriptors are not counted in `dup2`, which
-- replaces a descriptor by another.
--
-- A slot of a vector's buffer holds an object or none. An operation on a slot that is out of the
-- buffer, on an object that is not there, or over one that is, gives `none`, and the operation of
-- the vector `undefined`. `simple` is what `is_simple_enough` answers for the type: such objects
-- are bytes, and slots are copied as blocks; for others the constructor and the destructor run for
-- each object. Three more are parameters: `ecb_ld32` of src/ecb.h, what `operator new` answers for
-- a size, and the object that `T ()` makes. Sizes are `uint32_t` with their wrap-around, without
-- ESTL_LARGE_MEMORY_MODEL. `Holds v xs` says that vector `v` is in order and holds `xs`. Arguments
-- of `insert` and `assign` are objects outside of the vector; of `push_back` also its own. The two
-- vectors of `operator =` are positions of a store, and may be one.
--
-- Bounds and fuel: the loops of the source are structural recursion over what bounds them: 256
-- names, 10 attempts at the lock, 1023 descriptors, the ints of a control message, the commands
-- that arrive whole, the output that is read, the vector. No definition runs on fuel, so each
-- returns. The list of commands stands for what `read` delivers until it falls short, of any
-- length; the list of output for what `read` delivers until it gives 0 or -1.
--
-- Not modelled: src/ecb.h (compiler macros of the libecb project), constructors of elements that
-- throw, the commands of other clients between those of the client in Proxy.Remote, and memory
-- that runs out in `new` and `strdup` outside of `simplevec` and `ptytty_error`. A BSD utmp record
-- has no id, pid and type; its model has the fields, and nothing reads them. In Proxy.Client a
-- token is an event of the trace; Proxy.Lock has the same calls in any order, with the contents of
-- commands and answers left out, and a helper that does not stop reading. There a `read` of
-- NEED_TOKEN may also fail, and a client go on without a token; Proxy.Client and `serve` note the
-- call without its result. Of a `read` that gives only a part of an address nothing is kept, where
-- C++ has that part in `id`, and the destructor then sends a destroy for that part of an address.
-- The exception of a failed fork carries no statics, where `helper_pid` is then -1, which nothing
-- reads.
pub mod Base
pub mod Sys
pub mod Config
pub mod Estl
pub mod Error
pub mod Unix
pub mod Session
pub mod FdPass
pub mod Proxy
pub mod Process
pub mod Api
pub mod Sample
pub mod Tests
