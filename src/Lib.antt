-- ===== src/Lib.antt =====
-- Kode, a JavaScript runtime in C++: a model of its own logic, and theorems about it.
--
-- Parts, and the files that model them:
--   Prelude, Text       what the parts share: lists measured by native numbers; byte strings with the
--                       searches of `std::string`, `std::map` as an association list, and the decimal
--                       numbers of `std::to_string`, `std::stoi`.
--   Channel             src/concurrency/task.h, `Channel<T>`. Channel.antt has one function for each
--                       method; Channel/System has the threads on both sides, awake, asleep or notified,
--                       and an event for each step that one of them can take; Order, Wakeups and Mailbox are
--                       the proofs.
--   Parser              src/parser/parser.cc: Clean (`TrimWhitespace`, `RemoveComments`,
--                       `RemoveSemicolons`, `SplitIntoLines`), Arguments (`ExtractFunctionArguments`,
--                       `ExtractStringLiteral`), Line (`IsCallbackPattern`, `ParseLine`), Program
--                       (`Parse`), each with its proofs below it.
--   Http                src/http/http_server.cc: the server, its routes and `handle_request`;
--                       Http/Connection has the callbacks of one connection.
--   Scheduler           src/concurrency/task.cc, `TaskScheduler` and the states of a `Task`: Scheduler.antt
--                       has the operations, Scheduler/Loop the threads that run `worker_loop`,
--                       `spawn` and `cancel_task`; Conserved, Steps and Once are the proofs;
--                       Contexts and Pinned are about `uc_link`.
--                       Scheduler/Stop has `stop`; Changes, Parked and Stopped are its proofs.
--                       Scheduler/Preemption has the preemption thread and the worker's current task.
--                       Scheduler/Stack has the growth of a task's stack, Scheduler/Timeout `with_timeout`.
--   Runtime             src/core/runtime.cc: `ExecuteStatement` and the named channels. Runtime/Pipeline
--                       puts Parser, Runtime and Channel together.
--                       Runtime/Parsed has the version of `ExecuteStatement` in src/parser/parser.cc,
--                       Runtime/Script `ExecuteString` and `ExecuteFile`, Runtime/Timers
--                       `setTimeout`, `onTimer` and `RunEventLoop`.
--   Sha256              src/v8/builtins/crypto.cc: `Sha256` and `ToHex`; Sha256/Padding and Sha256/Digest have
--                       the proofs.
--   JsChannels          src/concurrency/task.cc: the channel functions of `JSConcurrency`; JsChannels/Tasks
--                       has the tasks of its `spawn_task`.
--   Paths               src/v8/v8_helpers.cc and src/v8/builtins/path.cc: the module `kode:path`, with
--                       `std::filesystem::path` as the text of the path; Trim, Stack and Normal are the proofs.
--   Modules             src/v8/module_loader.cc: `require`, the cache and the stack of directories; Extends,
--                       Loading, Cached and Ends are the proofs.
--   FileSystem          src/filesystem/modern_fs.cc: the work of a request; FileSystem/Requests has the
--                       requests between libuv's thread pool and the loop, FileSystem/Legacy
--                       src/filesystem/fs.cc, FileSystem/Opened the callbacks behind its
--                       `OnOpenComplete`, FileSystem/Builtins src/v8/builtins/fs.cc. Store and Exact are
--                       the proofs.
--   CommandLine         src/main.cc, and `Initialize` and `Shutdown` of src/core/runtime.cc, put together with
--                       Runtime/Script; CommandLine/Modes has the proofs, CommandLine/Arguments
--                       follows the arguments to `Kode.args` of src/v8/kode_host.cc, CommandLine/Whole puts it
--                       together with Engine.
--   Host                src/v8/kode_host.cc: the environment and `Kode.sleep`, with Host/Environment; Host/Scope
--                       has the bootstrap script's scopes and tasks, Host/Timeout its `Kode.timeout`.
--   Engine              src/v8/engine.cc, and `FormatTryCatch` of src/v8/v8_helpers.cc: the life of the isolate
--                       and `runScript`; Engine/Failures has the proofs.
--   Encoding            src/v8/builtins/encoding.cc: the module `kode:encoding`, `TextEncoder` and
--                       `TextDecoder`; Encoding/Views has the proofs.
--   Concurrency         src/concurrency/task.cc: the class `ConcurrencyRuntime`; Concurrency/Shutdown has the
--                       proofs. Scheduler/Steal has `steal_task`, Scheduler/Ended a lemma.
--   Values              src/v8/v8_helpers.cc: the arguments of V8's callbacks and their errors, which
--                       Encoding, Paths/Callbacks and Sha256/Callback use.
--
-- State and steps. An object is a record, a method a function from the record to the record and its
-- result. Bytes are native numbers. A method that holds one mutex for its whole body is one step; the
-- theorems about several threads are about every list of such steps. Whatever libuv, the clock or the
-- operating system answers is an argument.
--
-- Fuel. `remove_comments` runs on fuel of one round for each byte, and each round removes two bytes; the
-- digits of `n` run on fuel `n + 1`. The padding of SHA-256 runs on fuel 64, since one of 64 lengths in a
-- row is 56 modulo 64. `require` runs on fuel for the depth in which files load each other, and one
-- round more than there are files is enough. All other loops are structural recursion.
--
-- Integers. `brace_depth` is an unbounded ℤ for an `int` that counts the braces of one text, and `depth`
-- an unbounded number for an `int` that counts parentheses; `stoi` has the bounds of 32 bits. A
-- `char` is its byte. What is handed to V8 as a C string is cut at its first zero byte
-- (`v8_string` of Text). The words of SHA-256 are taken modulo 2 ^ 32 after each sum.
--
-- Outside code. What a theorem takes of it is an argument: the callbacks that `uv_run` runs (Runtime/Timers),
-- what `NewFromUtf8` makes of an argument's bytes (CommandLine/Arguments), whether libuv still holds the
-- buffer in `req->bufs` behind a read (FileSystem/Opened), and whether what was written to a regular file
-- reads back (FileSystem/Store).
--
-- Contexts. `uc_link` of a task is the context of the worker that first ran it. Scheduler/Loop has the end of a
-- task that another worker has stolen since: control goes to the first worker's loop, and the thread that
-- ran the task never comes back to its own. `astray` of the system records that this happened; the theorems
-- about the tasks of all threads are about runs where it did not, and Scheduler/Tests has a run where a task is lost.
--
-- Not modelled. V8 itself, `console.log` and the installation of the host object are calls of V8; what V8
-- makes of a text, and what the effects of a script are, is an argument. The disk is an interface of
-- what the standard library's streams and `std::filesystem` give of it. Of the scheduler, the
-- saving of registers has no model. Messages that only trace the work on
-- `std::cout` are left out. Memory that is freed is not modelled, but for FileSystem/Opened.
pub mod Prelude
pub mod Text
pub mod Channel
pub mod CommandLine
pub mod Concurrency
pub mod Encoding
pub mod Engine
pub mod FileSystem
pub mod Host
pub mod Http
pub mod JsChannels
pub mod Modules
pub mod Parser
pub mod Paths
pub mod Runtime
pub mod Scheduler
pub mod Sha256
pub mod Values
