-- ===== src/Runtime.antt =====
-- src/core/runtime.cc: `ExecuteStatement` and the named channels of `KodeRuntime`.
-- The file system, the timers and the tasks are outside: what is asked of them is logged, in order,
-- with what is printed; what `ReadFileSync` gives is an argument.
pub mod Pipeline
pub mod Parsed
pub mod Script
pub mod Timers
mod Tests
use kode.Prelude.{
  ℕ, ◌+◌, ◌-◌, ◌^◌, Bool, true, false, List, [], ◌∷◌, ◌++◌, Option, none, some, ℤ, pos, negsuc,
  if◌then◌else◌,
}
use kode.Text.{Bytes, codes, is_empty}
use kode.Text.Dict.{lookup, insert}
use kode.Text.Decimal.{stoi, stoll}
use kode.Channel
use kode.Channel.{Channel, Outcome, returns, waits, Sent}
use kode.Parser.{
  StatementType, console_log, set_timeout, fs_read_file, fs_read_file_sync, fs_write_file,
  kode_spawn, ch_create, ch_send, ch_recv, yield_op, with_timeout, require, const_declaration,
  let_declaration, var_declaration, Statement,
}

pub data Action : Type 0 where
  prints : Bytes → Action
  sets_timer : Bytes → ℤ → Action
  reads_file : Bytes → Action
  writes_file : Bytes → Bytes → Action
  spawns_task : Bytes → Action
  spawns_with_timeout : ℤ → Bytes → Action
  yields_task : Action

-- `concurrent` says whether `concurrency_runtime` is set.
pub record Runtime : Type 0 where
  pub channels : List (Bytes × Channel Bytes)
  pub concurrent : Bool
  pub log : List Action

-- A statement returns its Boolean, throws, or waits inside a channel for another thread.
pub data Execution : Type 0 where
  finished : Runtime → Bool → Execution
  thrown : Execution
  blocked : Execution

abbrev pub logged : Action → Runtime → Runtime
logged a r = record r { log = r.log ++ a ∷ [] }

abbrev pub put_channel : Bytes → Channel Bytes → Runtime → Runtime
put_channel name c r = record r { channels = insert name c r.channels }

-- `createChannel`.
unfoldable pub create_channel : Bytes → ℕ → Runtime → Runtime
create_channel name capacity r = put_channel name (Channel.make capacity) r

not_found : Bytes → Action
not_found name = prints (codes "Error: Channel '" ++ (name ++ codes "' not found"))

-- `sendToChannel`: a refused value is dropped without a word.
unfoldable pub after_send : Bytes → Outcome Bytes (Sent) → Runtime → Execution
after_send name waits r = blocked
after_send name (returns c sent) r = finished (put_channel name c r) true

unfoldable pub send_found : Bytes → Bytes → Option (Channel Bytes) → Runtime → Execution
unfolding after_send not_found
send_found name value none r = finished (logged (not_found name) r) true
send_found name value (some c) r = after_send name (Channel.send c value) r

unfoldable pub send_to_channel : Bytes → Bytes → Runtime → Execution
unfolding send_found
send_to_channel name value r = send_found name value (lookup name r.channels) r

-- `std::cout << "Received: " << val`, unless it is empty.
unfoldable pub print_received : Bytes → Runtime → Runtime
print_received value r =
    if is_empty value then r else logged (prints (codes "Received: " ++ value)) r

-- `receiveFromChannel`; a closed channel leaves `value` empty.
unfoldable pub after_receive : Bytes → Outcome Bytes (Option Bytes) → Runtime → Execution
unfolding print_received
after_receive name waits r = blocked
after_receive name (returns c none) r = finished (put_channel name c r) true
after_receive name (returns c (some value)) r =
    finished (print_received value (put_channel name c r)) true

unfoldable pub receive_found : Bytes → Option (Channel Bytes) → Runtime → Execution
unfolding after_receive not_found
receive_found name none r = finished (logged (not_found name) r) true
receive_found name (some c) r = after_receive name (Channel.receive c) r

unfoldable pub receive_from_channel : Bytes → Runtime → Execution
unfolding receive_found
receive_from_channel name r = receive_found name (lookup name r.channels) r

-- `auto it = stmt.options.find(key); if (it != end) … it->second`.
abbrev pub option_or : Bytes → Bytes → Statement → Bytes
option_or key default stmt = elim (lookup key stmt.options) [ none ↦ default | some v ↦ v ]

abbrev stoi_option : Option Bytes → ℤ → ℤ
stoi_option none default = default
stoi_option (some text) default = elim (stoi text) [ none ↦ default | some z ↦ z ]

-- `static_cast<size_t>`.
unfoldable pub to_size : ℤ → ℕ
to_size (pos n) = n
to_size (negsuc n) = 2 ^ 64 - (n + 1)

unfoldable pub capacity_option : Option Bytes → ℕ
unfolding to_size
capacity_option none = 0
capacity_option (some text) = elim (stoll text) [ none ↦ 0 | some z ↦ to_size z ]

abbrev needs_tasks : Runtime → Action → Execution
needs_tasks r a = if r.concurrent then finished (logged a r) true else thrown

unfoldable pub execute_create : Statement → Runtime → Execution
unfolding capacity_option
execute_create stmt r =
    let name = option_or (codes "name") [] stmt in
    if is_empty name
    then finished r true
    else finished (create_channel name (capacity_option (lookup (codes "capacity") stmt.options)) r)
        true

unfoldable pub execute_send : Statement → Runtime → Execution
execute_send stmt r =
    let name = option_or (codes "name") [] stmt in
    let sent = send_to_channel name (option_or (codes "value") [] stmt) r in
    if is_empty name then finished r true else sent

unfoldable pub execute_receive : Statement → Runtime → Execution
execute_receive stmt r =
    let name = option_or (codes "name") [] stmt in
    let received = receive_from_channel name r in
    if is_empty name then finished r true else received

unfoldable pub print_file : Bytes → Bytes → Action
print_file path content =
    if is_empty content
    then prints (codes "Error: Could not read file " ++ path)
    else prints content

-- `ExecuteStatement`; the last action stands for the help text.
unfoldable pub execute_as : (Bytes → Bytes) → StatementType → Statement → Runtime → Execution
unfolding execute_create execute_send execute_receive print_file
execute_as read_file_sync console_log stmt r = finished (logged (prints stmt.content) r) true
execute_as read_file_sync set_timeout stmt r =
    finished
      (logged
        (sets_timer (codes "Timeout callback executed!")
          (stoi_option (lookup (codes "delay") stmt.options) (pos 1000)))
        r)
      true
execute_as read_file_sync fs_read_file stmt r = finished (logged (reads_file stmt.content) r) true
execute_as read_file_sync fs_read_file_sync stmt r =
    finished (logged (print_file stmt.content (read_file_sync stmt.content)) r) true
execute_as read_file_sync fs_write_file stmt r =
    finished
      (logged
        (writes_file stmt.content
          (option_or (codes "content") (codes "Hello from Kode Runtime with Modern FS!") stmt))
        r)
      true
execute_as read_file_sync kode_spawn stmt r =
    if is_empty stmt.content then finished r true else needs_tasks r (spawns_task stmt.content)
execute_as read_file_sync ch_create stmt r = execute_create stmt r
execute_as read_file_sync ch_send stmt r = execute_send stmt r
execute_as read_file_sync ch_recv stmt r = execute_receive stmt r
execute_as read_file_sync yield_op stmt r =
    finished (if r.concurrent then logged yields_task r else r) true
execute_as read_file_sync with_timeout stmt r =
    needs_tasks r (
      spawns_with_timeout (stoi_option (lookup (codes "timeout") stmt.options) (pos 0))
        stmt.content)
execute_as read_file_sync require stmt r = finished r true
execute_as read_file_sync const_declaration stmt r = finished r true
execute_as read_file_sync let_declaration stmt r = finished r true
execute_as read_file_sync var_declaration stmt r = finished r true
execute_as read_file_sync _ stmt r =
    finished (logged (prints (codes "[Runtime] Unknown statement - available commands:")) r) false

unfoldable pub execute_statement : (Bytes → Bytes) → Statement → Runtime → Execution
unfolding execute_as
execute_statement read_file_sync stmt r = execute_as read_file_sync stmt.type stmt r
