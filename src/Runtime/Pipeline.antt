-- ===== src/Runtime/Pipeline.antt =====
-- src/parser/parser.cc, src/runtime.cc and src/concurrency/task.h: `Parse`,
-- `KodeRuntime::ExecuteStatement` and the channels in one run of a client. The repository declares
-- `ExecuteStatements` (src/parser/parser.h) without a body, so the loop over the parsed statements,
-- `execute_all`, is the client's own and no code of the program.
use kode.Prelude.{
  ℕ, ◌+◌, ◌^◌, ◌≤◌, ◌<◌, ◌≡◌, ◌⊎◌, refl, sym, ap, ◌∙◌, true, false, List, [], ◌∷◌, ◌++◌, none, some,
  pos, arith, map, All, length, length-append, append_assoc, append-nil,
}
use mathlib.Core.List.{map-append, map-map}
use kode.Text.{Bytes, codes, is_empty, equal, find}
use kode.Text.Find.{equal_self}
use kode.Text.Dict.{lookup, lookup-insert}
use kode.Text.Decimal.{to_string_int, stoll-to_string}
use kode.Channel
use kode.Channel.{Channel, returns, accepted}
use kode.Parser.{Statement}
use kode.Parser.Clean.Lines.{unlines}
use kode.Parser.Line.Calls.{
  ApiCall, create_channel, send_to_channel, receive_from_channel, IsApiCall, source_of,
  statement_of,
}
use kode.Parser.Program.{parse}
use kode.Parser.Program.Filter.{IsPlain, parse-calls}
use kode.Runtime.{
  Action, prints, Runtime, Execution, finished, thrown, blocked, execute_statement, execute_as,
  execute_create, execute_send, execute_receive, capacity_option, to_size, put_channel,
  print_received, after_send, send_found, after_receive, receive_found, logged,
}
use kode.Runtime as Run

-- The client: it has the statements of a program executed, one after the other, as long as none waits
-- or throws.
abbrev and_then : Execution → (Runtime → Execution) → Execution
and_then thrown next = thrown
and_then blocked next = blocked
and_then (finished r result) next = next r

unfoldable pub execute_all : (Bytes → Bytes) → List Statement → Runtime → Execution
execute_all read_file_sync [] r = finished r true
execute_all read_file_sync (stmt ∷ rest) r =
    and_then (execute_statement read_file_sync stmt r) (execute_all read_file_sync rest)

-- A program that makes a channel, sends it some values, and receives as many.
abbrev pub relay : ℕ → Bytes → ℕ → List Bytes → List ApiCall
relay q name capacity values =
    create_channel q name (pos capacity)
    ∷ (map (send_to_channel q name q) values ++ map (λ value. receive_from_channel q name) values)

abbrev pub received : List Bytes → List Action
received values = map (λ value. prints (codes "Received: " ++ value)) values

-- A run that ends in a runtime with that channel and that log.
record EndsIn (name : Bytes) (c : Channel Bytes) (log : List Action) (x : Execution) : Type 0 where
  after : Runtime
  ran : x ≡ finished after true
  held : lookup name after.channels ≡ some c
  logs : after.log ≡ log

send-push :
    (c : Channel Bytes) (value : Bytes)
    → c.closed ≡ false
    → (c.capacity ≡ 0) ⊎ (length c.buffer < c.capacity)
    → Channel.send c value ≡ returns (Channel.push c value) accepted
unfolding Channel.send Channel.send_wait
send-push c value o room = ground arith

receive-front :
    (c : Channel Bytes) (value : Bytes) (rest : List Bytes)
    → c.buffer ≡ value ∷ rest
    → Channel.receive c ≡ returns (record c { buffer = rest }) (some value)
unfolding Channel.receive Channel.take_front
receive-front c value rest b = rw b

module _ (read_file_sync : Bytes → Bytes) (q : ℕ) (name : Bytes)
    (named : is_empty name ≡ false) where
  lookup-put_channel :
      (c : Channel Bytes) (r : Runtime) → lookup name (put_channel name c r).channels ≡ some c
  lookup-put_channel c r = rw (lookup-insert name name c r.channels, equal_self name)

  send_value :
      (c : Channel Bytes) (value : Bytes) (r : Runtime)
      → lookup name r.channels ≡ some c
      → c.closed ≡ false
      → (c.capacity ≡ 0) ⊎ (length c.buffer < c.capacity)
      → execute_statement read_file_sync (statement_of (send_to_channel q name q value)) r
        ≡ finished (put_channel name (Channel.push c value) r) true
  unfolding execute_statement execute_as execute_send lookup Run.send_to_channel send_found
      after_send equal
  send_value c value r h o room = rw (named, h, Run.send_to_channel) (rw (send-push c value o room))

  receive_value :
      (c : Channel Bytes) (value : Bytes) (rest : List Bytes) (r : Runtime)
      → lookup name r.channels ≡ some c
      → c.buffer ≡ value ∷ rest
      → is_empty value ≡ false
      → execute_statement read_file_sync (statement_of (receive_from_channel q name)) r
        ≡ finished
            (logged
              (prints (codes "Received: " ++ value))
              (put_channel name (record c { buffer = rest }) r))
            true
  unfolding execute_statement execute_as execute_receive lookup Run.receive_from_channel
      receive_found after_receive print_received equal
  receive_value c value rest r h b e =
      rw (named, h, Run.receive_from_channel) (rw (receive-front c value rest b) (rw e))

  abbrev sends : List Bytes → List Statement
  sends values = map (λ value. statement_of (send_to_channel q name q value)) values

  abbrev receives : List Bytes → List Statement
  receives values = map (λ value. statement_of (receive_from_channel q name)) values

  receive_values :
      (values : List Bytes) (c : Channel Bytes) (r : Runtime)
      → lookup name r.channels ≡ some c
      → c.buffer ≡ values
      → All (λ value. is_empty value ≡ false) values
      → EndsIn name
          (record c { buffer = [] })
          (r.log ++ received values)
          (execute_all read_file_sync (receives values) r)
  unfolding execute_all
  receive_values [] c r h b e = record {
    after = r;
    ran = refl;
    held = rw (sym b) h;
    logs = sym (append-nil r.log);
  }
  receive_values (value ∷ values) c r h b e =
      rw
        (
          receive_value c value values r h b e.0,
          sym (append_assoc r.log (prints (codes "Received: " ++ value) ∷ []) (received values)),
        )
        (receive_values values (record c { buffer = values }) _
          (lookup-put_channel (record c { buffer = values }) r) refl e.1)

  relay_values :
      (values : List Bytes) (c : Channel Bytes) (r : Runtime)
      → lookup name r.channels ≡ some c
      → c.closed ≡ false
      → (c.capacity ≡ 0) ⊎ (length c.buffer + length values ≤ c.capacity)
      → All (λ value. is_empty value ≡ false) (c.buffer ++ values)
      → EndsIn name
          (record c { buffer = [] })
          (r.log ++ received (c.buffer ++ values))
          (execute_all read_file_sync (sends values ++ receives (c.buffer ++ values)) r)
  unfolding execute_all
  relay_values [] c r h o room e =
      rw (append-nil c.buffer) (receive_values c.buffer c r h refl (rw (append-nil c.buffer) at e))
  relay_values (value ∷ values) c r h o room e =
      rw
        (
          execute_all,
          send_value c value r h o (ground arith),
          sym (append_assoc c.buffer (value ∷ []) values),
        )
        (relay_values values (Channel.push c value) _ (lookup-put_channel (Channel.push c value) r)
          o (ground (arith, length-append c.buffer (value ∷ [])))
          (rw (append_assoc c.buffer (value ∷ []) values) e))

capacity_option-to_string :
    (capacity : ℕ)
    → capacity < 2 ^ 31
    → capacity_option (some (to_string_int (pos capacity))) ≡ capacity
unfolding capacity_option to_size
capacity_option-to_string capacity h =
    rw (stoll-to_string (pos capacity) (omega (arith, h)), capacity_option)

create_statement :
    (read_file_sync : Bytes → Bytes) (q : ℕ) (name : Bytes) (capacity : ℕ) (r : Runtime)
    → is_empty name ≡ false
    → capacity < 2 ^ 31
    → execute_statement read_file_sync (statement_of (create_channel q name (pos capacity))) r
      ≡ finished (put_channel name (Channel.make capacity) r) true
unfolding execute_statement execute_as execute_create lookup equal Run.create_channel
create_statement read_file_sync q name capacity r named h =
    rw named (rw (capacity_option-to_string capacity h))

execute_all_next :
    (read_file_sync : Bytes → Bytes) (stmt : Statement) (rest : List Statement) (r after : Runtime)
    → execute_statement read_file_sync stmt r ≡ finished after true
    → execute_all read_file_sync (stmt ∷ rest) r ≡ execute_all read_file_sync rest after
unfolding execute_all
execute_all_next read_file_sync stmt rest r after e = rw e

statements_of_relay :
    (q : ℕ) (name : Bytes) (capacity : ℕ) (values : List Bytes)
    → map statement_of (relay q name capacity values)
      ≡ statement_of (create_channel q name (pos capacity))
        ∷ (map (λ value. statement_of (send_to_channel q name q value)) values
            ++ map (λ value. statement_of (receive_from_channel q name)) values)
statements_of_relay q name capacity values = rw (
  map-append statement_of (map (send_to_channel q name q) values)
      (map (λ value. receive_from_channel q name) values),
  map-map statement_of (send_to_channel q name q) values,
  map-map statement_of (λ value. receive_from_channel q name) values,
)

-- A client that parses the text of a program which makes a channel, sends it some values and receives
-- as many, and hands each parsed statement to `KodeRuntime::ExecuteStatement` in turn, gets to the end,
-- with the values printed as received, in the order of the sends, and nothing else; where no name and
-- no value is empty, the values fit the channel (or its capacity is 0, with which `send` never
-- waits), the capacity is below 2 ^ 31, the text has no comment, and each line is a call that `Parse` reads.
pub execute-relay :
    (read_file_sync : Bytes → Bytes) (q : ℕ) (name : Bytes) (capacity : ℕ) (values : List Bytes)
    (r : Runtime)
    → is_empty name ≡ false
    → All (λ value. is_empty value ≡ false) values
    → (capacity ≡ 0) ⊎ (length values ≤ capacity)
    → capacity < 2 ^ 31
    → All (λ c. IsApiCall c × IsPlain (source_of c)) (relay q name capacity values)
    → find (codes "//") (unlines (map source_of (relay q name capacity values))) ≡ none
    → (after : Runtime) × (execute_all read_file_sync
          (parse (unlines (map source_of (relay q name capacity values))))
          r
        ≡ finished after true)
      × (after.log ≡ r.log ++ received values)
unfolding Channel.make
execute-relay read_file_sync q name capacity values r named full room small written no_comment =
    let made = put_channel name (Channel.make capacity) r in
    let end =
      relay_values read_file_sync q name named values (Channel.make capacity) made
        (lookup-put_channel read_file_sync q name named (Channel.make capacity) r) refl
        (ground arith) full in
    (
      end.after,
      ap (λ stmts. execute_all read_file_sync stmts r)
            (parse-calls (relay q name capacity values) written no_comment
              ∙ statements_of_relay q name capacity values)
          ∙ execute_all_next read_file_sync _ _ r made
              (create_statement read_file_sync q name capacity r named small)
          ∙ end.ran,
      end.logs,
    )
