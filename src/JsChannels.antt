-- ===== src/JsChannels.antt =====
-- src/concurrency/task.cc: `create_channel`, `send_to_channel` and `receive_from_channel` of the
-- namespace `JSConcurrency`. Each has a static map `channels` of its own.
pub mod Tasks
mod Tests
use kode.Prelude.{ℕ, ◌≡◌, refl, ap, Bool, true, false, List, [], ◌∷◌, Option, none, some, map, ◌∙◌}
use kode.Text.{Bytes}
use kode.Text.Dict.{lookup, insert}
use kode.Channel
use kode.Channel.{Channel, Outcome, returns, waits, Sent, accepted, refused}

-- The three maps, named for the functions that hold them.
pub record Registries : Type 0 where
  pub in_create : List (Bytes × Channel Bytes)
  pub in_send : List (Bytes × Channel Bytes)
  pub in_receive : List (Bytes × Channel Bytes)

abbrev pub at_start : Registries
at_start = record { in_create = []; in_send = []; in_receive = [] }

-- What a call prints or returns; `sleeps` is a call that waits inside the channel.
pub data Answer : Type 0 where
  made : Answer
  sent : Bool → Answer
  received : Bytes → Answer
  closed_or_empty : Answer
  not_found : Answer
  sleeps : Answer

unfoldable pub create_channel : Bytes → ℕ → Registries → Registries × Answer
create_channel name capacity r =
    (record r { in_create = insert name (Channel.make capacity) r.in_create }, made)

unfoldable pub send_found : Bytes → Outcome Bytes (Sent) → Registries → Registries × Answer
send_found name waits r = (r, sleeps)
send_found name (returns c accepted) r = (record r { in_send = insert name c r.in_send }, sent true)
send_found name (returns c refused) r = (record r { in_send = insert name c r.in_send }, sent false)

unfoldable pub send_to_channel : Bytes → Bytes → Registries → Registries × Answer
unfolding send_found
send_to_channel name value r = elim (lookup name r.in_send) [
  | none ↦ (r, not_found)
  | some c ↦ send_found name (Channel.send c value) r
]

unfoldable pub receive_found :
    Bytes → Outcome Bytes (Option Bytes) → Registries → Registries × Answer
receive_found name waits r = (r, sleeps)
receive_found name (returns c none) r =
    (record r { in_receive = insert name c r.in_receive }, closed_or_empty)
receive_found name (returns c (some value)) r =
    (record r { in_receive = insert name c r.in_receive }, received value)

unfoldable pub receive_from_channel : Bytes → Registries → Registries × Answer
unfolding receive_found
receive_from_channel name r = elim (lookup name r.in_receive) [
  | none ↦ (r, not_found)
  | some c ↦ receive_found name (Channel.receive c) r
]

pub data Call : Type 0 where
  creates : Bytes → ℕ → Call
  sends : Bytes → Bytes → Call
  receives : Bytes → Call

unfoldable pub call : Call → Registries → Registries × Answer
unfolding create_channel send_to_channel receive_from_channel
call (creates name capacity) r = create_channel name capacity r
call (sends name value) r = send_to_channel name value r
call (receives name) r = receive_from_channel name r

-- The answers to some calls, one after the other.
unfoldable pub answers : List Call → Registries → List Answer
answers [] r = []
answers (c ∷ cs) r = let (after, a) = call c r in a ∷ answers cs after

abbrev pub fate : Call → Answer
fate (creates name capacity) = made
fate (sends name value) = not_found
fate (receives name) = not_found

answers-fate_from :
    (cs : List Call) (r : Registries)
    → r.in_send ≡ []
    → r.in_receive ≡ []
    → answers cs r ≡ map fate cs
unfolding answers call lookup
answers-fate_from [] r s t = refl
answers-fate_from (creates name capacity ∷ cs) r s t = ap (◌∷◌ made) (answers-fate_from cs _ s t)
answers-fate_from (sends name value ∷ cs) r s t =
    rw s (ap (◌∷◌ not_found) (answers-fate_from cs _ refl t))
answers-fate_from (receives name ∷ cs) r s t =
    rw t (ap (◌∷◌ not_found) (answers-fate_from cs _ s refl))

-- Whatever channels are created, in whatever order the calls come: every send and every receive
-- finds no channel.
pub answers-fate : (cs : List Call) → answers cs at_start ≡ map fate cs
answers-fate cs = answers-fate_from cs at_start refl refl
