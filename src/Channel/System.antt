-- ===== src/Channel/System.antt =====
-- A channel together with the threads that use it. The wake-ups of `notify_one` and `notify_all` are
-- written out: a notified thread is ready, and runs on when the schedule resumes it.
use kode.Prelude.{
  extract, ℕ, suc, ◌+◌, ◌-◌, List, [], ◌∷◌, ◌++◌, Option, none, some, ltb, if◌then◌else◌,
}
use kode.Channel
use kode.Channel.{Channel, Outcome, returns, waits, Sent, accepted, refused}

-- `sent` and `received` record the accepted sends and the values handed out, oldest first.
pub record System {ℓ} (A : Type ℓ) : Type ℓ where
  pub channel : Channel A
  pub send_sleep : List A
  pub send_ready : List A
  pub recv_sleep : ℕ
  pub recv_ready : ℕ
  pub sent : List A
  pub received : List A

-- A number says which of the sleeping senders a notification wakes, or which ready one runs.
pub data Event {ℓ} (A : Type ℓ) : Type ℓ where
  sends : A → Event A
  receives : ℕ → Event A
  tries_send : A → Event A
  tries_receive : ℕ → Event A
  closes : Event A
  sender_runs : ℕ → Event A
  receiver_runs : ℕ → Event A
  sender_stirs : ℕ → Event A
  receiver_stirs : Event A

module _ {ℓ} {A : Type ℓ} where
  unfoldable pub init : ℕ → System A
  init capacity = record {
    channel = Channel.make capacity;
    send_sleep = [];
    send_ready = [];
    recv_sleep = 0;
    recv_ready = 0;
    sent = [];
    received = [];
  }

  -- `not_empty_.notify_one()`.
  unfoldable pub notify_receiver : System A → System A
  notify_receiver s =
      if ltb 0 s.recv_sleep
      then record s { recv_sleep = s.recv_sleep - 1; recv_ready = suc s.recv_ready }
      else s

  wake_sender : System A → Option (A × List A) → System A
  wake_sender s none = s
  wake_sender s (some (v, rest)) = record s { send_sleep = rest; send_ready = v ∷ s.send_ready }

  -- `if (capacity_ > 0) not_full_.notify_one();`.
  unfoldable pub notify_sender : ℕ → System A → System A
  unfolding wake_sender
  notify_sender k s = if ltb 0 s.channel.capacity then wake_sender s (extract k s.send_sleep) else s

  -- What a send that has run does to the system; a push is followed by `not_empty_.notify_one()`.
  abbrev pub after_send : System A → A → Outcome A (Sent {ℓ}) → System A
  after_send s v waits = record s { send_sleep = v ∷ s.send_sleep }
  after_send s v (returns c refused) = record s { channel = c }
  after_send s v (returns c accepted) =
      notify_receiver (record s { channel = c; sent = s.sent ++ v ∷ [] })

  abbrev pub after_receive : ℕ → System A → Outcome A (Option A) → System A
  after_receive k s waits = record s { recv_sleep = suc s.recv_sleep }
  after_receive k s (returns c none) = record s { channel = c }
  after_receive k s (returns c (some v)) =
      notify_sender k (record s { channel = c; received = s.received ++ v ∷ [] })

  unfoldable pub resume_sender : System A → Option (A × List A) → System A
  resume_sender s none = s
  resume_sender s (some (v, rest)) =
      after_send (record s { send_ready = rest }) v (Channel.send_wait s.channel v)

  unfoldable pub resume_receiver : ℕ → System A → System A
  resume_receiver k s =
      if ltb 0 s.recv_ready
      then after_receive k (record s { recv_ready = s.recv_ready - 1 }) (Channel.receive s.channel)
      else s

  -- `notify_all` on both condition variables.
  unfoldable pub close_all : System A → System A
  close_all s = record s {
    channel = Channel.close s.channel;
    send_sleep = [];
    send_ready = s.send_sleep ++ s.send_ready;
    recv_sleep = 0;
    recv_ready = s.recv_sleep + s.recv_ready;
  }

  unfoldable pub step : Event A → System A → System A
  unfolding wake_sender
  step (sends v) s = after_send s v (Channel.send s.channel v)
  step (receives k) s = after_receive k s (Channel.receive s.channel)
  step (tries_send v) s = let (c, r) = Channel.try_send s.channel v in after_send s v (returns c r)
  step (tries_receive k) s =
      let (c, r) = Channel.try_receive s.channel in after_receive k s (returns c r)
  step closes s = close_all s
  step (sender_runs k) s = resume_sender s (extract k s.send_ready)
  step (receiver_runs k) s = resume_receiver k s
  -- Spurious wake-ups, which condition variables allow.
  step (sender_stirs k) s = wake_sender s (extract k s.send_sleep)
  step receiver_stirs s = notify_receiver s

  unfoldable pub run : List (Event A) → System A → System A
  run [] s = s
  run (e ∷ es) s = run es (step e s)
