-- ===== src/Channel/Tests.antt =====
-- The channel's theorems at concrete inputs.
use kode.Prelude.{extract, ℕ, ◌≡◌, refl, false, List, [], ◌∷◌, none, some}
use kode.Channel
use kode.Channel.{Channel, accepted, refused}
use kode.Channel.Mailbox.{
  Call, tries_send, tries_receive, closes, asks_size, Reply, size_is, done, log_replies,
  channel_replies, channel_replies-log_replies,
}
use kode.Channel.System.{
  Event, sends, receives, sender_runs, receiver_runs, init, run, step, notify_receiver,
  notify_sender, resume_sender, resume_receiver,
}
use kode.Channel.Order.{IsSound, run-init-IsSound, receives_all, close_drains}
use kode.Channel.Wakeups.{Asleep, run-Asleep}

-- A receiver goes to sleep, a value wakes it, and it runs; then the one slot fills and a second
-- sender sleeps until the slot is free.
abbrev handover : List (Event ℕ)
handover =
    receives 0
    ∷ sends 7
    ∷ receiver_runs 0
    ∷ sends 8
    ∷ sends 9
    ∷ receives 0
    ∷ sender_runs 0
    ∷ receives 0
    ∷ []

run-handover : (run handover (init 1)).received ≡ 7 ∷ 8 ∷ 9 ∷ []
unfolding run init Channel.make step Channel.send Channel.receive Channel.send_wait resume_receiver
    resume_sender notify_receiver notify_sender extract
run-handover = refl

run-init-IsSound_example : IsSound 1 (run handover (init 1))
run-init-IsSound_example = run-init-IsSound 1 handover

run-Asleep_example : Asleep (run handover (init 1))
unfolding run init Channel.make step Channel.send Channel.receive Channel.send_wait resume_receiver
    resume_sender notify_receiver notify_sender extract
run-Asleep_example = run-Asleep 1 handover refl refl

abbrev two_queued : Channel ℕ
two_queued = record { buffer = 3 ∷ 4 ∷ []; capacity = 2; closed = false }

close_drains_example :
    receives_all 3 (Channel.close two_queued) ≡ some (some 3) ∷ some (some 4) ∷ some none ∷ []
close_drains_example = close_drains two_queued 1

abbrev calls : List (Call ℕ)
calls =
    tries_send 4
    ∷ tries_send 5
    ∷ tries_send 6
    ∷ tries_receive
    ∷ asks_size
    ∷ closes
    ∷ tries_send 7
    ∷ tries_receive
    ∷ tries_receive
    ∷ []

replies :
    log_replies 2 calls (record { sent = []; taken = 0; over = false })
    ≡ Reply.sends accepted
      ∷ Reply.sends accepted
      ∷ Reply.sends refused
      ∷ Reply.receives (some 4)
      ∷ size_is 1
      ∷ done
      ∷ Reply.sends refused
      ∷ Reply.receives (some 5)
      ∷ Reply.receives none
      ∷ []
unfolding log_replies
replies = refl

channel_replies-log_replies_example :
    channel_replies calls (Channel.make 2)
    ≡ log_replies 2 calls (record { sent = []; taken = 0; over = false })
channel_replies-log_replies_example = channel_replies-log_replies 2 calls
