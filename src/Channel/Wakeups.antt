-- ===== src/Channel/Wakeups.antt =====
-- No wake-up is lost: a thread sleeps only while what it waits for is missing, or while a thread
-- that was notified has yet to run.
use kode.Prelude.{
  extract, ℕ, zero, suc, ◌+◌, ◌-◌, ◌≤◌, ◌<◌, ◌≡◌, ◌⊎◌, inl, inr, refl, false, List, [], ◌∷◌, none,
  some, arith, length, length-append, Option-cases,
}
use kode.Channel
use kode.Channel.{Channel, Outcome, returns, waits, Sent}
use kode.Channel.System.{
  System, Event, sends, receives, tries_send, tries_receive, closes, sender_runs, receiver_runs,
  sender_stirs, receiver_stirs, init, notify_receiver, notify_sender, resume_sender,
  resume_receiver, close_all, after_send, after_receive, step, run,
}

module _ {ℓ} {A : Type ℓ} where
  extract-length :
      (k : ℕ) (xs : List A) {y : A} {ys : List A}
      → extract k xs ≡ some (y, ys)
      → length xs ≡ suc (length ys)
  unfolding extract
  extract-length k [] e = ground arith
  extract-length zero (x ∷ xs) e = ground arith
  extract-length (suc k) (x ∷ xs) e = elim (Option-cases (extract k xs)) [
    | inl m ↦ ground arith
    | inr (p, m) ↦ ground (arith, extract-length k xs {y = p.0} {ys = p.1} m)
  ]

  extract-none : (k : ℕ) (xs : List A) → extract k xs ≡ none → length xs ≡ 0
  unfolding extract
  extract-none k [] e = refl
  extract-none zero (x ∷ xs) e = cc
  extract-none (suc k) (x ∷ xs) e = ground arith

  -- A sleeping receiver: the channel is open, and each of `n` values has a notified receiver.
  -- A sleeping sender: the channel is open and bounded, and each free slot has a notified sender.
  pub record Covers (n : ℕ) (s : System A) : Type 0 where
    pub recv_open : 0 < s.recv_sleep → s.channel.closed ≡ false
    pub recv_waits : 0 < s.recv_sleep → n ≤ s.recv_ready
    pub send_open : 0 < length s.send_sleep → s.channel.closed ≡ false
    pub send_bounded : 0 < length s.send_sleep + length s.send_ready → 0 < s.channel.capacity
    pub send_waits :
        0 < length s.send_sleep → s.channel.capacity ≤ length s.channel.buffer + length s.send_ready

  abbrev pub IsAwake : System A → Type 0
  IsAwake s = Covers (length s.channel.buffer) s

  send-IsAwake :
      (s : System A) (v : A) → IsAwake s → IsAwake (after_send s v (Channel.send s.channel v))
  unfolding Channel.send notify_receiver
  send-IsAwake s v h = ground (arith, length-append s.channel.buffer (v ∷ []))

  try_send-IsAwake : (s : System A) (v : A) → IsAwake s → IsAwake (step (tries_send v) s)
  unfolding Channel.try_send notify_receiver step
  try_send-IsAwake s v h = ground (arith, length-append s.channel.buffer (v ∷ []))

  resume_sender-IsAwake :
      (s : System A) (v : A) (rest : List A)
      → length s.send_ready ≡ suc (length rest)
      → IsAwake s
      → IsAwake (resume_sender s (some (v, rest)))
  unfolding Channel.send_wait notify_receiver resume_sender
  resume_sender-IsAwake s v rest e h = ground (arith, length-append s.channel.buffer (v ∷ []))

  take_front-IsAwake :
      (k : ℕ) (s : System A) (v : A) (rest : List A)
      → s.channel.buffer ≡ v ∷ rest
      → Covers (length rest) s
      → IsAwake (after_receive k s (Channel.take_front s.channel (v ∷ rest)))
  unfolding notify_sender Channel.take_front
  take_front-IsAwake k s v rest b h = elim (Option-cases (extract k s.send_sleep)) [
    | inl e ↦ ground (arith, extract-none k s.send_sleep e)
    | inr (p, e) ↦ ground (arith, extract-length k s.send_sleep {y = p.0} {ys = p.1} e)
  ]

  receive-IsAwake :
      (k : ℕ) (s : System A) (xs : List A)
      → s.channel.buffer ≡ xs
      → Covers (length xs - 1) s
      → IsAwake (after_receive k s (Channel.receive s.channel))
  unfolding Channel.receive Channel.take_front
  receive-IsAwake k s [] b h = ground arith
  receive-IsAwake k s (x ∷ xs) b h = ground (arith, take_front-IsAwake k s x xs b)

  try_receive-IsAwake :
      (k : ℕ) (s : System A) (xs : List A)
      → s.channel.buffer ≡ xs
      → IsAwake s
      → IsAwake (after_receive k s (Channel.take_front s.channel xs))
  unfolding Channel.take_front
  try_receive-IsAwake k s [] b h = ground arith
  try_receive-IsAwake k s (x ∷ xs) b h = ground (arith, take_front-IsAwake k s x xs b)

  step_sender-IsAwake : (k : ℕ) (s : System A) → IsAwake s → IsAwake (step (sender_runs k) s)
  unfolding step
  step_sender-IsAwake k s h = elim (Option-cases (extract k s.send_ready)) [
    | inl e ↦ rw e (unfold resume_sender in h)
    | inr (p, e) ↦ rw e (resume_sender-IsAwake s p.0 p.1 (extract-length k s.send_ready e) h)
  ]

  stir_sender-IsAwake : (k : ℕ) (s : System A) → IsAwake s → IsAwake (step (sender_stirs k) s)
  unfolding step
  stir_sender-IsAwake k s h = elim (Option-cases (extract k s.send_sleep)) [
    | inl e ↦ rw e h
    | inr (p, e) ↦ ground (arith, extract-length k s.send_sleep {y = p.0} {ys = p.1} e)
  ]

  -- No step of any thread loses a wake-up.
  step-IsAwake : (e : Event A) (s : System A) → IsAwake s → IsAwake (step e s)
  unfolding step
  step-IsAwake (sends v) s h = send-IsAwake s v h
  step-IsAwake (receives k) s h = receive-IsAwake k s s.channel.buffer refl (ground arith)
  step-IsAwake (tries_send v) s h = try_send-IsAwake s v h
  step-IsAwake (tries_receive k) s h =
      rw (Channel.try_receive-take_front s.channel)
        (try_receive-IsAwake k s s.channel.buffer refl h)
  step-IsAwake closes s h =
      unfold close_all Channel.close in ground (arith, length-append s.send_sleep s.send_ready)
  step-IsAwake (sender_runs k) s h = step_sender-IsAwake k s h
  step-IsAwake (receiver_runs k) s h =
      unfold resume_receiver in
      ground (
        arith,
        receive-IsAwake k (record s { recv_ready = s.recv_ready - 1 }) s.channel.buffer refl,
      )
  step-IsAwake (sender_stirs k) s h = stir_sender-IsAwake k s h
  step-IsAwake receiver_stirs s h = unfold notify_receiver in ground arith

  run-IsAwake : (es : List (Event A)) (s : System A) → IsAwake s → IsAwake (run es s)
  unfolding run
  run-IsAwake [] s h = h
  run-IsAwake (e ∷ es) s h = run-IsAwake es (step e s) (step-IsAwake e s h)

  init-IsAwake : (n : ℕ) → IsAwake (init n)
  unfolding init Channel.make
  init-IsAwake n = ground arith

  -- Who sleeps, and on what.
  abbrev pub Asleep : System A → Type 0
  Asleep s =
      ((s.recv_sleep ≡ 0) ⊎ ((s.channel.closed ≡ false) × (length s.channel.buffer ≡ 0)))
      × ((length s.send_sleep ≡ 0)
          ⊎ ((s.channel.closed ≡ false)
              × (0 < s.channel.capacity)
              × (s.channel.capacity ≤ length s.channel.buffer)))
      × ((s.recv_sleep ≡ 0) ⊎ (length s.send_sleep ≡ 0))

  Asleep-quiet : (s : System A) → IsAwake s → s.recv_ready ≡ 0 → length s.send_ready ≡ 0 → Asleep s
  Asleep-quiet s h r t = ground arith

  -- After any interleaving that leaves no notified thread waiting to run: either no receiver sleeps,
  -- or the channel is open and empty; either no sender sleeps, or the channel is open, bounded and
  -- full; and not both a receiver and a sender sleep.
  pub run-Asleep :
      (n : ℕ) (es : List (Event A))
      → (run es (init n)).recv_ready ≡ 0
      → length (run es (init n)).send_ready ≡ 0
      → Asleep (run es (init n))
  run-Asleep n es r t =
      Asleep-quiet (run es (init n)) (run-IsAwake es (init n) (init-IsAwake n)) r t
