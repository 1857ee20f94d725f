-- ===== src/Channel/Order.antt =====
-- What a channel does with its values, whatever the interleaving of the threads that use it.
use kode.Prelude.{
  extract, ℕ, zero, suc, ◌+◌, ◌-◌, ◌≤◌, ◌≡◌, refl, inr, ◌⊎◌, true, List, [], ◌∷◌, ◌++◌, Option,
  none, some, map, arith, append_assoc, length, length-append, replicate, ap,
}
use native.Mathlib.Nat.{zero-add, suc-add}
use kode.Channel
use kode.Channel.{Channel, Outcome, returns, waits, Sent}
use kode.Channel.System.{
  System, Event, sends, receives, tries_send, tries_receive, closes, sender_runs, receiver_runs,
  sender_stirs, receiver_stirs, init, notify_receiver, notify_sender, resume_sender,
  resume_receiver, close_all, after_send, after_receive, step, run,
}

module _ {ℓ} {A : Type ℓ} where
  -- What was accepted has been handed out, in order, or is still queued; a bounded channel is not
  -- overfull.
  pub record IsSound (capacity : ℕ) (s : System A) : Type ℓ where
    pub queued : s.sent ≡ s.received ++ s.channel.buffer
    pub fixed : s.channel.capacity ≡ capacity
    pub within : (capacity ≡ 0) ⊎ (length s.channel.buffer ≤ capacity)

  send-IsSound :
      (n : ℕ) (s : System A) (v : A)
      → IsSound n s
      → IsSound n (after_send s v (Channel.send s.channel v))
  unfolding Channel.send notify_receiver
  send-IsSound n s v h = ground (
    arith,
    append_assoc s.received s.channel.buffer (v ∷ []),
    length-append s.channel.buffer (v ∷ []),
  )

  send_wait-IsSound :
      (n : ℕ) (s : System A) (v : A)
      → IsSound n s
      → IsSound n (after_send s v (Channel.send_wait s.channel v))
  unfolding Channel.send_wait notify_receiver
  send_wait-IsSound n s v h = ground (
    arith,
    append_assoc s.received s.channel.buffer (v ∷ []),
    length-append s.channel.buffer (v ∷ []),
  )

  try_send-IsSound :
      (n : ℕ) (s : System A) (v : A) → IsSound n s → IsSound n (step (tries_send v) s)
  unfolding Channel.try_send notify_receiver step
  try_send-IsSound n s v h = ground (
    arith,
    append_assoc s.received s.channel.buffer (v ∷ []),
    length-append s.channel.buffer (v ∷ []),
  )

  notify_sender-IsSound : (n k : ℕ) (s : System A) → IsSound n s → IsSound n (notify_sender k s)
  unfolding notify_sender
  notify_sender-IsSound n k s h = ground arith

  take_front-IsSound :
      (n k : ℕ) (s : System A) (xs : List A)
      → s.channel.buffer ≡ xs
      → IsSound n s
      → IsSound n (after_receive k s (Channel.take_front s.channel xs))
  unfolding Channel.take_front
  take_front-IsSound n k s [] e h = ground arith
  take_front-IsSound n k s (x ∷ xs) e h = notify_sender-IsSound n k _ (record {
    queued = ground (arith, append_assoc s.received (x ∷ []) xs);
    fixed = h.fixed;
    within = ground arith;
  })

  receive-IsSound :
      (n k : ℕ) (s : System A)
      → IsSound n s
      → IsSound n (after_receive k s (Channel.receive s.channel))
  unfolding Channel.receive
  receive-IsSound n k s h = ground (arith, take_front-IsSound n k s s.channel.buffer refl h)

  try_receive-IsSound :
      (n k : ℕ) (s : System A) → IsSound n s → IsSound n (step (tries_receive k) s)
  unfolding step
  try_receive-IsSound n k s h =
      rw (Channel.try_receive-take_front s.channel)
        (take_front-IsSound n k s s.channel.buffer refl h)

  resume_sender-IsSound :
      (n : ℕ) (s : System A) (o : Option (A × List A)) → IsSound n s → IsSound n (resume_sender s o)
  unfolding resume_sender
  resume_sender-IsSound n s none h = h
  resume_sender-IsSound n s (some (v, rest)) h =
      send_wait-IsSound n (record s { send_ready = rest }) v
        (record { queued = h.queued; fixed = h.fixed; within = h.within })

  -- Every step of every thread keeps the channel sound.
  step-IsSound : (n : ℕ) (e : Event A) (s : System A) → IsSound n s → IsSound n (step e s)
  unfolding step
  step-IsSound n (sends v) s h = send-IsSound n s v h
  step-IsSound n (receives k) s h = receive-IsSound n k s h
  step-IsSound n (tries_send v) s h = try_send-IsSound n s v h
  step-IsSound n (tries_receive k) s h = try_receive-IsSound n k s h
  step-IsSound n closes s h =
      unfold close_all Channel.close in
      record { queued = h.queued; fixed = h.fixed; within = h.within }
  step-IsSound n (sender_runs k) s h = resume_sender-IsSound n s (extract k s.send_ready) h
  step-IsSound n (receiver_runs k) s h =
      unfold resume_receiver in
      ground (
        arith,
        receive-IsSound n k (record s { recv_ready = s.recv_ready - 1 })
            (record { queued = h.queued; fixed = h.fixed; within = h.within }),
      )
  step-IsSound n (sender_stirs k) s h = ground arith
  step-IsSound n receiver_stirs s h = unfold notify_receiver in ground arith

  run-IsSound : (n : ℕ) (es : List (Event A)) (s : System A) → IsSound n s → IsSound n (run es s)
  unfolding run
  run-IsSound n [] s h = h
  run-IsSound n (e ∷ es) s h = run-IsSound n es (step e s) (step-IsSound n e s h)

  -- After any interleaving of the threads that use a channel, the values handed out, followed by
  -- those still queued, are the values accepted, in the order of their sends; the capacity is as it was
  -- made, and it bounds the queue unless it is 0.
  pub run-init-IsSound : (n : ℕ) (es : List (Event A)) → IsSound n (run es (init n))
  unfolding init Channel.make
  run-init-IsSound n es =
      run-IsSound n es (init n) (record { queued = refl; fixed = refl; within = inr (omega arith) })

  -- The results of `n` receives in a row; `none` is a receive that waits.
  result_of : Outcome A (Option A) → Option (Option A)
  result_of waits = none
  result_of (returns c r) = some r

  channel_after : Channel A → Outcome A (Option A) → Channel A
  channel_after c waits = c
  channel_after c (returns d r) = d

  pub receives_all : ℕ → Channel A → List (Option (Option A))
  receives_all zero c = []
  receives_all (suc n) c =
      result_of (Channel.receive c) ∷ receives_all n (channel_after c (Channel.receive c))

  receives_all-closed :
      (xs : List A) (n k : ℕ)
      → receives_all (length xs + n) (record { buffer = xs; capacity = k; closed = true })
        ≡ map (λ v. some (some v)) xs ++ replicate n (some none)
  unfolding receives_all Channel.receive result_of channel_after
  receives_all-closed [] zero k = refl
  receives_all-closed [] (suc n) k =
      rw zero-add (ap (◌∷◌ (some none)) (rw zero-add at (receives_all-closed [] n k)))
  receives_all-closed (x ∷ xs) n k =
      rw suc-add (ap (◌∷◌ (some (some x))) (receives_all-closed xs n k))

  -- A closed channel hands out what it holds, oldest first, and then says that it is closed: no
  -- receive on it waits.
  pub close_drains :
      (c : Channel A) (n : ℕ)
      → receives_all (length c.buffer + n) (Channel.close c)
        ≡ map (λ v. some (some v)) c.buffer ++ replicate n (some none)
  unfolding Channel.close
  close_drains c n = receives_all-closed c.buffer n c.capacity
