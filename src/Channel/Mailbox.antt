-- ===== src/Channel/Mailbox.antt =====
-- src/concurrency/task.h: `Channel<T>`, where no call waits, against a log with a cursor.
use kode.Prelude.{
  ℕ, zero, suc, ◌+◌, ◌-◌, ◌≤◌, ◌≡◌, refl, sym, ap, Bool, true, false, ◌&&◌, ◌||◌, List, [], ◌∷◌,
  ◌++◌, Option, none, some, arith, ltb, leb, length, drop, get_elem?, length-drop, length-append,
  if◌then◌else◌,
}
use native.Mathlib.Nat.{suc-add}
use kode.Channel
use kode.Channel.{Channel, Sent, accepted, refused}

module _ {ℓ} (A : Type ℓ) where
  -- The calls that never wait, and what the caller sees of them.
  pub data Call : Type ℓ where
    tries_send : A → Call
    tries_receive closes asks_closed asks_size : Call

  pub data Reply : Type ℓ where
    sends : Sent {ℓ} → Reply
    receives : Option A → Reply
    done : Reply
    closed_is : Bool → Reply
    size_is : ℕ → Reply

  -- All that was ever sent, how much of it was handed out, and whether sending is over.
  pub record Log : Type ℓ where
    pub sent : List A
    pub taken : ℕ
    pub over : Bool

module _ {ℓ} {A : Type ℓ} where
  unfoldable pub call_channel : Call A → Channel A → Channel A × Reply A
  unfolding Channel.try_send Channel.try_receive Channel.close Channel.is_closed Channel.size
  call_channel (tries_send v) c = let (d, r) = Channel.try_send c v in (d, sends r)
  call_channel tries_receive c = let (d, r) = Channel.try_receive c in (d, receives r)
  call_channel closes c = (Channel.close c, done)
  call_channel asks_closed c = (c, closed_is (Channel.is_closed c))
  call_channel asks_size c = (c, size_is (Channel.size c))

  advance : Log A → Option A → Log A × Reply A
  advance s none = (s, receives none)
  advance s (some v) = (record s { taken = s.taken + 1 }, receives (some v))

  unfoldable pub call_log : ℕ → Call A → Log A → Log A × Reply A
  unfolding advance
  call_log capacity (tries_send v) s =
      if s.over || (ltb 0 capacity && leb capacity (length s.sent - s.taken))
      then (s, sends refused)
      else (record s { sent = s.sent ++ v ∷ [] }, sends accepted)
  call_log capacity tries_receive s = advance s (get_elem? s.sent s.taken)
  call_log capacity closes s = (record s { over = true }, done)
  call_log capacity asks_closed s = (s, closed_is s.over)
  call_log capacity asks_size s = (s, size_is (length s.sent - s.taken))

  unfoldable pub channel_replies : List (Call A) → Channel A → List (Reply A)
  unfolding call_channel
  channel_replies [] c = []
  channel_replies (call ∷ calls) c =
      let (d, reply) = call_channel call c in reply ∷ channel_replies calls d

  unfoldable pub log_replies : ℕ → List (Call A) → Log A → List (Reply A)
  unfolding call_log
  log_replies capacity [] s = []
  log_replies capacity (call ∷ calls) s =
      let (t, reply) = call_log capacity call s in reply ∷ log_replies capacity calls t

  -- The buffer is the part of the log behind the cursor.
  record Shows (capacity : ℕ) (c : Channel A) (s : Log A) : Type ℓ where
    behind : drop s.taken s.sent ≡ c.buffer
    inside : s.taken ≤ length s.sent
    same_capacity : c.capacity ≡ capacity
    same_end : c.closed ≡ s.over

  drop-append : (n : ℕ) (xs ys : List A) → n ≤ length xs → drop n (xs ++ ys) ≡ drop n xs ++ ys
  drop-append zero xs ys h = refl
  drop-append (suc n) [] ys h = absurd (omega arith)
  drop-append (suc n) (x ∷ xs) ys h = drop-append n xs ys (omega (arith, h))

  drop_nil : (n : ℕ) (xs : List A) → drop n xs ≡ [] → get_elem? xs n ≡ none
  drop_nil zero [] h = refl
  drop_nil zero (x ∷ xs) h = absurd cc
  drop_nil (suc n) [] h = refl
  drop_nil (suc n) (x ∷ xs) h = drop_nil n xs h

  drop_cons :
      (n : ℕ) (xs ys : List A) (y : A)
      → drop n xs ≡ y ∷ ys
      → (get_elem? xs n ≡ some y) × (drop (n + 1) xs ≡ ys) × (n + 1 ≤ length xs)
  drop_cons zero [] ys y h = absurd cc
  drop_cons zero (x ∷ xs) ys y h =
      let a : x ≡ y = cc in let b : xs ≡ ys = cc in (ap some a, b, omega arith)
  drop_cons (suc n) [] ys y h = absurd cc
  drop_cons (suc n) (x ∷ xs) ys y h =
      let (a, b, c) = drop_cons n xs ys y h in (a, rw suc-add b, omega (arith, c))

  -- How much is pending.
  pending :
      (n : ℕ) (c : Channel A) (s : Log A) → Shows n c s → length s.sent - s.taken ≡ length c.buffer
  pending n c s h = omega (arith, length-drop s.taken s.sent, ap length h.behind)

  send-Shows :
      (n : ℕ) (c : Channel A) (s : Log A) (v : A)
      → Shows n c s
      → ((call_channel (tries_send v) c).1 ≡ (call_log n (tries_send v) s).1)
        × Shows n (call_channel (tries_send v) c).0 (call_log n (tries_send v) s).0
  unfolding call_channel call_log Channel.try_send
  send-Shows n c s v h = ground (
    arith,
    pending n c s h,
    drop-append s.taken s.sent (v ∷ []) h.inside,
    length-append s.sent (v ∷ []),
  )

  receive_from :
      (n : ℕ) (buffer : List A) (capacity : ℕ) (closed : Bool) (s : Log A)
      → (let c : Channel A = record { buffer = buffer; capacity = capacity; closed = closed } in
          Shows n c s
          → ((call_channel tries_receive c).1 ≡ (call_log n tries_receive s).1)
            × Shows n (call_channel tries_receive c).0 (call_log n tries_receive s).0)
  unfolding call_channel call_log Channel.try_receive advance
  receive_from n [] capacity closed s h = let e = drop_nil s.taken s.sent h.behind in rw e (refl, h)
  receive_from n (x ∷ xs) capacity closed s h =
      let (e, f, g) = drop_cons s.taken s.sent xs x h.behind in
      rw e (
        refl,
        record { behind = f; inside = g; same_capacity = h.same_capacity; same_end = h.same_end },
      )

  call-Shows :
      (n : ℕ) (call : Call A) (c : Channel A) (s : Log A)
      → Shows n c s
      → ((call_channel call c).1 ≡ (call_log n call s).1)
        × Shows n (call_channel call c).0 (call_log n call s).0
  unfolding call_channel call_log Channel.close Channel.is_closed Channel.size
  call-Shows n (tries_send v) c s h = send-Shows n c s v h
  call-Shows n tries_receive c s h = receive_from n c.buffer c.capacity c.closed s h
  call-Shows n closes c s h = (
    refl,
    record {
      behind = h.behind;
      inside = h.inside;
      same_capacity = h.same_capacity;
      same_end = refl;
    },
  )
  call-Shows n asks_closed c s h = (ap closed_is h.same_end, h)
  call-Shows n asks_size c s h = (ap size_is (sym (pending n c s h)), h)

  replies-Shows :
      (n : ℕ) (calls : List (Call A)) (c : Channel A) (s : Log A)
      → Shows n c s
      → channel_replies calls c ≡ log_replies n calls s
  unfolding channel_replies log_replies
  replies-Shows n [] c s h = refl
  replies-Shows n (call ∷ calls) c s h =
      let (same, next) = call-Shows n call c s h in
      rw same (ap (◌∷◌ (call_log n call s).1) (replies-Shows n calls _ _ next))

  -- A new channel answers every sequence of calls that do not wait as a log of all that was sent, with a
  -- cursor for what was handed out, does: the same values in the same order, the same refusals and the
  -- same sizes. A channel of capacity 0 answers as a log without a bound.
  pub channel_replies-log_replies :
      (capacity : ℕ) (calls : List (Call A))
      → channel_replies calls (Channel.make capacity)
        ≡ log_replies capacity calls (record { sent = []; taken = 0; over = false })
  unfolding Channel.make
  channel_replies-log_replies capacity calls =
      replies-Shows capacity calls _ _
        (record { behind = refl; inside = omega arith; same_capacity = refl; same_end = refl })
