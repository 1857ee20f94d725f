-- ===== src/Channel.antt =====
-- src/concurrency/task.h: the template `Channel<T>`, its state and its methods.
-- A method holds `mutex_` for its whole body, except where a condition variable waits. So a method is
-- one atomic step, or one step up to the wait and one more each time the thread looks at the
-- predicate again; `waits` is the outcome of a thread that goes (back) to sleep.
pub mod System
pub mod Wakeups
pub mod Mailbox
pub mod Order
mod Tests
use kode.Prelude.{
  ℕ, ◌≡◌, refl, Bool, true, false, ◌&&◌, ◌||◌, not, List, [], ◌∷◌, ◌++◌, Option, none, some, ltb,
  leb, length, if◌then◌else◌,
}

pub record Channel {ℓ} (A : Type ℓ) : Type ℓ where
  pub buffer : List A
  pub capacity : ℕ
  pub closed : Bool

-- `returns c r`: the method leaves the channel as `c` and returns `r`.
pub data Outcome {ℓ} (A : Type ℓ) (R : Type ℓ) : Type ℓ where
  returns : Channel A → R → Outcome A R
  waits : Outcome A R

-- The sender's result; the Boolean that the source returns.
pub data Sent {ℓ} : Type ℓ where
  accepted refused : Sent

module _ {ℓ} {A : Type ℓ} where
  unfoldable pub make : ℕ → Channel A
  make capacity = record { buffer = []; capacity = capacity; closed = false }

  abbrev pub push : Channel A → A → Channel A
  push c v = record c { buffer = c.buffer ++ v ∷ [] }

  -- The predicates that the two condition variables wait for.
  abbrev pub can_send : Channel A → Bool
  can_send c = ltb (length c.buffer) c.capacity || c.closed

  abbrev is_empty : List A → Bool
  is_empty [] = true
  is_empty (x ∷ xs) = false

  abbrev pub can_receive : Channel A → Bool
  can_receive c = not (is_empty c.buffer) || c.closed

  -- `send` at the wait, on the way in and after each wake-up.
  unfoldable pub send_wait : Channel A → A → Outcome A (Sent {ℓ})
  send_wait c v =
      if can_send c
      then if c.closed then returns c refused else returns (push c v) accepted
      else waits

  unfoldable pub send : Channel A → A → Outcome A (Sent {ℓ})
  unfolding send_wait
  send c v =
      if c.closed
      then returns c refused
      else if ltb 0 c.capacity
      then send_wait c v
      else returns (push c v) accepted

  -- The end of `receive`: the front of the queue, or `none` where the source returns false.
  unfoldable pub take_front : Channel A → List A → Outcome A (Option A)
  take_front c [] = returns c none
  take_front c (v ∷ rest) = returns (record c { buffer = rest }) (some v)

  unfoldable pub receive : Channel A → Outcome A (Option A)
  unfolding take_front
  receive c = if can_receive c then take_front c c.buffer else waits

  unfoldable pub try_send : Channel A → A → Channel A × Sent {ℓ}
  try_send c v =
      if c.closed
      then (c, refused)
      else if ltb 0 c.capacity && leb c.capacity (length c.buffer)
      then (c, refused)
      else (push c v, accepted)

  try_front : Channel A → List A → Channel A × Option A
  try_front c [] = (c, none)
  try_front c (v ∷ rest) = (record c { buffer = rest }, some v)

  unfoldable pub try_receive : Channel A → Channel A × Option A
  unfolding try_front
  try_receive c = try_front c c.buffer

  unfoldable pub close : Channel A → Channel A
  close c = record c { closed = true }

  unfoldable pub is_closed : Channel A → Bool
  is_closed c = c.closed

  unfoldable pub size : Channel A → ℕ
  size c = length c.buffer

  try_front-take_front :
      (c : Channel A) (xs : List A)
      → returns (try_front c xs).0 (try_front c xs).1 ≡ take_front c xs
  unfolding try_front take_front
  try_front-take_front c [] = refl
  try_front-take_front c (v ∷ rest) = refl

  -- Without a wait, both ways to receive take the front of the queue.
  pub try_receive-take_front :
      (c : Channel A) → returns (try_receive c).0 (try_receive c).1 ≡ take_front c c.buffer
  unfolding try_receive
  try_receive-take_front c = try_front-take_front c c.buffer
