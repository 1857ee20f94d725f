-- ===== src/Scheduler/Stack.antt =====
-- src/concurrency/task.cc: `Task::grow_stack_if_needed` and `Task::check_stack_overflow`. Addresses are
-- numbers; where the larger buffer lies is an argument.
use kode.Prelude.{
  ℕ, ◌+◌, ◌-◌, ◌*◌, ◌/◌, ◌%◌, ◌^◌, ◌≤◌, ◌<◌, ◌≡◌, ◌↔◌, refl, Bool, true, false, arith, leb,
  if◌then◌else◌, ◌⊎◌, inl, inr, Bool-cases,
}
use Prim.Native.Nat.{min}

-- `stack_.size()`, `stack_pointer_` and the fields of `context_`.
pub record Stack : Type 0 where
  pub size : ℕ
  pub pointer : ℕ
  pub base : ℕ
  pub top : ℕ
  pub context_size : ℕ
  pub rsp : ℕ

abbrev pub max_stack_size : ℕ
max_stack_size = 1048576

-- `(address + 15) & ~15`.
unfoldable pub aligned : ℕ → ℕ
aligned address = (address + 15) / 16 * 16

-- The pointer is taken from the base that was just overwritten.
unfoldable pub grown : ℕ → Stack → Stack
unfolding aligned
grown moved s =
    let size = min (s.size * 2) max_stack_size in
    let base = aligned moved in
    record {
      size = size;
      pointer = base + size - 16;
      base = base;
      top = base + size - 16;
      context_size = size;
      rsp = (base + (s.rsp + 2 ^ 64 - base)) % 2 ^ 64;
    }

-- `grow_stack_if_needed`.
unfoldable pub grow_stack_if_needed : ℕ → Stack → Stack × Bool
unfolding grown
grow_stack_if_needed moved s =
    if leb max_stack_size s.size
    then (s, false)
    else if leb s.rsp (s.base + 1024)
    then (grown moved s, true)
    else (s, true)

-- `check_stack_overflow`.
unfoldable pub check_stack_overflow : Stack → Bool
check_stack_overflow s = leb s.rsp s.base

aligned_lem : (a : ℕ) → (aligned a % 16 ≡ 0) × (a ≤ aligned a) × (aligned a ≤ a + 15)
unfolding aligned
aligned_lem a = (omega arith, omega arith, omega arith)

-- Where a stack that has moved lies: it has doubled up to the bound, its base is the first aligned address
-- of the new buffer, and its top is 16 bytes below its end, less than 16 bytes past the buffer's.
abbrev Moved : ℕ → Stack → Stack → Type 0
Moved moved s t =
    (t.size ≡ min (s.size * 2) max_stack_size)
    × (t.base % 16 ≡ 0)
    × (moved ≤ t.base)
    × (t.base ≤ moved + 15)
    × (t.top + 16 ≡ t.base + t.size)
    × (t.base ≤ t.top)
    × (t.top < moved + t.size)
    × (t.context_size ≡ t.size)
    × (t.pointer ≡ t.top)

grown_lem :
    (moved : ℕ) (s : Stack)
    → s.size < max_stack_size
    → 16 ≤ s.size
    → s.rsp < 2 ^ 64
    → moved + max_stack_size < 2 ^ 64
    → (let t = grown moved s in
        (s.size < t.size) × (t.size ≤ max_stack_size) × (t.rsp ≡ s.rsp) × Moved moved s t)
unfolding grown
grown_lem moved s h k l m =
    let (a, b, c) = aligned_lem moved in
    (
      omega (arith, h, k),
      omega arith,
      omega (arith, b, c, l, m),
      (refl, a, b, c, omega (arith, k, h), omega (arith, k, h), omega (arith, c, k, h), refl, refl),
    )

-- What a call does to a stack, with what it returns.
unfoldable pub IsGrown : ℕ → Stack → Stack → Bool → Type 0
IsGrown moved s t ok =
    ((s.size < t.size) ↔ ((s.size < max_stack_size) × (s.rsp ≤ s.base + 1024)))
    × (t.size ≤ max_stack_size)
    × ((ok ≡ false) ↔ (max_stack_size ≤ s.size))
    × (t.rsp ≡ s.rsp)
    × ((t ≡ s) ⊎ Moved moved s t)

-- A call on a stack of at most 1 MB: the stack grows just where it is below that bound and has at most 1 KB
-- left, and stays at most 1 MB; the call fails just where the bound is reached. A stack that does not
-- grow is as it was. One that grows has doubled up to the bound; its base is aligned and at most 15
-- bytes into the new buffer, its top is 16 bytes below the end that base and size give and inside the
-- buffer; and the stack pointer is the number that it was, wherever the new buffer lies.
pub grow_stack_if_needed_lem :
    (moved : ℕ) (s : Stack)
    → s.size ≤ max_stack_size
    → 16 ≤ s.size
    → s.rsp < 2 ^ 64
    → moved + max_stack_size < 2 ^ 64
    → IsGrown moved s (grow_stack_if_needed moved s).0 (grow_stack_if_needed moved s).1
unfolding grow_stack_if_needed IsGrown
grow_stack_if_needed_lem moved s h k l m = elim (Bool-cases (leb max_stack_size s.size)) [
  | inl e ↦ rw (e, grow_stack_if_needed) (ground (arith, e), h, ground (arith, e), refl, inl refl)
  | inr e ↦ elim (Bool-cases (leb s.rsp (s.base + 1024))) [
    | inl f ↦
        let (x, y, z, moved_there) = grown_lem moved s (ground (arith, e)) k l m in
        rw (e, f, grow_stack_if_needed)
          (ground (arith, e, f, x), y, ground (arith, e), z, inr moved_there)
    | inr f ↦
        rw (e, f, grow_stack_if_needed) (ground (arith, e, f), h, ground (arith, e), refl, inl refl)
  ]
]
