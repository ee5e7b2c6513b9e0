-- ===== src/Conn/Interlock.antt =====
-- conn.go: `activeCall`, the interlock of `Write` and `Close`: its low bit says that `Close` was
-- called, and the rest counts the goroutines in `Write`. Goroutines interleave between the atomic
-- calls; below 2 ^ 30 goroutines the 32-bit number does not wrap.
use electricity.Common.{
  ℕ, ◌+◌, ◌-◌, ◌*◌, ◌%◌, ◌≤◌, ◌<◌, ◌≡◌, refl, Bool, true, false, Option, none, some, ◌==◌, not,
  if◌then◌else◌, arith,
}

-- `CompareAndSwap`
abbrev pub compare_and_swap : ℕ → ℕ → ℕ → Option ℕ
compare_and_swap old new x = if x == old then some new else none

-- What a goroutine does with the number that it loaded: it is refused, or it tries to swap.
pub data Attempt : Type 0 where
  refused : Attempt
  swap_to : ℕ → Attempt

-- The loop's body in `Write`: `x&1 != 0`, then `x+2`.
unfoldable pub enter_write : ℕ → Attempt
enter_write x = if not (x % 2 == 0) then refused else swap_to (x + 2)

-- The loop's body in `Close`: `x|1` of an even number.
unfoldable pub enter_close : ℕ → Attempt
enter_close x = if not (x % 2 == 0) then refused else swap_to (x + 1)

-- What `Close` does after its swap: it closes the network alone, or sends close_notify first.
unfoldable pub sends_close_notify : ℕ → Bool → Bool
sends_close_notify x complete = if not (x == 0) then false else complete

-- The shared number, with the goroutines that are in `Write` after their swap and those that entered
-- `Close`.
pub record Interlock : Type 0 where
  pub active_call : ℕ
  pub writing : ℕ
  pub closing : ℕ

-- A swap succeeds at the number that was loaded, however long ago; `leave` is the deferred `Add(-2)`.
pub data Step : Interlock → Interlock → Type 0 where
  write_entered :
      (s : Interlock) (loaded new next : ℕ)
      → enter_write loaded ≡ swap_to new
      → compare_and_swap loaded new s.active_call ≡ some next
      → Step s (record s { active_call = next; writing = s.writing + 1 })
  write_left :
      (s : Interlock)
      → 0 < s.writing
      → Step s (record s { active_call = s.active_call - 2; writing = s.writing - 1 })
  close_entered :
      (s : Interlock) (loaded new next : ℕ)
      → enter_close loaded ≡ swap_to new
      → compare_and_swap loaded new s.active_call ≡ some next
      → Step s (record s { active_call = next; closing = s.closing + 1 })

pub data Steps (s : Interlock) : Interlock → Type 0 where
  here : Steps s s
  next : {t u : Interlock} → Steps s t → Step t u → Steps s u

abbrev pub start : Interlock
start = record { active_call = 0; writing = 0; closing = 0 }

-- The number is what its comment says.
pub record IsCount (s : Interlock) : Type 0 where
  pub number : s.active_call ≡ s.writing * 2 + s.closing
  pub once : s.closing ≤ 1

Step-IsCount : {s t : Interlock} → Step s t → IsCount s → IsCount t
unfolding enter_write enter_close
Step-IsCount (write_entered s loaded new n e f) h = ground arith
Step-IsCount (write_left s some_writing) h = ground arith
Step-IsCount (close_entered s loaded new n e f) h = ground arith

Steps-IsCount : {s t : Interlock} → IsCount s → Steps s t → IsCount t
Steps-IsCount h here = h
Steps-IsCount h (next r st) = Step-IsCount st (Steps-IsCount h r)

-- Once `Close` entered, no write enters, so their number only falls.
Step-closed :
    {s t : Interlock}
    → Step s t
    → IsCount s
    → s.closing ≡ 1
    → (t.writing ≤ s.writing) × (t.closing ≡ 1)
unfolding enter_write enter_close
Step-closed (write_entered s loaded new n e f) h closed = ground arith
Step-closed (write_left s some_writing) h closed = ground arith
Step-closed (close_entered s loaded new n e f) h closed = ground arith

Steps-closed :
    {s t : Interlock}
    → IsCount s
    → s.closing ≡ 1
    → Steps s t
    → (t.writing ≤ s.writing) × (t.closing ≡ 1)
Steps-closed h closed here = (omega arith, closed)
Steps-closed h closed (next r st) =
    let (fewer, still) = Steps-closed h closed r in
    let (fewer', still') = Step-closed st (Steps-IsCount h r) still in
    (omega (arith, fewer, fewer'), still')

-- In each interleaving of writes and closes from the start, if a `Close` enters with the number that
-- lets it send close_notify, then no `Write` is under way at that moment, none is at any later one,
-- and no other `Close` enters.
pub close-alone :
    {s t : Interlock} (loaded new after : ℕ)
    → Steps start s
    → enter_close loaded ≡ swap_to new
    → compare_and_swap loaded new s.active_call ≡ some after
    → sends_close_notify loaded true ≡ true
    → Steps (record s { active_call = after; closing = s.closing + 1 }) t
    → (s.writing ≡ 0) × (s.closing ≡ 0) × (t.writing ≡ 0) × (t.closing ≡ 1)
unfolding enter_close sends_close_notify
close-alone {s} {t} loaded new after before e f sends later =
    let count = Steps-IsCount (record { number = refl; once = omega arith }) before in
    let idle : (s.writing ≡ 0) × (s.closing ≡ 0) = ground (arith, count.number) in
    let s' : Interlock = record s { active_call = after; closing = s.closing + 1 } in
    let count' : IsCount s' = Step-IsCount (close_entered s loaded new after e f) count in
    let (fewer, one) = Steps-closed count' (omega (arith, idle.1)) later in
    (idle.0, idle.1, omega (arith, fewer, idle.0), one)
