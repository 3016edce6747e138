-- ===== src/RwLock.antt =====
-- server/rw_lock.h: class ReadWriteLock, with the threads that use it.
-- Each method holds the mutex of the lock from its start to its end, but for `wait`, so a method is one
-- step up to the test of its loop, and one further step for each wake-up. A thread may return from `wait` at
-- any time, notified or not, so `notify_one` and `notify_all`, which change no counter, are no steps; RwLock.Notices has them.
pub mod Exclusion
pub mod Notices
use xibridge.Prelude.{
  ℕ, zero, suc, ◌+◌, ◌-◌, ◌%◌, ◌^◌, Bool, true, false, ◌||◌, not, List, [], ◌∷◌, if◌then◌else◌,
  ◌==◌,
}

pub record ReadWriteLock : Type 0 where
  pub nread : ℕ
  pub nread_waiters : ℕ
  pub nwrite : ℕ
  pub nwrite_waiters : ℕ

abbrev pub new_lock : ReadWriteLock
new_lock = record { nread = 0; nread_waiters = 0; nwrite = 0; nwrite_waiters = 0 }

-- `++` and `--` on a uint32_t
abbrev pub inc : ℕ → ℕ
inc n = (n + 1) % 2 ^ 32

abbrev pub dec : ℕ → ℕ
dec n = (n + 2 ^ 32 - 1) % 2 ^ 32

abbrev pub nonzero : ℕ → Bool
nonzero n = not (n == 0)

-- Where a thread stands: outside, in the loop of `read_lock` or `write_lock`, or holding the lock.
pub data Thread : Type 0 where
  idle read_waiting reading write_waiting writing : Thread

-- What a thread does next. `wake` is a return from `wait`.
pub data Call : Type 0 where
  read_lock read_unlock write_lock write_unlock wake : Call

-- `_nwrite || _nwrite_waiters`, and `_nread || _nwrite`
abbrev pub reader_waits : ReadWriteLock → Bool
reader_waits l = nonzero l.nwrite || nonzero l.nwrite_waiters

abbrev pub writer_waits : ReadWriteLock → Bool
writer_waits l = nonzero l.nread || nonzero l.nwrite

unfoldable pub is_write_lock_requested : ReadWriteLock → Bool
is_write_lock_requested l = nonzero l.nwrite || nonzero l.nwrite_waiters

unfoldable pub act : Call → Thread → ReadWriteLock → ReadWriteLock × Thread
act read_lock idle l =
    if reader_waits l
    then (record l { nread_waiters = inc l.nread_waiters }, read_waiting)
    else (record l { nread = inc l.nread }, reading)
act wake read_waiting l =
    if reader_waits l
    then (l, read_waiting)
    else (record l { nread_waiters = dec l.nread_waiters; nread = inc l.nread }, reading)
act read_unlock reading l = (record l { nread = dec l.nread }, idle)
act write_lock idle l =
    if writer_waits l
    then (record l { nwrite_waiters = inc l.nwrite_waiters }, write_waiting)
    else (record l { nwrite = inc l.nwrite }, writing)
act wake write_waiting l =
    if writer_waits l
    then (l, write_waiting)
    else (record l { nwrite_waiters = dec l.nwrite_waiters; nwrite = inc l.nwrite }, writing)
act write_unlock writing l = (record l { nwrite = dec l.nwrite }, idle)
act c t l = (l, t)

-- Thread number i makes a call.
unfoldable pub step : ReadWriteLock → List Thread → ℕ → Call → ReadWriteLock × List Thread
step l [] i c = (l, [])
step l (t ∷ ts) zero c = let (l', t') = act c t l in (l', t' ∷ ts)
step l (t ∷ ts) (suc i) c = let (l', ts') = step l ts i c in (l', t ∷ ts')

-- An interleaving of the threads' calls.
unfoldable pub run : ReadWriteLock → List Thread → List (ℕ × Call) → ReadWriteLock × List Thread
run l ts [] = (l, ts)
run l ts ((i, c) ∷ cs) = let (l', ts') = step l ts i c in run l' ts' cs
