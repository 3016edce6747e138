-- ===== src/Tests/Locks.antt =====
-- Threads that take turns at a lock.
use xibridge.Prelude.{◌≡◌, ◌≢◌, refl, true, [], ◌∷◌, List, ℕ, replicate, arith}
use xibridge.RwLock.Notices.{attend, outside, reads, Crowd, System, Move, here, next, move, unused}
use xibridge.RwLock.Notices.Fair.{IsFair, Moves-IsFair}
use xibridge.RwLock.{
  act, ReadWriteLock, new_lock, idle, reading, Call, read_lock, read_unlock, write_lock, wake, run,
  is_write_lock_requested,
}
use xibridge.RwLock.Exclusion.{Agrees, tally, none_yet, run_exclusive}

-- A reader, a writer that waits for it, a second reader that waits for the writer.
abbrev turns : List (ℕ × Call)
turns =
    (0, read_lock)
    ∷ (1, write_lock)
    ∷ (2, read_lock)
    ∷ (1, wake)
    ∷ (0, read_unlock)
    ∷ (2, wake)
    ∷ (1, wake)
    ∷ []

run_exclusive_example :
    Agrees
      (run new_lock (replicate 3 idle) turns).0
      (tally none_yet (run new_lock (replicate 3 idle) turns).1)
run_exclusive_example = run_exclusive 3 turns (omega arith)

-- A writer waits for two readers.
abbrev busy : ReadWriteLock
busy = record { nread = 2; nread_waiters = 0; nwrite = 0; nwrite_waiters = 1 }

-- Requested, and not a reader yet.
busy_requested : is_write_lock_requested busy ≡ true
unfolding is_write_lock_requested
busy_requested = refl

idle_outside : idle ≢ reading
idle_outside = ground arith

abbrev nobody_else : Crowd
nobody_else = record {
  n_outside = 0;
  n_read_asleep = 0;
  n_read_awake = 0;
  n_reads = 0;
  n_write_asleep = 0;
  n_write_awake = 0;
  n_writes = 0;
}

-- The reader left, and has woken the writer.
abbrev woken : System
woken = record {
  lock = record { nread = 0; nread_waiters = 0; nwrite = 0; nwrite_waiters = 1 };
  crowd = record nobody_else { n_outside = 1; n_write_awake = 1 };
}

abbrev one_reads : System
one_reads = record {
  lock = record new_lock { nread = 1 };
  crowd = record nobody_else { n_outside = 1; n_reads = 1 };
}

abbrev one_waits : System
one_waits = record {
  lock = record new_lock { nread = 1; nwrite_waiters = 1 };
  crowd = record nobody_else { n_reads = 1; n_write_asleep = 1 };
}

reads_first : Move (unused 2) one_reads
unfolding attend act
reads_first = move read_lock outside (record nobody_else { n_outside = 1 }) refl refl

then_waits : Move one_reads one_waits
unfolding attend act
then_waits = move write_lock outside (record nobody_else { n_reads = 1 }) refl refl

then_wakes : Move one_waits woken
unfolding attend act
then_wakes = move read_unlock reads (record nobody_else { n_write_asleep = 1 }) refl refl

Moves-IsFair_example : IsFair woken
Moves-IsFair_example =
    Moves-IsFair 2 (omega arith) (next (next (next here reads_first) then_waits) then_wakes)
