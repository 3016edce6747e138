-- ===== src/RwLock/Notices.antt =====
-- server/rw_lock.h: class ReadWriteLock with the notifications of its condition variables. A thread in `wait` sleeps until it
-- is notified, or wakes by itself. The threads are counted, not named: which of the sleeping writers `notify_one` wakes
-- makes no difference here.
pub mod Fair
use xibridge.Prelude.{ℕ, suc, ◌+◌, ◌-◌, ◌≡◌, Bool, true, false, if◌then◌else◌, ◌==◌}
use xibridge.RwLock.{
  ReadWriteLock, new_lock, nonzero, Thread, idle, read_waiting, reading, write_waiting, writing,
  Call, read_lock, read_unlock, write_lock, write_unlock, wake, act,
}

pub data Place : Type 0 where
  outside read_asleep read_awake reads write_asleep write_awake writes : Place

pub data Notice : Type 0 where
  nobody one_writer all_readers : Notice

-- A thread that waits goes to sleep.
abbrev pub place_of : Thread → Place
place_of idle = outside
place_of read_waiting = read_asleep
place_of reading = reads
place_of write_waiting = write_asleep
place_of writing = writes

abbrev pub settled : ReadWriteLock × Thread → ReadWriteLock × Place × Notice
settled (l, t) = (l, place_of t, nobody)

abbrev pub notice_read : ReadWriteLock → Notice
notice_read l = if nonzero l.nwrite_waiters then one_writer else nobody

abbrev pub notice_write : ReadWriteLock → Notice
notice_write l =
    if nonzero l.nwrite_waiters
    then one_writer
    else if nonzero l.nread_waiters
    then all_readers
    else nobody

-- What a call of a thread does: the lock, where the thread stands then, and whom it notifies. `wake` of one that sleeps
-- is a return from `wait` without a notification, and `wake` of one that is awake the test of its loop.
unfoldable pub attend : Call → Place → ReadWriteLock → ReadWriteLock × Place × Notice
attend read_lock outside l = settled (act read_lock idle l)
attend write_lock outside l = settled (act write_lock idle l)
attend wake read_asleep l = (l, read_awake, nobody)
attend wake read_awake l = settled (act wake read_waiting l)
attend wake write_asleep l = (l, write_awake, nobody)
attend wake write_awake l = settled (act wake write_waiting l)
attend read_unlock reads l =
    let (l', t) = act read_unlock reading l in (l', place_of t, notice_read l')
attend write_unlock writes l =
    let (l', t) = act write_unlock writing l in (l', place_of t, notice_write l')
attend c p l = (l, p, nobody)

-- How many threads stand where.
pub record Crowd : Type 0 where
  pub n_outside : ℕ
  pub n_read_asleep : ℕ
  pub n_read_awake : ℕ
  pub n_reads : ℕ
  pub n_write_asleep : ℕ
  pub n_write_awake : ℕ
  pub n_writes : ℕ

abbrev pub join : Place → Crowd → Crowd
join outside k = record k { n_outside = suc k.n_outside }
join read_asleep k = record k { n_read_asleep = suc k.n_read_asleep }
join read_awake k = record k { n_read_awake = suc k.n_read_awake }
join reads k = record k { n_reads = suc k.n_reads }
join write_asleep k = record k { n_write_asleep = suc k.n_write_asleep }
join write_awake k = record k { n_write_awake = suc k.n_write_awake }
join writes k = record k { n_writes = suc k.n_writes }

-- `notify_one` of the writers and `notify_all` of the readers.
abbrev pub notify : Notice → Crowd → Crowd
notify nobody k = k
notify one_writer k =
    if k.n_write_asleep == 0
    then k
    else record k { n_write_asleep = k.n_write_asleep - 1; n_write_awake = suc k.n_write_awake }
notify all_readers k = record k {
  n_read_asleep = 0;
  n_read_awake = k.n_read_awake + k.n_read_asleep;
}

pub record System : Type 0 where
  pub lock : ReadWriteLock
  pub crowd : Crowd

abbrev pub attended : ReadWriteLock × Place × Notice → Crowd → System
attended (l, q, notice) k = record { lock = l; crowd = notify notice (join q k) }

-- One of the threads at `p`, `k` being the others, makes a call.
pub data Move (s s' : System) : Type 0 where
  move :
      (c : Call) (p : Place) (k : Crowd)
      → s.crowd ≡ join p k
      → s' ≡ attended (attend c p s.lock) k
      → Move s s'

pub data Moves (s : System) : System → Type 0 where
  here : Moves s s
  next : {u v : System} → Moves s u → Move u v → Moves s v

-- A new lock and threads that have not used it.
abbrev pub unused : ℕ → System
unused n = record {
  lock = new_lock;
  crowd = record {
    n_outside = n;
    n_read_asleep = 0;
    n_read_awake = 0;
    n_reads = 0;
    n_write_asleep = 0;
    n_write_awake = 0;
    n_writes = 0;
  };
}
