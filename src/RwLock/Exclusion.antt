-- ===== src/RwLock/Exclusion.antt =====
-- The counters of the lock count its threads, and a writer holds it alone.
use xibridge.Prelude.{
  ℕ, zero, suc, ◌+◌, ◌^◌, ◌≤◌, ◌<◌, ◌≡◌, ◌≢◌, ◌⊎◌, refl, ap, true, List, [], ◌∷◌, arith, length,
  replicate, length-replicate,
}
use xibridge.RwLock.{
  ReadWriteLock, new_lock, Thread, idle, read_waiting, reading, write_waiting, writing, Call,
  read_lock, read_unlock, write_lock, write_unlock, wake, act, step, run, is_write_lock_requested,
}

-- How many threads read, wait to read, write, wait to write.
pub record Counts : Type 0 where
  pub readers : ℕ
  pub read_waiters : ℕ
  pub writers : ℕ
  pub write_waiters : ℕ

abbrev pub none_yet : Counts
none_yet = record { readers = 0; read_waiters = 0; writers = 0; write_waiters = 0 }

abbrev pub tick : Thread → Counts → Counts
tick idle k = k
tick read_waiting k = record k { read_waiters = suc k.read_waiters }
tick reading k = record k { readers = suc k.readers }
tick write_waiting k = record k { write_waiters = suc k.write_waiters }
tick writing k = record k { writers = suc k.writers }

abbrev pub tally : Counts → List Thread → Counts
tally k [] = k
tally k (t ∷ ts) = tally (tick t k) ts

-- The counters agree with the threads counted, and who holds the lock is compatible.
pub record Agrees (l : ReadWriteLock) (k : Counts) : Type 0 where
  pub readers_eq : l.nread ≡ k.readers
  pub read_waiters_eq : l.nread_waiters ≡ k.read_waiters
  pub writers_eq : l.nwrite ≡ k.writers
  pub write_waiters_eq : l.nwrite_waiters ≡ k.write_waiters
  pub one_writer : k.writers ≤ 1
  pub alone : (k.writers ≡ 0) ⊎ (k.readers ≡ 0)

abbrev total : Counts → ℕ
total k = k.readers + k.read_waiters + (k.writers + k.write_waiters)

act-Agrees :
    (l : ReadWriteLock) (t : Thread) (c : Call) (k : Counts)
    → total (tick t k) < 2 ^ 31
    → Agrees l (tick t k)
    → Agrees (act c t l).0 (tick (act c t l).1 k)
unfolding act
act-Agrees l idle read_lock k h v = ground arith
act-Agrees l idle write_lock k h v = ground arith
act-Agrees l idle c k h v = ground arith
act-Agrees l read_waiting wake k h v = ground arith
act-Agrees l read_waiting c k h v = ground arith
act-Agrees l reading read_unlock k h v = ground arith
act-Agrees l reading c k h v = ground arith
act-Agrees l write_waiting wake k h v = ground arith
act-Agrees l write_waiting c k h v = ground arith
act-Agrees l writing write_unlock k h v = ground arith
act-Agrees l writing c k h v = ground arith

tick_comm : (t u : Thread) (k : Counts) → tick t (tick u k) ≡ tick u (tick t k)
tick_comm idle u k = refl
tick_comm read_waiting idle k = refl
tick_comm read_waiting u k = ground arith
tick_comm reading idle k = refl
tick_comm reading u k = ground arith
tick_comm write_waiting idle k = refl
tick_comm write_waiting u k = ground arith
tick_comm writing idle k = refl
tick_comm writing u k = ground arith

tally-tick :
    (t : Thread) (k : Counts) (ts : List Thread) → tally (tick t k) ts ≡ tick t (tally k ts)
tally-tick t k [] = refl
tally-tick t k (u ∷ ts) = rw (tick_comm u t k) (tally-tick t (tick u k) ts)

total-tick : (t : Thread) (k : Counts) → total (tick t k) ≤ suc (total k)
total-tick idle k = omega arith
total-tick read_waiting k = omega arith
total-tick reading k = omega arith
total-tick write_waiting k = omega arith
total-tick writing k = omega arith

total-tally : (k : Counts) (ts : List Thread) → total (tally k ts) ≤ total k + length ts
total-tally k [] = omega arith
total-tally k (t ∷ ts) = omega (arith, total-tally (tick t k) ts, total-tick t k)

step-Agrees :
    (l : ReadWriteLock) (k : Counts) (ts : List Thread) (i : ℕ) (c : Call)
    → total k + length ts < 2 ^ 31
    → Agrees l (tally k ts)
    → Agrees (step l ts i c).0 (tally k (step l ts i c).1)
unfolding step
step-Agrees l k [] i c h v = v
step-Agrees l k (t ∷ ts) zero c h v = rw (tally-tick (act c t l).1 k ts) (
    act-Agrees l t c (tally k ts) (omega (arith, total-tick t (tally k ts), total-tally k ts))
      (rw (tally-tick t k ts) at v))
step-Agrees l k (t ∷ ts) (suc i) c h v =
    step-Agrees l (tick t k) ts i c (omega (arith, total-tick t k)) v

length-step :
    (l : ReadWriteLock) (ts : List Thread) (i : ℕ) (c : Call) → length (step l ts i c).1 ≡ length ts
unfolding step
length-step l [] i c = refl
length-step l (t ∷ ts) zero c = refl
length-step l (t ∷ ts) (suc i) c = ap suc (length-step l ts i c)

run-Agrees :
    (l : ReadWriteLock) (ts : List Thread) (cs : List (ℕ × Call))
    → length ts < 2 ^ 31
    → Agrees l (tally none_yet ts)
    → Agrees (run l ts cs).0 (tally none_yet (run l ts cs).1)
unfolding run
run-Agrees l ts [] h v = v
run-Agrees l ts ((i, c) ∷ cs) h v =
    run-Agrees (step l ts i c).0 (step l ts i c).1 cs (omega (arith, length-step l ts i c))
      (step-Agrees l none_yet ts i c (omega arith) v)

idle_threads : (n : ℕ) → tally none_yet (replicate n idle) ≡ none_yet
idle_threads zero = refl
idle_threads (suc n) = idle_threads n

-- However fewer than 2 ^ 31 threads interleave their calls on a new lock, at most one of them writes,
-- none reads while one writes, and the four counters are the numbers of threads that read, wait to
-- read, write and wait to write.
pub run_exclusive :
    (n : ℕ) (cs : List (ℕ × Call))
    → n < 2 ^ 31
    → let (l, ts) = run new_lock (replicate n idle) cs in Agrees l (tally none_yet ts)
run_exclusive n cs h =
    run-Agrees new_lock (replicate n idle) cs (omega (arith, length-replicate n idle))
      (rw (idle_threads n) (omega arith))

-- While a writer holds the lock or waits for it, no call lets a further thread read.
pub act_prefers_writers :
    (l : ReadWriteLock) (c : Call) (t : Thread)
    → is_write_lock_requested l ≡ true
    → t ≢ reading
    → (act c t l).1 ≢ reading
unfolding act is_write_lock_requested
act_prefers_writers l read_lock idle h n = ground arith
act_prefers_writers l read_unlock idle h n = ground arith
act_prefers_writers l c t h n = ground arith
