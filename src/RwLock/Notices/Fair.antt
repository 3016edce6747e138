-- ===== src/RwLock/Notices/Fair.antt =====
-- No notification of the lock is lost.
use xibridge.Prelude.{ℕ, suc, ◌+◌, ◌^◌, ◌≤◌, ◌<◌, ◌≡◌, ◌⊎◌, refl, sym, ap, ◌∙◌, arith, inl}
use xibridge.RwLock.{
  ReadWriteLock, Call, read_lock, read_unlock, write_lock, write_unlock, wake, act,
}
use xibridge.RwLock.Notices.{
  Place, outside, read_asleep, read_awake, reads, write_asleep, write_awake, writes, Notice, nobody,
  one_writer, all_readers, attend, Crowd, join, notify, System, attended, Move, move, Moves, here,
  next, unused,
}

-- The counters count the threads. Where writers sleep, a thread holds the lock or another waiting writer is awake;
-- where readers sleep, a writer holds the lock or waits for it.
pub record IsFair (s : System) : Type 0 where
  pub reads_eq : s.lock.nread ≡ s.crowd.n_reads
  pub read_waiters_eq : s.lock.nread_waiters ≡ s.crowd.n_read_asleep + s.crowd.n_read_awake
  pub writes_eq : s.lock.nwrite ≡ s.crowd.n_writes
  pub write_waiters_eq : s.lock.nwrite_waiters ≡ s.crowd.n_write_asleep + s.crowd.n_write_awake
  pub writers_wake :
      (s.crowd.n_write_asleep ≡ 0)
      ⊎ (1 ≤ s.crowd.n_reads + s.crowd.n_writes + s.crowd.n_write_awake)
  pub readers_wait :
      (s.crowd.n_read_asleep ≡ 0)
      ⊎ (1 ≤ s.crowd.n_writes + s.crowd.n_write_asleep + s.crowd.n_write_awake)

abbrev pub total : Crowd → ℕ
total k =
    k.n_outside
    + k.n_read_asleep
    + (k.n_read_awake + k.n_reads)
    + (k.n_write_asleep + k.n_write_awake + k.n_writes)

attend-IsFair :
    (c : Call) (p : Place) (k : Crowd) (l : ReadWriteLock)
    → total (join p k) < 2 ^ 31
    → IsFair (record { lock = l; crowd = join p k })
    → IsFair (attended (attend c p l) k)
unfolding attend act
attend-IsFair read_lock outside k l h f = ground arith
attend-IsFair write_lock outside k l h f = ground arith
attend-IsFair c outside k l h f = ground arith
attend-IsFair wake read_asleep k l h f = ground arith
attend-IsFair c read_asleep k l h f = ground arith
attend-IsFair wake read_awake k l h f = ground arith
attend-IsFair c read_awake k l h f = ground arith
attend-IsFair wake write_asleep k l h f = ground arith
attend-IsFair c write_asleep k l h f = ground arith
attend-IsFair wake write_awake k l h f = ground arith
attend-IsFair c write_awake k l h f = ground arith
attend-IsFair read_unlock reads k l h f = ground arith
attend-IsFair c reads k l h f = ground arith
attend-IsFair write_unlock writes k l h f = ground arith
attend-IsFair c writes k l h f = ground arith

total-join : (p : Place) (k : Crowd) → total (join p k) ≡ suc (total k)
total-join outside k = omega arith
total-join read_asleep k = omega arith
total-join read_awake k = omega arith
total-join reads k = omega arith
total-join write_asleep k = omega arith
total-join write_awake k = omega arith
total-join writes k = omega arith

total-notify : (n : Notice) (k : Crowd) → total (notify n k) ≡ total k
total-notify nobody k = refl
total-notify one_writer k = ground arith
total-notify all_readers k = omega arith

total-attended :
    (r : ReadWriteLock × Place × Notice) (k : Crowd) → total (attended r k).crowd ≡ suc (total k)
total-attended (l, q, n) k = total-notify n (join q k) ∙ total-join q k

Move-total : {s s' : System} → Move s s' → total s'.crowd ≡ total s.crowd
Move-total {s} {s'} (move c p k e f) =
    ap (λ (u : System). total u.crowd) f
    ∙ total-attended (attend c p s.lock) k
    ∙ sym (total-join p k)
    ∙ sym (ap total e)

Moves-total : {s s' : System} → Moves s s' → total s'.crowd ≡ total s.crowd
Moves-total here = refl
Moves-total (next m st) = Move-total st ∙ Moves-total m

Move-IsFair : {s s' : System} → Move s s' → total s.crowd < 2 ^ 31 → IsFair s → IsFair s'
Move-IsFair {s} {s'} (move c p k e f) h v =
    rw f (attend-IsFair c p k s.lock (omega (arith, h, ap total e)) (rw (sym e) v))

-- However fewer than 2 ^ 31 threads interleave their calls on a new lock, no notification is lost: where writers sleep in
-- `wait`, a thread holds the lock or another waiting writer is awake, and where readers sleep, a writer holds the lock
-- or waits for it; and the four counters count the threads.
pub Moves-IsFair : (n : ℕ) → n < 2 ^ 31 → {s : System} → Moves (unused n) s → IsFair s
Moves-IsFair n h here = record {
  reads_eq = refl;
  read_waiters_eq = refl;
  writes_eq = refl;
  write_waiters_eq = refl;
  writers_wake = inl refl;
  readers_wait = inl refl;
}
Moves-IsFair n h (next m st) = Move-IsFair st (omega (arith, h, Moves-total m)) (Moves-IsFair n h m)
