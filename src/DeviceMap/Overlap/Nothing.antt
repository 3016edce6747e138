-- ===== src/DeviceMap/Overlap/Nothing.antt =====
-- server/mapdevidphnd.cpp: an opening between a request that finds its device closed and the removal that follows.
use xibridge.Prelude.{
  ℕ, ◌<◌, ◌≡◌, refl, sym, ap, ◌∙◌, true, false, List, [], ◌∷◌, ◌++◌, Option, none, some, arith,
  ◌==◌, ==_refl,
}
use xibridge.DevId.{DevId, dev_eq}
use xibridge.DeviceMap.{
  MapDevIdPHandle, xib_result_ok, xib_result_nodevice, find_device, find_conn, devid_known,
  uint32_max,
}
use xibridge.DeviceMap.Open.{same_key_refl}
use xibridge.DeviceMap.Overlap.{
  Job, request, opening, closing, Work, start, sending, sent, opened, deciding, destroying, erasing,
  closed, Place, outside, waiting, queued, inside, lost, answered, Shared, Sys, Outcome, left, work,
  find_key, given_back, is_named, find_mutex, ask_request, ask_open, ask_close, lock_mutex, work_on,
  unlock_mutex, Step, thread, Reach, here, next,
}

abbrev pub one_mutex : DevId → List DevId → MapDevIdPHandle → Shared
one_mutex d locked t = record { table = t; pool = d ∷ []; locked = locked }

-- The pool has the mutex of the device, which is free or locked.
abbrev pub free : DevId → MapDevIdPHandle → List Place → Sys
free d t ps = record { shared = one_mutex d [] t; threads = ps }

abbrev pub busy : DevId → MapDevIdPHandle → List Place → Sys
busy d t ps = record { shared = one_mutex d (d ∷ []) t; threads = ps }

abbrev table_of : List (DevId × Option ℕ) → List (ℕ × DevId) → List ℕ → MapDevIdPHandle
table_of devices conns destroyed = record {
  devices = devices;
  conns = conns;
  destroyed = destroyed;
}

abbrev any : Outcome
any = record { answer = xib_result_ok; handle = none }

named_one : (d : DevId) → is_named d (d ∷ []) ≡ true
unfolding dev_eq
named_one d = ground arith

pub works :
    (xs ys : List Place) (d : DevId) (w w' : Work) (t t' : MapDevIdPHandle)
    → work any d w t ≡ (w', t')
    → Step (d ∷ []) (busy d t (xs ++ inside d w ∷ ys)) (busy d t' (xs ++ inside d w' ∷ ys))
works xs ys d w w' t t' e =
    thread xs ys (inside d w) (inside d w') (one_mutex d (d ∷ []) t') refl
      (work_on any d w refl (ap (λ (r : Work × MapDevIdPHandle). inside d r.0) (sym e))
        (ap (λ (r : Work × MapDevIdPHandle). one_mutex d (d ∷ []) r.1) (sym e)))
      refl

-- The search for the mutex and its lock.
pub finds :
    (xs ys : List Place) (d : DevId) (job : Job) (t : MapDevIdPHandle)
    → Step (d ∷ []) (free d t (xs ++ waiting d job ∷ ys)) (free d t (xs ++ queued d d job ∷ ys))
finds xs ys d job t =
    thread xs ys (waiting d job) (queued d d job) (one_mutex d [] t) refl
      (find_mutex d d job (rw (same_key_refl d) refl) refl refl refl) refl

pub locks :
    (xs ys : List Place) (d : DevId) (job : Job) (t : MapDevIdPHandle)
    → Step
        (d ∷ [])
        (free d t (xs ++ queued d d job ∷ ys))
        (busy d t (xs ++ inside d (start job) ∷ ys))
locks xs ys d job t =
    thread xs ys (queued d d job) (inside d (start job)) (one_mutex d (d ∷ []) t) refl
      (lock_mutex d d job refl refl refl refl) refl

leaves :
    (xs ys : List Place) (d : DevId) (w : Work) (q : Place) (t : MapDevIdPHandle)
    → left d w ≡ some q
    → Step (d ∷ []) (busy d t (xs ++ inside d w ∷ ys)) (free d t (xs ++ q ∷ ys))
leaves xs ys d w q t h =
    thread xs ys (inside d w) q (one_mutex d [] t) refl
      (unlock_mutex d w h refl (ap (λ ks. record { table = t; pool = d ∷ []; locked = ks }) back))
      refl
  where
    back : [] ≡ given_back (find_key (d ∷ []) d) (d ∷ [])
    back = rw (same_key_refl d, same_key_refl d) refl

module _ (d : DevId) (h c c' : ℕ) where
  -- The device is open, its one connection is `c`; it is closed; it has a null handle; the opening is done.
  abbrev pub in_table : MapDevIdPHandle
  in_table = table_of ((d, some h) ∷ []) ((c, d) ∷ []) []

  abbrev pub no_conn : MapDevIdPHandle
  no_conn = table_of ((d, some h) ∷ []) [] []

  abbrev pub nulled : MapDevIdPHandle
  nulled = table_of ((d, none) ∷ []) [] (h ∷ [])

  abbrev emptied : MapDevIdPHandle
  emptied = table_of [] [] (h ∷ [])

  abbrev pub promised : MapDevIdPHandle
  promised = table_of ((d, none) ∷ []) ((c', d) ∷ []) (h ∷ [])

  known : d.id < uint32_max → devid_known in_table c d ≡ d
  known l = ground arith

  asks_close :
      d.id < uint32_max
      → Step
          (d ∷ [])
          (free d in_table (waiting d request ∷ outside ∷ outside ∷ []))
          (free d in_table (waiting d request ∷ waiting d (closing c false) ∷ outside ∷ []))
  asks_close l =
      thread (waiting d request ∷ []) (outside ∷ []) outside (waiting d (closing c false))
        (one_mutex d [] in_table) refl
        (ask_close c d false (ap (λ e. is_named e (d ∷ [])) (known l) ∙ named_one d)
          (ap (λ (e : DevId). e.id == uint32_max) (known l) ∙ ground arith) refl
          (ap (λ e. waiting e (closing c false)) (sym (known l))) refl)
        refl

  starts_close : work any d (start (closing c false)) in_table ≡ (deciding false, no_conn)
  unfolding work
  starts_close = rw (==_refl c) refl

  decides : work any d (deciding false) no_conn ≡ (destroying, no_conn)
  unfolding work
  decides = rw (same_key_refl d) refl

  destroys : work any d destroying no_conn ≡ (erasing, nulled)
  unfolding work
  destroys = rw (same_key_refl d) refl

  erases : work any d erasing nulled ≡ (closed, emptied)
  unfolding work
  erases = rw (same_key_refl d) refl

  requests : work any d (start request) emptied ≡ (sending none, nulled)
  unfolding work
  requests = refl

  sends : work any d (sending none) nulled ≡ (sent xib_result_nodevice, nulled)
  unfolding work
  sends = refl

  opens : work any d (start (opening c')) nulled ≡ (opened true, promised)
  unfolding work
  opens = rw (same_key_refl d) refl

  -- A request waits for the mutex while the last connection of its device is closed.
  closed_before :
      d.id < uint32_max
      → Reach
          (d ∷ [])
          (free d in_table (outside ∷ outside ∷ outside ∷ []))
          (free d emptied (waiting d request ∷ outside ∷ outside ∷ []))
  closed_before l =
      next
        (next
          (next
            (next
              (next
                (next
                  (next
                    (next
                      (next here (
                        thread [] (outside ∷ outside ∷ []) outside (waiting d request)
                          (one_mutex d [] in_table) refl
                          (ask_request d (some h) (named_one d) (rw (same_key_refl d) refl) refl
                            refl refl)
                          refl))
                      (asks_close l))
                    (finds (waiting d request ∷ []) (outside ∷ []) d (closing c false) in_table))
                  (locks (waiting d request ∷ []) (outside ∷ []) d (closing c false) in_table))
                (works (waiting d request ∷ []) (outside ∷ []) d (start (closing c false))
                  (deciding false) in_table no_conn starts_close))
              (works (waiting d request ∷ []) (outside ∷ []) d (deciding false) destroying no_conn
                no_conn decides))
            (works (waiting d request ∷ []) (outside ∷ []) d destroying erasing no_conn nulled
              destroys))
          (works (waiting d request ∷ []) (outside ∷ []) d erasing closed nulled emptied erases))
        (leaves (waiting d request ∷ []) (outside ∷ []) d closed outside emptied refl)

  -- Three threads: one sends a request to the open device, the second closes the device's last connection, and the third
  -- opens the device on a new connection. The third can be told that the device was opened, its connection recorded,
  -- although the entry of the device in the table has a null handle, which the request of the first has put there.
  pub opened_nothing :
      d.id < uint32_max
      → Reach
          (d ∷ [])
          (free d in_table (outside ∷ outside ∷ outside ∷ []))
          (free d promised (lost d ∷ outside ∷ answered true ∷ []))
        × (find_device promised.devices d ≡ some none)
        × (find_conn promised.conns c' ≡ some d)
  opened_nothing l = (
    next
        (next
          (next
            (next
              (next
                (next
                  (next
                    (next
                      (next
                        (next (closed_before l)
                          (finds [] (outside ∷ outside ∷ []) d request emptied))
                        (locks [] (outside ∷ outside ∷ []) d request emptied))
                      (works [] (outside ∷ outside ∷ []) d (start request) (sending none) emptied
                        nulled requests))
                    (works [] (outside ∷ outside ∷ []) d (sending none) (sent xib_result_nodevice)
                      nulled nulled sends))
                  (leaves [] (outside ∷ outside ∷ []) d (sent xib_result_nodevice) (lost d) nulled
                    refl))
                (thread (lost d ∷ outside ∷ []) [] outside (waiting d (opening c'))
                  (one_mutex d [] nulled) refl (ask_open c' d (named_one d) refl refl refl refl)
                  refl))
              (finds (lost d ∷ outside ∷ []) [] d (opening c') nulled))
            (locks (lost d ∷ outside ∷ []) [] d (opening c') nulled))
          (works (lost d ∷ outside ∷ []) [] d (start (opening c')) (opened true) nulled promised
            opens))
        (leaves (lost d ∷ outside ∷ []) [] d (opened true) (answered true) promised refl),
    rw (same_key_refl d) refl,
    rw (==_refl c') refl,
  )
