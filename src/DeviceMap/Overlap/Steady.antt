-- ===== src/DeviceMap/Overlap/Steady.antt =====
-- server/mapdevidphnd.cpp: the handle that a request uses.
use xibridge.Prelude.{
  ℕ, ◌≡◌, refl, ap, ◌∙◌, true, false, List, [], ◌∷◌, Option, none, some, if◌then◌else◌, arith,
  Bool-cases, inl, inr,
}
use xibridge.DevId.{DevId, dev_lt}
use xibridge.DeviceMap.{MapDevIdPHandle, same_key, find_device, put_device, erase_device}
use xibridge.DeviceMap.Overlap.{
  request, opening, closing, Work, start, sending, sent, creating, recording, opened, deciding,
  destroying, erasing, closed, Place, inside, Sys, Outcome, handle_of, touched, open_found,
  drop_null, set_found, work,
}

other_key : (k d e : DevId) → same_key k d ≡ true → same_key d e ≡ false → same_key k e ≡ false
unfolding same_key dev_lt
other_key k d e h i = ground arith

find_put_other :
    (devices : List (DevId × Option ℕ)) (d e : DevId) (g : Option ℕ)
    → same_key d e ≡ false
    → find_device (put_device devices d g) e ≡ find_device devices e
find_put_other [] d e g i = rw i refl
find_put_other ((k, h) ∷ devices) d e g i = elim (Bool-cases (same_key k d)) [
  | inl b ↦ rw (b, other_key k d e b i) refl
  | inr b ↦ rw b (ap (λ r. if same_key k e then some h else r) (find_put_other devices d e g i))
]

find_erase_other :
    (devices : List (DevId × Option ℕ)) (d e : DevId)
    → same_key d e ≡ false
    → find_device (erase_device devices d) e ≡ find_device devices e
find_erase_other [] d e i = refl
find_erase_other ((k, h) ∷ devices) d e i = elim (Bool-cases (same_key k d)) [
  | inl b ↦ rw (b, other_key k d e b i) (find_erase_other devices d e i)
  | inr b ↦ rw b (ap (λ r. if same_key k e then some h else r) (find_erase_other devices d e i))
]

touched_other :
    (f : Option (Option ℕ)) (d e : DevId) (t : MapDevIdPHandle)
    → same_key d e ≡ false
    → find_device (touched f d t).devices e ≡ find_device t.devices e
touched_other none d e t i = find_put_other t.devices d e none i
touched_other (some h) d e t i = refl

open_found_other :
    (c : ℕ) (d e : DevId) (f : Option (Option ℕ)) (t : MapDevIdPHandle)
    → same_key d e ≡ false
    → find_device (open_found c d f t).1.devices e ≡ find_device t.devices e
open_found_other c d e none t i = find_put_other t.devices d e none i
open_found_other c d e (some h) t i = refl

drop_null_other :
    (h : Option ℕ) (d e : DevId) (t : MapDevIdPHandle)
    → same_key d e ≡ false
    → find_device (drop_null h d t).devices e ≡ find_device t.devices e
drop_null_other none d e t i = find_erase_other t.devices d e i
drop_null_other (some h) d e t i = refl

set_found_other :
    (c : ℕ) (d e : DevId) (h : ℕ) (f : Option (Option ℕ)) (t : MapDevIdPHandle)
    → same_key d e ≡ false
    → find_device (set_found c d h f t).devices e ≡ find_device t.devices e
set_found_other c d e h none t i = refl
set_found_other c d e h (some g) t i = find_put_other t.devices d e (some h) i

-- A step of a thread that holds the mutex of one device leaves the entries of all others alone.
pub work_other :
    (o : Outcome) (d e : DevId) (w : Work) (t : MapDevIdPHandle)
    → same_key d e ≡ false
    → find_device (work o d w t).1.devices e ≡ find_device t.devices e
unfolding work
work_other o d e (start request) t i = touched_other (find_device t.devices d) d e t i
work_other o d e (start (opening c)) t i = open_found_other c d e (find_device t.devices d) t i
work_other o d e (start (closing c f)) t i = refl
work_other o d e (sending none) t i = refl
work_other o d e (sending (some h)) t i = refl
work_other o d e (sent res) t i = refl
work_other o d e (creating c) t i = refl
work_other o d e (recording c none) t i =
    drop_null_other (handle_of (find_device t.devices d)) d e t i
work_other o d e (recording c (some h)) t i =
    drop_null_other
      (handle_of (find_device (set_found c d h (find_device t.devices d) t).devices d)) d e
      (set_found c d h (find_device t.devices d) t) i
    ∙ set_found_other c d e h (find_device t.devices d) t i
work_other o d e (opened b) t i = refl
work_other o d e (deciding f) t i = refl
work_other o d e destroying t i = find_put_other t.devices d e none i
work_other o d e erasing t i = find_erase_other t.devices d e i
work_other o d e closed t i = refl

-- A thread in `send_request` uses the handle that the table has for its device.
abbrev pub Steady : MapDevIdPHandle → Place → Type 0
Steady t (inside d (sending (some h))) = find_device t.devices d ≡ some (some h)
Steady t _ = Unit {0}

abbrev pub AllSteady : MapDevIdPHandle → List Place → Type 0
AllSteady t [] = Unit {0}
AllSteady t (p ∷ ps) = Steady t p × AllSteady t ps

abbrev pub IsSteady : Sys → Type 0
IsSteady s = AllSteady s.shared.table s.threads
