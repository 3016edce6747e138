-- ===== src/DeviceMap/Overlap/Counting.antt =====
-- server/mapdevidphnd.cpp: the threads inside against the locked mutexes, step by step.
use xibridge.Prelude.{
  ℕ, ◌+◌, ◌≤◌, ◌≡◌, refl, sym, ap, ◌∙◌, true, false, List, [], ◌∷◌, ◌++◌, Option, none, some,
  if◌then◌else◌, Bool, ◌&&◌, arith, Bool-cases, inl, inr,
}
use xibridge.DevId.{DevId}
use xibridge.DeviceMap.{is_nodevice, same_key}
use xibridge.DeviceMap.Overlap.Mutex.{
  same_key_trans, locks, same_key_left, locks_same, is_locked-locks, without_same, without_other,
  find_key-same,
}
use xibridge.DeviceMap.Overlap.{
  Job, Work, start, sending, sent, creating, recording, opened, deciding, destroying, erasing,
  closed, Place, outside, waiting, inserting, queued, inside, lost, answered, Shared, holds,
  holders, left, find_key, with_key, is_locked, taken, without, given_back, Act, ask_request,
  ask_open, ask_close, ask_removal, no_removal, find_mutex, no_mutex, add_mutex, lock_mutex,
  work_on, unlock_mutex, return,
}

holds_same : (d e : DevId) (p : Place) → same_key d e ≡ true → holds d p ≡ holds e p
holds_same d e outside h = refl
holds_same d e (waiting c job) h = refl
holds_same d e (inserting c job) h = refl
holds_same d e (queued c k job) h = refl
holds_same d e (inside c w) h = same_key_trans d e c h
holds_same d e (lost c) h = refl
holds_same d e (answered b) h = refl

holders_same : (d e : DevId) (ps : List Place) → same_key d e ≡ true → holders d ps ≡ holders e ps
holders_same d e [] h = refl
holders_same d e (p ∷ ps) h =
    ap (λ b. (if b then 1 else 0) + holders d ps) (holds_same d e p h)
    ∙ ap (λ (n : ℕ). (if holds e p then 1 else 0) + n) (holders_same d e ps h)

pub holders-middle :
    (d : DevId) (xs ys : List Place) (p : Place)
    → holders d (xs ++ p ∷ ys) ≡ (if holds d p then 1 else 0) + holders d (xs ++ ys)
holders-middle d [] ys p = refl
holders-middle d (x ∷ xs) ys p = omega (arith, holders-middle d xs ys p)

abbrev pub cost : DevId → Place → ℕ
cost d p = if holds d p then 1 else 0

abbrev pub left_place : Option Place → Place
left_place none = outside
left_place (some q) = q

left_outside : (d e : DevId) (w : Work) → holds d (left_place (left e w)) ≡ false
left_outside d e (start job) = refl
left_outside d e (sending h) = refl
left_outside d e (sent res) = elim (Bool-cases (is_nodevice res)) [
  | inl b ↦ rw b refl
  | inr b ↦ rw b refl
]
left_outside d e (creating c) = refl
left_outside d e (recording c h) = refl
left_outside d e (opened b) = refl
left_outside d e (deciding f) = refl
left_outside d e destroying = refl
left_outside d e erasing = refl
left_outside d e closed = refl

pub left_none : (d e : DevId) (w : Work) {q : Place} → left e w ≡ some q → cost d q ≡ 0
left_none d e w {q} h = rw (ap (λ o. holds d (left_place o)) (sym h) ∙ left_outside d e w) refl

-- A thread that is queued has the mutex of its device.
abbrev pub keyed : Place → Bool
keyed (queued d k job) = same_key k d
keyed _ = true

abbrev pub all_keyed : List Place → Bool
all_keyed [] = true
all_keyed (p ∷ ps) = keyed p && all_keyed ps

pub all_keyed-middle :
    (xs ys : List Place) (p : Place) → all_keyed (xs ++ p ∷ ys) ≡ keyed p && all_keyed (xs ++ ys)
all_keyed-middle [] ys p = refl
all_keyed-middle (x ∷ xs) ys p =
    ap (λ b. keyed x && b) (all_keyed-middle xs ys p)
    ∙ swap (keyed x) (keyed p) (all_keyed (xs ++ ys))
  where
    swap : (a b c : Bool) → a && (b && c) ≡ b && (a && c)
    swap a b c = ground arith

-- A thread and the others against the locked mutexes.
abbrev pub Counted : DevId → ℕ → Place → List DevId → Type 0
Counted d others p ks = (cost d p + others ≤ locks d ks) × (locks d ks ≤ 1)

given_back-Counted :
    (d e : DevId) (w : Work) (n : ℕ) (o : Option DevId) (ks : List DevId)
    → ((k : DevId) → o ≡ some k → same_key k e ≡ true)
    → cost d (inside e w) + n ≤ locks d ks
    → locks d ks ≤ 1
    → (n ≤ locks d (given_back o ks)) × (locks d (given_back o ks) ≤ 1)
given_back-Counted d e w n none ks f l m = (omega (arith, l), m)
given_back-Counted d e w n (some k) ks f l m = elim (Bool-cases (same_key e d)) [
  | inl same ↦
      let all = locks_same k d (without k ks) (same_key_left k e d (f k refl) ∙ same) in
      let own : cost d (inside e w) ≡ 1 = rw same refl in
      (omega (arith, l, m, own), omega (arith, sym all ∙ without_same k ks))
  | inr other ↦
      let rest = without_other k d ks (same_key_left k e d (f k refl) ∙ other) in
      (omega (arith, l, rest), omega (arith, m, rest))
]

taken-Counted :
    (d e k : DevId) (job : Job) (n : ℕ) (ks : List DevId)
    → same_key k e ≡ true
    → is_locked k ks ≡ false
    → n ≤ locks d ks
    → locks d ks ≤ 1
    → Counted d n (inside e (start job)) (taken k ks)
taken-Counted d e k job n ks h free l m = elim (Bool-cases (same_key e d)) [
  | inl same ↦
      let both = same_key_left k e d h ∙ same in
      let none_locked = sym (locks_same k d ks both) ∙ is_locked-locks k ks free in
      rw (same, both) (omega (arith, l, none_locked), omega (arith, none_locked))
  | inr other ↦ rw (other, same_key_left k e d h ∙ other) (omega (arith, l), omega (arith, m))
]

keyed-left : (e : DevId) (w : Work) → keyed (left_place (left e w)) ≡ true
keyed-left e (start job) = refl
keyed-left e (sending h) = refl
keyed-left e (sent res) = elim (Bool-cases (is_nodevice res)) [
  | inl b ↦ rw b refl
  | inr b ↦ rw b refl
]
keyed-left e (creating c) = refl
keyed-left e (recording c h) = refl
keyed-left e (opened b) = refl
keyed-left e (deciding f) = refl
keyed-left e destroying = refl
keyed-left e erasing = refl
keyed-left e closed = refl

-- A step between two places outside the mutex.
same_cost :
    (d : DevId) (n : ℕ) {p q a b : Place} {s s' : Shared}
    → p ≡ a
    → q ≡ b
    → s' ≡ s
    → cost d a ≡ cost d b
    → Counted d n p s.locked
    → Counted d n q s'.locked
same_cost d n i j k c l = rw k (omega (arith, l.0, ap (cost d) i, ap (cost d) j, c), l.1)

pub Act-keyed :
    {named : List DevId} {p q : Place} {s s' : Shared} → Act named p s q s' → keyed q ≡ true
Act-keyed (ask_request e h n g i j k) = ap keyed j
Act-keyed (ask_open c e n g i j k) = ap keyed j
Act-keyed (ask_close c e f n g i j k) = ap keyed j
Act-keyed (ask_removal e n g i j k) = ap keyed j
Act-keyed (no_removal e g i j k) = ap keyed j
Act-keyed {s = s} (find_mutex e m job g i j k) = ap keyed j ∙ find_key-same s.pool e m g
Act-keyed (no_mutex e job g i j k) = ap keyed j
Act-keyed {s = s} (add_mutex e m job g i j k) =
    ap keyed j ∙ find_key-same (with_key (find_key s.pool e) e s.pool) e m g
Act-keyed (lock_mutex e m job g i j k) = ap keyed j
Act-keyed (work_on o e w i j k) = ap keyed j
Act-keyed (unlock_mutex e w g i k) = ap (λ o. keyed (left_place o)) (sym g) ∙ keyed-left e w
Act-keyed (return b i j k) = ap keyed j

pub Act-Counted :
    {named : List DevId} (d : DevId) (n : ℕ) {p q : Place} {s s' : Shared}
    → Act named p s q s'
    → keyed p ≡ true
    → Counted d n p s.locked
    → Counted d n q s'.locked
Act-Counted d n (ask_request e h a g i j k) y l = same_cost d n i j k refl l
Act-Counted d n (ask_open c e a g i j k) y l = same_cost d n i j k refl l
Act-Counted d n (ask_close c e f a g i j k) y l = same_cost d n i j k refl l
Act-Counted d n (ask_removal e a g i j k) y l = same_cost d n i j k refl l
Act-Counted d n (no_removal e g i j k) y l = same_cost d n i j k refl l
Act-Counted d n (find_mutex e m job g i j k) y l = same_cost d n i j k refl l
Act-Counted d n (no_mutex e job g i j k) y l = same_cost d n i j k refl l
Act-Counted d n {s = s} (add_mutex e m job g i j k) y l =
    rw (ap (λ (u : Shared). u.locked) k) (omega (arith, l.0, ap (cost d) i, ap (cost d) j), l.1)
Act-Counted d n {s = s} (lock_mutex e m job g i j k) y l =
    rw (j, k) (taken-Counted d e m job n s.locked (sym (ap keyed i) ∙ y) g (omega (arith, l.0)) l.1)
Act-Counted d n (work_on o e w i j k) y l =
    rw (ap (λ (u : Shared). u.locked) k) (omega (arith, l.0, ap (cost d) i, ap (cost d) j), l.1)
Act-Counted d n {s = s} (unlock_mutex e w g i k) y l =
    let (a, b) =
      given_back-Counted d e w n (find_key s.pool e) s.locked (find_key-same s.pool e)
        (omega (arith, l.0, ap (cost d) i)) l.1 in
    rw (ap (λ (u : Shared). u.locked) k) (omega (arith, a, left_none d e w g), b)
Act-Counted d n (return b i j k) y l = same_cost d n i j k refl l
