-- ===== src/Supervisor/Holders.antt =====
-- The counters against the number of calls that hold each resource.
use xibridge.Prelude.{
  ℕ, zero, suc, ◌+◌, ◌<◌, ◌^◌, length, ◌≡◌, ◌⊎◌, refl, sym, ap, ◌∙◌, true, false, List, [], ◌∷◌,
  Option, none, some, if◌then◌else◌, arith, ==_refl, same_bytes, Bool-cases, inl, inr,
}
use xibridge.Supervisor.{
  Supervisor, find_resource, set_resource, erase_resource, count_acquired, acquire_resource,
  count_released, with_resources, release_resource,
}

pub same_bytes_refl : (a : List ℕ) → same_bytes a a ≡ true
same_bytes_refl [] = refl
same_bytes_refl (x ∷ a) = rw (==_refl x) (same_bytes_refl a)

pub same_bytes_trans : (a b c : List ℕ) → same_bytes a b ≡ true → same_bytes a c ≡ same_bytes b c
same_bytes_trans [] [] c h = refl
same_bytes_trans [] (y ∷ b) c h = ground arith
same_bytes_trans (x ∷ a) [] c h = ground arith
same_bytes_trans (x ∷ a) (y ∷ b) [] h = refl
same_bytes_trans (x ∷ a) (y ∷ b) (z ∷ c) h = ground (arith, same_bytes_trans a b c)

pub find-set_same :
    (r : List ℕ) (v : ℕ) (t : List (List ℕ × ℕ)) → find_resource r (set_resource r v t) ≡ some v
find-set_same r v [] = rw (same_bytes_refl r) refl
find-set_same r v ((name, n) ∷ t) = ground (arith, find-set_same r v t)

pub find-set_other :
    (k r : List ℕ) (v : ℕ) (t : List (List ℕ × ℕ))
    → same_bytes k r ≡ false
    → find_resource r (set_resource k v t) ≡ find_resource r t
find-set_other k r v [] h = rw h refl
find-set_other k r v ((name, n) ∷ t) h =
    ground (arith, find-set_other k r v t, same_bytes_trans name k r)

find-erase_same : (r : List ℕ) (t : List (List ℕ × ℕ)) → find_resource r (erase_resource r t) ≡ none
find-erase_same r [] = refl
find-erase_same r ((name, n) ∷ t) = ground (arith, find-erase_same r t)

find-erase_other :
    (k r : List ℕ) (t : List (List ℕ × ℕ))
    → same_bytes k r ≡ false
    → find_resource r (erase_resource k t) ≡ find_resource r t
find-erase_other k r [] h = refl
find-erase_other k r ((name, n) ∷ t) h =
    ground (arith, find-erase_other k r t, same_bytes_trans name k r)

pub same_bytes→eq : (a b : List ℕ) → same_bytes a b ≡ true → a ≡ b
same_bytes→eq [] [] h = refl
same_bytes→eq [] (y ∷ b) h = ground arith
same_bytes→eq (x ∷ a) [] h = ground arith
same_bytes→eq (x ∷ a) (y ∷ b) h = ground (arith, same_bytes→eq a b)

-- A call that takes the lock of a resource, and its end.
pub data Step : Type 0 where
  enter : List ℕ → Step
  leave : List ℕ → Step

-- The constructor and the destructor of SupervisorLock, `none` once one has thrown.
abbrev pub run : List Step → Supervisor → Option Supervisor
run [] s = some s
run (enter r ∷ steps) s = run steps (acquire_resource r s)
run (leave r ∷ steps) s = elim (release_resource r s) [ none ↦ none | some s' ↦ run steps s' ]

-- The calls that hold a resource: a list, from which a call that ends is removed.
abbrev pub kept : List ℕ → Option (List (List ℕ)) → Option (List (List ℕ))
kept k none = none
kept k (some hs) = some (k ∷ hs)

abbrev pub remove : List ℕ → List (List ℕ) → Option (List (List ℕ))
remove r [] = none
remove r (k ∷ hs) = let rest = remove r hs in if same_bytes k r then some hs else kept k rest

abbrev pub holding : List Step → List (List ℕ) → Option (List (List ℕ))
holding [] hs = some hs
holding (enter r ∷ steps) hs = holding steps (r ∷ hs)
holding (leave r ∷ steps) hs = elim (remove r hs) [ none ↦ none | some rest ↦ holding steps rest ]

abbrev pub count : List ℕ → List (List ℕ) → ℕ
count r [] = 0
count r (k ∷ hs) = if same_bytes k r then suc (count r hs) else count r hs

-- The counter of a resource is one less than the number of calls that hold it.
abbrev pub counter : ℕ → Option ℕ
counter zero = none
counter (suc n) = some n

abbrev pub Refines : List (List ℕ × ℕ) → List (List ℕ) → Type 0
Refines t hs = (r : List ℕ) → find_resource r t ≡ counter (count r hs)

acquire_same :
    (k : List ℕ) (n : ℕ) (t : List (List ℕ × ℕ))
    → find_resource k (count_acquired k (counter n) t) ≡ some n
acquire_same k zero t = find-set_same k 0 t
acquire_same k (suc n) t = find-set_same k (n + 1) t ∙ ap (λ v. some v) (omega arith)

acquire_other :
    (k r : List ℕ) (n : ℕ) (t : List (List ℕ × ℕ))
    → same_bytes k r ≡ false
    → find_resource r (count_acquired k (counter n) t) ≡ find_resource r t
acquire_other k r zero t h = find-set_other k r 0 t h
acquire_other k r (suc n) t h = find-set_other k r (n + 1) t h

acquire-Refines :
    (k : List ℕ) (t : List (List ℕ × ℕ)) (hs : List (List ℕ))
    → Refines t hs
    → Refines (count_acquired k (find_resource k t) t) (k ∷ hs)
acquire-Refines k t hs e r = elim (Bool-cases (same_bytes k r)) [
  | inl same ↦
      rw (e k, same)
        (ap (λ a. find_resource a (count_acquired k (counter (count k hs)) t))
            (sym (same_bytes→eq k r same))
          ∙ acquire_same k (count k hs) t
          ∙ ap (λ a. some (count a hs)) (same_bytes→eq k r same))
  | inr other ↦ rw (e k, other) (acquire_other k r (count k hs) t other ∙ e r)
]

count_swap :
    (a k r : List ℕ) (hs less : List (List ℕ))
    → count r hs ≡ count r (k ∷ less)
    → count r (a ∷ hs) ≡ count r (k ∷ a ∷ less)
count_swap a k r hs less h = ground arith

count-remove :
    (k r : List ℕ) (hs rest : List (List ℕ))
    → remove k hs ≡ some rest
    → count r hs ≡ count r (k ∷ rest)
count-remove k r [] rest h = ground arith
count-remove k r (a ∷ hs) rest h =
    go (count-remove k r hs) (Bool-cases (same_bytes a k)) (remove k hs) refl h
  where
    go :
        ((less : List (List ℕ)) → remove k hs ≡ some less → count r hs ≡ count r (k ∷ less))
        → ((same_bytes a k ≡ true) ⊎ (same_bytes a k ≡ false))
        → (o : Option (List (List ℕ))) → remove k hs ≡ o
        → (if same_bytes a k then some hs else kept a o) ≡ some rest
        → count r (a ∷ hs) ≡ count r (k ∷ rest)
    go before (inl same) o e g =
        ap (λ l. count r (l ∷ hs)) (same_bytes→eq a k same)
        ∙ ap (λ l. count r (k ∷ l)) (ground arith)
    go before (inr other) none e g = ground arith
    go before (inr other) (some less) e g =
        count_swap a k r hs less (before less e)
        ∙ ap (λ l. count r (k ∷ l)) {x = a ∷ less} (ground arith)

-- The table after a release, where the counter is `n`.
abbrev pub released : List ℕ → ℕ → List (List ℕ × ℕ) → List (List ℕ × ℕ)
released k zero t = erase_resource k t
released k (suc n) t = set_resource k n t

pub find-released_same :
    (k : List ℕ) (n : ℕ) (t : List (List ℕ × ℕ)) → find_resource k (released k n t) ≡ counter n
find-released_same k zero t = find-erase_same k t
find-released_same k (suc n) t = find-set_same k n t

find-released_other :
    (k r : List ℕ) (n : ℕ) (t : List (List ℕ × ℕ))
    → same_bytes k r ≡ false
    → find_resource r (released k n t) ≡ find_resource r t
find-released_other k r zero t h = find-erase_other k r t h
find-released_other k r (suc n) t h = find-set_other k r n t h

count_released-some :
    (k : List ℕ) (n : ℕ) (t : List (List ℕ × ℕ))
    → count_released k (some n) t ≡ some (released k n t)
count_released-some k zero t = refl
count_released-some k (suc n) t = refl

holds_it :
    (k : List ℕ) (t : List (List ℕ × ℕ)) (hs rest : List (List ℕ))
    → Refines t hs
    → remove k hs ≡ some rest
    → find_resource k t ≡ some (count k rest)
holds_it k t hs rest e h =
    e k
    ∙ ap counter {y = suc (count k rest)} (count-remove k k hs rest h ∙ rw (same_bytes_refl k) refl)

release-Refines :
    (k : List ℕ) (t : List (List ℕ × ℕ)) (hs rest : List (List ℕ))
    → Refines t hs
    → remove k hs ≡ some rest
    → Refines (released k (count k rest) t) rest
release-Refines k t hs rest e h r = elim (Bool-cases (same_bytes k r)) [
  | inl same ↦
      ap (λ a. find_resource a (released k (count k rest) t)) (sym (same_bytes→eq k r same))
      ∙ find-released_same k (count k rest) t
      ∙ ap (λ a. counter (count a rest)) (same_bytes→eq k r same)
  | inr other ↦
      find-released_other k r (count k rest) t other
      ∙ e r
      ∙ ap counter {y = count r rest} (count-remove k r hs rest h ∙ rw other refl)
]

acquire-working :
    (k : List ℕ) (s : Supervisor)
    → s.work ≡ true
    → acquire_resource k s
      ≡ record s { resources = count_acquired k (find_resource k s.resources) s.resources }
unfolding acquire_resource
acquire-working k s w =
    ap
      (λ b.
        if b
        then record s { resources = count_acquired k (find_resource k s.resources) s.resources }
        else s)
      w

pub release-working :
    (k : List ℕ) (s : Supervisor) (n : ℕ)
    → s.work ≡ true
    → find_resource k s.resources ≡ some n
    → release_resource k s ≡ some (record s { resources = released k n s.resources })
unfolding release_resource
release-working k s n w h =
    ap
      (λ b.
        if b
        then with_resources s (count_released k (find_resource k s.resources) s.resources)
        else some s)
      w
    ∙ ap (λ o. with_resources s (count_released k o s.resources)) h
    ∙ ap (with_resources s) (count_released-some k n s.resources)

abbrev pub counter_in : List ℕ → Option Supervisor → Option (Option ℕ)
counter_in r none = none
counter_in r (some s) = some (find_resource r s.resources)

run-counters :
    (steps : List Step) (s : Supervisor) (hs after : List (List ℕ))
    → s.work ≡ true
    → Refines s.resources hs
    → holding steps hs ≡ some after
    → (r : List ℕ) → counter_in r (run steps s) ≡ some (counter (count r after))
run-counters [] s hs after w e h r =
    ap (λ n. some n) (e r) ∙ ap (λ l. some (counter (count r l))) (ground arith)
run-counters (enter k ∷ steps) s hs after w e h r =
    ap (λ x. counter_in r (run steps x)) (acquire-working k s w)
    ∙ run-counters steps
        (record s { resources = count_acquired k (find_resource k s.resources) s.resources })
        (k ∷ hs) after w (acquire-Refines k s.resources hs e) h r
run-counters (leave k ∷ steps) s hs after w e h r = go (run-counters steps) (remove k hs) refl h
  where
    go :
        ((s' : Supervisor) (hs' final : List (List ℕ))
          → s'.work ≡ true
          → Refines s'.resources hs'
          → holding steps hs' ≡ some final
          → (a : List ℕ) → counter_in a (run steps s') ≡ some (counter (count a final)))
        → (o : Option (List (List ℕ))) → remove k hs ≡ o
        → elim o [ none ↦ none | some rest ↦ holding steps rest ] ≡ some after
        → counter_in r (run (leave k ∷ steps) s) ≡ some (counter (count r after))
    go next none q g = ground arith
    go next (some rest) q g =
        ap (λ o. counter_in r (elim o [ none ↦ none | some s' ↦ run steps s' ]))
          (release-working k s (count k rest) w (holds_it k s.resources hs rest e q))
        ∙ next (record s { resources = released k (count k rest) s.resources }) rest after w
            (release-Refines k s.resources hs rest e q) g r

-- While the supervisor works and none of its rounds comes between: any sequence of calls that take and release the locks
-- of resources, in which only calls that hold a resource release it, throws no exception, and leaves for each resource a
-- counter one less than the number of calls that hold it, or no counter if none does. It starts from counters that
-- agree with the calls in that way, and the calls that hold at first and the steps are together fewer than 2 ^ 31, so that
-- no int counter overflows.
pub run-Refines :
    (steps : List Step) (s : Supervisor) (hs after : List (List ℕ))
    → length hs + length steps < 2 ^ 31
    → s.work ≡ true
    → Refines s.resources hs
    → holding steps hs ≡ some after
    → (r : List ℕ) → counter_in r (run steps s) ≡ some (counter (count r after))
run-Refines steps s hs after few w e h r = run-counters steps s hs after w e h r
