-- ===== src/Supervisor/Reload.antt =====
-- What the reset of a counter does to the calls that still hold the resource.
use xibridge.Prelude.{
  ℕ, ◌<◌, ◌≡◌, refl, ap, ◌∙◌, Bool, true, false, List, [], ◌∷◌, Option, none, some, if◌then◌else◌,
  arith, ltb, same_bytes, ℤ, ◌&&◌, Bool-cases, inl, inr,
}
use xibridge.Supervisor.{
  Supervisor, find_resource, reset_counter, release_resource, with_resources, count_released,
  reload_all, supervisor_round, stoi, switched, with_slots,
}
use xibridge.Supervisor.Holders.{
  same_bytes→eq, find-set_same, find-set_other, find-released_same, leave, run, release-working,
  released,
}

-- The counters after the loop of a round in which no `stoi` throws.
abbrev pub reset_all : List (List ℕ × ℕ) → List (List ℕ × ℕ) → List (List ℕ × ℕ)
reset_all [] t = t
reset_all ((name, n) ∷ todo) t =
    if ltb 30 n
    then reset_all todo (reset_counter name (find_resource name t) t)
    else reset_all todo t

abbrev pub is_number : Option ℤ → Bool
is_number none = false
is_number (some x) = true

-- Each resource with a counter above 30 has a name that is an int.
abbrev pub all_parse : List (List ℕ × ℕ) → Bool
all_parse [] = true
all_parse ((name, n) ∷ todo) = (if ltb 30 n then is_number (stoi name) else true) && all_parse todo

abbrev slot_first : Option ℤ → List ℤ → List ℤ
slot_first none slots = slots
slot_first (some slot) slots = slot ∷ slots

-- Which slots a round switches: the numbers of those names, in the order of the map.
abbrev pub slots_of : List (List ℕ × ℕ) → List ℤ
slots_of [] = []
slots_of ((name, n) ∷ todo) =
    if ltb 30 n then slot_first (stoi name) (slots_of todo) else slots_of todo

reload_all-reset_all :
    (todo t : List (List ℕ × ℕ))
    → all_parse todo ≡ true
    → reload_all todo t ≡ some (reset_all todo t, slots_of todo)
reload_all-reset_all [] t h = refl
reload_all-reset_all ((name, n) ∷ todo) t h = elim (Bool-cases (ltb 30 n)) [
  | inl b ↦ go b (stoi name) refl (reload_all-reset_all todo)
  | inr b ↦ rw b (reload_all-reset_all todo t (ground arith))
]
  where
    go :
        ltb 30 n ≡ true
        → (o : Option ℤ) → stoi name ≡ o
        → ((u : List (List ℕ × ℕ))
            → all_parse todo ≡ true
            → reload_all todo u ≡ some (reset_all todo u, slots_of todo))
        → reload_all ((name, n) ∷ todo) t
          ≡ some (reset_all ((name, n) ∷ todo) t, slots_of ((name, n) ∷ todo))
    go b none q next = absurd (ground arith)
    go b (some slot) q next =
        rw (b, q)
          (ap (switched slot) (next (reset_counter name (find_resource name t) t) (ground arith)))

reset_same :
    (r : List ℕ) (m : ℕ) (t : List (List ℕ × ℕ))
    → find_resource r t ≡ some m
    → find_resource r (reset_counter r (find_resource r t) t) ≡ some 0
reset_same r m t h = rw h (find-set_same r 0 t)

reset_other :
    (k r : List ℕ) (o : Option ℕ) (t : List (List ℕ × ℕ))
    → same_bytes k r ≡ false
    → find_resource r (reset_counter k o t) ≡ find_resource r t
reset_other k r none t n = refl
reset_other k r (some m) t n = find-set_other k r 0 t n

-- A reset of any resource leaves a counter that is 0 as it is.
reset_zero :
    (k r : List ℕ) (t : List (List ℕ × ℕ))
    → find_resource r t ≡ some 0
    → find_resource r (reset_counter k (find_resource k t) t) ≡ some 0
reset_zero k r t h = elim (Bool-cases (same_bytes k r)) [
  | inl same ↦
      ap (λ a. find_resource r (reset_counter a (find_resource a t) t)) (same_bytes→eq k r same)
      ∙ reset_same r 0 t h
  | inr other ↦ reset_other k r (find_resource k t) t other ∙ h
]

-- An entry of the loop's list.
reload_next :
    (name r : List ℕ) (n : ℕ) (todo t : List (List ℕ × ℕ)) (b : Bool)
    → ltb 30 n ≡ b
    → find_resource r (reset_all ((name, n) ∷ todo) t)
      ≡ find_resource r
          (reset_all todo (if b then reset_counter name (find_resource name t) t else t))
reload_next name r n todo t true h = rw h refl
reload_next name r n todo t false h = rw h refl

reload_zero :
    (todo t : List (List ℕ × ℕ)) (r : List ℕ)
    → find_resource r t ≡ some 0
    → find_resource r (reset_all todo t) ≡ some 0
reload_zero [] t r h = h
reload_zero ((name, n) ∷ todo) t r h = elim (Bool-cases (ltb 30 n)) [
  | inl b ↦
      reload_next name r n todo t true b
      ∙ reload_zero todo (reset_counter name (find_resource name t) t) r (reset_zero name r t h)
  | inr b ↦ reload_next name r n todo t false b ∙ reload_zero todo t r h
]

reload_found :
    (todo t : List (List ℕ × ℕ)) (r : List ℕ) (n m : ℕ)
    → 30 < n
    → find_resource r todo ≡ some n
    → find_resource r t ≡ some m
    → find_resource r (reset_all todo t) ≡ some 0
reload_found [] t r n m l h g = ground arith
reload_found ((name, v) ∷ todo) t r n m l h g = elim (Bool-cases (same_bytes name r)) [
  | inl same ↦
      reload_next name r v todo t true (ground arith)
      ∙ reload_zero todo (reset_counter name (find_resource name t) t) r (
          ap (λ a. find_resource r (reset_counter a (find_resource a t) t))
            (same_bytes→eq name r same)
          ∙ reset_same r m t g)
  | inr other ↦ elim (Bool-cases (ltb 30 v)) [
    | inl b ↦
        reload_next name r v todo t true b
        ∙ reload_found todo (reset_counter name (find_resource name t) t) r n m l (ground arith)
            (reset_other name r (find_resource name t) t other ∙ g)
    | inr b ↦ reload_next name r v todo t false b ∙ reload_found todo t r n m l (ground arith) g
  ]
]

abbrev pub after_round : Supervisor → Supervisor
after_round s = record s { resources = reset_all s.resources s.resources }

round-working :
    (s : Supervisor)
    → s.work ≡ true
    → all_parse s.resources ≡ true
    → supervisor_round s ≡ some (after_round s, slots_of s.resources)
unfolding supervisor_round
round-working s w p =
    ap (λ b. if b then with_slots s (reload_all s.resources s.resources) else some (s, [])) w
    ∙ ap (with_slots s) (reload_all-reset_all s.resources s.resources p)

release-absent :
    (k : List ℕ) (s : Supervisor)
    → s.work ≡ true
    → find_resource k s.resources ≡ none
    → release_resource k s ≡ none
unfolding release_resource
release-absent k s w h =
    ap
      (λ b.
        if b
        then with_resources s (count_released k (find_resource k s.resources) s.resources)
        else some s)
      w
    ∙ ap (λ o. with_resources s (count_released k o s.resources)) h

-- While the supervisor works, and where every resource whose counter is above 30 has a name that stoi takes for an int,
-- a round ends: it switches the slots of those numbers, in the order of the map, and a resource whose counter was above
-- 30 has the counter 0 afterwards, so that of two calls that then release it one after the other the second throws.
pub supervisor_round-leave :
    (s : Supervisor) (r : List ℕ) (n : ℕ)
    → s.work ≡ true
    → all_parse s.resources ≡ true
    → find_resource r s.resources ≡ some n
    → 30 < n
    → (supervisor_round s ≡ some (after_round s, slots_of s.resources))
      × (find_resource r (after_round s).resources ≡ some 0)
      × (run (leave r ∷ leave r ∷ []) (after_round s) ≡ none)
supervisor_round-leave s r n w p h l = (round-working s w p, zeroed, thrown)
  where
    zeroed : find_resource r (after_round s).resources ≡ some 0
    zeroed = reload_found s.resources s.resources r n n l h h

    thrown : run (leave r ∷ leave r ∷ []) (after_round s) ≡ none
    thrown =
        ap (λ o. elim o [ none ↦ none | some s' ↦ run (leave r ∷ []) s' ])
          (release-working r (after_round s) 0 w zeroed)
        ∙ ap (λ o. elim o [ none ↦ none | some s' ↦ run [] s' ])
            (release-absent r (record s { resources = released r 0 (after_round s).resources }) w
              (find-released_same r 0 (after_round s).resources))
