-- ===== src/Supervisor.antt =====
-- server/supervisor.cpp and server/supervisor.hpp: class Supervisor, which counts the calls that hold a device and
-- switches a slot off and on when too many do. The thread's rounds and the calls are steps, one after the other; the shell
-- commands that switch a slot are the list of the slots switched. A counter below 0 is erased at once, so that a count is a
-- natural number. The counters are taken to stay below 2 ^ 31, as an int does.
pub mod Holders
pub mod Reload
use xibridge.Prelude.{
  ℕ, zero, suc, ◌+◌, ◌*◌, ◌-◌, ◌^◌, ◌==◌, ◌&&◌, ◌||◌, leb, negsuc, Bool, true, false, List, [], ◌∷◌,
  Option, none, some, if◌then◌else◌, ltb, same_bytes, ℤ, ltb_ℤ, pos,
}

abbrev pub supervisor_limit : ℕ
supervisor_limit = 30

pub record Supervisor : Type 0 where
  pub resources : List (List ℕ × ℕ)
  pub work : Bool
  pub limit : ℤ

-- `std::map`: `find`, `erase` and the assignment to `resources[resource]`.
abbrev pub find_resource : List ℕ → List (List ℕ × ℕ) → Option ℕ
find_resource resource [] = none
find_resource resource ((name, n) ∷ t) =
    if same_bytes name resource then some n else find_resource resource t

abbrev pub set_resource : List ℕ → ℕ → List (List ℕ × ℕ) → List (List ℕ × ℕ)
set_resource resource v [] = (resource, v) ∷ []
set_resource resource v ((name, n) ∷ t) =
    if same_bytes name resource then (name, v) ∷ t else (name, n) ∷ set_resource resource v t

abbrev pub erase_resource : List ℕ → List (List ℕ × ℕ) → List (List ℕ × ℕ)
erase_resource resource [] = []
erase_resource resource ((name, n) ∷ t) =
    let rest = erase_resource resource t in
    if same_bytes name resource then rest else (name, n) ∷ rest

-- `none` is the exception.
unfoldable pub set_limit : ℤ → Supervisor → Option Supervisor
set_limit limit_ s = if ltb_ℤ limit_ (pos 2) then none else some (record s { limit = limit_ })

-- The int counter is not to be at its largest.
abbrev pub count_acquired : List ℕ → Option ℕ → List (List ℕ × ℕ) → List (List ℕ × ℕ)
count_acquired resource none t = set_resource resource 0 t
count_acquired resource (some n) t = set_resource resource (n + 1) t

unfoldable pub acquire_resource : List ℕ → Supervisor → Supervisor
acquire_resource resource s =
    if s.work
    then record s {
      resources = count_acquired resource (find_resource resource s.resources) s.resources;
    }
    else s

abbrev pub count_released : List ℕ → Option ℕ → List (List ℕ × ℕ) → Option (List (List ℕ × ℕ))
count_released resource none t = none
count_released resource (some zero) t = some (erase_resource resource t)
count_released resource (some (suc n)) t = some (set_resource resource n t)

abbrev pub with_resources : Supervisor → Option (List (List ℕ × ℕ)) → Option Supervisor
with_resources s none = none
with_resources s (some t) = some (record s { resources = t })

-- `none` is the exception for a resource that was not acquired.
unfoldable pub release_resource : List ℕ → Supervisor → Option Supervisor
release_resource resource s =
    if s.work
    then with_resources s (count_released resource (find_resource resource s.resources) s.resources)
    else some s

-- Sets the counter of a resource to 0 if it is still there.
abbrev pub reset_counter : List ℕ → Option ℕ → List (List ℕ × ℕ) → List (List ℕ × ℕ)
reset_counter resource none t = t
reset_counter resource (some n) t = set_resource resource 0 t

-- `std::stoi`: blanks, a sign, digits; `none` is the exception for a text without digits or a number that is no int.
abbrev pub is_decimal_digit : ℕ → Bool
is_decimal_digit c = leb 48 c && leb c 57

abbrev pub is_space : ℕ → Bool
is_space c = c == 32 || (leb 9 c && leb c 13)

abbrev pub decimal_from : ℕ → List ℕ → ℕ
decimal_from v [] = v
decimal_from v (c ∷ s) = if is_decimal_digit c then decimal_from (v * 10 + (c - 48)) s else v

abbrev pub decimal_of : List ℕ → Option ℕ
decimal_of [] = none
decimal_of (c ∷ s) = if is_decimal_digit c then some (decimal_from 0 (c ∷ s)) else none

abbrev pub positive_int : Option ℕ → Option ℤ
positive_int none = none
positive_int (some v) = if ltb v (2 ^ 31) then some (pos v) else none

abbrev pub negative_int : Option ℕ → Option ℤ
negative_int none = none
negative_int (some zero) = some (pos 0)
negative_int (some (suc k)) = if ltb k (2 ^ 31) then some (negsuc k) else none

unfoldable pub stoi : List ℕ → Option ℤ
stoi [] = none
stoi (c ∷ s) =
    let rest = stoi s in
    if is_space c
    then rest
    else if c == 45
    then negative_int (decimal_of s)
    else if c == 43
    then positive_int (decimal_of s)
    else positive_int (decimal_of (c ∷ s))

-- What the rest of the loop gives, with the slot switched before it.
abbrev pub switched : ℤ → Option (List (List ℕ × ℕ) × List ℤ) → Option (List (List ℕ × ℕ) × List ℤ)
switched slot none = none
switched slot (some (t, slots)) = some (t, slot ∷ slots)

-- The loop of a round over `resources`, with the slots that it switched; `none` is the exception of `stoi`, which
-- nothing catches. The comparison is with `LIMIT`, not with `limit`.
abbrev pub reload_all : List (List ℕ × ℕ) → List (List ℕ × ℕ) → Option (List (List ℕ × ℕ) × List ℤ)
reload_all [] t = some (t, [])
reload_all ((name, n) ∷ todo) t =
    if ltb supervisor_limit n
    then elim (stoi name) [
      | none ↦ none
      | some slot ↦ switched slot (reload_all todo (reset_counter name (find_resource name t) t))
    ]
    else reload_all todo t

abbrev pub with_slots :
    Supervisor → Option (List (List ℕ × ℕ) × List ℤ) → Option (Supervisor × List ℤ)
with_slots s none = none
with_slots s (some (t, slots)) = some (record s { resources = t }, slots)

-- A round of the thread `supervisor`.
unfoldable pub supervisor_round : Supervisor → Option (Supervisor × List ℤ)
supervisor_round s =
    if s.work then with_slots s (reload_all s.resources s.resources) else some (s, [])

abbrev pub stop : Supervisor → Supervisor
stop s = record s { work = false }
