-- ===== src/DeviceMap/Overlap/Exclusion.antt =====
-- server/mapdevidphnd.cpp: the mutex of a device keeps two threads apart.
use xibridge.Prelude.{
  ◌≤◌, ◌≡◌, refl, sym, ap, ◌∙◌, true, false, List, [], ◌∷◌, ◌++◌, Bool, ◌&&◌, arith,
}
use xibridge.DevId.{DevId}
use xibridge.DeviceMap.{map_keys}
use xibridge.DeviceMap.Overlap.Counting.{
  holders-middle, keyed, all_keyed, all_keyed-middle, Act-keyed, Act-Counted,
}
use xibridge.DeviceMap.Overlap.Mutex.{locks}
use xibridge.DeviceMap.Overlap.{
  Place, outside, waiting, inserting, queued, inside, lost, answered, Sys, holders, Step, thread,
  Reach, here, next,
}

-- The threads inside are not more than the locked mutexes, and no mutex is locked twice.
pub record IsGuarded (s : Sys) : Type 0 where
  pub counted :
      (d : DevId) → (holders d s.threads ≤ locks d s.shared.locked) × (locks d s.shared.locked ≤ 1)
  pub keys_known : all_keyed s.threads ≡ true

abbrev pub all_outside : List Place → Bool
all_outside [] = true
all_outside (outside ∷ ps) = all_outside ps
all_outside (_ ∷ ps) = false

Step-IsGuarded : {named : List DevId} {s s' : Sys} → Step named s s' → IsGuarded s → IsGuarded s'
Step-IsGuarded {s = s} (thread xs ys p q t' e act f) h = rw f (record {
  counted = λ d.
      let (l, m) = h.counted d in
      let (a, b) =
        Act-Counted d (holders d (xs ++ ys)) act own
          (omega (arith, l, ap (holders d) e, holders-middle d xs ys p), m) in
      (omega (arith, a, holders-middle d xs ys q), b);
  keys_known = all_keyed-middle xs ys q ∙ rw (Act-keyed act) others;
})
  where
    both : keyed p && all_keyed (xs ++ ys) ≡ true
    both = sym (all_keyed-middle xs ys p) ∙ sym (ap all_keyed e) ∙ h.keys_known

    own : keyed p ≡ true
    own = ground (arith, both)

    others : all_keyed (xs ++ ys) ≡ true
    others = ground (arith, both)

pub Reach-IsGuarded :
    {named : List DevId} {s s' : Sys} → IsGuarded s → Reach named s s' → IsGuarded s'
Reach-IsGuarded h here = h
Reach-IsGuarded h (next r st) = Step-IsGuarded st (Reach-IsGuarded h r)

outside_holders : (d : DevId) (ps : List Place) → all_outside ps ≡ true → holders d ps ≡ 0
outside_holders d [] h = refl
outside_holders d (outside ∷ ps) h = omega (arith, outside_holders d ps h)
outside_holders d (waiting e job ∷ ps) h = absurd cc
outside_holders d (inserting e job ∷ ps) h = absurd cc
outside_holders d (queued e k job ∷ ps) h = absurd cc
outside_holders d (inside e w ∷ ps) h = absurd cc
outside_holders d (lost e ∷ ps) h = absurd cc
outside_holders d (answered b ∷ ps) h = absurd cc

outside_keyed : (ps : List Place) → all_outside ps ≡ true → all_keyed ps ≡ true
outside_keyed [] h = refl
outside_keyed (outside ∷ ps) h = outside_keyed ps h
outside_keyed (waiting e job ∷ ps) h = absurd cc
outside_keyed (inserting e job ∷ ps) h = absurd cc
outside_keyed (queued e k job ∷ ps) h = absurd cc
outside_keyed (inside e w ∷ ps) h = absurd cc
outside_keyed (lost e ∷ ps) h = absurd cc
outside_keyed (answered b ∷ ps) h = absurd cc

pub outside-IsGuarded :
    (s : Sys) → all_outside s.threads ≡ true → s.shared.locked ≡ [] → IsGuarded s
outside-IsGuarded s h l = record {
  counted = λ d. (omega (arith, outside_holders d s.threads h), omega (arith, ap (locks d) l));
  keys_known = outside_keyed s.threads h;
}

abbrev pub IsExclusive : Sys → Type 0
IsExclusive s = (d : DevId) → holders d s.threads ≤ 1

pub guarded-IsExclusive : (s : Sys) → IsGuarded s → IsExclusive s
guarded-IsExclusive s g d = let (l, m) = g.counted d in omega (arith, l, m)

-- The keys of the table and of the pool with the devices that threads look for.
abbrev pub all_keys : List DevId → Sys → List DevId
all_keys named s = named ++ map_keys s.shared.table.devices ++ s.shared.pool
