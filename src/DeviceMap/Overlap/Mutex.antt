-- ===== src/DeviceMap/Overlap/Mutex.antt =====
-- server/mapdevidphnd.cpp: the keys of the pool and the locked mutexes.
use xibridge.Prelude.{
  ℕ, ◌+◌, ◌≡◌, refl, sym, ap, ◌∙◌, true, false, List, [], ◌∷◌, Option, none, some, if◌then◌else◌,
  arith, Bool-cases, inl, inr,
}
use xibridge.DevId.{DevId, dev_lt}
use xibridge.DeviceMap.{same_key}
use xibridge.DeviceMap.Overlap.{find_key, is_locked, without}

pub same_key_trans : (a b c : DevId) → same_key a b ≡ true → same_key c a ≡ same_key c b
unfolding same_key dev_lt
same_key_trans a b c h = ground arith

-- How many of the locked mutexes are that of a device.
abbrev pub locks : DevId → List DevId → ℕ
locks d [] = 0
locks d (k ∷ ks) = (if same_key k d then 1 else 0) + locks d ks

pub same_key_sym : (a b : DevId) → same_key a b ≡ same_key b a
unfolding same_key
same_key_sym a b = ground arith

pub same_key_left : (a b c : DevId) → same_key a b ≡ true → same_key a c ≡ same_key b c
same_key_left a b c h = same_key_sym a c ∙ same_key_trans a b c h ∙ same_key_sym c b

pub locks_same : (d e : DevId) (ks : List DevId) → same_key d e ≡ true → locks d ks ≡ locks e ks
locks_same d e [] h = refl
locks_same d e (k ∷ ks) h = rw (same_key_trans d e k h, locks_same d e ks h) refl

pub is_locked-locks : (k : DevId) (ks : List DevId) → is_locked k ks ≡ false → locks k ks ≡ 0
is_locked-locks k [] h = refl
is_locked-locks k (j ∷ ks) h = ground (arith, is_locked-locks k ks)

pub without_same : (k : DevId) (ks : List DevId) → locks k (without k ks) ≡ 0
without_same k [] = refl
without_same k (j ∷ ks) = elim (Bool-cases (same_key j k)) [
  | inl b ↦ rw b (without_same k ks)
  | inr b ↦ rw (b, b) (omega (arith, without_same k ks))
]

pub without_other :
    (k d : DevId) (ks : List DevId) → same_key k d ≡ false → locks d (without k ks) ≡ locks d ks
without_other k d [] h = refl
without_other k d (j ∷ ks) h = elim (Bool-cases (same_key j k)) [
  | inl b ↦ rw (b, same_key_left j k d b ∙ h) (omega (arith, without_other k d ks h))
  | inr b ↦ rw b (ap (λ (n : ℕ). (if same_key j d then 1 else 0) + n) (without_other k d ks h))
]

abbrev key_or : DevId → Option DevId → DevId
key_or j none = j
key_or j (some k) = k

pub find_key-same :
    (pool : List DevId) (d k : DevId) → find_key pool d ≡ some k → same_key k d ≡ true
find_key-same [] d k h = ground arith
find_key-same (j ∷ pool) d k h = elim (Bool-cases (same_key j d)) [
  | inl b ↦ ap (λ o. same_key (key_or j o) d) (sym h ∙ chosen b) ∙ b
  | inr b ↦ find_key-same pool d k (sym (passed b) ∙ h)
]
  where
    chosen : same_key j d ≡ true → find_key (j ∷ pool) d ≡ some j
    chosen b = rw b refl

    passed : same_key j d ≡ false → find_key (j ∷ pool) d ≡ find_key pool d
    passed b = rw b refl
