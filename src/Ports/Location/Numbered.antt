-- ===== src/Ports/Location/Numbered.antt =====
-- Which places on the USB get one number.
use xibridge.Prelude.{
  ℕ, ◌≡◌, refl, sym, ap, ◌∙◌, Bool, true, false, List, [], ◌∷◌, ◌++◌, append_assoc, none, some,
  if◌then◌else◌, ◌==◌, ==_refl, Bool-cases, inl, inr, arith,
}
use xibridge.Ports.Location.{
  split_first, split_last, behind, usb_and_hub, numbered, location_id, id_of_link, scan_decimal,
  is_scanned,
}

abbrev pub has : ℕ → List ℕ → Bool
has c [] = false
has c (a ∷ s) = if a == c then true else has c s

-- A text without dot, colon and slash.
pub record IsPlain (s : List ℕ) : Type 0 where
  pub no_dot : has 46 s ≡ false
  pub no_colon : has 58 s ≡ false
  pub no_slash : has 47 s ≡ false

has-append :
    (c : ℕ) (xs ys : List ℕ) → has c xs ≡ false → has c ys ≡ false → has c (xs ++ ys) ≡ false
has-append c [] ys h i = i
has-append c (a ∷ xs) ys h i = elim (Bool-cases (a == c)) [
  | inl b ↦ absurd (ground arith)
  | inr b ↦ rw b (has-append c xs ys (tail_has b) i)
]
  where
    tail_has : (a == c) ≡ false → has c xs ≡ false
    tail_has b = ground arith

split_last-none : (c : ℕ) (s : List ℕ) → has c s ≡ false → split_last c s ≡ none
split_last-none c [] h = refl
split_last-none c (a ∷ s) h = elim (Bool-cases (a == c)) [
  | inl b ↦ absurd (ground arith)
  | inr b ↦ rw (split_last-none c s (tail_has b), b) refl
]
  where
    tail_has : (a == c) ≡ false → has c s ≡ false
    tail_has b = ground arith

split_last-append :
    (c : ℕ) (xs ys : List ℕ) → has c ys ≡ false → split_last c (xs ++ c ∷ ys) ≡ some (xs, ys)
split_last-append c [] ys h = rw (split_last-none c ys h, ==_refl c) refl
split_last-append c (a ∷ xs) ys h = rw (split_last-append c xs ys h) refl

split_first-append :
    (c : ℕ) (xs ys : List ℕ) → has c xs ≡ false → split_first c (xs ++ c ∷ ys) ≡ some (xs, ys)
split_first-append c [] ys h = rw (==_refl c) refl
split_first-append c (a ∷ xs) ys h = elim (Bool-cases (a == c)) [
  | inl b ↦ absurd (ground arith)
  | inr b ↦ rw (b, split_first-append c xs ys (tail_has b)) refl
]
  where
    tail_has : (a == c) ≡ false → has c xs ≡ false
    tail_has b = ground arith

-- The name of a place is what stands behind the last slash and in front of the colon.
id_of_link-name :
    (dir name rest : List ℕ)
    → has 58 name ≡ false
    → has 47 (name ++ 58 ∷ rest) ≡ false
    → id_of_link (dir ++ 47 ∷ (name ++ 58 ∷ rest))
      ≡ numbered (usb_and_hub name (split_last 46 name))
unfolding id_of_link
id_of_link-name dir name rest h i =
    rw (split_last-append 47 dir (name ++ 58 ∷ rest) i, split_first-append 58 name rest h) refl

-- Hub 1 counts as no hub.
numbered-first_hub : (n : List ℕ) → numbered (some n, some (49 ∷ [])) ≡ numbered (some n, none)
unfolding location_id scan_decimal
numbered-first_hub n = elim (Bool-cases (is_scanned (scan_decimal n))) [
  | inl b ↦ rw b refl
  | inr b ↦ rw b refl
]

slashless :
    (name rest : List ℕ)
    → has 47 name ≡ false
    → has 47 rest ≡ false
    → has 47 (name ++ 58 ∷ rest) ≡ false
slashless name rest h i = has-append 47 name (58 ∷ rest) h i

-- A port n behind a device and a port n of the hub at port 1 of that device get the same identifier, or none: the links
-- that end in /d.n:r and in /d.1.n:r, where d and n have no dot, colon or slash and r has no slash.
pub id_of_link-same :
    (dir d n r : List ℕ)
    → IsPlain d
    → IsPlain n
    → has 47 r ≡ false
    → id_of_link (dir ++ 47 ∷ ((d ++ 46 ∷ n) ++ 58 ∷ r))
      ≡ id_of_link (dir ++ 47 ∷ ((d ++ 46 ∷ 49 ∷ 46 ∷ n) ++ 58 ∷ r))
id_of_link-same dir d n r p q h =
    id_of_link-name dir (d ++ 46 ∷ n) r (has-append 58 d (46 ∷ n) p.no_colon q.no_colon)
      (slashless (d ++ 46 ∷ n) r (has-append 47 d (46 ∷ n) p.no_slash q.no_slash) h)
    ∙ rw (split_last-append 46 d n q.no_dot, split_last-none 46 d p.no_dot)
        (sym (numbered-first_hub n))
    ∙ sym (
        id_of_link-name dir (d ++ 46 ∷ 49 ∷ 46 ∷ n) r
          (has-append 58 d (46 ∷ 49 ∷ 46 ∷ n) p.no_colon q.no_colon)
          (slashless (d ++ 46 ∷ 49 ∷ 46 ∷ n) r
            (has-append 47 d (46 ∷ 49 ∷ 46 ∷ n) p.no_slash q.no_slash) h)
        ∙ whole)
  where
    whole :
        numbered (usb_and_hub (d ++ 46 ∷ 49 ∷ 46 ∷ n) (split_last 46 (d ++ 46 ∷ 49 ∷ 46 ∷ n)))
        ≡ numbered (some n, some (49 ∷ []))
    whole =
        ap (λ o. numbered (usb_and_hub (d ++ 46 ∷ 49 ∷ 46 ∷ n) o))
          (ap (split_last 46) (sym (append_assoc d (46 ∷ 49 ∷ []) (46 ∷ n)))
            ∙ split_last-append 46 (d ++ 46 ∷ 49 ∷ []) n q.no_dot)
        ∙ ap (λ o. numbered (some n, behind o)) (split_last-append 46 d (49 ∷ []) refl)
