-- ===== src/Serial/Reliable.antt =====
-- A port that moves all the bytes it is asked for, and what the functions of devserial.c make of one.
use xibridge.Prelude.{
  ℕ, zero, suc, ◌+◌, ◌≤◌, ◌≡◌, ◌≢◌, refl, sym, ap, ◌∙◌, List, [], ◌∷◌, ◌++◌, some, arith, length,
  take, drop, replicate, ==_refl, length-append, take-append,
}
use xibridge.Serial.{
  xib_result_ok, transferred, SerialPort, store_bytes, command_port_send, command_port_receive,
  receive,
}
use xibridge.Serial.Request.{first_nonzero}

pub record ReliablePort {P : Type 0} (port : SerialPort P) : Type 0 where
  pub incoming : P → List ℕ
  pub outgoing : P → List ℕ
  pub put : List ℕ → P → P
  pub got : ℕ → P → P
  pub write_lem :
      (bs : List ℕ) (t : ℕ) (s : P) → port.write bs t s ≡ (transferred (length bs), put bs s)
  pub incoming-put : (bs : List ℕ) (s : P) → incoming (put bs s) ≡ incoming s
  pub outgoing-put : (bs : List ℕ) (s : P) → outgoing (put bs s) ≡ outgoing s ++ bs
  pub read_lem :
      (n t : ℕ) (s : P)
      → n ≤ length (incoming s)
      → port.read n t s ≡ (transferred n, take n (incoming s), got n s)
  pub incoming-got : (n : ℕ) (s : P) → incoming (got n s) ≡ drop n (incoming s)
  pub outgoing-got : (n : ℕ) (s : P) → outgoing (got n s) ≡ outgoing s

pub store_bytes_all : (bs buf : List ℕ) → length bs ≡ length buf → store_bytes bs buf ≡ bs
store_bytes_all [] [] h = refl
store_bytes_all [] (c ∷ buf) h = absurd (omega arith)
store_bytes_all (b ∷ bs) [] h = absurd (omega arith)
store_bytes_all (b ∷ bs) (c ∷ buf) h = ap (λ xs. b ∷ xs) (store_bytes_all bs buf (omega arith))

module _ {P : Type 0} (port : SerialPort P) (r : ReliablePort port) where
  pub send_reliable :
      (bs : List ℕ) (s : P) → command_port_send port bs s ≡ (xib_result_ok, r.put bs s)
  unfolding command_port_send
  send_reliable bs s = rw (r.write_lem bs 500 s) refl

  receive_part :
      (xs ys buf : List ℕ) (s : P)
      → r.incoming s ≡ xs ++ ys
      → length xs ≡ length buf
      → command_port_receive port buf s ≡ (xib_result_ok, xs, r.got (length xs) s)
  unfolding command_port_receive
  receive_part xs ys buf s e h =
      rw
        (sym h, r.read_lem (length xs) 500 s enough, e, take-append xs ys, store_bytes_all xs buf h)
        refl
    where
      enough : length xs ≤ length (r.incoming s)
      enough = omega (arith, ap length e, length-append xs ys)

  pub receive_reliable :
      (f : ℕ) (xs ys buf : List ℕ) (s : P)
      → r.incoming s ≡ xs ++ ys
      → length xs ≡ length buf
      → receive port (suc f) buf s ≡ some (xib_result_ok, xs, r.got (length xs) s)
  unfolding receive
  receive_reliable f xs ys buf s e h = rw (receive_part xs ys buf s e h) refl

  -- Zeroes, one at a time, and the byte after them.
  abbrev pub skipped : ℕ → P → P
  skipped zero s = r.got 1 s
  skipped (suc k) s = skipped k (r.got 1 s)

  pub incoming-skipped :
      (k c : ℕ) (rest : List ℕ) (s : P)
      → r.incoming s ≡ replicate k 0 ++ (c ∷ rest)
      → r.incoming (skipped k s) ≡ rest
  incoming-skipped zero c rest s e = r.incoming-got 1 s ∙ ap (drop 1) e
  incoming-skipped (suc k) c rest s e =
      incoming-skipped k c rest (r.got 1 s) (r.incoming-got 1 s ∙ ap (drop 1) e)

  pub outgoing-skipped : (k : ℕ) (s : P) → r.outgoing (skipped k s) ≡ r.outgoing s
  outgoing-skipped zero s = r.outgoing-got 1 s
  outgoing-skipped (suc k) s = outgoing-skipped k (r.got 1 s) ∙ r.outgoing-got 1 s

  pub first_nonzero_reliable :
      (k f fuel c x : ℕ) (rest : List ℕ) (s : P)
      → c ≢ 0
      → r.incoming s ≡ replicate k 0 ++ (c ∷ rest)
      → first_nonzero port (suc (k + f)) (suc fuel) (x ∷ []) s
        ≡ some (xib_result_ok, c ∷ [], skipped k s)
  first_nonzero_reliable zero f fuel c x rest s n e =
      rw (receive_reliable fuel (c ∷ []) rest (x ∷ []) s e refl) (ground arith)
  first_nonzero_reliable (suc k) f fuel c x rest s n e =
      rw (receive_reliable fuel (0 ∷ []) (replicate k 0 ++ (c ∷ rest)) (x ∷ []) s e refl) (
        rw (==_refl 0) (
          ap (λ (j : ℕ). first_nonzero port j (suc fuel) (0 ∷ []) (r.got 1 s)) {y = suc (k + f)}
            (omega arith)
          ∙ first_nonzero_reliable k f fuel c 0 rest (r.got 1 s) n
              (r.incoming-got 1 s ∙ ap (drop 1) e)))
