-- ===== src/Protocol/Schema/Plain.antt =====
-- Plain schemas: what `gen_plain_command` writes is as long as the schema says, and `is_match` accepts
-- it.
use xibridge.Prelude.{
  ℕ, ◌+◌, ◌-◌, ◌%◌, ◌^◌, ◌≤◌, ◌<◌, ◌≡◌, refl, sym, ap, ◌∙◌, Bool, true, false, List, [], ◌∷◌, ◌++◌,
  append-nil, append_assoc, arith, Option, none, some, length, length-append, ◌==◌, ==_refl,
  if◌then◌else◌,
}
use native.Mathlib.Nat.{mod-eq_of_lt}
use xibridge.Wire.RoundTrip.{be32}
use xibridge.MBuf.{mbuf_new, to_vector}
use xibridge.MBuf.Reader.{reader, big32, get32-reader}
use xibridge.MBuf.Writer.{filled, to_vector-filled}
use xibridge.DevId.{DevId}
use xibridge.DevId.Coding.{
  idev_bytes, big_idev3, truncated, <<-be32, put_idev3-filled, get_idev3-reader,
}
use xibridge.Protocol.Schema.{
  Symbol, separator, version, zeros, packet, device, bytes, block, flag, any, extended, unknown,
  symbol_of, symbol_length, plain_length, Fields, put_symbol, put_symbols, gen_plain_command,
  Matching, match_symbol, match_symbols, is_match, read_and,
}

-- The bytes that a symbol stands for, and those of a schema.
abbrev pub symbol_bytes : Fields → Symbol → List ℕ
symbol_bytes f version = be32 f.proto
symbol_bytes f zeros = be32 0
symbol_bytes f packet = be32 f.pkt_type
symbol_bytes f device = be32 f.dev.id
symbol_bytes f flag = be32 f.zero_one
symbol_bytes f any = be32 f.other
symbol_bytes f extended = idev_bytes f.dev
symbol_bytes f _ = []

abbrev pub text_bytes : Fields → List ℕ → List ℕ
text_bytes f [] = []
text_bytes f (ch ∷ chs) = symbol_bytes f (symbol_of ch) ++ text_bytes f chs

-- The fields as their types hold them.
pub record Fits (f : Fields) : Type 0 where
  pub pkt_type_fits : f.pkt_type < 2 ^ 32
  pub proto_fits : f.proto < 2 ^ 32
  pub id_fits : f.dev.id < 2 ^ 32
  pub zero_or_one : f.zero_one ≤ 1

length-symbol_bytes :
    (f : Fields) (s : Symbol) {n : ℕ} → symbol_length s ≡ some n → length (symbol_bytes f s) ≡ n
length-symbol_bytes f separator e = ground arith
length-symbol_bytes f s e = ground arith

length-text_bytes :
    (f : Fields) (text : List ℕ) (l n : ℕ)
    → plain_length text l ≡ some n
    → l + length (text_bytes f text) ≡ n
unfolding plain_length
length-text_bytes f [] l n e = ground arith
length-text_bytes f (ch ∷ chs) l n e =
    go (symbol_length (symbol_of ch)) refl e (λ k. length-text_bytes f chs k n)
  where
    both :
        length (symbol_bytes f (symbol_of ch) ++ text_bytes f chs)
        ≡ length (symbol_bytes f (symbol_of ch)) + length (text_bytes f chs)
    both = length-append (symbol_bytes f (symbol_of ch)) (text_bytes f chs)

    go :
        (o : Option ℕ)
        → symbol_length (symbol_of ch) ≡ o
        → elim o [ none ↦ none | some m ↦ plain_length chs (l + m) ] ≡ some n
        → ((k : ℕ) → plain_length chs k ≡ some n → k + length (text_bytes f chs) ≡ n)
        → l + length (text_bytes f (ch ∷ chs)) ≡ n
    go none q e' rest = cc
    go (some m) q e' rest =
        omega (arith, both, length-symbol_bytes f (symbol_of ch) q, rest (l + m) e')

put_symbol-filled :
    (f : Fields) (s : Symbol) (bs : List ℕ) (k : ℕ)
    → length (symbol_bytes f s) ≤ k
    → put_symbol f s (filled bs k) ≡ filled (bs ++ symbol_bytes f s) (k - length (symbol_bytes f s))
put_symbol-filled f version bs k h = <<-be32 bs k f.proto h
put_symbol-filled f zeros bs k h = <<-be32 bs k 0 h
put_symbol-filled f packet bs k h = <<-be32 bs k f.pkt_type h
put_symbol-filled f device bs k h = <<-be32 bs k f.dev.id h
put_symbol-filled f flag bs k h = <<-be32 bs k f.zero_one h
put_symbol-filled f any bs k h = <<-be32 bs k f.other h
put_symbol-filled f extended bs k h = put_idev3-filled bs k f.dev h
put_symbol-filled f s bs k h = λ i. filled (sym (append-nil bs) i) (spare i)
  where
    spare : k ≡ k - 0
    spare = omega arith

put_symbols-filled :
    (f : Fields) (text bs : List ℕ) (k : ℕ)
    → length (text_bytes f text) ≤ k
    → put_symbols f text (filled bs k)
      ≡ filled (bs ++ text_bytes f text) (k - length (text_bytes f text))
unfolding put_symbols
put_symbols-filled f [] bs k h = λ i. filled (sym (append-nil bs) i) (spare i)
  where
    spare : k ≡ k - 0
    spare = omega arith
put_symbols-filled f (ch ∷ chs) bs k h =
    let here : List ℕ = symbol_bytes f (symbol_of ch) in
    rw
      (
        put_symbol-filled f (symbol_of ch) bs k (omega (arith, both)),
        put_symbols-filled f chs (bs ++ here) (k - length here) (omega (arith, both)),
      )
      (λ i. filled (append_assoc bs here (text_bytes f chs) i) (spare i))
  where
    both :
        length (symbol_bytes f (symbol_of ch) ++ text_bytes f chs)
        ≡ length (symbol_bytes f (symbol_of ch)) + length (text_bytes f chs)
    both = length-append (symbol_bytes f (symbol_of ch)) (text_bytes f chs)

    spare :
        k - length (symbol_bytes f (symbol_of ch)) - length (text_bytes f chs)
        ≡ k - length (text_bytes f (ch ∷ chs))
    spare = omega (arith, both)

-- The bytes of a plain command are its symbols' bytes, one after the other.
pub gen_plain_command-bytes :
    (f : Fields) (text : List ℕ) (n : ℕ)
    → plain_length text 0 ≡ some n
    → gen_plain_command f text ≡ text_bytes f text
unfolding gen_plain_command
gen_plain_command-bytes f text n e =
    ap
      (λ o. elim o [ none ↦ [] | some l ↦ to_vector (put_symbols f text (mbuf_new l false)) false ])
      e
    ∙ rw (put_symbols-filled f text [] n (omega (arith, length-text_bytes f text 0 n e)))
        (to_vector-filled (text_bytes f text) (n - length (text_bytes f text)))

-- A plain command has the length that `get_plain_command_length` gives for its schema.
pub length-gen_plain_command :
    (f : Fields) (text : List ℕ) (n : ℕ)
    → plain_length text 0 ≡ some n
    → length (gen_plain_command f text) ≡ n
length-gen_plain_command f text n e =
    rw (gen_plain_command-bytes f text n e) (omega (arith, length-text_bytes f text 0 n e))

abbrev pub no_device : DevId
no_device = record { id = 0; pid = 0; vid = 0; reserve = 0 }

-- The loop of `is_match` between two symbols, its numbers holding `old` and `dev`.
abbrev between : List ℕ → List ℕ → ℕ → DevId → Matching
between done rest old dev = record {
  mbuf = reader done rest;
  hex = big32 old;
  hdev = big_idev3 dev;
}

-- What the numbers hold after a symbol.
abbrev held : Fields → Symbol → ℕ → ℕ
held f version old = f.proto % 2 ^ 32
held f zeros old = 0
held f packet old = f.pkt_type % 2 ^ 32
held f device old = f.dev.id % 2 ^ 32
held f flag old = f.zero_one % 2 ^ 32
held f any old = f.other % 2 ^ 32
held f _ old = old

abbrev held_dev : Fields → Symbol → DevId → DevId
held_dev f extended dev = truncated f.dev
held_dev f _ dev = dev

read_and-reader :
    (test : ℕ → Bool) (v old : ℕ) (done rest : List ℕ) (dev : DevId)
    → test (v % 2 ^ 32) ≡ true
    → read_and test (between done (be32 v ++ rest) old dev)
      ≡ some (between (done ++ be32 v) rest (v % 2 ^ 32) dev)
read_and-reader test v old done rest dev e = rw (get32-reader old v done rest, e) refl

same_number : (v : ℕ) → v < 2 ^ 32 → (v % 2 ^ 32 == v) ≡ true
same_number v h = rw (mod-eq_of_lt h) (==_refl v)

match_symbol-bytes :
    (f : Fields) (s : Symbol) (done rest : List ℕ) (old : ℕ) (dev : DevId) {n : ℕ}
    → Fits f
    → symbol_length s ≡ some n
    → match_symbol f s (between done (symbol_bytes f s ++ rest) old dev)
      ≡ some (between (done ++ symbol_bytes f s) rest (held f s old) (held_dev f s dev))
match_symbol-bytes f separator done rest old dev v e =
    ap (λ front. some (between front rest old dev)) (sym (append-nil done))
match_symbol-bytes f version done rest old dev v e =
    read_and-reader (λ w. w == f.proto) f.proto old done rest dev (same_number f.proto v.proto_fits)
match_symbol-bytes f zeros done rest old dev v e =
    read_and-reader (λ w. w == 0) 0 old done rest dev refl
match_symbol-bytes f packet done rest old dev v e =
    read_and-reader (λ w. f.pkt_type == w) f.pkt_type old done rest dev
      (rw (mod-eq_of_lt v.pkt_type_fits) (==_refl f.pkt_type))
match_symbol-bytes f device done rest old dev v e =
    read_and-reader (λ w. w == f.dev.id) f.dev.id old done rest dev (same_number f.dev.id v.id_fits)
match_symbol-bytes f flag done rest old dev v e =
    read_and-reader (λ w. if w == 0 then true else w == 1) f.zero_one old done rest dev
      (ground (arith, v.zero_or_one))
match_symbol-bytes f any done rest old dev v e =
    read_and-reader (λ w. true) f.other old done rest dev refl
match_symbol-bytes f extended done rest old dev v e = rw (get_idev3-reader dev f.dev done rest) refl
match_symbol-bytes f bytes done rest old dev v e = cc
match_symbol-bytes f block done rest old dev v e = cc
match_symbol-bytes f unknown done rest old dev v e = cc

match_symbols-bytes :
    (f : Fields) (text done : List ℕ) (old l n : ℕ) (dev : DevId)
    → Fits f
    → plain_length text l ≡ some n
    → match_symbols f text (between done (text_bytes f text) old dev) ≡ true
unfolding match_symbols plain_length
match_symbols-bytes f [] done old l n dev v e = refl
match_symbols-bytes f (ch ∷ chs) done old l n dev v e =
    go (symbol_length (symbol_of ch)) refl e (λ k.
      match_symbols-bytes f chs (done ++ symbol_bytes f (symbol_of ch)) (held f (symbol_of ch) old)
        k n (held_dev f (symbol_of ch) dev) v)
  where
    go :
        (o : Option ℕ)
        → symbol_length (symbol_of ch) ≡ o
        → elim o [ none ↦ none | some m ↦ plain_length chs (l + m) ] ≡ some n
        → ((k : ℕ)
            → plain_length chs k ≡ some n
            → match_symbols f chs (
                between
                  (done ++ symbol_bytes f (symbol_of ch))
                  (text_bytes f chs)
                  (held f (symbol_of ch) old)
                  (held_dev f (symbol_of ch) dev))
              ≡ true)
        → match_symbols f (ch ∷ chs) (between done (text_bytes f (ch ∷ chs)) old dev) ≡ true
    go none q e' rest = cc
    go (some m) q e' rest =
        ap (λ o. elim o [ none ↦ false | some s' ↦ match_symbols f chs s' ])
          (match_symbol-bytes f (symbol_of ch) done (text_bytes f chs) old dev v q)
        ∙ rest (l + m) e'

-- A packet made from a plain schema matches that schema, for the same version and device.
pub is_match-gen_plain_command :
    (f : Fields) (text : List ℕ) (n : ℕ)
    → Fits f
    → plain_length text 0 ≡ some n
    → is_match f text (gen_plain_command f text) ≡ true
unfolding is_match
is_match-gen_plain_command f text n v e =
    rw (gen_plain_command-bytes f text n e) (match_symbols-bytes f text [] 0 0 n no_device v e)
