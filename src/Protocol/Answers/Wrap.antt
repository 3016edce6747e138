-- ===== src/Protocol/Answers/Wrap.antt =====
-- The overflow counter of MBuf is a uint8_t: what a client of protocol 3 makes of an enumeration
-- response that announces devices and holds none.
use xibridge.Prelude.{
  ℕ, zero, suc, ◌+◌, ◌*◌, ◌%◌, ◌^◌, ◌≤◌, ◌<◌, ◌≡◌, ◌↔◌, ap, true, false, List, [], ◌∷◌, ◌++◌, arith,
  none, length, append-nil, Bool-cases, inl, inr, ◌==◌, to_int,
}
use xibridge.Wire.{Hex}
use xibridge.Wire.RoundTrip.{be32}
use xibridge.MBuf.{MBuf, mbuf_of, get32, get16}
use xibridge.MBuf.Reader.{reader, get32-reader, mseek-reader}
use xibridge.DevId.{DevId, HexIDev3, hex_idev3, get_idev3, to_dev_id, add_dev_id_bvector_net_order}
use xibridge.Protocol.State.{AProtocol, pkt3_enum_resp, rounds_of}
use xibridge.Protocol.Frame.{words}
use xibridge.Protocol.V3.{enum_loop, get_enum_data, get_spec_data, get_spec_data_client}
use xibridge.Protocol.V3.Packets.{frame}
use xibridge.Protocol.Dispatch.{protocol3, get_data_from_bindy_callback}
use xibridge.Protocol.Answers.V3.{client, head_of, get_data_from_bindy_callback-frame}
use xibridge.Protocol.Answers.Enum.{enum_loop_step}

-- A buffer read to its end, with `o` overflows so far.
abbrev spent : List ℕ → ℕ → MBuf
spent done o = record { buf = done; cur = length done; ovrflow = o % 256; rdon = true }

get32-spent : (done : List ℕ) (o : ℕ) (h : Hex) → get32 (spent done o) h ≡ (h, spent done (o + 1))
unfolding get32
get32-spent done o h = ground arith

get16-spent : (done : List ℕ) (o : ℕ) (h : Hex) → get16 (spent done o) h ≡ (h, spent done (o + 1))
unfolding get16
get16-spent done o h = ground arith

get_idev3-spent :
    (done : List ℕ) (o : ℕ) (h : HexIDev3) → get_idev3 (spent done o) h ≡ (h, spent done (o + 4))
unfolding get_idev3
get_idev3-spent done o h = elim (Bool-cases h.lend) [
  | inl e ↦
      rw
        (
          e,
          get32-spent done o h.id_value,
          get16-spent done (o + 1) h.id_pid,
          get16-spent done (o + 1 + 1) h.id_vid,
          get32-spent done (o + 1 + 1 + 1) h.reserve,
        )
        (λ i. (record h { lend = true }, spent done (four i)))
  | inr e ↦
      rw
        (
          e,
          get32-spent done o h.reserve,
          get16-spent done (o + 1) h.id_vid,
          get16-spent done (o + 1 + 1) h.id_pid,
          get32-spent done (o + 1 + 1 + 1) h.id_value,
        )
        (λ i. (record h { lend = false }, spent done (four i)))
]
  where
    four : o + 1 + 1 + 1 + 1 ≡ o + 4
    four = omega arith

enum_loop-spent :
    (n o : ℕ) (done out : List ℕ) (h : HexIDev3)
    → (enum_loop n (spent done o) h out).0 ≡ spent done (o + 4 * n)
enum_loop-spent zero o done out h = unfold enum_loop in ap (spent done) (omega arith)
enum_loop-spent (suc n) o done out h =
    rw
      (
        enum_loop_step n (spent done o) h out,
        get_idev3-spent done o h,
        enum_loop-spent n (o + 4) done (add_dev_id_bvector_net_order out (to_dev_id h)) h,
      )
      (ap (spent done) (omega arith))

reader-spent : (done : List ℕ) → ◌≡◌ {A = MBuf} (reader done []) (spent done 0)
reader-spent done = λ i. record (reader done []) { buf = append-nil done i }

rounds_small : (n : ℕ) → n < 2 ^ 31 → rounds_of (to_int (n % 2 ^ 32)) ≡ n
rounds_small n h = ground arith

get_enum_data-spent :
    (n : ℕ) (done res out : List ℕ) (p : AProtocol)
    → n < 2 ^ 31
    → length done ≤ 64
    → (get_enum_data (reader done (words (0 ∷ 0 ∷ []) ++ be32 n)) res out p).ret
      ≡ ((4 * n) % 256 == 0)
unfolding get_enum_data
get_enum_data-spent n done res out p h k =
    rw
      (
        mseek-reader done (words (0 ∷ 0 ∷ [])) (be32 n) (omega arith),
        get32-reader 0 n (done ++ words (0 ∷ 0 ∷ [])) [],
        reader-spent ((done ++ words (0 ∷ 0 ∷ [])) ++ be32 n),
        rounds_small n h,
        enum_loop-spent n 0 ((done ++ words (0 ∷ 0 ∷ [])) ++ be32 n) out (hex_idev3 none false),
      )
      (ground arith)

-- An enumeration response that announces n devices and holds none, n below 2 ^ 31, is accepted by a
-- client of protocol 3 exactly if 64 divides n.
pub get_data_from_bindy_callback_hollow :
    (n res_err perror : ℕ) (d : DevId)
    → n < 2 ^ 31
    → let packet = frame pkt3_enum_resp 0 d (be32 n) in
      ((get_data_from_bindy_callback protocol3 (mbuf_of packet true) (client res_err perror)).ret
        ≡ true)
      ↔ (n % 64 ≡ 0)
unfolding get_spec_data get_spec_data_client
get_data_from_bindy_callback_hollow n res_err perror d h =
    rw
      (
        get_data_from_bindy_callback-frame pkt3_enum_resp 0 d (be32 n) (client res_err perror)
            (omega arith),
        get_enum_data-spent n (head_of pkt3_enum_resp 0 d) [] [] (client 0 perror) h (omega arith),
      )
      (ground arith)
