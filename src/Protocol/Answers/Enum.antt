-- ===== src/Protocol/Answers/Enum.antt =====
-- The list of devices of protocol 3, from the server's vector to the client's bytes.
use xibridge.Prelude.{
  ℕ, suc, ◌+◌, ◌-◌, ◌*◌, ◌/◌, ◌%◌, ◌^◌, ◌≤◌, ◌<◌, ◌≡◌, refl, sym, ap, true, false, List, [], ◌∷◌,
  ◌++◌, append-nil, append_assoc, arith, none, some, length, length-append, to_int,
}
use native.Mathlib.Nat.{mod-eq_of_lt}
use xibridge.Wire.RoundTrip.{be32}
use xibridge.MBuf.{MBuf, mbuf_of, mbuf_new, to_vector}
use xibridge.MBuf.Reader.{reader, get32-reader, mseek-reader}
use xibridge.MBuf.Writer.{filled, to_vector-filled}
use xibridge.DevId.{DevId, IsDevId, HexIDev3, get_idev3, to_dev_id, add_dev_id_bvector_net_order}
use xibridge.DevId.Coding.{
  idev_bytes, big_idev3, truncated, put_idev3-filled, get_idev3-reader, to_dev_id-big_idev3,
  <<-be32, add_dev_id_bvector_net_order-idev_bytes,
}
use xibridge.Protocol.State.{AProtocol, passed, rounds_of, pkt3_enum_resp}
use xibridge.Protocol.Frame.{words, write_data-filled}
use xibridge.Protocol.V1.{write_data}
use xibridge.Protocol.V3.{
  dev_size, put_devs, response_body, create_enum_response, enum_loop, get_enum_data, get_spec_data,
  get_spec_data_client,
}
use xibridge.Protocol.V3.Packets.{frame, dev_of, create_server_response-frame}
use xibridge.Protocol.Dispatch.{protocol3, get_data_from_bindy_callback}
use xibridge.Protocol.Answers.V3.{client, get_data_from_bindy_callback-frame, head_of}

abbrev pub devs_bytes : List DevId → List ℕ
devs_bytes [] = []
devs_bytes (v ∷ vs) = idev_bytes v ++ devs_bytes vs

abbrev pub AllDevIds : List DevId → Type 0
AllDevIds [] = Unit
AllDevIds (v ∷ vs) = IsDevId v × AllDevIds vs

length-devs_bytes : (vs : List DevId) → length (devs_bytes vs) ≡ 12 * length vs
length-devs_bytes [] = omega arith
length-devs_bytes (v ∷ vs) = omega (arith, length-devs_bytes vs)

put_devs-filled :
    (vs : List DevId) (bs : List ℕ) (k : ℕ)
    → 12 * length vs ≤ k
    → put_devs (filled bs k) vs ≡ filled (bs ++ devs_bytes vs) (k - 12 * length vs)
unfolding put_devs
put_devs-filled [] bs k h = λ i. filled (sym (append-nil bs) i) (spare i)
  where
    spare : k ≡ k - 12 * 0
    spare = omega arith
put_devs-filled (v ∷ vs) bs k h =
    rw
      (
        put_idev3-filled bs k v (omega arith),
        put_devs-filled vs (bs ++ idev_bytes v) (k - 12) (omega arith),
      )
      (λ i. filled (append_assoc bs (idev_bytes v) (devs_bytes vs) i) (spare i))
  where
    spare : k - 12 - 12 * length vs ≡ k - 12 * suc (length vs)
    spare = omega arith

-- The body of an enumeration response: the number of devices, their identifiers, a zero.
enum_body : List DevId → List ℕ
enum_body vs = be32 (length vs) ++ (devs_bytes vs ++ be32 0)

vector-put_devs :
    (vs : List DevId)
    → to_vector (put_devs (mbuf_new (length vs * dev_size) false) vs) false ≡ devs_bytes vs
vector-put_devs vs =
    rw (put_devs-filled vs [] (length vs * dev_size) (omega arith), to_vector-filled)

response_body-enum :
    (bs bytes : List ℕ) (n : ℕ)
    → length bytes ≡ 12 * n
    → n < 2 ^ 26
    → response_body pkt3_enum_resp 0 (some bytes) (filled bs (64 + length bytes - 32))
      ≡ filled (bs ++ (be32 n ++ (bytes ++ be32 0))) (64 + length bytes - 32 - 4 - length bytes - 4)
unfolding response_body
response_body-enum bs bytes n e h =
    rw
      (
        count,
        <<-be32 bs (64 + length bytes - 32) n (omega arith),
        write_data-filled (bs ++ be32 n) (64 + length bytes - 32 - 4) (some bytes) (omega arith)
            (omega arith),
        <<-be32 ((bs ++ be32 n) ++ bytes) (64 + length bytes - 32 - 4 - length bytes) 0
            (omega arith),
      )
      (ap (λ f. filled f (64 + length bytes - 32 - 4 - length bytes - 4)) (simp append_assoc))
  where
    count : length bytes / dev_size ≡ n
    count = omega arith

create_enum_response-frame :
    (vs : List DevId)
    → length vs < 2 ^ 26
    → create_enum_response vs ≡ frame pkt3_enum_resp 0 (dev_of none) (enum_body vs)
unfolding create_enum_response enum_body
create_enum_response-frame [] h =
    create_server_response-frame pkt3_enum_resp 0 none none (be32 0 ++ be32 0) (64 + 0 - 32 - 4 - 4)
      λ bs.
        unfold response_body write_data in
        rw (<<-be32 bs 32 0 (omega arith), <<-be32 (bs ++ be32 0) (32 - 4) 0 (omega arith))
          (ap (λ f. filled f (32 - 4 - 4)) (append_assoc bs (be32 0) (be32 0)))
create_enum_response-frame (v ∷ vs) h = rw (vector-put_devs (v ∷ vs)) (
    create_server_response-frame pkt3_enum_resp 0 none (some (devs_bytes (v ∷ vs)))
      (be32 (length (v ∷ vs)) ++ (devs_bytes (v ∷ vs) ++ be32 0))
      (64 + length (devs_bytes (v ∷ vs)) - 32 - 4 - length (devs_bytes (v ∷ vs)) - 4)
      λ bs.
        response_body-enum bs (devs_bytes (v ∷ vs)) (length (v ∷ vs)) (length-devs_bytes (v ∷ vs))
          h)

pub enum_loop_step :
    (n : ℕ) (m : MBuf) (dev : HexIDev3) (out : List ℕ)
    → enum_loop (suc n) m dev out
      ≡ enum_loop n
          (get_idev3 m dev).1
          (get_idev3 m dev).0
          (add_dev_id_bvector_net_order out (to_dev_id (get_idev3 m dev).0))
unfolding enum_loop
enum_loop_step n m dev out = refl

-- Reading as many identifiers as were written.
enum_loop-reader :
    (vs : List DevId) (old : DevId) (done rest out : List ℕ)
    → AllDevIds vs
    → enum_loop (length vs) (reader done (devs_bytes vs ++ rest)) (big_idev3 old) out
      ≡ (reader (done ++ devs_bytes vs) rest, out ++ devs_bytes vs)
enum_loop-reader [] old done rest out h =
    unfold enum_loop in λ i. (reader (sym (append-nil done) i) rest, sym (append-nil out) i)
enum_loop-reader (v ∷ vs) old done rest out (hv, hvs) =
    rw
      (
        enum_loop_step (length vs) (reader done (devs_bytes (v ∷ vs) ++ rest)) (big_idev3 old) out,
        get_idev3-reader old v done (devs_bytes vs ++ rest),
        to_dev_id-big_idev3 v hv,
        add_dev_id_bvector_net_order-idev_bytes out v,
        enum_loop-reader vs (truncated v) (done ++ idev_bytes v) rest (out ++ idev_bytes v) hvs,
      )
      (λ i. (
        reader (append_assoc done (idev_bytes v) (devs_bytes vs) i) rest,
        append_assoc out (idev_bytes v) (devs_bytes vs) i,
      ))

enum_loop_ends : (n : ℕ) → n < 2 ^ 26 → rounds_of (to_int (n % 2 ^ 32)) ≡ n
enum_loop_ends n h = ground arith

get_enum_data-reader :
    (vs : List DevId) (done res : List ℕ) (p : AProtocol)
    → length done ≤ 64
    → length vs < 2 ^ 26
    → AllDevIds vs
    → get_enum_data (reader done (words (0 ∷ 0 ∷ []) ++ enum_body vs)) res [] p
      ≡ passed
          (reader (((done ++ words (0 ∷ 0 ∷ [])) ++ be32 (length vs)) ++ devs_bytes vs) (be32 0))
          res
          (devs_bytes vs)
          (record p { res_err = length vs })
unfolding get_enum_data enum_body
get_enum_data-reader vs done res p hd h v = rw (
  mseek-reader done (words (0 ∷ 0 ∷ [])) (be32 (length vs) ++ (devs_bytes vs ++ be32 0))
      (omega (arith, length-append (devs_bytes vs) (be32 0), length-devs_bytes vs)),
  get32-reader 0 (length vs) (done ++ words (0 ∷ 0 ∷ [])) (devs_bytes vs ++ be32 0),
  enum_loop_ends (length vs) h,
  enum_loop-reader vs (dev_of none) ((done ++ words (0 ∷ 0 ∷ [])) ++ be32 (length vs)) (be32 0) []
      v,
  mod-eq_of_lt {n = length vs} {m = 2 ^ 32} (omega arith),
)

-- A client of protocol 3 gets from an enumeration response the number of the server's devices and
-- their twelve-byte identifiers, in the server's order. They are fewer than 2 ^ 26.
pub get_data_from_bindy_callback-create_enum_response :
    (vs : List DevId) (res_err perror : ℕ)
    → length vs < 2 ^ 26
    → AllDevIds vs
    → get_data_from_bindy_callback protocol3
        (mbuf_of (create_enum_response vs) true)
        (client res_err perror)
      ≡ record {
        ret = true;
        res_data = [];
        data_out = devs_bytes vs;
        pckt_type = some pkt3_enum_resp;
        proto = client (length vs) perror;
      }
unfolding get_spec_data get_spec_data_client
get_data_from_bindy_callback-create_enum_response vs res_err perror h v = rw (
  create_enum_response-frame vs h,
  get_data_from_bindy_callback-frame pkt3_enum_resp 0 (dev_of none) (enum_body vs)
      (client res_err perror) (omega arith),
  get_enum_data-reader vs (head_of pkt3_enum_resp 0 (dev_of none)) [] (client 0 perror)
      (omega arith) h v,
)
