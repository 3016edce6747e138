-- ===== src/Server/Handling.antt =====
-- How a packet of protocol 3 reaches the handler of its type.
use xibridge.Prelude.{
  ℕ, ◌+◌, ◌^◌, ◌<◌, ◌≡◌, refl, ap, ◌∙◌, sym, true, false, List, [], ◌∷◌, ◌++◌, arith, some, length,
  negsuc, le→ltb,
}
use native.Mathlib.Nat.{mod-eq_of_lt}
use xibridge.Wire.RoundTrip.{be32}
use xibridge.Wire.{hex32}
use xibridge.MBuf.{get32, mbuf_of, mseek}
use xibridge.MBuf.Reader.{reader, get32-reader}
use xibridge.DevId.{DevId}
use xibridge.DevId.Coding.{idev_bytes}
use xibridge.DeviceMap.{MapDevIdPHandle, open_if_not, remove_conn_or_remove_device}
use xibridge.Protocol.State.{pkt_open_req, pkt_close_req}
use xibridge.Protocol.Frame.{words}
use xibridge.Protocol.V3.{
  Request, get_data_from_request, create_open_response, create_close_response,
}
use xibridge.Protocol.V3.Packets.{frame}
use xibridge.Protocol.V3.Requests.{server}
use xibridge.Protocol.Dispatch.{get_pckt_of_cmd}
use xibridge.Server.{World, callback_data, handle3, uint_of}

-- Back to the start after the version has been read.
mseek_back :
    (rest : List ℕ)
    → length rest + 4 < 2 ^ 31
    → mseek (reader (be32 3) rest) (negsuc 3) ≡ (mbuf_of (be32 3 ++ rest) true, false)
unfolding mseek
mseek_back rest h = ground arith

get_pckt_of_cmd-frame :
    (pckt tmout : ℕ) (d : DevId) (body : List ℕ)
    → pckt < 2 ^ 32
    → get_pckt_of_cmd (frame pckt tmout d body) ≡ pckt
unfolding get_pckt_of_cmd
get_pckt_of_cmd-frame pckt tmout d body h =
    ap (λ r. (get32 r.1 (hex32 0 false)).0.value)
      (get32-reader 0 3 []
        (words (pckt ∷ tmout ∷ []) ++ (idev_bytes d ++ (words (0 ∷ 0 ∷ []) ++ body))))
    ∙ (ap (λ r. r.0.value)
          (get32-reader 0 pckt (be32 3)
            (be32 tmout ++ (idev_bytes d ++ (words (0 ∷ 0 ∷ []) ++ body))))
        ∙ mod-eq_of_lt h)

-- Any packet with a frame of protocol 3 goes to the handler of that protocol.
callback_data-frame :
    (w : World) (conn_id pckt tmout : ℕ) (d : DevId) (body : List ℕ) (err_p : ℕ)
    (t : MapDevIdPHandle)
    → pckt < 2 ^ 32
    → length body < 2 ^ 30
    → callback_data w conn_id (frame pckt tmout d body) err_p t
      ≡ some (
          handle3 w conn_id pckt
            (get_data_from_request (mbuf_of (frame pckt tmout d body) true) (server 0 err_p))
            t)
unfolding callback_data
callback_data-frame w conn_id pckt tmout d body err_p t h l = rw (
  le→ltb (length (frame pckt tmout d body)) 16 (omega arith),
  get32-reader 0 3 [] (words (pckt ∷ tmout ∷ []) ++ (idev_bytes d ++ (words (0 ∷ 0 ∷ []) ++ body))),
  mseek_back (words (pckt ∷ tmout ∷ []) ++ (idev_bytes d ++ (words (0 ∷ 0 ∷ []) ++ body)))
      (omega arith),
  get_pckt_of_cmd-frame pckt tmout d body h,
)

-- A packet with such a frame, read as a request.
pub callback_data-request :
    (w : World) (conn_id pckt tmout : ℕ) (d : DevId) (body message : List ℕ) (err_p : ℕ)
    (t : MapDevIdPHandle) (r : Request)
    → pckt < 2 ^ 32
    → length body < 2 ^ 30
    → message ≡ frame pckt tmout d body
    → get_data_from_request (mbuf_of message true) (server 0 err_p) ≡ r
    → callback_data w conn_id message err_p t ≡ some (handle3 w conn_id pckt r t)
callback_data-request w conn_id pckt tmout d body message err_p t r h l e q =
    ap (λ m. callback_data w conn_id m err_p t) e
    ∙ (callback_data-frame w conn_id pckt tmout d body err_p t h l
        ∙ ap (λ x. some (handle3 w conn_id pckt x t))
            (sym (ap (λ m. get_data_from_request (mbuf_of m true) (server 0 err_p)) e) ∙ q))

-- The request of a device without data.
abbrev pub plain_request : DevId → ℕ → Request
plain_request d err_p = record {
  ret = true;
  req_data = [];
  dev = d;
  resp_len = 0;
  proto = server 0 err_p;
}

pub handle3-open :
    (w : World) (conn_id err_p : ℕ) (d : DevId) (t : MapDevIdPHandle)
    → handle3 w conn_id pkt_open_req (plain_request d err_p) t ≡ (
      (open_if_not w.create conn_id d t).0,
      create_open_response d (uint_of (open_if_not w.create conn_id d t).1) ∷ [],
    )
unfolding handle3
handle3-open w conn_id err_p d t = refl

pub handle3-close :
    (w : World) (conn_id err_p : ℕ) (d : DevId) (t : MapDevIdPHandle)
    → handle3 w conn_id pkt_close_req (plain_request d err_p) t
      ≡ (remove_conn_or_remove_device conn_id d false t, create_close_response d 0 ∷ [])
unfolding handle3
handle3-close w conn_id err_p d t = refl
