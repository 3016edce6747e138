-- ===== src/Serial/Answered.antt =====
-- A request whose answer comes in through a reliable port.
use xibridge.Prelude.{
  same_bytes, ℕ, suc, ◌+◌, ◌≡◌, ◌≢◌, refl, sym, ap, ◌∙◌, true, false, List, [], ◌∷◌, ◌++◌, Option,
  none, some, arith, length, take, drop, replicate, if◌then◌else◌, ==_refl, append-nil,
  append_assoc, drop-append,
}
use xibridge.Serial.{
  XibResult, xib_result_ok, xib_result_error, xib_result_value_error, SerialPort, Outcome, errv_cid,
  errd_cid,
}
use xibridge.Serial.Crc.{get_crc, crc_bytes}
use xibridge.Serial.Request.{
  send_body, check_crc, receive_body, dispatch, receive_answer, urpc_device_serial_send_request,
}
use xibridge.Serial.Reliable.{
  ReliablePort, send_reliable, receive_reliable, skipped, incoming-skipped, outgoing-skipped,
  first_nonzero_reliable,
}

-- What goes out after the identifier.
abbrev pub body_bytes : List ℕ → List ℕ
body_bytes [] = []
body_bytes (b ∷ bs) = (b ∷ bs) ++ crc_bytes (get_crc (b ∷ bs))

check_crc-ok : (crc response : List ℕ) → check_crc crc response ≡ xib_result_ok
check_crc-ok crc response =
    elim (same_bytes crc (crc_bytes (get_crc (take 2 response))))
      as (λ t. (if t then xib_result_ok else xib_result_ok) ≡ xib_result_ok) [
        | true ↦ refl
        | false ↦ refl
      ]

module _ {P : Type 0} (port : SerialPort P) (r : ReliablePort port) where
  -- The port after the identifier and the body.
  abbrev put_body : List ℕ → P → P
  put_body [] s = s
  put_body (b ∷ bs) s = r.put (crc_bytes (get_crc (b ∷ bs))) (r.put (b ∷ bs) s)

  send_body_reliable :
      (request response : List ℕ) (s : P) (next : P → Option (Outcome P))
      → send_body port request response s next ≡ next (put_body request s)
  send_body_reliable [] response s next = refl
  send_body_reliable (b ∷ bs) response s next =
      rw
        (
          send_reliable port r (b ∷ bs) s,
          send_reliable port r (crc_bytes (get_crc (b ∷ bs))) (r.put (b ∷ bs) s),
        )
        refl

  incoming-put_body : (request : List ℕ) (s : P) → r.incoming (put_body request s) ≡ r.incoming s
  incoming-put_body [] s = refl
  incoming-put_body (b ∷ bs) s =
      r.incoming-put (crc_bytes (get_crc (b ∷ bs))) (r.put (b ∷ bs) s) ∙ r.incoming-put (b ∷ bs) s

  outgoing-put_body :
      (request : List ℕ) (s : P)
      → r.outgoing (put_body request s) ≡ r.outgoing s ++ body_bytes request
  outgoing-put_body [] s = sym (append-nil (r.outgoing s))
  outgoing-put_body (b ∷ bs) s =
      r.outgoing-put (crc_bytes (get_crc (b ∷ bs))) (r.put (b ∷ bs) s)
      ∙ ap (λ l. l ++ crc_bytes (get_crc (b ∷ bs))) (r.outgoing-put (b ∷ bs) s)
      ∙ append_assoc (r.outgoing s) (b ∷ bs) (crc_bytes (get_crc (b ∷ bs)))

  receive_body_reliable :
      (fuel b lo hi : ℕ) (bs answer rest : List ℕ) (s : P)
      → length answer ≡ length (b ∷ bs)
      → r.incoming s ≡ answer ++ (lo ∷ hi ∷ rest)
      → receive_body port (suc fuel) (b ∷ bs) s
        ≡ some (xib_result_ok, answer, r.got 2 (r.got (length answer) s))
  unfolding receive_body
  receive_body_reliable fuel b lo hi bs answer rest s h e =
      rw
        (
          receive_reliable port r fuel answer (lo ∷ hi ∷ rest) (b ∷ bs) s e h,
          receive_reliable port r fuel (lo ∷ hi ∷ []) rest (0 ∷ 0 ∷ []) (r.got (length answer) s)
              next refl,
          check_crc-ok (lo ∷ hi ∷ []) answer,
        )
        refl
    where
      next : r.incoming (r.got (length answer) s) ≡ lo ∷ hi ∷ rest
      next =
          r.incoming-got (length answer) s
          ∙ ap (drop (length answer)) e
          ∙ drop-append answer (lo ∷ hi ∷ rest)

  -- The port once the identifier is received.
  abbrev pub at_body : ℕ → List ℕ → List ℕ → P → P
  at_body k cid request s = r.got 3 (skipped port r k (put_body request (r.put cid s)))

  incoming-at_body :
      (k c₀ c₁ c₂ c₃ : ℕ) (cid request rest : List ℕ) (s : P)
      → r.incoming s ≡ replicate k 0 ++ (c₀ ∷ c₁ ∷ c₂ ∷ c₃ ∷ rest)
      → r.incoming (at_body k cid request s) ≡ rest
  incoming-at_body k c₀ c₁ c₂ c₃ cid request rest s e =
      r.incoming-got 3 (skipped port r k (put_body request (r.put cid s)))
      ∙ ap (drop 3) (
          incoming-skipped port r k c₀ (c₁ ∷ c₂ ∷ c₃ ∷ rest) (put_body request (r.put cid s))
            (incoming-put_body request (r.put cid s) ∙ r.incoming-put cid s ∙ e))

  outgoing-at_body :
      (k : ℕ) (cid request : List ℕ) (s : P)
      → r.outgoing (at_body k cid request s) ≡ r.outgoing s ++ (cid ++ body_bytes request)
  outgoing-at_body k cid request s =
      r.outgoing-got 3 (skipped port r k (put_body request (r.put cid s)))
      ∙ outgoing-skipped port r k (put_body request (r.put cid s))
      ∙ outgoing-put_body request (r.put cid s)
      ∙ ap (λ l. l ++ body_bytes request) (r.outgoing-put cid s)
      ∙ append_assoc (r.outgoing s) cid (body_bytes request)

  -- The whole request, up to the identifier of the answer.
  pub request-dispatch :
      (k f x₀ x₁ x₂ x₃ c₀ c₁ c₂ c₃ : ℕ) (cid request response rest : List ℕ) (s : P)
      → c₀ ≢ 0
      → r.incoming s ≡ replicate k 0 ++ (c₀ ∷ c₁ ∷ c₂ ∷ c₃ ∷ rest)
      → urpc_device_serial_send_request port
          (suc (k + f))
          cid
          request
          (x₀ ∷ x₁ ∷ x₂ ∷ x₃ ∷ [])
          response
          s
        ≡ dispatch port
            (suc (k + f))
            cid
            response
            (c₀ ∷ c₁ ∷ c₂ ∷ c₃ ∷ [])
            (at_body k cid request s)
  unfolding urpc_device_serial_send_request receive_answer
  request-dispatch k f x₀ x₁ x₂ x₃ c₀ c₁ c₂ c₃ cid request response rest s n e =
      rw
        (
          send_reliable port r cid s,
          send_body_reliable request response (r.put cid s)
              (receive_answer port (suc (k + f)) cid (x₀ ∷ x₁ ∷ x₂ ∷ x₃ ∷ []) response),
          first_nonzero_reliable port r k f (k + f) c₀ x₀ (c₁ ∷ c₂ ∷ c₃ ∷ rest) here n before,
          receive_reliable port r (k + f) (c₁ ∷ c₂ ∷ c₃ ∷ []) rest (x₁ ∷ x₂ ∷ x₃ ∷ [])
              (skipped port r k here)
              (incoming-skipped port r k c₀ (c₁ ∷ c₂ ∷ c₃ ∷ rest) here before) refl,
        )
        refl
    where
      here : P
      here = put_body request (r.put cid s)

      before : r.incoming here ≡ replicate k 0 ++ (c₀ ∷ c₁ ∷ c₂ ∷ c₃ ∷ rest)
      before = incoming-put_body request (r.put cid s) ∙ r.incoming-put cid s ∙ e

  -- The result, the caller's buffer, and the bytes that are left to come in and that went out.
  abbrev pub observed : Option (Outcome P) → Option (XibResult × List ℕ × List ℕ × List ℕ)
  observed none = none
  observed (some (result, response, s)) = some (result, response, r.incoming s, r.outgoing s)

  -- The port moves every byte, and the device sends any number of zeroes, the identifier of the request, as
  -- many bytes as the caller's buffer has and any two bytes for a check sum; the identifier does not begin
  -- with 0 and is neither `errv` nor `errd`. Then the call returns within one more round than there are
  -- zeroes, with `xib_result_ok` and the bytes sent in the caller's buffer, whatever the check sum. All that
  -- was sent is read, and what went out is the identifier, the request and the request's check sum, which
  -- are left out for an empty request.
  pub urpc_device_serial_send_request-answered :
      (k f x₀ x₁ x₂ x₃ c₀ c₁ c₂ c₃ b lo hi : ℕ) (request bs answer rest : List ℕ) (s : P)
      → c₀ ≢ 0
      → same_bytes errv_cid (c₀ ∷ c₁ ∷ c₂ ∷ c₃ ∷ []) ≡ false
      → same_bytes errd_cid (c₀ ∷ c₁ ∷ c₂ ∷ c₃ ∷ []) ≡ false
      → length answer ≡ length (b ∷ bs)
      → r.incoming s ≡ replicate k 0 ++ (c₀ ∷ c₁ ∷ c₂ ∷ c₃ ∷ (answer ++ (lo ∷ hi ∷ rest)))
      → let cid : List ℕ = c₀ ∷ c₁ ∷ c₂ ∷ c₃ ∷ [] in
        observed (
          urpc_device_serial_send_request port
            (suc (k + f))
            cid
            request
            (x₀ ∷ x₁ ∷ x₂ ∷ x₃ ∷ [])
            (b ∷ bs)
            s)
        ≡ some (xib_result_ok, answer, rest, r.outgoing s ++ (cid ++ body_bytes request))
  unfolding dispatch
  urpc_device_serial_send_request-answered k f x₀ x₁ x₂ x₃ c₀ c₁ c₂ c₃ b lo hi request bs answer
        rest s n v d h e =
      rw
        (
          request-dispatch k f x₀ x₁ x₂ x₃ c₀ c₁ c₂ c₃ cid request (b ∷ bs)
              (answer ++ (lo ∷ hi ∷ rest)) s n e,
          v,
          d,
          ==_refl c₀,
          ==_refl c₁,
          ==_refl c₂,
          ==_refl c₃,
          receive_body_reliable (k + f) b lo hi bs answer rest here h left,
        )
        (ap (λ i. some (xib_result_ok, answer, i, r.outgoing after)) unread
          ∙ ap (λ o. some (xib_result_ok, answer, rest, o)) sent)
    where
      cid : List ℕ
      cid = c₀ ∷ c₁ ∷ c₂ ∷ c₃ ∷ []

      here : P
      here = at_body k cid request s

      left : r.incoming here ≡ answer ++ (lo ∷ hi ∷ rest)
      left = incoming-at_body k c₀ c₁ c₂ c₃ cid request (answer ++ (lo ∷ hi ∷ rest)) s e

      after : P
      after = r.got 2 (r.got (length answer) here)

      unread : r.incoming after ≡ rest
      unread =
          r.incoming-got 2 (r.got (length answer) here)
          ∙ ap (drop 2) (
              r.incoming-got (length answer) here
              ∙ ap (drop (length answer)) left
              ∙ drop-append answer (lo ∷ hi ∷ rest))

      sent : r.outgoing after ≡ r.outgoing s ++ (cid ++ body_bytes request)
      sent =
          r.outgoing-got 2 (r.got (length answer) here)
          ∙ r.outgoing-got (length answer) here
          ∙ outgoing-at_body k cid request s

  -- The result and the caller's buffer.
  abbrev pub result_of_request : Option (Outcome P) → Option (XibResult × List ℕ)
  result_of_request none = none
  result_of_request (some (result, response, s)) = some (result, response)

  -- After any number of zeroes and an identifier other than the request's, with a first byte that is not 0, the
  -- caller's buffer is untouched, and the result is `xib_result_value_error` for `errv` and
  -- `xib_result_error` for `errd` and for any other identifier. The port moves every byte.
  pub urpc_device_serial_send_request-other :
      (k f x₀ x₁ x₂ x₃ c₀ c₁ c₂ c₃ : ℕ) (cid request response rest : List ℕ) (s : P)
      → c₀ ≢ 0
      → same_bytes cid (c₀ ∷ c₁ ∷ c₂ ∷ c₃ ∷ []) ≡ false
      → r.incoming s ≡ replicate k 0 ++ (c₀ ∷ c₁ ∷ c₂ ∷ c₃ ∷ rest)
      → result_of_request (
          urpc_device_serial_send_request port
            (suc (k + f))
            cid
            request
            (x₀ ∷ x₁ ∷ x₂ ∷ x₃ ∷ [])
            response
            s)
        ≡ some (
          if same_bytes errv_cid (c₀ ∷ c₁ ∷ c₂ ∷ c₃ ∷ [])
              then xib_result_value_error
              else xib_result_error,
          response,
        )
  unfolding dispatch
  urpc_device_serial_send_request-other k f x₀ x₁ x₂ x₃ c₀ c₁ c₂ c₃ cid request response rest s n d
        e =
      ap result_of_request
        (request-dispatch k f x₀ x₁ x₂ x₃ c₀ c₁ c₂ c₃ cid request response rest s n e)
      ∙ rw d (ground arith)
