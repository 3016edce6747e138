-- ===== src/Uri/Listing.antt =====
-- The uris that a client makes of the devices a server names, in the buffer that it makes for them.
use xibridge.Prelude.{
  ℕ, suc, ◌^◌, take-all, le→leb, ◌-◌, ◌+◌, ◌*◌, ◌%◌, ◌≤◌, ◌<◌, ◌≡◌, refl, sym, ap, ◌∙◌, true, false,
  List, [], ◌∷◌, ◌++◌, arith, none, if◌then◌else◌, ◌==◌, length, append-nil, append_assoc, le→ltb,
}
use xibridge.Wire.{hex8}
use xibridge.DevId.{DevId, hex_idev3, get_idev3, to_dev_id}
use xibridge.DevId.Coding.{idev_bytes, big_idev3, truncated, get_idev3-reader}
use xibridge.MBuf.{MBuf, mbuf_new, put8, memwrite, to_vector}
use xibridge.MBuf.Reader.{reader}
use xibridge.MBuf.Writer.{filled, room-filled, store-filled, memwrite-filled, to_vector-filled}
use xibridge.Uri.{
  xinet_pre, device_text, int_to_size, memwrite_text, write_uri, write_uris, xi_net_dev_uris,
}
use xibridge.Uri.RoundTrip.{uri_text, length-device_text}

abbrev pub dev_bytes : List DevId → List ℕ
dev_bytes [] = []
dev_bytes (d ∷ ds) = idev_bytes d ++ dev_bytes ds

-- A uri with its final 0 for each device.
abbrev pub uri_texts : List ℕ → List DevId → List ℕ
uri_texts host [] = []
uri_texts host (d ∷ ds) = (uri_text host (truncated d) ++ (0 ∷ [])) ++ uri_texts host ds

put8-filled :
    (bs : List ℕ) (k b : ℕ)
    → 1 ≤ k
    → b < 256
    → put8 (filled bs k) (hex8 b) ≡ filled (bs ++ (b ∷ [])) (k - 1)
unfolding put8
put8-filled bs k b h l =
    rw (room-filled bs k, le→ltb k 1 h)
      (store-filled bs (b % 256 % 256 ∷ []) k h
        ∙ ap (λ c. filled (bs ++ (c ∷ [])) (k - 1)) (omega arith))

memwrite_text-memwrite :
    (m : MBuf) (text : List ℕ) → length text < 2 ^ 31 → memwrite_text m text ≡ (memwrite m text).0
unfolding memwrite_text
memwrite_text-memwrite m text h =
    rw (kept (length text) h, le→leb (length text) (length text) (omega arith), take-all text) refl
  where
    kept : (n : ℕ) → n < 2 ^ 31 → int_to_size n ≡ n
    kept n l = ground arith

write_uri-filled :
    (bs host : List ℕ) (k : ℕ) (d : DevId)
    → length host + 35 ≤ k
    → length host + 35 < 2 ^ 31
    → write_uri (filled bs k) host d
      ≡ filled (bs ++ (uri_text host d ++ (0 ∷ []))) (k - (length host + 35))
unfolding write_uri
write_uri-filled bs host k d h l =
    rw
      (
        memwrite_text-memwrite (filled bs k) xinet_pre (omega arith),
        memwrite-filled bs xinet_pre k (omega arith) (omega arith),
        memwrite_text-memwrite (filled (bs ++ xinet_pre) (k - 9)) host (omega arith),
        memwrite-filled (bs ++ xinet_pre) host (k - 9) (omega arith) (omega arith),
        put8-filled ((bs ++ xinet_pre) ++ host) (k - 9 - length host) 47 (omega arith)
            (omega arith),
        memwrite_text-memwrite
            (filled (((bs ++ xinet_pre) ++ host) ++ (47 ∷ [])) (k - 9 - length host - 1))
            (device_text d) (omega (arith, length-device_text d)),
        memwrite-filled (((bs ++ xinet_pre) ++ host) ++ (47 ∷ [])) (device_text d)
            (k - 9 - length host - 1) (omega (arith, length-device_text d))
            (omega (arith, length-device_text d)),
        length-device_text d,
        put8-filled ((((bs ++ xinet_pre) ++ host) ++ (47 ∷ [])) ++ device_text d)
            (k - 9 - length host - 1 - 24) 0 (omega arith) (omega arith),
      )
      (simp append_assoc (rw spare))
  where
    spare : k - 9 - length host - 1 - 24 - 1 ≡ k - (length host + 35)
    spare = omega arith

read_device :
    (d : DevId) (done rest : List ℕ)
    → get_idev3 (reader done (idev_bytes d ++ rest)) (hex_idev3 none false)
      ≡ (big_idev3 (truncated d), reader (done ++ idev_bytes d) rest)
read_device d done rest =
    get_idev3-reader (record { id = 0; pid = 0; vid = 0; reserve = 0 }) d done rest

to_dev_id-truncated : (d : DevId) → to_dev_id (big_idev3 (truncated d)) ≡ truncated d
to_dev_id-truncated d = ground arith

write_uris-filled :
    (ds : List DevId) (bs host done : List ℕ) (k : ℕ)
    → (length host + 35) * length ds ≤ k
    → length host + 35 < 2 ^ 31
    → write_uris (length ds) (filled bs k) host (reader done (dev_bytes ds)) ≡ (
      filled (bs ++ uri_texts host ds) (k - (length host + 35) * length ds),
      reader (done ++ dev_bytes ds) [],
    )
write_uris-filled [] bs host done k h l =
    ap (λ b. (filled b k, reader done [])) (sym (append-nil bs))
    ∙ ap (λ j. (filled (bs ++ []) j, reader done [])) {y = k - (length host + 35) * 0} (omega arith)
    ∙ ap (λ b. (filled (bs ++ []) (k - (length host + 35) * 0), reader b []))
        (sym (append-nil done))
write_uris-filled (d ∷ ds) bs host done k h l =
    ap (λ r. write_uris (length ds) (write_uri (filled bs k) host (to_dev_id r.0)) host r.1)
      (read_device d done (dev_bytes ds))
    ∙ ap (λ e. write_uris (length ds) (write_uri (filled bs k) host e) host here)
        (to_dev_id-truncated d)
    ∙ ap (λ m. write_uris (length ds) m host here)
        (write_uri-filled bs host k (truncated d) (omega arith) l)
    ∙ write_uris-filled ds (bs ++ one) host (done ++ idev_bytes d) (k - (length host + 35))
        (omega arith) l
    ∙ ap (λ b. (filled b left, reader ((done ++ idev_bytes d) ++ dev_bytes ds) []))
        (append_assoc bs one (uri_texts host ds))
    ∙ ap (λ b. (filled (bs ++ uri_texts host (d ∷ ds)) left, reader b []))
        (append_assoc done (idev_bytes d) (dev_bytes ds))
    ∙ ap
        (λ (j : ℕ).
          (filled (bs ++ uri_texts host (d ∷ ds)) j, reader (done ++ dev_bytes (d ∷ ds)) []))
        {y = k - (length host + 35) * suc (length ds)} (omega arith)
  where
    one : List ℕ
    one = uri_text host (truncated d) ++ (0 ∷ [])

    left : ℕ
    left = k - (length host + 35) - (length host + 35) * length ds

    here : MBuf
    here = reader (done ++ idev_bytes d) (dev_bytes ds)

-- Where something was written, the final 0 follows.
end_written :
    (bs : List ℕ) (k : ℕ)
    → 0 < length bs
    → 1 ≤ k
    → (if (filled bs k).cur == 0 then filled bs k else put8 (filled bs k) (hex8 0))
      ≡ filled (bs ++ (0 ∷ [])) (k - 1)
end_written [] k h l = elim h [ ]
end_written (b ∷ bs) k h l = rw (not_empty) (put8-filled (b ∷ bs) k 0 l (omega arith))
  where
    not_empty : (suc (length bs) == 0) ≡ false
    not_empty = ground arith

-- For at least one device, given as the bytes of a server's answer, in a buffer of the size that the client
-- reserves (40 bytes and the host for each device): all uris are written, each with a final 0 and another 0
-- behind the last, and the function reports that neither buffer overflowed. The product that the client reserves is
-- to fit an int.
pub xi_net_dev_uris-written :
    (host : List ℕ) (d : DevId) (ds : List DevId)
    → (length host + 40) * length (d ∷ ds) < 2 ^ 31
    → let (m, done) =
        xi_net_dev_uris
          (mbuf_new ((length host + 40) * length (d ∷ ds)) false)
          host
          (dev_bytes (d ∷ ds))
          (length (d ∷ ds)) in
      (to_vector m false ≡ uri_texts host (d ∷ ds) ++ (0 ∷ [])) × (done ≡ true)
unfolding xi_net_dev_uris
xi_net_dev_uris-written host d ds l =
    rw
      (
        write_uris-filled (d ∷ ds) [] host [] size (omega arith) (omega arith),
        end_written (uri_texts host (d ∷ ds)) (size - (length host + 35) * suc (length ds))
            (omega arith) (omega arith),
        to_vector-filled (uri_texts host (d ∷ ds) ++ (0 ∷ []))
            (size - (length host + 35) * suc (length ds) - 1),
      )
      (refl, refl)
  where
    size : ℕ
    size = (length host + 40) * suc (length ds)
