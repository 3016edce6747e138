-- ===== src/Client/Handles/Live.antt =====
-- client/xibridge_client.cpp: what holds of the clients behind the connection numbers while bindy's `disconnect` works.
use xibridge.Prelude.{
  ℕ, ◌≡◌, refl, sym, ap, ◌∙◌, true, false, List, [], ◌∷◌, Option, none, some, ◌==◌, Bool-cases,
  ==→eq, inl, inr,
}
use xibridge.Protocol.Dispatch.{Kind, version}
use xibridge.Client.{XibridgeClient, Network, has_conn, erase}
use xibridge.Client.Handles.{Entries, get_client, keys, set_client, kept_keys}

pub has_conn-erase : (ks : List ℕ) (conn_id : ℕ) → has_conn (erase ks conn_id) conn_id ≡ false
has_conn-erase [] conn_id = refl
has_conn-erase (k ∷ ks) conn_id = elim (Bool-cases (k == conn_id)) [
  | inl b ↦ rw b (has_conn-erase ks conn_id)
  | inr b ↦ rw (b, b) (has_conn-erase ks conn_id)
]

module _ {N : Type 0} (w : Network N) where
  -- A client behind its own number, a valid one, with a version that the library supports.
  pub record IsOpen (conn_id : ℕ) (c : XibridgeClient) : Type 0 where
    pub kind : Kind
    pub same_conn : c.conn_id ≡ conn_id
    pub valid : (conn_id == w.conn_id_invalid) ≡ false
    pub supported : c.server_protocol_version ≡ version kind

  -- No entry points to a deleted client.
  pub data IsLive : Entries → Type 0 where
    nobody : IsLive []
    client :
        {conn_id : ℕ} {c : XibridgeClient} {es : Entries}
        → IsOpen conn_id c
        → IsLive es
        → IsLive ((conn_id, some c) ∷ es)

  -- What a search finds among such clients.
  pub data Found (conn_id : ℕ) (es : Entries) : Option (Option XibridgeClient) → Type 0 where
    absent : Found conn_id es none
    present :
        (c : XibridgeClient)
        → IsOpen conn_id c
        → has_conn (keys es) conn_id ≡ true
        → Found conn_id es (some (some c))

  renumbered : {k conn_id : ℕ} {c : XibridgeClient} → k ≡ conn_id → IsOpen k c → IsOpen conn_id c
  renumbered e o = record {
    kind = o.kind;
    same_conn = o.same_conn ∙ e;
    valid = ap (λ n. n == w.conn_id_invalid) (sym e) ∙ o.valid;
    supported = o.supported;
  }

  Found-later :
      (k conn_id : ℕ) (b : Option XibridgeClient) (es : Entries)
      {o : Option (Option XibridgeClient)}
      → (k == conn_id) ≡ false
      → Found conn_id es o
      → Found conn_id ((k, b) ∷ es) o
  Found-later k conn_id b es h absent = absent
  Found-later k conn_id b es h (present c o i) = present c o (rw h i)

  pub get_client-Found :
      (conn_id : ℕ) {es : Entries} → IsLive es → Found conn_id es (get_client conn_id es)
  get_client-Found conn_id nobody = absent
  get_client-Found conn_id (client {conn_id = k} {c = c} {es = es} o l) =
      elim (Bool-cases (k == conn_id)) [
        | inl b ↦ rw b (present c (renumbered (==→eq k conn_id b) o) (rw b refl))
        | inr b ↦ rw b (Found-later k conn_id (some c) es b (get_client-Found conn_id l))
      ]

  abbrev client_or : XibridgeClient → Option (Option XibridgeClient) → XibridgeClient
  client_or b (some (some c)) = c
  client_or b _ = b

  the-Found :
      (conn_id : ℕ) (es : Entries) (o : Option (Option XibridgeClient)) (c : XibridgeClient)
      → Found conn_id es o
      → o ≡ some (some c)
      → IsOpen conn_id c × (has_conn (keys es) conn_id ≡ true)
  the-Found conn_id es _ c absent e = absurd cc
  the-Found conn_id es _ c (present b p i) e =
      let same : b ≡ c = ap (client_or b) e in
      (
        record {
          kind = p.kind;
          same_conn = ap (λ (x : XibridgeClient). x.conn_id) (sym same) ∙ p.same_conn;
          valid = p.valid;
          supported =
              ap (λ (x : XibridgeClient). x.server_protocol_version) (sym same) ∙ p.supported;
        },
        i,
      )

  pub found_client :
      (conn_id : ℕ) (c : XibridgeClient) (es : Entries)
      → IsLive es
      → get_client conn_id es ≡ some (some c)
      → IsOpen conn_id c × (has_conn (keys es) conn_id ≡ true)
  found_client conn_id c es l e =
      the-Found conn_id es (get_client conn_id es) c (get_client-Found conn_id l) e

  pub set_client-IsLive :
      (conn_id : ℕ) (c : XibridgeClient) {es : Entries}
      → IsOpen conn_id c
      → IsLive es
      → IsLive (set_client conn_id (some c) es)
  set_client-IsLive conn_id c o nobody = nobody
  set_client-IsLive conn_id c o (client {conn_id = k} {c = b} {es = es} p l) =
      elim (Bool-cases (k == conn_id)) [
        | inl e ↦ rw e (client (renumbered (sym (==→eq k conn_id e)) o) l)
        | inr e ↦ rw e (client p (set_client-IsLive conn_id c o l))
      ]

  kept_later :
      (ks : List ℕ) (k : ℕ) (es : Entries) {c : XibridgeClient}
      → IsLive (kept_keys ks es)
      → IsOpen k c
      → IsLive (kept_keys ks ((k, some c) ∷ es))
  kept_later ks k es l o = elim (Bool-cases (has_conn ks k)) [
    | inl e ↦ rw e (client o l)
    | inr e ↦ rw e l
  ]

  pub kept_keys-IsLive : (ks : List ℕ) {es : Entries} → IsLive es → IsLive (kept_keys ks es)
  kept_keys-IsLive ks nobody = nobody
  kept_keys-IsLive ks (client {conn_id = k} o l) = kept_later ks k _ (kept_keys-IsLive ks l) o

  -- A deleted client whose number is gone from the map.
  pub closed-IsLive :
      (ks : List ℕ) (conn_id : ℕ) {es : Entries}
      → has_conn ks conn_id ≡ false
      → IsLive es
      → IsLive (kept_keys ks (set_client conn_id none es))
  closed-IsLive ks conn_id h nobody = nobody
  closed-IsLive ks conn_id h (client {conn_id = k} o l) = elim (Bool-cases (k == conn_id)) [
    | inl e ↦ rw (e, ap (has_conn ks) (==→eq k conn_id e) ∙ h) (kept_keys-IsLive ks l)
    | inr e ↦ rw e (kept_later ks k _ (closed-IsLive ks conn_id h l) o)
  ]
