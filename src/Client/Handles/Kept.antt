-- ===== src/Client/Handles/Kept.antt =====
-- What the functions of a client leave alone: its connection number, its version and the map.
use xibridge.Prelude.{ℕ, ◌≡◌, refl, ◌∙◌, false, List, [], Option, none, some, Bool-cases, inl, inr}
use xibridge.Protocol.Dispatch.{Kind, create_cmd_request}
use xibridge.Client.{
  XibridgeClient, Network, Session, Sent, refused, accepted, early, received_or_not, after_send,
  send_and_receive, has_conn, is_connected,
}
use xibridge.Client.Calls.{
  exchange, asked, ask, request_of, answered, closed, translated, send_data_and_receive,
  request_response, clear,
}

-- The same connection number, version and map.
pub record Keeps {N : Type 0} (s s' : Session N) : Type 0 where
  pub same_conn : s'.client.conn_id ≡ s.client.conn_id
  pub same_version : s'.client.server_protocol_version ≡ s.client.server_protocol_version
  pub same_map : s'.map ≡ s.map

pub Keeps-trans : {N : Type 0} {r s t : Session N} → Keeps r s → Keeps s t → Keeps r t
Keeps-trans a b = record {
  same_conn = b.same_conn ∙ a.same_conn;
  same_version = b.same_version ∙ a.same_version;
  same_map = b.same_map ∙ a.same_map;
}

-- A function that uses an answer and keeps number and version.
pub record KeepsClient {A : Type 0} (use_answer : Kind → XibridgeClient → XibridgeClient × A)
    : Type 0 where
  pub keeps_conn : (k : Kind) (c : XibridgeClient) → (use_answer k c).0.conn_id ≡ c.conn_id
  pub keeps_version :
      (k : Kind) (c : XibridgeClient)
      → (use_answer k c).0.server_protocol_version ≡ c.server_protocol_version

answered-KeepsClient : KeepsClient answered
unfolding answered
answered-KeepsClient = record { keeps_conn = λ k c. refl; keeps_version = λ k c. refl }

pub closed-KeepsClient : KeepsClient closed
unfolding closed translated
closed-KeepsClient = record { keeps_conn = λ k c. refl; keeps_version = λ k c. refl }

module _ {N : Type 0} (w : Network N) where
  received_or_not-Keeps :
      (message : Option (List ℕ)) (s : Session N) → Keeps s (received_or_not w message s).0
  received_or_not-Keeps none s = record { same_conn = refl; same_version = refl; same_map = refl }
  received_or_not-Keeps (some m) s = record {
    same_conn = refl;
    same_version = refl;
    same_map = refl;
  }

  early-keeps :
      (first : Option (List ℕ)) (c : XibridgeClient)
      → ((early first c).conn_id ≡ c.conn_id)
        × ((early first c).server_protocol_version ≡ c.server_protocol_version)
  early-keeps none c = (refl, refl)
  early-keeps (some m) c = (refl, refl)

  after_send-Keeps : (sent : Sent) (s : Session N) → Keeps s (after_send w sent s).0
  unfolding after_send
  after_send-Keeps refused s = record { same_conn = refl; same_version = refl; same_map = refl }
  after_send-Keeps (accepted first) s =
      Keeps-trans
        {s = record s {
          client = record (early first s.client) { is_really_recv = false };
          net = (w.wait s.client.conn_id s.net).1;
        }}
        (record {
          same_conn = (early-keeps first s.client).0;
          same_version = (early-keeps first s.client).1;
          same_map = refl;
        })
        (received_or_not-Keeps (w.wait s.client.conn_id s.net).0 (record s {
          client = record (early first s.client) { is_really_recv = false };
          net = (w.wait s.client.conn_id s.net).1;
        }))

  send_and_receive-Keeps : (req : List ℕ) (s : Session N) → Keeps s (send_and_receive w req s).0
  unfolding send_and_receive
  send_and_receive-Keeps req s = elim (Bool-cases (has_conn s.map s.client.conn_id)) [
    | inl b ↦ rw b (
        Keeps-trans {r = s} {s = record s { net = (w.send s.client.conn_id req s.net).1 }}
          (record { same_conn = refl; same_version = refl; same_map = refl })
          (after_send-Keeps (w.send s.client.conn_id req s.net).0
            (record s { net = (w.send s.client.conn_id req s.net).1 })))
    | inr b ↦ rw b (record { same_conn = refl; same_version = refl; same_map = refl })
  ]

  pub exchange-Keeps :
      {A : Type 0} (nothing : A) (use_answer : Kind → XibridgeClient → XibridgeClient × A)
      (k : Kind) (req : List ℕ) (s : Session N)
      → KeepsClient use_answer
      → Keeps s (exchange w nothing use_answer k req s).0
  unfolding exchange
  exchange-Keeps nothing use_answer k req s u = elim (Bool-cases (send_and_receive w req s).1) [
    | inl b ↦ rw b (
        Keeps-trans (send_and_receive-Keeps req s) (record {
          same_conn = u.keeps_conn k (send_and_receive w req s).0.client;
          same_version = u.keeps_version k (send_and_receive w req s).0.client;
          same_map = refl;
        }))
    | inr b ↦ rw b (send_and_receive-Keeps req s)
  ]

  asked-Keeps :
      {A : Type 0} (nothing : A) (use_answer : Kind → XibridgeClient → XibridgeClient × A)
      (request : Option (Kind × List ℕ)) (s : Session N)
      → KeepsClient use_answer
      → Keeps s (asked w nothing use_answer request s).0
  asked-Keeps nothing use_answer none s u = record {
    same_conn = refl;
    same_version = refl;
    same_map = refl;
  }
  asked-Keeps nothing use_answer (some (k, req)) s u = exchange-Keeps nothing use_answer k req s u

  send_data_and_receive-Keeps :
      (bytes : List ℕ) (resp_length : ℕ) (s : Session N)
      → Keeps s (send_data_and_receive w bytes resp_length s).0
  unfolding send_data_and_receive ask
  send_data_and_receive-Keeps bytes resp_length s = elim (Bool-cases (is_connected w (clear w s))) [
    | inl b ↦ rw b (
        Keeps-trans {r = s} {s = clear w s}
          (record { same_conn = refl; same_version = refl; same_map = refl })
          (asked-Keeps [] answered
            (request_of (λ k. create_cmd_request k s.client.dev_id bytes resp_length)
              (clear w s).client)
            (clear w s) answered-KeepsClient))
    | inr b ↦ rw b (record { same_conn = refl; same_version = refl; same_map = refl })
  ]

  pub request_response-Keeps :
      (req : List ℕ) (resp_len : ℕ) (s : Session N) → Keeps s (request_response w req resp_len s).0
  unfolding request_response
  request_response-Keeps req resp_len s = send_data_and_receive-Keeps req resp_len s
