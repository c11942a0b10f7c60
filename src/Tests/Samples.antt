-- ===== src/Tests/Samples.antt =====
-- Peers, messages and codecs for the tests. An instant is its number of milliseconds.
use Prim.Native.String.{String}
use dtchat.Prelude.{ℕ, ◌+◌, ◌*◌, ℤ, pos, negsuc, List, [], ◌∷◌, Option, none, some}
use dtchat.Text.{show}
use dtchat.Time.{Instant}
use dtchat.Endpoint.{Endpoint, udp, tcp, bp}
use dtchat.Config.{Peer}
use dtchat.Message.{ChatMessage, Delivery, sent, received}

abbrev of_pos : ℤ → Option ℕ
of_pos (pos n) = some n
of_pos (negsuc n) = none

instance abbrev pub clock : Instant ℕ
clock = record {
  rank = λ t. t;
  millis = pos;
  of_millis = of_pos;
  hms = λ z. show (z.utc + 1000 * z.offset);
}

abbrev pub node : String → String → List Endpoint → Peer
node uuid name endpoints = record { uuid = uuid; name = name; endpoints = endpoints; color = 0 }

abbrev pub earth : Peer
earth = node "10" "earth" (bp "ipn:10.2" ∷ [])

abbrev pub moon : Peer
moon = node "20" "moon" (tcp "127.0.0.1:7710" ∷ udp "127.0.0.1:7720" ∷ [])

abbrev pub mars : Peer
mars = node "30" "mars" (bp "ipn:30.2" ∷ [])

abbrev pub inbound_at : String → Peer → ℕ → ℕ → ChatMessage ℕ
inbound_at uuid sender tx rx = record {
  uuid = uuid;
  response = none;
  sender = sender;
  text = "hi";
  shipment_status = received tx rx;
}

abbrev pub to_peer : String → Delivery ℕ
to_peer uuid = record {
  peer_uuid = uuid;
  peer_name = uuid;
  predicted_arrival = none;
  acked_at = none;
}

abbrev pub outbound_at : String → ℕ → List (Delivery ℕ) → ChatMessage ℕ
outbound_at uuid tx deliveries = record {
  uuid = uuid;
  response = none;
  sender = earth;
  text = "hi";
  shipment_status = sent tx deliveries;
}
