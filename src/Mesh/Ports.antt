-- ===== src/Mesh/Ports.antt =====
-- The two tests of src/mesh_integration.rs, over the ports that the system gives.
use Prim.Native.String
use Prim.Native.String.{String}
use mathlib.Core.Option
use dtchat.Prelude.{ℕ, ◌≡◌, ◌≢◌, sym, ap, ◌∙◌, List, Option}
use dtchat.Text.{show, strip_prefix}
use dtchat.Text.Digits.{value, value-show}
use dtchat.Text.Laws.{strip_prefix-append}
use dtchat.Time.{Instant}
use dtchat.Endpoint.{Endpoint, udp, tcp, bp}
use dtchat.Mesh.{System, Mesh, Arrival, run_mesh_round_trip}

-- `format!("127.0.0.1:{}", port)`
loopback : ℕ → String
loopback port = String.◌++◌ "127.0.0.1:" (show port)

module _ {T : Type 0} ⦃i : Instant T⦄ (uuid : String) (now : T) (sys : System)
    (arrivals : List (Arrival T)) (p q r : ℕ) where
  three_node_mesh_message_and_ack_over_udp : Option (Mesh T)
  unfolding loopback
  three_node_mesh_message_and_ack_over_udp =
      run_mesh_round_trip (udp (loopback p)) (udp (loopback q)) (udp (loopback r)) uuid now sys
        arrivals

  three_node_mesh_message_and_ack_over_tcp : Option (Mesh T)
  unfolding loopback
  three_node_mesh_message_and_ack_over_tcp =
      run_mesh_round_trip (tcp (loopback p)) (tcp (loopback q)) (tcp (loopback r)) uuid now sys
        arrivals

-- Different ports have different addresses.
loopback-injective : (p q : ℕ) → loopback p ≡ loopback q → p ≡ q
unfolding loopback
loopback-injective p q e =
    let same : show p ≡ show q = Option.some-injective (show p) (show q) (
      sym (strip_prefix-append "127.0.0.1:" (show p))
      ∙ ap (λ s. strip_prefix s "127.0.0.1:") e
      ∙ strip_prefix-append "127.0.0.1:" (show q)) in
    sym (value-show p) ∙ ap (value 0) same ∙ value-show q

abbrev text_of : Endpoint → String
text_of (udp a) = a
text_of (tcp a) = a
text_of (bp a) = a

-- Over either transport, the nodes have different endpoints if the system gives different ports.
udp-tcp-apart :
    (p q : ℕ)
    → p ≢ q
    → (udp (loopback p) ≢ udp (loopback q)) × (tcp (loopback p) ≢ tcp (loopback q))
udp-tcp-apart p q differ = (
  λ e. differ (loopback-injective p q (ap text_of e)),
  λ e. differ (loopback-injective p q (ap text_of e)),
)
