-- ===== src/Mesh/Heard.antt =====
-- What the recorders of src/mesh_integration.rs have heard, against what is still in flight.
use Prim.Native.String.{String}
use package.text.Mathlib.TextEquality.{eq_iff}
use dtchat.Prelude.{
  ℕ, ◌+◌, ◌≡◌, refl, false, List, [], ◌∷◌, ◌++◌, length-append, filter, filter-append, All,
  All-append, String_eq, ◌==◌, arith,
}
use dtchat.Message.{ChatMessage}
use dtchat.Controller.{SocketController, each_observer, notify_models, handle_ack_received}
use dtchat.Mesh.{Recorder, recorder_observer, message_count, ack_count}
use dtchat.Mesh.Flights.{Tag, to_b, to_c, reply, total, total-append, one, for_b, for_c}

module _ {T : Type 0} where
  message_count-append :
      (r : Recorder T) (m : ChatMessage T)
      → message_count (record r { messages = r.messages ++ m ∷ [] }) ≡ message_count r + 1
  unfolding message_count
  message_count-append r m = length-append r.messages (m ∷ [])

  ack_count-append :
      (r : Recorder T) (uuid : String)
      → ack_count (record r { acks = r.acks ++ uuid ∷ [] }) uuid ≡ ack_count r uuid + 1
  unfolding ack_count
  ack_count-append r uuid =
      rw (filter-append (λ u. u == uuid) r.acks (uuid ∷ []), (eq_iff uuid uuid).1 refl)
        (length-append (filter (λ u. u == uuid) r.acks) (uuid ∷ []))

  module _ (uuid text : String) where
    -- The recorders, while the payloads with the tags `ts` are in flight.
    pub record Heard (rs : ℕ → Recorder T) (ts : List Tag) : Type 0 where
      pub quiet : message_count (rs 0) ≡ 0
      pub replies : ack_count (rs 0) uuid + total one ts ≡ 2
      pub at_b : message_count (rs 1) + total for_b ts ≡ 1
      pub at_c : message_count (rs 2) + total for_c ts ≡ 1
      pub text_b : All (λ m. m.text ≡ text) (rs 1).messages

    module _ (rs : ℕ → Recorder T) (ts rest : List Tag) (h : Heard rs ts) where
      -- A copy comes to the second node, which answers.
      pub Heard-to_b :
          (c : SocketController) (m : ChatMessage T)
          → c.observers ≡ 1 ∷ []
          → m.text ≡ text
          → ((f : Tag → ℕ) → total f ts ≡ f to_b + total f rest)
          → Heard (notify_models c m rs) (rest ++ reply ∷ [])
      unfolding notify_models each_observer
      Heard-to_b c m own same sum = rw own (record {
        quiet = h.quiet;
        replies = omega (arith, h.replies, sum one, total-append one rest reply);
        at_b = omega (
          arith,
          h.at_b,
          sum for_b,
          total-append for_b rest reply,
          message_count-append (rs 1) m,
        );
        at_c = omega (arith, h.at_c, sum for_c, total-append for_c rest reply);
        text_b = All-append (λ m. m.text ≡ text) (rs 1).messages (m ∷ []) h.text_b (same, tt);
      })

      -- A copy comes to the third node, which answers.
      pub Heard-to_c :
          (c : SocketController) (m : ChatMessage T)
          → c.observers ≡ 2 ∷ []
          → ((f : Tag → ℕ) → total f ts ≡ f to_c + total f rest)
          → Heard (notify_models c m rs) (rest ++ reply ∷ [])
      unfolding notify_models each_observer
      Heard-to_c c m own sum = rw own (record {
        quiet = h.quiet;
        replies = omega (arith, h.replies, sum one, total-append one rest reply);
        at_b = omega (arith, h.at_b, sum for_b, total-append for_b rest reply);
        at_c = omega (
          arith,
          h.at_c,
          sum for_c,
          total-append for_c rest reply,
          message_count-append (rs 2) m,
        );
        text_b = h.text_b;
      })

      -- An ACK comes back to the first node.
      pub Heard-reply :
          (c : SocketController) (me : String) (time : T)
          → c.observers ≡ 0 ∷ []
          → ((f : Tag → ℕ) → total f ts ≡ f reply + total f rest)
          → Heard (handle_ack_received c uuid me false time rs) rest
      unfolding handle_ack_received each_observer message_count
      Heard-reply c me time own sum = rw own (record {
        quiet = h.quiet;
        replies = omega (arith, h.replies, sum one, ack_count-append (rs 0) uuid);
        at_b = omega (arith, h.at_b, sum for_b);
        at_c = omega (arith, h.at_c, sum for_c);
        text_b = h.text_b;
      })
