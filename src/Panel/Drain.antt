-- ===== src/Panel/Drain.antt =====
-- What the prompt shows of its events, and when it sends (src/layout/rooms/message_prompt.rs).
use Prim.Native.String.{String}
use dtchat.Prelude.{
  ◌≡◌, refl, ap, inl, inr, Bool, Bool-cases, not, ◌&&◌, false, List, [], ◌∷◌, ◌++◌, Option, none,
  some, arith,
}
use dtchat.Config.{Peer}
use dtchat.Message.{ChatMessage, sent}
use dtchat.Model.{AppEvent, EventHandler, on_event}
use dtchat.Panel.{MessagePanel, text_of, drain, take_events, is_blank, press_send}

drain-append :
    (es : List AppEvent) (e : AppEvent) (status : Option String)
    → drain (es ++ e ∷ []) status ≡ ([], some (text_of e))
unfolding drain
drain-append [] e status = refl
drain-append (x ∷ es) e status = drain-append es e (some (text_of x))

-- After an event the prompt shows its text, whatever came before, and the queue is empty; drawn once
-- more without a new event, it goes on to show it.
take_events-on_event :
    (panel : MessagePanel) (h : EventHandler) (e : AppEvent)
    → ((take_events panel (on_event e h)).0.send_status ≡ some (text_of e))
      × ((take_events panel (on_event e h)).1.events ≡ [])
      × (take_events (take_events panel (on_event e h)).0 (take_events panel (on_event e h)).1
          ≡ take_events panel (on_event e h))
unfolding take_events on_event
take_events-on_event panel h e =
    let shown = drain-append h.events e panel.send_status in
    (ap (λ x. x.1) shown, ap (λ x. x.0) shown, rw (shown, drain) refl)

-- No text is sent twice: once a press has sent what is typed, a press before anything else is typed
-- sends nothing and changes nothing; and what was sent is a new message of the local peer with the
-- whole text and no deliveries yet.
pub press_send-once :
    {T : Type 0} (b b' : Bool) (uuid uuid' : String) (now now' : T) (localpeer localpeer' : Peer)
    (panel : MessagePanel) (m : ChatMessage T) (pbat : Bool)
    → (press_send b uuid now localpeer panel).0 ≡ some (m, pbat)
    → (press_send b' uuid' now' localpeer' (press_send b uuid now localpeer panel).1
        ≡ (none, (press_send b uuid now localpeer panel).1))
      × (m.text ≡ panel.message_to_send)
      × (m.uuid ≡ uuid)
      × (m.sender ≡ localpeer)
      × (m.shipment_status ≡ sent now [])
      × (is_blank panel.message_to_send ≡ false)
unfolding press_send is_blank
press_send-once b b' uuid uuid' now now' localpeer localpeer' panel m pbat h =
    elim (Bool-cases (b && not (is_blank panel.message_to_send))) [
      | inr idle ↦ absurd (ground arith)
      | inl sends ↦ (
        rw sends (ground arith),
        ground arith,
        ground arith,
        ground arith,
        ground arith,
        ground arith,
      )
    ]
