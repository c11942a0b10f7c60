-- ===== src/Timeline/Bars.antt =====
-- Which bars the timeline of src/layout/rooms/views/message_graph.rs shows.
use Prim.Native.String.{String}
use package.text.Mathlib.TextEquality.{eq_iff}
use mathlib.Core.List.{append_assoc, append-nil}
use dtchat.Prelude.{
  ℕ, ◌+◌, ◌≤◌, ◌≡◌, refl, sym, ap, ◌∙◌, inl, inr, Bool-cases, true, false, List, [], ◌∷◌, ◌++◌,
  String_eq, ◌==◌, if◌then◌else◌, subst, filter, filter-append, length, length-append, All,
  All-append, All-imp, arith,
}
use dtchat.Config.{Color32}
use dtchat.Message.{ChatMessage, Delivery, MessageStatus, sent, received}
use dtchat.Model.{ChatModel}
use dtchat.Timeline.{
  Bar, Series, push_bar, Timeline, add_bar, delivery_end, delivery_bar, received_bar,
  add_deliveries, add_message_bars, add_messages, color_of, timeline, window, max_ms, min_bar_ms,
}

-- The bars of a series.
abbrev pub elems_of : String → List (String × Series) → List Bar
elems_of u [] = []
elems_of u ((uuid, s) ∷ series) = if uuid == u then s.elems else elems_of u series

elems_of-push_bar :
    (u : String) (b : Bar) (series : List (String × Series))
    → elems_of u (push_bar b series) ≡ elems_of u series ++ filter (λ x. x.peer_uuid == u) (b ∷ [])
unfolding push_bar
elems_of-push_bar u b [] = ground arith
elems_of-push_bar u b ((uuid, s) ∷ series) = elim (Bool-cases (uuid == b.peer_uuid)) [
  | inl same ↦ rw same (elim (Bool-cases (uuid == u)) [
    | inl mine ↦
        let e : (b.peer_uuid == u) ≡ true =
          ground (arith, eq_iff uuid u, eq_iff uuid b.peer_uuid, eq_iff b.peer_uuid u) in
        rw (mine, e) refl
    | inr other ↦
        let e : (b.peer_uuid == u) ≡ false =
          ground (arith, eq_iff uuid u, eq_iff uuid b.peer_uuid, eq_iff b.peer_uuid u) in
        rw (other, e) (sym (append-nil (elems_of u series)))
  ])
  | inr new ↦ rw new (elim (Bool-cases (uuid == u)) [
    | inl mine ↦
        let e : (b.peer_uuid == u) ≡ false =
          ground (arith, eq_iff uuid u, eq_iff uuid b.peer_uuid, eq_iff b.peer_uuid u) in
        rw (mine, e) (sym (append-nil s.elems))
    | inr other ↦ rw other (elems_of-push_bar u b series)
  ])
]

-- The bars after one another, in consecutive rows.
abbrev pub IsNumbered : ℕ → List Bar → Type 0
IsNumbered r [] = Unit
IsNumbered r (b ∷ bs) = (b.row ≡ r) × IsNumbered (r + 1) bs

-- A timeline after some bars more: every series has its own, in order, each in a row of its own, and
-- no bar is shorter than the shortest or ends after what is shown.
pub record Shows (bs : List Bar) (t t' : Timeline) : Type 0 where
  pub series :
      (u : String) → elems_of u t'.series ≡ elems_of u t.series ++ filter (λ b. b.peer_uuid == u) bs
  pub numbered : IsNumbered t.row bs
  pub rows : t'.row ≡ t.row + length bs
  pub fits : All (λ b. (b.start_ms + min_bar_ms ≤ b.end_ms) × (b.end_ms ≤ t'.max_end_ms)) bs
  pub grows : t.max_end_ms ≤ t'.max_end_ms

Shows-none : (t : Timeline) → Shows [] t t
Shows-none t = record {
  series = λ u. sym (append-nil _);
  numbered = tt;
  rows = omega arith;
  fits = tt;
  grows = omega arith;
}

max_ms-bounds : (a b : ℕ) → (a ≤ max_ms a b) × (b ≤ max_ms a b)
max_ms-bounds a b = (ground arith, ground arith)

IsNumbered-append :
    (r : ℕ) (bs cs : List Bar)
    → IsNumbered r bs
    → IsNumbered (r + length bs) cs
    → IsNumbered r (bs ++ cs)
IsNumbered-append r [] cs h k = subst (λ n. IsNumbered n cs) (omega arith) k
IsNumbered-append r (b ∷ bs) cs h k =
    (h.0, IsNumbered-append (r + 1) bs cs h.1 (subst (λ n. IsNumbered n cs) (omega arith) k))

Shows-add_bar :
    (b : Bar) (t : Timeline)
    → b.row ≡ t.row
    → b.start_ms + min_bar_ms ≤ b.end_ms
    → Shows (b ∷ []) t (add_bar b t)
unfolding add_bar
Shows-add_bar b t r l = record {
  series = λ u. elems_of-push_bar u b t.series;
  numbered = (r, tt);
  rows = omega arith;
  fits = ((l, (max_ms-bounds t.max_end_ms b.end_ms).1), tt);
  grows = (max_ms-bounds t.max_end_ms b.end_ms).0;
}

Shows-append :
    (bs cs : List Bar) (t v w : Timeline) → Shows bs t v → Shows cs v w → Shows (bs ++ cs) t w
Shows-append bs cs t v w s z = record {
  series = λ u.
      z.series u
      ∙ ap (λ x. x ++ filter (λ b. b.peer_uuid == u) cs) (s.series u)
      ∙ append_assoc (elems_of u t.series) _ _
      ∙ ap (λ x. elems_of u t.series ++ x) (sym (filter-append (λ b. b.peer_uuid == u) bs cs));
  numbered =
      IsNumbered-append t.row bs cs s.numbered (subst (λ n. IsNumbered n cs) s.rows z.numbered);
  rows = omega (arith, s.rows, z.rows, length-append bs cs);
  fits = All-append _ bs cs (All-imp (λ b h. (h.0, omega (arith, h.1, z.grows))) bs s.fits) z.fits;
  grows = omega (arith, s.grows, z.grows);
}

module _ {T : Type 0} (millis : T → ℕ) (color : String → Color32) where
  -- The bars of a list of messages, from a row on: one for a message that was received, and one for
  -- each delivery of a message that was sent.
  abbrev pub delivery_bars : String → ℕ → ℕ → List (Delivery T) → List Bar
  delivery_bars text start r [] = []
  delivery_bars text start r (d ∷ ds) =
      delivery_bar millis color text start r d ∷ delivery_bars text start (r + 1) ds

  abbrev pub bars_of_status : ChatMessage T → MessageStatus T → ℕ → List Bar
  bars_of_status m (received tx rx) r = received_bar millis color m tx rx r ∷ []
  bars_of_status m (sent tx ds) r = delivery_bars m.text (millis tx) r ds

  abbrev pub bars_of : ℕ → List (ChatMessage T) → List Bar
  bars_of r [] = []
  bars_of r (m ∷ ms) =
      bars_of_status m m.shipment_status r
      ++ bars_of (r + length (bars_of_status m m.shipment_status r)) ms

  delivery_bar-long :
      (text : String) (start r : ℕ) (d : Delivery T)
      → start + min_bar_ms ≤ (delivery_bar millis color text start r d).end_ms
  unfolding delivery_bar delivery_end
  delivery_bar-long text start r d = ground arith

  Shows-add_deliveries :
      (text : String) (start : ℕ) (ds : List (Delivery T)) (t : Timeline)
      → Shows (delivery_bars text start t.row ds) t (add_deliveries millis color text start ds t)
  unfolding add_deliveries delivery_bar add_bar
  Shows-add_deliveries text start [] t = Shows-none t
  Shows-add_deliveries text start (d ∷ ds) t =
      let b = delivery_bar millis color text start t.row d in
      Shows-append (b ∷ []) (delivery_bars text start (t.row + 1) ds) t (add_bar b t) _
        (Shows-add_bar b t refl (delivery_bar-long text start t.row d))
        (Shows-add_deliveries text start ds (add_bar b t))

  Shows-add_message :
      (m : ChatMessage T) (s : MessageStatus T) (t : Timeline)
      → m.shipment_status ≡ s
      → Shows (bars_of_status m s t.row) t (add_message_bars millis color m t)
  unfolding add_message_bars received_bar
  Shows-add_message m (received tx rx) t e = rw e (
      Shows-add_bar (received_bar millis color m tx rx t.row) t refl
        (max_ms-bounds (millis rx) (millis tx + min_bar_ms)).1)
  Shows-add_message m (sent tx ds) t e = rw e (Shows-add_deliveries m.text (millis tx) ds t)

  Shows-add_messages :
      (ms : List (ChatMessage T)) (t : Timeline)
      → Shows (bars_of t.row ms) t (add_messages millis color ms t)
  unfolding add_messages
  Shows-add_messages [] t = Shows-none t
  Shows-add_messages (m ∷ ms) t =
      let v = add_message_bars millis color m t in
      let s = Shows-add_message m m.shipment_status t refl in
      Shows-append (bars_of_status m m.shipment_status t.row) _ t v _ s (
        subst (λ n. Shows (bars_of n ms) v (add_messages millis color ms v)) s.rows
          (Shows-add_messages ms v))

module _ {T P : Type 0} where
  -- The timeline has, for each peer, exactly the bars of what it sent to us and of what was sent to
  -- it, in the order of the list; all bars are in rows of their own from 0 on, none is shorter than
  -- half a second, and none ends after the right edge of the window, which is not before now.
  pub timeline-Shows :
      (millis : T → ℕ) (now_ms : ℕ) (m : ChatModel T P)
      → Shows
          (bars_of millis (color_of m) 0 m.messages)
          (record { series = []; row = 0; max_end_ms = now_ms })
          (timeline millis now_ms m)
        × ((window now_ms (timeline millis now_ms m)).1 ≡ (timeline millis now_ms m).max_end_ms)
  unfolding timeline window
  timeline-Shows millis now_ms m =
      let s =
        Shows-add_messages millis (color_of m) m.messages
          (record { series = []; row = 0; max_end_ms = now_ms }) in
      (s, ground (arith, s.grows))
