-- ===== src/Prediction/Prompted.antt =====
-- The prediction that src/layout/rooms/message_prompt.rs asks for, where chrono has the instants.
use Prim.Native.String.{String}
use dtchat.Prelude.{ℕ, ℤ, ◌≡◌, refl, inl, inr, Option, none, some}
use dtchat.Prediction.{
  Float, Router, Routed, PredictionConfig, Outcome, arrives, fails, get_node_id, f64_to_utc,
  instant_of, arrival_of, ask, route_between, predict, predicted_utc,
}
use dtchat.Prediction.Outcomes.{
  IsArrival, an_error, nothing, no_hop, no_stage, in_range, out_of_range, arrival_of-IsArrival,
}
use dtchat.Prompt.{Predict}

-- There is a value.
abbrev IsJust {ℓ} : {A : Type ℓ} → Option A → Type ℓ
IsJust {A = A} o = (a : A) × (o ≡ some a)

elim-IsJust {ℓ κ} :
    {A : Type ℓ} {B : Type κ} (o : Option A) (b : B) (g : A → Option B)
    → ((a : A) → IsJust (g a))
    → IsJust (elim o [ none ↦ some b | some a ↦ g a ])
elim-IsJust none b g h = (b, refl)
elim-IsJust (some a) b g h = h a

bind-IsJust {ℓ κ} :
    {A : Type ℓ} {B : Type κ} (o : Option A) (g : A → Option B)
    → IsJust o
    → ((a : A) → IsJust (g a))
    → IsJust (elim o [ none ↦ none | some a ↦ g a ])
bind-IsJust none g (a, e) h = cc
bind-IsJust (some b) g j h = h b

module _ {F R T : Type 0} (f : Float F) (router : Router F R) (from_timestamp : ℤ → ℕ → Option T)
    (ranges : (x : F) → (t : T) × (f64_to_utc {R = R} f router from_timestamp x ≡ some t)) where
  IsArrival-is_some :
      (start : F) (found : Routed F) (out : Option (Outcome F))
      → IsArrival f router from_timestamp start found out
      → IsJust out
  IsArrival-is_some start _ _ an_error = (_, refl)
  IsArrival-is_some start _ _ nothing = (_, refl)
  IsArrival-is_some start _ _ no_hop = (_, refl)
  IsArrival-is_some start _ _ (no_stage hops h) = (_, refl)
  IsArrival-is_some start _ _ (in_range hops stages delay t u h k d e) = (_, refl)
  IsArrival-is_some start _ _ (out_of_range hops stages delay h k (inl d)) =
      let (t, e) = ranges start in cc
  IsArrival-is_some start _ _ (out_of_range hops stages delay h k (inr d)) =
      let (t, e) = ranges (f.add delay start) in cc

  route_between-is_some :
      (cfg : PredictionConfig F R) (i j : ℕ) (size now : F)
      → IsJust (route_between f router from_timestamp cfg i j size now)
  unfolding route_between
  route_between-is_some cfg i j size now =
      let start = cfg.cp_start_time in
      let (r, found) = ask f router from_timestamp cfg i j size now in
      bind-IsJust (arrival_of f router from_timestamp start found)
        (λ o. some (record cfg { router = r }, o))
        (IsArrival-is_some start found _ (arrival_of-IsArrival f router from_timestamp start found))
        λ o. (_, refl)

  instant_of-is_some : (o : Outcome F) → IsJust (instant_of {R = R} f router from_timestamp o)
  unfolding instant_of
  instant_of-is_some (fails e) = (_, refl)
  instant_of-is_some (arrives arrival) =
      bind-IsJust (f64_to_utc f router from_timestamp arrival) _ (ranges arrival) λ t. (_, refl)

  predict-is_some :
      (source dest : String) (size now : F) (cfg : PredictionConfig F R)
      → IsJust (predict f router from_timestamp source dest size now cfg)
  unfolding predict
  predict-is_some source dest size now cfg =
      elim-IsJust (get_node_id source cfg) _ _
        λ i. elim-IsJust (get_node_id dest cfg) _ _ λ j. route_between-is_some cfg i j size now

  -- Where every time has an instant, the prompt's prediction does not panic.
  pub predicted_utc-is_some :
      (cfg : PredictionConfig F R) (source dest : String) (size : ℕ) (now : F)
      → IsJust (predicted_utc f router from_timestamp cfg source dest size now)
  unfolding predicted_utc
  predicted_utc-is_some cfg source dest size now =
      bind-IsJust (predict f router from_timestamp source dest (f.of_nat size) now cfg) _
        (predict-is_some source dest (f.of_nat size) now cfg)
        λ r.
          bind-IsJust (instant_of f router from_timestamp r.1) _ (instant_of-is_some r.1)
            λ t. (_, refl)

  -- The prediction as the sending of a message takes it; `clock` is what `Utc::now()` reads at each call.
  abbrev pub prompted : (PredictionConfig F R → String → F) → Predict T (PredictionConfig F R)
  prompted clock cfg source dest size =
      (predicted_utc-is_some cfg source dest size (clock cfg dest)).0
