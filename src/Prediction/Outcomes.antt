-- ===== src/Prediction/Outcomes.antt =====
-- What a prediction comes to, by the contact plan alone (src/utils/prediction_config.rs).
use Prim.Native.String.{String}
use dtchat.Prelude.{
  ℕ, ℤ, ◌≡◌, refl, sym, ◌⊎◌, inl, inr, List, [], ◌∷◌, Option, none, some, String_eq, Option-cases,
  subst,
}
use dtchat.Prediction.{
  Vertex, Float, Router, Routed, refused, no_route, routed, PredictionConfig, Outcome, arrives,
  fails, unknown_source, unknown_dest, no_stages, not_found, routing, last, last_value,
  map_node_indices, get_node_id, new_prediction, f64_to_utc, arrival_after, arrival_of, ask,
  route_between, predict,
}
use dtchat.Prediction.Names.{IsUnknown, IsKnown, Says, last_value-Says, EndsIn, last-EndsIn}

module _ {F R T : Type 0} (f : Float F) (router : Router F R)
    (from_timestamp : ℤ → ℕ → Option T) where
  -- What is made of the router's answer: an arrival only from the last stage of the last first hop,
  -- and a panic only at such a stage, where an instant is out of chrono's range.
  pub data IsArrival (start : F) : Routed F → Option (Outcome F) → Type 0 where
    an_error : IsArrival start refused (some (fails routing))
    nothing : IsArrival start no_route (some (fails not_found))
    no_hop : IsArrival start (routed []) (some (fails no_stages))
    no_stage :
        (hops : List (List F))
        → EndsIn hops []
        → IsArrival start (routed hops) (some (fails no_stages))
    in_range :
        (hops : List (List F)) (stages : List F) (delay : F) (t u : T)
        → EndsIn hops stages
        → EndsIn stages delay
        → f64_to_utc {R = R} f router from_timestamp start ≡ some t
        → f64_to_utc {R = R} f router from_timestamp (f.add delay start) ≡ some u
        → IsArrival start (routed hops) (some (arrives (f.add delay start)))
    out_of_range :
        (hops : List (List F)) (stages : List F) (delay : F)
        → EndsIn hops stages
        → EndsIn stages delay
        → (f64_to_utc {R = R} f router from_timestamp start ≡ none)
          ⊎ (f64_to_utc {R = R} f router from_timestamp (f.add delay start) ≡ none)
        → IsArrival start (routed hops) none

  arrival_after-IsArrival :
      (start : F) (hops : List (List F)) (stages : List F) (delay : F)
      → EndsIn hops stages
      → EndsIn stages delay
      → IsArrival start (routed hops) (arrival_after f router from_timestamp start delay)
  unfolding arrival_after
  arrival_after-IsArrival start hops stages delay he se =
      elim (Option-cases (f64_to_utc f router from_timestamp start)) [
        | inl e ↦ rw (arrival_after, e) (out_of_range hops stages delay he se (inl e))
        | inr (t, e) ↦
            elim (Option-cases (f64_to_utc f router from_timestamp (f.add delay start))) [
              | inl d ↦ rw (arrival_after, e, d) (out_of_range hops stages delay he se (inr d))
              | inr (u, d) ↦ rw (arrival_after, e, d) (in_range hops stages delay t u he se e d)
            ]
      ]

  -- Once the last first hop is found.
  last_hop-IsArrival :
      (start : F) (hops : List (List F)) (stages : List F)
      → EndsIn hops stages
      → IsArrival start (routed hops) (elim (last stages) [
        | none ↦ some (fails no_stages)
        | some delay ↦ arrival_after f router from_timestamp start delay
      ])
  last_hop-IsArrival start hops [] he = no_stage hops he
  last_hop-IsArrival start hops (s ∷ ss) he =
      let (delay, is, se) = last-EndsIn s ss in
      rw is (arrival_after-IsArrival start hops (s ∷ ss) delay he se)

  pub arrival_of-IsArrival :
      (start : F) (found : Routed F)
      → IsArrival start found (arrival_of f router from_timestamp start found)
  unfolding arrival_of
  arrival_of-IsArrival start refused = an_error
  arrival_of-IsArrival start no_route = nothing
  arrival_of-IsArrival start (routed []) = no_hop
  arrival_of-IsArrival start (routed (h ∷ hs)) =
      let (stages, is, he) = last-EndsIn h hs in
      rw (arrival_of, is) (last_hop-IsArrival start (h ∷ hs) stages he)

  -- A prediction by a plan with the vertices `vs`, made by a configuration of the time `start`: which
  -- nodes the router is asked about, and what is made of its answer.
  pub data IsPredicted (vs : List Vertex) (start : F) (cfg : PredictionConfig F R)
      (source dest : String) (size now : F)
      : Option (PredictionConfig F R × Outcome F) → Type 0 where
    no_source :
        IsUnknown source vs
        → IsPredicted vs start cfg source dest size now (some (cfg, fails unknown_source))
    no_dest :
        (id : ℕ)
        → IsKnown source id vs
        → IsUnknown dest vs
        → IsPredicted vs start cfg source dest size now (some (cfg, fails unknown_dest))
    answered :
        (i j : ℕ) (o : Outcome F)
        → IsKnown source i vs
        → IsKnown dest j vs
        → cfg.cp_start_time ≡ start
        → IsArrival start (ask f router from_timestamp cfg i j size now).1 (some o)
        → IsPredicted vs start cfg source dest size now
            (some (record cfg { router = (ask f router from_timestamp cfg i j size now).0 }, o))
    panicked :
        (i j : ℕ)
        → IsKnown source i vs
        → IsKnown dest j vs
        → cfg.cp_start_time ≡ start
        → IsArrival start (ask f router from_timestamp cfg i j size now).1 none
        → IsPredicted vs start cfg source dest size now none

  -- A configuration of the plan `vs` after some predictions, each at its own reading of the clock, the
  -- first of which the one made that was new at the time `start`.
  pub data IsUsed (vs : List Vertex) (r : R) (start : F) : PredictionConfig F R → Type 0 where
    unused : IsUsed vs r start (new_prediction vs r start)
    used :
        (cfg cfg' : PredictionConfig F R) (source dest : String) (size now : F) (o : Outcome F)
        → IsUsed vs r start cfg
        → predict f router from_timestamp source dest size now cfg ≡ some (cfg', o)
        → IsUsed vs r start cfg'

  -- The configuration still has the nodes of the plan and the time of its making.
  abbrev IsOf : List Vertex → F → PredictionConfig F R → Type 0
  IsOf vs start cfg = (cfg.ion_to_node_id ≡ map_node_indices vs) × (cfg.cp_start_time ≡ start)

  module _ (vs : List Vertex) (start : F) (cfg : PredictionConfig F R) (source dest : String)
      (size now : F) where
    answered-IsPredicted :
        (i j : ℕ) (out : Option (Outcome F))
        → IsKnown source i vs
        → IsKnown dest j vs
        → cfg.cp_start_time ≡ start
        → IsArrival start (ask f router from_timestamp cfg i j size now).1 out
        → IsPredicted vs start cfg source dest size now (elim out [
          | none ↦ none
          | some o ↦
              some (record cfg { router = (ask f router from_timestamp cfg i j size now).0 }, o)
        ])
    answered-IsPredicted i j none hi hj hs a = panicked i j hi hj hs a
    answered-IsPredicted i j (some o) hi hj hs a = answered i j o hi hj hs a

    route_between-IsPredicted :
        (i j : ℕ)
        → IsKnown source i vs
        → IsKnown dest j vs
        → cfg.cp_start_time ≡ start
        → IsPredicted vs start cfg source dest size now
            (route_between f router from_timestamp cfg i j size now)
    unfolding route_between
    route_between-IsPredicted i j hi hj hs = answered-IsPredicted i j _ hi hj hs (
        subst
          (λ s. IsArrival s (ask f router from_timestamp cfg i j size now).1 (
            arrival_of f router from_timestamp cfg.cp_start_time
              (ask f router from_timestamp cfg i j size now).1))
          hs (arrival_of-IsArrival cfg.cp_start_time _))

    dest-IsPredicted :
        (i : ℕ) (j : Option ℕ)
        → IsOf vs start cfg
        → IsKnown source i vs
        → Says dest vs j
        → IsPredicted vs start cfg source dest size now (elim j [
          | none ↦ some (cfg, fails unknown_dest)
          | some j ↦ route_between f router from_timestamp cfg i j size now
        ])
    dest-IsPredicted i none of hi hj = no_dest i hi hj
    dest-IsPredicted i (some j) of hi hj = route_between-IsPredicted i j hi hj of.1

    source-IsPredicted :
        (i j : Option ℕ)
        → IsOf vs start cfg
        → Says source vs i
        → Says dest vs j
        → IsPredicted vs start cfg source dest size now (elim i [
          | none ↦ some (cfg, fails unknown_source)
          | some i ↦ elim j [
            | none ↦ some (cfg, fails unknown_dest)
            | some j ↦ route_between f router from_timestamp cfg i j size now
          ]
        ])
    source-IsPredicted none j of hi hj = no_source hi
    source-IsPredicted (some i) j of hi hj = dest-IsPredicted i j of hi hj

    get_node_id-Says : (name : String) → IsOf vs start cfg → Says name vs (get_node_id name cfg)
    unfolding get_node_id
    get_node_id-Says name of =
        subst (λ ps. Says name vs (last_value name ps)) (sym of.0) (last_value-Says name vs)

    predict-IsOf :
        IsOf vs start cfg
        → IsPredicted vs start cfg source dest size now
            (predict f router from_timestamp source dest size now cfg)
    unfolding predict
    predict-IsOf of =
        source-IsPredicted _ _ of (get_node_id-Says source of) (get_node_id-Says dest of)

    -- No prediction changes the nodes or the time of the configuration.
    abbrev AreOf : Option (PredictionConfig F R × Outcome F) → Type 0
    AreOf none = Unit
    AreOf (some (cfg', o)) = IsOf vs start cfg'

    IsPredicted-AreOf :
        (x : Option (PredictionConfig F R × Outcome F))
        → IsPredicted vs start cfg source dest size now x
        → IsOf vs start cfg
        → AreOf x
    IsPredicted-AreOf _ (no_source h) of = of
    IsPredicted-AreOf _ (no_dest i h k) of = of
    IsPredicted-AreOf _ (answered i j p h k b a) of = of
    IsPredicted-AreOf _ (panicked i j h k b a) of = tt

  IsUsed-IsOf :
      (vs : List Vertex) (r : R) (start : F) (cfg : PredictionConfig F R)
      → IsUsed vs r start cfg
      → IsOf vs start cfg
  unfolding new_prediction
  IsUsed-IsOf vs r start _ unused = (refl, refl)
  IsUsed-IsOf vs r start _ (used cfg cfg' source dest size now o before e) =
      let of = IsUsed-IsOf vs r start cfg before in
      subst (AreOf vs start cfg source dest size now) e (
        IsPredicted-AreOf vs start cfg source dest size now _
          (predict-IsOf vs start cfg source dest size now of) of)

  -- After any predictions of a configuration that was made at the time `start`, at whatever times they
  -- were asked for, a prediction depends on the plan, the router and the clock alone: it fails for a
  -- name that no vertex has; else the router is asked about the last vertices of those names, at the
  -- reading of the clock less `start`, and the prediction is the arrival of the last stage of the last
  -- first hop in UTC, an error if the router has no such stage, and a panic only where an instant of
  -- that stage is out of range.
  pub predict-IsPredicted :
      (vs : List Vertex) (r : R) (start : F) (cfg : PredictionConfig F R) (source dest : String)
      (size now : F)
      → IsUsed vs r start cfg
      → IsPredicted vs start cfg source dest size now
          (predict f router from_timestamp source dest size now cfg)
  predict-IsPredicted vs r start cfg source dest size now u =
      predict-IsOf vs start cfg source dest size now (IsUsed-IsOf vs r start cfg u)
