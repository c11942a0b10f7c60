-- ===== src/Prediction.antt =====
-- src/utils/prediction_config.rs: when a message will arrive, by the contact plan. The router of the
-- crate a-sabr, floating-point numbers and chrono's instants are parameters. `none` is a panic.
pub mod Parts
pub mod Names
pub mod Outcomes
pub mod Prompted
use mathlib.Core.Option
use Prim.Native.Char.{Char, code}
use Prim.Native.String.{String, [], ◌∷◌}
use dtchat.Prelude.{
  ℕ, ◌+◌, Bool, true, false, ◌&&◌, List, [], ◌∷◌, Option, none, some, String_eq, ◌==◌, leb,
  if◌then◌else◌, ℤ,
}
use dtchat.Text.{strip_prefix, before}
use dtchat.Endpoint.{Endpoint, udp, tcp, bp}
use dtchat.Prompt.{Predict}

-- What the program uses of `f64`: differences, sums, whole numbers, `x.trunc() as i64`, and
-- `(x.fract() * 1_000_000_000.0).round() as u32`.
pub record Float (F : Type 0) : Type 0 where
  pub sub : F → F → F
  pub add : F → F → F
  pub of_nat : ℕ → F
  pub whole_seconds : F → ℤ
  pub nanoseconds : F → ℕ

-- A vertex of a parsed contact plan.
pub data Vertex : Type 0 where
  i_node e_node : (name : String) → (id : ℕ) → Vertex
  v_node : Vertex

pub record Bundle (F : Type 0) : Type 0 where
  pub source : ℕ
  pub destinations : List ℕ
  pub priority : ℕ
  pub size : F

-- What `route` returns: `Err`, `Ok(None)`, or for each first hop the arrival times of the stages.
pub data Routed (F : Type 0) : Type 0 where
  refused no_route : Routed F
  routed : (first_hops : List (List F)) → Routed F

-- The crate's router, with its state `R`. Bundles do not expire, and no node is excluded.
pub record Router (F R : Type 0) : Type 0 where
  pub route : R → ℕ → Bundle F → F → R × Routed F

-- The crate's parser of the file of a contact plan, and its maker of routers. `none` is an error.
pub record Plans (L R : Type 0) : Type 0 where
  pub parse : String → Option L
  pub vertices : L → List Vertex
  pub build_generic_router : L → Option R

-- `PredictionConfig`. The map from names to nodes is a list of pairs, the last of which counts.
pub record PredictionConfig (F R : Type 0) : Type 0 where
  pub ion_to_node_id : List (String × ℕ)
  pub router : R
  pub cp_start_time : F

pub data PredictError : Type 0 where
  unknown_source unknown_dest no_stages not_found routing : PredictError

pub data Outcome (F : Type 0) : Type 0 where
  arrives : F → Outcome F
  fails : PredictError → Outcome F

is_digit : Char → Bool
is_digit c = leb b'0' (code c) && leb (code c) b'9'

all_digits : String → Bool
unfolding is_digit
all_digits [] = true
all_digits (c ∷ s) = is_digit c && all_digits s

-- `extract_ion_node_from_endpoint`
pub extract_ion_node : Endpoint → Option String
unfolding strip_prefix before all_digits
extract_ion_node (bp a) =
    let whole = if all_digits a then some a else some a in
    elim (strip_prefix a "ipn:") [
      | none ↦ whole
      | some after_ipn ↦ elim (before b'.' after_ipn) [ none ↦ whole | some id ↦ some id ]
    ]
extract_ion_node (udp a) = none
extract_ion_node (tcp a) = none

-- `map_node_indices`, of the vertices of the plan.
pub map_node_indices : List Vertex → List (String × ℕ)
map_node_indices [] = []
map_node_indices (i_node name id ∷ vs) = (name, id) ∷ map_node_indices vs
map_node_indices (e_node name id ∷ vs) = (name, id) ∷ map_node_indices vs
map_node_indices (v_node ∷ vs) = map_node_indices vs

-- A key of a `HashMap` that was collected from pairs: the last pair counts.
pub last_value : String → List (String × ℕ) → Option ℕ
last_value k [] = none
last_value k ((name, id) ∷ ps) = elim (last_value k ps) [
  | some later ↦ some later
  | none ↦ if name == k then some id else none
]

-- `iter().last()`
abbrev pub last {ℓ} : {A : Type ℓ} → List A → Option A
last [] = none
last (x ∷ []) = some x
last (x ∷ y ∷ ys) = last (y ∷ ys)

module _ {F R : Type 0} where
  get_node_id : String → PredictionConfig F R → Option ℕ
  unfolding last_value
  get_node_id ion_id cfg = last_value ion_id cfg.ion_to_node_id

  -- What `PredictionConfig::new` returns once the plan is parsed and the router is built; `now` is what
  -- `Utc::now()` reads then, in whole seconds.
  unfoldable pub new_prediction : List Vertex → R → F → PredictionConfig F R
  unfolding map_node_indices
  new_prediction vertices r now = record {
    ion_to_node_id = map_node_indices vertices;
    router = r;
    cp_start_time = now;
  }

  -- `PredictionConfig::new`, which parses the plan twice. `none` is an error.
  unfoldable pub load_prediction :
      {L : Type 0} → Plans L R → F → String → Option (PredictionConfig F R)
  unfolding new_prediction
  load_prediction plans now contact_plan = Option.bind (plans.parse contact_plan) λ plan.
      Option.bind (plans.parse contact_plan) λ again.
        Option.map (λ r. new_prediction (plans.vertices again) r now)
          (plans.build_generic_router plan)

  module _ {T : Type 0} (f : Float F) (router : Router F R)
      (from_timestamp : ℤ → ℕ → Option T) where
    -- `f64_to_utc`, which panics at a time that chrono has no instant for.
    pub f64_to_utc : F → Option T
    f64_to_utc timestamp = from_timestamp (f.whole_seconds timestamp) (f.nanoseconds timestamp)

    -- The arrival at the end of a route, after both instants were printed.
    arrival_after : F → F → Option (Outcome F)
    unfolding f64_to_utc
    arrival_after start delay = elim (f64_to_utc start) [
      | none ↦ none
      | some t ↦ elim (f64_to_utc (f.add delay start)) [
        | none ↦ none
        | some u ↦ some (arrives (f.add delay start))
      ]
    ]

    -- What is read off a route: the arrival of the last stage of the last first hop, in UTC.
    pub arrival_of : F → Routed F → Option (Outcome F)
    unfolding arrival_after
    arrival_of start refused = some (fails routing)
    arrival_of start no_route = some (fails not_found)
    arrival_of start (routed hops) = elim (last hops) [
      | none ↦ some (fails no_stages)
      | some stages ↦ elim (last stages) [
        | none ↦ some (fails no_stages)
        | some delay ↦ arrival_after start delay
      ]
    ]

    -- What the router is asked between two nodes when the clock reads `now`, and its answer.
    abbrev pub ask : PredictionConfig F R → ℕ → ℕ → F → F → R × Routed F
    ask cfg source dest size now =
        let bundle : Bundle F = record {
          source = source;
          destinations = dest ∷ [];
          priority = 0;
          size = size;
        } in
        router.route cfg.router source bundle (f.sub now cfg.cp_start_time)

    -- The call of the router, between two known nodes.
    pub route_between :
        PredictionConfig F R → ℕ → ℕ → F → F → Option (PredictionConfig F R × Outcome F)
    unfolding arrival_of
    route_between cfg source dest size now =
        let (r, found) = ask cfg source dest size now in
        elim (arrival_of cfg.cp_start_time found) [
          | none ↦ none
          | some o ↦ some (record cfg { router = r }, o)
        ]

    -- `predict`, with the state of the router afterwards; `now` is what `Utc::now()` reads at the call.
    unfoldable pub predict :
        String → String → F → F → PredictionConfig F R → Option (PredictionConfig F R × Outcome F)
    unfolding get_node_id route_between
    predict source_ion dest_ion size now cfg = elim (get_node_id source_ion cfg) [
      | none ↦ some (cfg, fails unknown_source)
      | some source ↦ elim (get_node_id dest_ion cfg) [
        | none ↦ some (cfg, fails unknown_dest)
        | some dest ↦ route_between cfg source dest size now
      ]
    ]

    -- What `manage_send` makes of a prediction: an instant if an arrival is predicted.
    pub instant_of : Outcome F → Option (Option T)
    unfolding f64_to_utc
    instant_of (fails e) = some none
    instant_of (arrives arrival) = elim (f64_to_utc arrival) [
      | none ↦ none
      | some t ↦ some (some t)
    ]

    -- A prediction as `manage_send` asks for it, of the size of the text.
    pub predicted_utc :
        PredictionConfig F R → String → String → ℕ → F → Option (PredictionConfig F R × Option T)
    unfolding predict instant_of
    predicted_utc cfg source dest size now = elim (predict source dest (f.of_nat size) now cfg) [
      | none ↦ none
      | some r ↦ elim (instant_of r.1) [ none ↦ none | some t ↦ some (r.0, t) ]
    ]
