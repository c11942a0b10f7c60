-- ===== src/Model/History.antt =====
-- The chat model of src/app.rs as its users see it when they forget the order: what was said.
use Prim.Native.String.{String}
use mathlib.Core.List.Perm
use mathlib.Mathlib.Data.Multiset.Defs.{Multiset, of_list, coe-eq-coe}
use mathlib.Mathlib.Data.Multiset.ZeroCons.{cons}
use dtchat.Prelude.{
  ◌≡◌, refl, ap, ◌∙◌, inl, inr, Bool-cases, List, [], ◌∷◌, Option, map, String_eq, ◌==◌,
}
use dtchat.Time.{Instant}
use dtchat.Config.{Peer}
use dtchat.Message.{ChatMessage, mark_ack}
use dtchat.Slice.Sort.{sort_by-perm}
use dtchat.Model.{World, ack_first}
use dtchat.Model.Order.{strategy_cmp}
use dtchat.Model.Sorted.{inserted-perm}
use dtchat.Model.Runs.{Call, adds, sorts, acks, observes, notifies, step, run}

-- What a message says: all of it but its shipment status.
pub record Said : Type 0 where
  pub uuid : String
  pub response : Option String
  pub sender : Peer
  pub text : String

abbrev pub said : {T : Type 0} → ChatMessage T → Said
said m = record { uuid = m.uuid; response = m.response; sender = m.sender; text = m.text }

-- The abstract machine: a bag to which calls only ever add.
abbrev pub abstract_step : {T : Type 0} → Call T → Multiset Said → Multiset Said
abstract_step (adds m direction) bag = cons (said m) bag
abstract_step (sorts s) bag = bag
abstract_step (acks u a r t) bag = bag
abstract_step (observes o) bag = bag
abstract_step (notifies e) bag = bag

abbrev pub abstract_run : {T : Type 0} → List (Call T) → Multiset Said → Multiset Said
abstract_run [] bag = bag
abstract_run (c ∷ cs) bag = abstract_run cs (abstract_step c bag)

-- What the model holds.
abbrev pub history : {T P : Type 0} → World T P → Multiset Said
history w = of_list (map said w.model.messages)

module _ {T : Type 0} where
  said-ack_first :
      (u a : String) (t : T) (ms : List (ChatMessage T))
      → map said (ack_first u a t ms).0 ≡ map said ms
  unfolding ack_first mark_ack
  said-ack_first u a t [] = refl
  said-ack_first u a t (m ∷ ms) = elim (Bool-cases (m.uuid == u)) [
    | inl mine ↦ rw mine refl
    | inr other ↦ rw other (ap (◌∷◌ (said m)) (said-ack_first u a t ms))
  ]

module _ {T P : Type 0} ⦃i : Instant T⦄ where
  history-step : (c : Call T) (w : World T P) → history (step c w) ≡ abstract_step c (history w)
  unfolding step
  history-step (adds m direction) w =
      (coe-eq-coe {α = Said}).1
        (Perm.map said (inserted-perm w.model.sort_strategy m w.model.messages))
  history-step (sorts s) w =
      (coe-eq-coe {α = Said}).1 (Perm.map said (sort_by-perm (strategy_cmp s) w.model.messages))
  history-step (acks u a r t) w =
      let same = ap (of_list {α = Said}) (said-ack_first u a t w.model.messages) in
      elim (Bool-cases (ack_first u a t w.model.messages).1) [
        | inl done ↦ rw done same
        | inr lost ↦ rw lost same
      ]
  history-step (observes o) w = refl
  history-step (notifies e) w = refl

  -- The chat model refines the bag of what was said: after any calls it holds, in some order, exactly
  -- what it held and what was added, each message with its sender, text and reply unchanged and as
  -- often as it was added, whatever was sorted, acknowledged and announced meanwhile.
  pub history-run :
      (cs : List (Call T)) (w : World T P) → history (run cs w) ≡ abstract_run cs (history w)
  unfolding run
  history-run [] w = refl
  history-run (c ∷ cs) w = history-run cs (step c w) ∙ ap (abstract_run cs) (history-step c w)
