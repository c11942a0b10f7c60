-- ===== src/Network/Grows.antt =====
-- What the nodes of the network have (src/app.rs).
use Prim.Native.String.{String}
use mathlib.Core.List.{Mem, mem-append_right}
use mathlib.Core.List.Perm
use dtchat.Prelude.{
  ℕ, zero, suc, ◌≡◌, List, [], ◌∷◌, some, get_elem?, ℕ_eq, All, All-imp, All-append, arith,
}
use dtchat.Time.{Instant}
use dtchat.Config.{Peer}
use dtchat.Message.{ChatMessage, Delivery, MessageStatus, sent, received}
use dtchat.Model.{World}
use dtchat.Model.Runs.{Call, run, uuids, added, run-perm}
use dtchat.Model.Justified.{Justified, StatusJustified, DeliveriesJustified, CallJustified}
use dtchat.Controller.{SocketController, Models}
use dtchat.Controller.Steps.{repeat}
use dtchat.Prompt.Copies.{Addressed, nobody, also}

pub All-get_elem? {ℓ κ} :
    {A : Type ℓ} (Q : A → Type κ) (xs : List A) (k : ℕ) (x : A)
    → All Q xs
    → get_elem? xs k ≡ some x
    → Q x
All-get_elem? Q [] k x a e = absurd (ground arith)
All-get_elem? Q (y ∷ ys) zero x a e = let same : y ≡ x = ground arith in rw (← same) a.0
All-get_elem? Q (y ∷ ys) (suc k) x a e = All-get_elem? Q ys k x a.1 e

module _ {T P : Type 0} (controllers : ℕ → SocketController) where
  -- A node with the uuid has a message with the uuid.
  pub record Has (models : Models T P) (acker message : String) : Type 0 where
    pub node : ℕ
    pub me : Peer
    pub local : (controllers node).local_peer ≡ some me
    pub named : me.uuid ≡ acker
    pub member : Mem message (uuids (models node).model.messages)

  -- Every list holds at least what it held.
  abbrev pub Grows : Models T P → Models T P → Type 0
  Grows models models' =
      (j : ℕ) (u : String)
      → Mem u (uuids (models j).model.messages)
      → Mem u (uuids (models' j).model.messages)

  pub Has-Grows :
      (models models' : Models T P) (a u : String)
      → Grows models models'
      → Has models a u
      → Has models' a u
  Has-Grows models models' a u g h = record {
    node = h.node;
    me = h.me;
    local = h.local;
    named = h.named;
    member = g h.node u h.member;
  }

module _ {T P : Type 0} ⦃i : Instant T⦄ where
  pub mem-run :
      (cs : List (Call T)) (w : World T P) (u : String)
      → Mem u (uuids w.model.messages)
      → Mem u (uuids (run cs w).model.messages)
  mem-run cs w u h = (Perm.mem_iff (run-perm cs w)).1 (mem-append_right (added cs) h)

module _ {T : Type 0} (J K : String → String → T → Type 0)
    (f : (u a : String) (t : T) → J u a t → K u a t) where
  StatusJustified-imp :
      (u : String) (s : MessageStatus T) → StatusJustified J u s → StatusJustified K u s
  StatusJustified-imp u (sent tx ds) h = All-imp (λ d g t e. f u d.peer_uuid t (g t e)) ds h
  StatusJustified-imp u (received tx rx) h = tt

  -- A weaker reason is still a reason.
  pub Justified-imp : (ms : List (ChatMessage T)) → All (Justified J) ms → All (Justified K) ms
  Justified-imp ms h =
      All-imp {P = Justified J} {Q = Justified K}
        (λ m. StatusJustified-imp m.uuid m.shipment_status) ms h

module _ {T : Type 0} (J : String → String → T → Type 0) where
  pub Addressed-Justified :
      (u : String) {ps : List Peer} {ds : List (Delivery T)}
      → Addressed ps ds
      → DeliveriesJustified J u ds
  Addressed-Justified u nobody = tt
  Addressed-Justified u (also p ps d ds _ _ n a) =
      ((λ t e. absurd (ground (arith, n, e))), Addressed-Justified u a)

  pub repeat-Justified :
      (n : ℕ) (cs : List (Call T)) → All (CallJustified J) cs → All (CallJustified J) (repeat n cs)
  repeat-Justified zero cs h = tt
  repeat-Justified (suc n) cs h = All-append _ cs (repeat n cs) h (repeat-Justified n cs h)
