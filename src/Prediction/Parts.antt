-- ===== src/Prediction/Parts.antt =====
-- The node number of an EID, which src/utils/prediction_config.rs and
-- src/layout/rooms/message_prompt.rs each read for themselves.

use Prim.Native.String.{String, ◌∷◌, ◌++◌}
use dtchat.Prelude.{◌≡◌, refl, some, ℕ_eq, arith}
use dtchat.Text.Laws.{IsFree, before-append, strip_prefix-append}
use dtchat.Endpoint.{bp}
use dtchat.Prediction.{extract_ion_node}
use dtchat.Prompt.{extract_ion_id}

-- The two readings agree: the prompt looks nodes up under the names that the prediction would.
extract_ion_node-extract_ion_id : (a : String) → extract_ion_node (bp a) ≡ some (extract_ion_id a)
unfolding extract_ion_node extract_ion_id
extract_ion_node-extract_ion_id a = ground arith

-- The node of an `ipn` EID is read back from its text, whatever the service is.
extract_ion_id-ipn :
    (node service : String)
    → IsFree b'.' node
    → extract_ion_id ("ipn:" ++ (node ++ "." ∷ service)) ≡ node
unfolding extract_ion_id
extract_ion_id-ipn node service h =
    rw (strip_prefix-append "ipn:" (node ++ "." ∷ service), extract_ion_id)
      (rw (before-append "." node service h) refl)
