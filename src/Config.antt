-- ===== src/Config.antt =====
-- src/utils/config.rs: peers, rooms and a node's configuration. The reading of
-- files and the parser of YAML are parameters.
use Prim.Native.String.{String}
use mathlib.Core.Option
use dtchat.Prelude.{ℕ, zero, suc, ◌%◌, List, [], Option}
use dtchat.Endpoint.{Endpoint}

pub record Peer : Type 0 where
  pub uuid : String
  pub name : String
  pub endpoints : List Endpoint
  pub color : ℕ

-- `Peer::default`
pub default_peer : Peer
default_peer = record { uuid = "unknown"; name = "Unknown"; endpoints = []; color = 0 }

-- The `egui::Color32` values that the program names.
pub data Color32 : Type 0 where
  rgb : (r g b : ℕ) → Color32
  yellow white light_blue gray : Color32

abbrev color_of_id : ℕ → Color32
color_of_id zero = rgb 255 120 170
color_of_id (suc zero) = yellow
color_of_id (suc (suc zero)) = white
color_of_id (suc (suc (suc zero))) = light_blue
color_of_id _ = white

-- `Peer::get_color`
unfoldable pub get_color : Peer → Color32
get_color p = color_of_id (p.color % 4)

pub record Room : Type 0 where
  pub uuid : String
  pub name : String

pub record AppConfigManager : Type 0 where
  pub peer_list : List Peer
  pub local_peer : Peer
  pub room_list : List Room
  pub a_sabr : String

-- `load_yaml_from_file`, with `fs::read_to_string` and `serde_yaml::from_str`. `none` is a panic.
unfoldable pub load_yaml_from_file :
    (String → Option String) → (String → Option AppConfigManager) → String → Option AppConfigManager
load_yaml_from_file read_to_string from_str file_path =
    Option.bind (read_to_string file_path) from_str
