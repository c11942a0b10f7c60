-- ===== src/Endpoint.antt =====
-- `Endpoint` of src/utils/socket.rs: how a node is reached.
use Prim.Native.String.{String}
use package.text.Mathlib.TextEquality.{eq_iff}
use dtchat.Prelude.{◌≡◌, ◌↔◌, Bool, true, false, not, ◌&&◌, ◌||◌, PartialEq, String_eq, ◌==◌, arith}
use dtchat.Text.{starts_with, contains, is_empty}

pub data Endpoint : Type 0 where
  udp tcp bp : String → Endpoint

-- The derived `PartialEq`.
abbrev pub same_endpoint : Endpoint → Endpoint → Bool
same_endpoint (udp a) (udp b) = a == b
same_endpoint (tcp a) (tcp b) = a == b
same_endpoint (bp a) (bp b) = a == b
same_endpoint _ _ = false

pub same_endpoint_iff : (e e' : Endpoint) → (same_endpoint e e' ≡ true) ↔ (e ≡ e')
same_endpoint_iff (udp a) (udp b) = ground (arith, eq_iff a b)
same_endpoint_iff (tcp a) (tcp b) = ground (arith, eq_iff a b)
same_endpoint_iff (bp a) (bp b) = ground (arith, eq_iff a b)
same_endpoint_iff (udp a) (tcp b) = ground arith
same_endpoint_iff (udp a) (bp b) = ground arith
same_endpoint_iff (tcp a) (udp b) = ground arith
same_endpoint_iff (tcp a) (bp b) = ground arith
same_endpoint_iff (bp a) (udp b) = ground arith
same_endpoint_iff (bp a) (tcp b) = ground arith

instance abbrev pub Endpoint_eq : PartialEq Endpoint
Endpoint_eq = record { eq = same_endpoint; eq_iff = same_endpoint_iff }

-- `Display for Endpoint`
pub display : Endpoint → String
display (udp s) = s
display (tcp s) = s
display (bp s) = s

-- `is_valid`. `is_addr` is the standard library's test `parse::<SocketAddr>().is_ok()`, of which
-- nothing is assumed.
unfoldable pub is_valid : (String → Bool) → Endpoint → Bool
unfolding starts_with contains is_empty
is_valid is_addr (udp addr) = is_addr addr
is_valid is_addr (tcp addr) = is_addr addr
is_valid is_addr (bp addr) =
    not (contains addr "PLACEHOLDER")
    && not (is_empty addr)
    && (starts_with addr "ipn:" || starts_with addr "dtn:")
