-- ===== src/Socket.antt =====
-- `GenericSocket` and the BP socket addresses of src/utils/socket.rs. The operating system's sockets
-- are parameters.
pub mod Made
pub mod Address
pub mod Attempts
use Prim.Native.Char.{Char, code}
use Prim.Native.String
use Prim.Native.String.{String, [], ◌∷◌}
use dtchat.Prelude.{
  ℕ, ◌+◌, ◌-◌, ◌*◌, ◌^◌, Bool, true, false, ◌&&◌, List, [], ◌∷◌, Option, none, some, ℕ_eq, ◌==◌,
  leb, ltb, ◌≡◌, refl, if◌then◌else◌,
}
use dtchat.Text.{strip_prefix, starts_with, is_empty}
use dtchat.Endpoint.{Endpoint, udp, tcp, bp}

-- The error kinds of `io::Error` that the code makes, and any other error of the system.
pub data Error : Type 0 where
  invalid_input unsupported other : Error

pub data Result {ℓ} (A : Type ℓ) : Type ℓ where
  ok : A → Result A
  err : Error → Result A

infixl 5 ◌>>=◌
abbrev pub ◌>>=◌ {ℓ κ} : {A : Type ℓ} {B : Type κ} → Result A → (A → Result B) → Result B
ok a >>= k = k a
err e >>= k = err e

abbrev pub ok_or {ℓ} : {A : Type ℓ} → Option A → Error → Result A
ok_or none e = err e
ok_or (some a) e = ok a

abbrev pub u32_max : ℕ
u32_max = 2 ^ 32 - 1

is_digit : Char → Bool
is_digit c = leb b'0' (code c) && leb (code c) b'9'

-- The digits of a `u32` after those that make `n`; too large a number is an error.
digits_u32 : ℕ → String → Option ℕ
digits_u32 n [] = some n
digits_u32 n (c ∷ s) =
    let n' = n * 10 + (code c - b'0') in
    let rest = digits_u32 n' s in
    if is_digit c then (if ltb u32_max n' then none else rest) else none

-- `s.parse::<u32>()`: at least one digit, after an optional `+`.
pub parse_u32 : String → Option ℕ
unfolding is_digit digits_u32
parse_u32 [] = none
parse_u32 (c ∷ []) = digits_u32 0 (c ∷ [])
parse_u32 (c ∷ d ∷ s) = if code c == b'+' then digits_u32 0 (d ∷ s) else digits_u32 0 (c ∷ d ∷ s)

-- `s.split(d)`: the parts between the separators, with `cur` read of the current one.
split_from : ℕ → String → String → List String
split_from d cur [] = cur ∷ []
split_from d cur (c ∷ s) =
    let closed = split_from d "" s in
    let longer = split_from d (String.◌++◌ cur (c ∷ [])) s in
    if code c == d then cur ∷ closed else longer

pub split : ℕ → String → List String
unfolding split_from
split d s = split_from d "" s

abbrev pub af_bp : ℕ
af_bp = 28

abbrev pub bp_scheme_ipn : ℕ
bp_scheme_ipn = 1

-- `SockAddrBp` with the `ipn` member of its union.
pub record SockAddrBp : Type 0 where
  pub bp_family : ℕ
  pub bp_scheme : ℕ
  pub node_id : ℕ
  pub service_id : ℕ

abbrev pub ipn_address : ℕ → ℕ → SockAddrBp
ipn_address node_id service_id = record {
  bp_family = af_bp;
  bp_scheme = bp_scheme_ipn;
  node_id = node_id;
  service_id = service_id;
}

-- The two parts of an `ipn` EID.
pub ipn_of_parts : List String → Result SockAddrBp
unfolding parse_u32
ipn_of_parts (node ∷ service ∷ []) = do
  node_id ← ok_or (parse_u32 node) invalid_input
  service_id ← ok_or (parse_u32 service) invalid_input
  ok (ipn_address node_id service_id)
ipn_of_parts _ = err invalid_input

-- `create_bp_sockaddr_with_string`
unfoldable pub create_bp_sockaddr : String → Result SockAddrBp
unfolding ipn_of_parts split strip_prefix starts_with is_empty
create_bp_sockaddr eid =
    if is_empty eid then err invalid_input else elim (strip_prefix eid "ipn:") [
      | some body ↦ ipn_of_parts (split b'.' body)
      | none ↦ if starts_with eid "dtn:" then err unsupported else err invalid_input
    ]

pub data SockAddr : Type 0 where
  ip : String → SockAddr
  bp_addr : SockAddrBp → SockAddr

pub record GenericSocket : Type 0 where
  pub eidpoint : Endpoint
  pub sockaddr : SockAddr
  pub listening : Bool

-- The operating system, and the standard library's parser of socket addresses. `opens` says whether
-- `Socket::new` succeeds.
pub record Net : Type 0 where
  pub is_addr : String → Bool
  pub opens : Endpoint → Bool

address_of : Net → Endpoint → Result SockAddr
unfolding create_bp_sockaddr
address_of net (udp addr) = if net.is_addr addr then ok (ip addr) else err other
address_of net (tcp addr) = if net.is_addr addr then ok (ip addr) else err other
address_of net (bp addr) = do address ← create_bp_sockaddr addr; ok (bp_addr address)

-- What is made of the system's answer.
abbrev opened : Bool → Endpoint → SockAddr → Result GenericSocket
opened works eid address =
    if works
    then ok (record { eidpoint = eid; sockaddr = address; listening = false })
    else err other

-- `GenericSocket::new`
unfoldable pub new_socket : Net → Endpoint → Result GenericSocket
unfolding address_of
new_socket net eid = do address ← address_of net eid; opened (net.opens eid) eid address

-- The calls of the system that `send` makes, in order.
pub data SysCall : Type 0 where
  send_to : SockAddr → List ℕ → SysCall
  connect : SockAddr → SysCall
  write_all : List ℕ → SysCall
  flush shutdown : SysCall

pub send_calls : GenericSocket → List ℕ → List SysCall
send_calls s bytes = elim s.eidpoint [
  | bp addr ↦ send_to s.sockaddr bytes ∷ []
  | udp addr ↦ send_to s.sockaddr bytes ∷ []
  | tcp addr ↦ connect s.sockaddr ∷ write_all bytes ∷ flush ∷ shutdown ∷ []
]

-- Each call is made if those before it succeed: what was called, and whether all went well.
unfoldable pub attempt : (SysCall → Bool) → List SysCall → List SysCall × Bool
attempt works [] = ([], true)
attempt works (c ∷ cs) =
    let rest = attempt works cs in if works c then (c ∷ rest.0, rest.1) else (c ∷ [], false)

-- `send`
unfoldable pub send : (SysCall → Bool) → GenericSocket → List ℕ → List SysCall × Bool
unfolding send_calls attempt
send works s bytes = attempt works (send_calls s bytes)

create_bp_sockaddr-test : create_bp_sockaddr "ipn:10.2" ≡ ok (ipn_address 10 2)
unfolding create_bp_sockaddr
create_bp_sockaddr-test = refl

create_bp_sockaddr-test_dtn : create_bp_sockaddr "dtn://earth/chat" ≡ err unsupported
unfolding create_bp_sockaddr
create_bp_sockaddr-test_dtn = refl
