-- ===== src/Nat/Stun.antt =====
-- daemon/src/nat/stun.rs: the binding request, and the search of the response for the address. An
-- index past the end of the response panics. What the socket does and the random transaction id are
-- arguments.
pub mod Offsets
pub mod Parse
pub mod Ends
use decentis.Prelude.{
  ℕ, zero, suc, ◌+◌, ◌-◌, ◌%◌, ◌^◌, bit_xor, Bool, true, false, List, [], ◌∷◌, ◌++◌, Option, some,
  none, length, take, get_elem?, ltb, leb, ◌==◌, not, if◌then◌else◌, u16_to_be_bytes,
  u32_to_be_bytes, u16_from_be_bytes, u32_from_be_bytes,
}

abbrev pub stun_magic_cookie : ℕ
stun_magic_cookie = 0x2112A442

-- `(STUN_MAGIC_COOKIE >> 16) as u16`
abbrev pub cookie_high : ℕ
cookie_high = 0x2112

-- The request of twenty bytes.
unfoldable pub binding_request : List ℕ → List ℕ
binding_request transaction_id =
    u16_to_be_bytes 0x0001
    ++ (u16_to_be_bytes 0x0000 ++ (u32_to_be_bytes stun_magic_cookie ++ transaction_id))

-- The address: port and the 32 bits of the IPv4 address.
pub record SocketAddr : Type 0 where
  pub port : ℕ
  pub ip : ℕ

pub data StunError : Type 0 where
  bind_failed connect_failed send_failed recv_failed timed_out too_short not_found : StunError
  unexpected_type : ℕ → StunError

pub data StunResult (A : Type 0) : Type 0 where
  ok : A → StunResult A
  err : StunError → StunResult A
  panicked : StunResult A

infixl 5 ◌>>=◌
abbrev pub ◌>>=◌ : {A B : Type 0} → StunResult A → (A → StunResult B) → StunResult B
ok a >>= k = k a
err e >>= k = err e
panicked >>= k = panicked

-- `response[i]`
unfoldable pub index : List ℕ → ℕ → StunResult ℕ
index response i = elim (get_elem? response i) [ none ↦ panicked | some b ↦ ok b ]

unfoldable pub u16_at : List ℕ → ℕ → StunResult ℕ
unfolding index
u16_at response i = do a ← index response i; b ← index response (i + 1); ok (u16_from_be_bytes a b)

unfoldable pub u32_at : List ℕ → ℕ → StunResult ℕ
unfolding index
u32_at response i = do
  a ← index response i
  b ← index response (i + 1)
  c ← index response (i + 2)
  d ← index response (i + 3)
  ok (u32_from_be_bytes a b c d)

-- Port and address of the IPv4 family, with the mask taken off.
unfoldable pub ipv4_address : List ℕ → ℕ → StunResult (Option SocketAddr)
ipv4_address response offset = do
  port_xor ← u16_at response (offset + 2)
  ip_xor ← u32_at response (offset + 4)
  ok (some (record { port = bit_xor port_xor cookie_high; ip = bit_xor ip_xor stun_magic_cookie }))

-- The value of an address attribute at `offset`: `none` if it is not of the IPv4 family.
unfoldable pub mapped_address : List ℕ → ℕ → StunResult (Option SocketAddr)
unfolding ipv4_address
mapped_address response offset = index response (offset + 1) >>= λ family.
    if family == 0x01 then ipv4_address response offset else ok none

-- An attribute's value is padded to a multiple of four bytes.
abbrev pub padding : ℕ → ℕ
padding attr_len = (4 - attr_len % 4) % 4

-- One round of the loop over the attributes: what it returns, or the offset of the next round.
pub data Round : Type 0 where
  stop : StunResult SocketAddr → Round
  next : ℕ → Round

abbrev pub after_value : StunResult (Option SocketAddr) → ℕ → Round
after_value panicked following = stop panicked
after_value (err e) following = stop (err e)
after_value (ok (some address)) following = stop (ok address)
after_value (ok none) following = next following

unfoldable pub attribute_round : List ℕ → ℕ → Round
attribute_round response offset =
    if leb (offset + 4) (length response)
    then (elim (u16_at response offset) [
      | panicked ↦ stop panicked
      | err e ↦ stop (err e)
      | ok attr_type ↦ elim (u16_at response (offset + 2)) [
        | panicked ↦ stop panicked
        | err e ↦ stop (err e)
        | ok attr_len ↦
            after_value
              (if attr_type == 0x0020 then mapped_address response (offset + 4) else ok none)
              (offset + 4 + attr_len + padding attr_len)
      ]
    ])
    else stop (err not_found)

-- The loop; `none` means that the fuel ran out.
unfoldable pub find_address : ℕ → List ℕ → ℕ → Option (StunResult SocketAddr)
find_address zero response offset = none
find_address (suc fuel) response offset = elim (attribute_round response offset) [
  | stop result ↦ some result
  | next offset' ↦ find_address fuel response offset'
]

-- The answer of the server, or `none` for the time-out.
unfoldable pub parse_response : ℕ → Option (List ℕ) → Option (StunResult SocketAddr)
parse_response fuel none = some (err timed_out)
parse_response fuel (some response) =
    if ltb (length response) 20 then some (err too_short) else elim (u16_at response 0) [
      | panicked ↦ some panicked
      | err e ↦ some (err e)
      | ok msg_type ↦
          let searched = find_address fuel response 20 in
          if msg_type == 0x0101 then searched else some (err (unexpected_type msg_type))
    ]

-- What `recv` gives within the time limit.
pub data Received : Type 0 where
  datagram : List ℕ → Received
  late broken : Received

pub record StunAnswers : Type 0 where
  pub bound : Bool
  pub connected : Bool
  pub sends : Bool
  pub transaction_id : List ℕ
  pub arrives : Received

-- A datagram is cut to the 1024 bytes of the buffer, so that 256 rounds are enough.
unfoldable pub await_response : Received → Option (StunResult SocketAddr)
await_response (datagram bytes) = parse_response 256 (some (take 1024 bytes))
await_response late = parse_response 256 none
await_response broken = some (err recv_failed)

-- The result, and the packets that go out to the server.
unfoldable pub discover_public_ip : StunAnswers → Option (StunResult SocketAddr) × List (List ℕ)
discover_public_ip a =
    if a.bound
    then (if a.connected
        then (if a.sends
            then (await_response a.arrives, binding_request a.transaction_id ∷ [])
            else (some (err send_failed), []))
        else (some (err connect_failed), []))
    else (some (err bind_failed), [])
