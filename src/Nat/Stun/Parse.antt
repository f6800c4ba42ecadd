-- ===== src/Nat/Stun/Parse.antt =====
-- The parser finds the address that a server put into its answer, behind any other attributes.
use decentis.Prelude.{
  ℕ, zero, suc, ◌+◌, ◌^◌, ◌≤◌, ◌<◌, bit_xor, List, [], ◌∷◌, ◌++◌, some, length, drop, replicate,
  ◌≡◌, ◌≢◌, refl, sym, ap, ◌∙◌, arith, u16_to_be_bytes, u32_to_be_bytes, length-append,
  length-replicate, append_assoc, drop-drop, drop-length_append, bit_xor-lt, bit_xor_undo,
}
use decentis.Nat.Stun.{
  stun_magic_cookie, cookie_high, SocketAddr, ok, index, u16_at, u32_at, ipv4_address,
  mapped_address, padding, attribute_round, find_address, parse_response,
}
use decentis.Nat.Stun.Offsets.{index-drop, u16_at-drop, u32_at-drop, in_range}

-- An attribute that is not an address, with its padding.
pub record Attribute : Type 0 where
  pub kind : ℕ
  pub value : List ℕ

abbrev pub attribute_bytes : Attribute → List ℕ
attribute_bytes a =
    u16_to_be_bytes a.kind
    ++ (u16_to_be_bytes (length a.value) ++ (a.value ++ replicate (padding (length a.value)) 0))

abbrev pub IsOther : Attribute → Type 0
IsOther a = (a.kind < 2 ^ 16) × (a.kind ≢ 0x0020) × (length a.value < 2 ^ 16)

abbrev pub AllOther : List Attribute → Type 0
AllOther [] = Unit {0}
AllOther (a ∷ rest) = IsOther a × AllOther rest

abbrev pub attributes_bytes : List Attribute → List ℕ
attributes_bytes [] = []
attributes_bytes (a ∷ rest) = attribute_bytes a ++ attributes_bytes rest

-- The XOR-MAPPED-ADDRESS attribute of RFC 5389 for an IPv4 address.
abbrev pub address_bytes : SocketAddr → List ℕ
address_bytes s =
    0
    ∷ 0x20
    ∷ 0
    ∷ 8
    ∷ 0
    ∷ 1
    ∷ (u16_to_be_bytes (bit_xor s.port cookie_high)
        ++ u32_to_be_bytes (bit_xor s.ip stun_magic_cookie))

-- Another attribute is passed over, with its padding.
pub find_address-skip :
    (fuel : ℕ) (response : List ℕ) (offset : ℕ) (a : Attribute) (rest : List ℕ)
    → IsOther a
    → drop offset response ≡ attribute_bytes a ++ rest
    → (next : ℕ) × (find_address (suc fuel) response offset ≡ find_address fuel response next)
      × (drop next response ≡ rest)
unfolding find_address attribute_round
find_address-skip fuel response offset a rest other at =
    (next, ground (arith, fits, kind, size), after)
  where
    n : ℕ
    n = length a.value

    next : ℕ
    next = offset + 4 + n + padding n

    fits : offset + 4 ≤ length response
    fits = in_range response offset (attribute_bytes a ++ rest) at 4 (omega arith) (omega arith)

    kind : u16_at response offset ≡ ok a.kind
    kind =
        u16_at-drop response offset (attribute_bytes a ++ rest) at offset 0 (omega arith)
        ∙ unfold u16_at index in ap ok (omega arith)

    size : u16_at response (offset + 2) ≡ ok n
    size =
        u16_at-drop response offset (attribute_bytes a ++ rest) at (offset + 2) 2 refl
        ∙ unfold u16_at index in ap ok (omega arith)

    sized : 4 + n + padding n ≡ length (attribute_bytes a)
    sized = omega (
      arith,
      length-append a.value (replicate (padding n) 0),
      length-replicate {A = ℕ} (padding n) 0,
    )

    after : drop next response ≡ rest
    after =
        sym (drop-drop offset (4 + n + padding n) next response (omega arith))
        ∙ ap (λ xs. drop (4 + n + padding n) xs) at
        ∙ drop-length_append (4 + n + padding n) (attribute_bytes a) rest sized

abbrev pub IsAddress : SocketAddr → Type 0
IsAddress s = (s.port < 2 ^ 16) × (s.ip < 2 ^ 32)

-- The address attribute gives its address.
find_address-found :
    (fuel : ℕ) (response : List ℕ) (offset : ℕ) (s : SocketAddr) (rest : List ℕ)
    → IsAddress s
    → drop offset response ≡ address_bytes s ++ rest
    → find_address (suc fuel) response offset ≡ some (ok s)
unfolding find_address attribute_round mapped_address
find_address-found fuel response offset s rest small at =
    ground (arith, fits, kind, size, family, address)
  where
    fits : offset + 4 ≤ length response
    fits = in_range response offset (address_bytes s ++ rest) at 4 (omega arith) (omega arith)

    kind : u16_at response offset ≡ ok 0x0020
    kind =
        u16_at-drop response offset (address_bytes s ++ rest) at offset 0 (omega arith)
        ∙ unfold u16_at index in refl

    size : u16_at response (offset + 2) ≡ ok 8
    size =
        u16_at-drop response offset (address_bytes s ++ rest) at (offset + 2) 2 refl
        ∙ unfold u16_at index in refl

    family : index response (offset + 4 + 1) ≡ ok 1
    family =
        index-drop response offset (address_bytes s ++ rest) at (offset + 4 + 1) 5 (omega arith)
        ∙ unfold index in refl

    port_read : u16_at response (offset + 4 + 2) ≡ ok (bit_xor s.port cookie_high)
    port_read =
        u16_at-drop response offset (address_bytes s ++ rest) at (offset + 4 + 2) 6 (omega arith)
        ∙ unfold u16_at index in
          ap ok (omega (arith, bit_xor-lt 16 s.port cookie_high small.0 (omega arith)))

    ip_read : u32_at response (offset + 4 + 4) ≡ ok (bit_xor s.ip stun_magic_cookie)
    ip_read =
        u32_at-drop response offset (address_bytes s ++ rest) at (offset + 4 + 4) 8 (omega arith)
        ∙ unfold u32_at index in
          ap ok (omega (arith, bit_xor-lt 32 s.ip stun_magic_cookie small.1 (omega arith)))

    address : ipv4_address response (offset + 4) ≡ ok (some s)
    address =
        unfold ipv4_address in
        ground (
          arith,
          port_read,
          ip_read,
          bit_xor_undo 16 s.port cookie_high small.0 (omega arith),
          bit_xor_undo 32 s.ip stun_magic_cookie small.1 (omega arith),
        )

find_address-attributes :
    (attributes : List Attribute) (fuel : ℕ) (response : List ℕ) (offset : ℕ) (s : SocketAddr)
    (rest : List ℕ)
    → AllOther attributes
    → IsAddress s
    → length attributes < fuel
    → drop offset response ≡ attributes_bytes attributes ++ (address_bytes s ++ rest)
    → find_address fuel response offset ≡ some (ok s)
find_address-attributes attributes zero response offset s rest others small enough at =
    absurd (omega arith)
find_address-attributes [] (suc fuel) response offset s rest others small enough at =
    find_address-found fuel response offset s rest small at
find_address-attributes (a ∷ as') (suc fuel) response offset s rest others small enough at =
    let (next, skipped, after) =
      find_address-skip fuel response offset a (attributes_bytes as' ++ (address_bytes s ++ rest))
        others.0
        (at ∙ append_assoc (attribute_bytes a) (attributes_bytes as') (address_bytes s ++ rest)) in
    skipped
    ∙ find_address-attributes as' fuel response next s rest others.1 small (omega arith) after

-- The answer of a server: a success header, attributes of other types, the address, and what may
-- follow.
abbrev pub answer : List ℕ → List Attribute → SocketAddr → List ℕ → List ℕ
answer header attributes s rest =
    1 ∷ 1 ∷ (header ++ (attributes_bytes attributes ++ (address_bytes s ++ rest)))

-- The parser returns the very port and address that a server masked into its answer, whatever the
-- rest of the header, the attributes of other types before it, and the bytes behind it; fuel above
-- the number of those attributes is enough.
pub parse_response-answer :
    (fuel : ℕ) (header : List ℕ) (attributes : List Attribute) (s : SocketAddr) (rest : List ℕ)
    → length header ≡ 18
    → AllOther attributes
    → IsAddress s
    → length attributes < fuel
    → parse_response fuel (some (answer header attributes s rest)) ≡ some (ok s)
unfolding parse_response
parse_response-answer fuel header attributes s rest eighteen others small enough =
    ground (arith, kind, long, searched)
  where
    response : List ℕ
    response = answer header attributes s rest

    kind : u16_at response 0 ≡ ok 0x0101
    kind = unfold u16_at index in refl

    long : 20 ≤ length response
    long =
        omega
          (arith, length-append header (attributes_bytes attributes ++ (address_bytes s ++ rest)))

    searched : find_address fuel response 20 ≡ some (ok s)
    searched = find_address-attributes attributes fuel response 20 s rest others small enough (
        drop-length_append 18 header (attributes_bytes attributes ++ (address_bytes s ++ rest))
          (sym eighteen))
