-- ===== src/Tun.antt =====
-- daemon/src/tun/device.rs: the interface that `start_tun_device` asks the crate tun-rs for.
use decentis.Prelude.{
  Option, ◌<◌, Bool, true, none, sym, ◌↔◌, bit_and, bit_and-low, bit_and-zero, IsBytes, ℕ, ◌+◌, ◌≤◌,
  List, [], ◌∷◌, ◌++◌, some, length, ◌==◌, if◌then◌else◌, ◌≡◌, refl, ap, ◌∙◌, arith, length-append,
}
use decentis.Crypto.Identity.{Ipv4Addr, clamp, derive_virtual_ip}
use decentis.Crypto.Identity.Address.{SameOctet, clamp_iff}
use decentis.Crypto.Identity.Text.{decimal, ip_to_string, HasNoDot, decimal-HasNoDot}

-- `vip.replace(".", "")`
unfoldable pub without_dots : List ℕ → List ℕ
without_dots [] = []
without_dots (c ∷ cs) = let rest = without_dots cs in if c == b'.' then rest else c ∷ rest

unfoldable pub device_name : List ℕ → List ℕ
device_name vip = b'm' ∷ b'e' ∷ b's' ∷ b'h' ∷ without_dots vip

abbrev pub mtu : ℕ
mtu = 1420

-- "255.255.255.0"
abbrev pub netmask : Ipv4Addr
netmask = record { a = 255; b = 255; c = 255; d = 0 }

pub record AsyncDevice : Type 0 where
  pub name : List ℕ
  pub ipv4 : List ℕ
  pub mask : Ipv4Addr
  pub mtu_size : ℕ

-- Whether the device can be built is up to the system.
unfoldable pub start_tun_device : Bool → List ℕ → Option AsyncDevice
start_tun_device builds vip =
    if builds
    then some (record { name = device_name vip; ipv4 = vip; mask = netmask; mtu_size = mtu })
    else none

without_dots-append :
    (xs ys : List ℕ) → without_dots (xs ++ ys) ≡ without_dots xs ++ without_dots ys
unfolding without_dots
without_dots-append [] ys = refl
without_dots-append (x ∷ xs) ys = ground (arith, without_dots-append xs ys)

without_dots-HasNoDot : (xs : List ℕ) → HasNoDot xs → without_dots xs ≡ xs
unfolding without_dots
without_dots-HasNoDot [] h = refl
without_dots-HasNoDot (x ∷ xs) h = ground (arith, without_dots-HasNoDot xs h.1)

-- A part of an address and its dot lose the dot.
without_dots-decimal :
    (n : ℕ) (rest : List ℕ)
    → length (without_dots (decimal n ++ (b'.' ∷ rest)))
      ≡ length (decimal n) + length (without_dots rest)
without_dots-decimal n rest =
    ap length (without_dots-append (decimal n) (b'.' ∷ rest))
    ∙ length-append (without_dots (decimal n)) (without_dots (b'.' ∷ rest))
    ∙ rw (without_dots-HasNoDot (decimal n) (decimal-HasNoDot n)) (unfold without_dots in refl)

length-device_name :
    (ip : Ipv4Addr)
    → length (device_name (ip_to_string ip))
      ≡ 4
        + (length (decimal ip.a)
            + (length (decimal ip.b) + (length (decimal ip.c) + length (decimal ip.d))))
unfolding device_name ip_to_string
length-device_name ip = omega (
  arith,
  without_dots-decimal ip.a (decimal ip.b ++ (b'.' ∷ (decimal ip.c ++ (b'.' ∷ decimal ip.d)))),
  without_dots-decimal ip.b (decimal ip.c ++ (b'.' ∷ decimal ip.d)),
  without_dots-decimal ip.c (decimal ip.d),
  ap length (without_dots-HasNoDot (decimal ip.d) (decimal-HasNoDot ip.d)),
)

length-decimal : (n : ℕ) → (1 ≤ length (decimal n)) × (length (decimal n) ≤ 3)
unfolding decimal
length-decimal n = ground arith

derive_virtual_ip-prefix :
    (key : List ℕ) {ip : Ipv4Addr} → derive_virtual_ip key ≡ some ip → (ip.a ≡ 10) × (ip.b ≡ 99)
unfolding derive_virtual_ip
derive_virtual_ip-prefix key e = ground arith

device_name-length :
    (key : List ℕ) {ip : Ipv4Addr}
    → derive_virtual_ip key ≡ some ip
    → (10 ≤ length (device_name (ip_to_string ip))) × (length (device_name (ip_to_string ip)) ≤ 14)
device_name-length key {ip} e =
    let prefix = derive_virtual_ip-prefix key e in
    let ten : length (decimal ip.a) ≡ 2 = rw prefix.0 (unfold decimal in refl) in
    let ninety_nine : length (decimal ip.b) ≡ 2 = rw prefix.1 (unfold decimal in refl) in
    omega (arith, length-device_name ip, ten, ninety_nine, length-decimal ip.c, length-decimal ip.d)

-- The system sends a packet for the second address to an interface of the first if the two agree
-- under the mask.
abbrev pub IsOnLink : Ipv4Addr → Ipv4Addr → Ipv4Addr → Type 0
IsOnLink mask ip ip' =
    (bit_and ip.a mask.a ≡ bit_and ip'.a mask.a)
    × (bit_and ip.b mask.b ≡ bit_and ip'.b mask.b)
    × (bit_and ip.c mask.c ≡ bit_and ip'.c mask.c)
    × (bit_and ip.d mask.d ≡ bit_and ip'.d mask.d)

derive_virtual_ip-parts :
    (x y : ℕ) (rest : List ℕ)
    → IsBytes (x ∷ y ∷ rest)
    → {ip : Ipv4Addr} → derive_virtual_ip (x ∷ y ∷ rest) ≡ some ip
    → (ip.a ≡ 10) × (ip.b ≡ 99) × (ip.c ≡ clamp x) × (ip.c < 256)
unfolding derive_virtual_ip
derive_virtual_ip-parts x y rest bytes e = ground (arith, bytes.0)

IsOnLink-iff :
    (ip ip' : Ipv4Addr)
    → ip.a ≡ ip'.a
    → ip.b ≡ ip'.b
    → ip.c < 256
    → ip'.c < 256
    → IsOnLink netmask ip ip' ↔ (ip.c ≡ ip'.c)
IsOnLink-iff ip ip' ea eb h h' = (
  λ on. sym (bit_and-low 8 ip.c h) ∙ on.2 ∙ bit_and-low 8 ip'.c h',
  λ ec. (
    ap (λ n. bit_and n 255) ea,
    ap (λ n. bit_and n 255) eb,
    ap (λ n. bit_and n 255) ec,
    bit_and-zero ip.d ∙ sym (bit_and-zero ip'.d),
  ),
)

-- A device that can be built has the node's address, and a name of 10 to 14 characters, whatever
-- the key: under the 16 bytes that Linux has for a name and its end. But another node's address is
-- in the device's network exactly if the first bytes of the two keys agree, up to 0 for 1 and 255
-- for 254.
pub start_tun_device-reaches_iff :
    (x y x' y' : ℕ) (rest rest' : List ℕ) {ip ip' : Ipv4Addr}
    → IsBytes (x ∷ y ∷ rest)
    → IsBytes (x' ∷ y' ∷ rest')
    → derive_virtual_ip (x ∷ y ∷ rest) ≡ some ip
    → derive_virtual_ip (x' ∷ y' ∷ rest') ≡ some ip'
    → (dev : AsyncDevice) × (start_tun_device true (ip_to_string ip) ≡ some dev)
      × (dev.ipv4 ≡ ip_to_string ip)
      × (10 ≤ length dev.name)
      × (length dev.name ≤ 14)
      × (IsOnLink dev.mask ip ip' ↔ SameOctet x x')
unfolding start_tun_device
start_tun_device-reaches_iff x y x' y' rest rest' {ip} {ip'} bytes bytes' e e' =
    let at = derive_virtual_ip-parts x y rest bytes e in
    let at' = derive_virtual_ip-parts x' y' rest' bytes' e' in
    let named = device_name-length (x ∷ y ∷ rest) e in
    let linked = IsOnLink-iff ip ip' (at.0 ∙ sym at'.0) (at.1 ∙ sym at'.1) at.3 at'.3 in
    let octets = clamp_iff x x' bytes.0 bytes'.0 in
    (
      _,
      refl,
      refl,
      named.0,
      named.1,
      (
        λ on. octets.0 (sym at.2 ∙ linked.0 on ∙ at'.2),
        λ alike. linked.1 (at.2 ∙ octets.1 alike ∙ sym at'.2),
      ),
    )
