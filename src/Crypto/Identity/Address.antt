-- ===== src/Crypto/Identity/Address.antt =====
-- The addresses that keys give: which there are, and which keys share one.
use decentis.Prelude.{ℕ, ◌≤◌, ◌<◌, List, [], ◌∷◌, some, ◌≡◌, ◌↔◌, ◌⊎◌, refl, arith, IsBytes}
use decentis.Crypto.Identity.{Ipv4Addr, clamp, derive_virtual_ip}

-- Two bytes that become the same octet.
abbrev pub SameOctet : ℕ → ℕ → Type 0
SameOctet x y = (x ≡ y) ⊎ ((x ≤ 1) × (y ≤ 1)) ⊎ ((254 ≤ x) × (254 ≤ y))

pub clamp_iff : (x y : ℕ) → x < 256 → y < 256 → (clamp x ≡ clamp y) ↔ SameOctet x y
clamp_iff x y hx hy = ground arith

-- Two keys of at least two bytes have the same address exactly if their first two bytes agree, up
-- to 0 for 1 and 255 for 254: the other bytes do not count.
pub derive_virtual_ip-eq_iff :
    (x y x' y' : ℕ) (rest rest' : List ℕ)
    → IsBytes (x ∷ y ∷ rest)
    → IsBytes (x' ∷ y' ∷ rest')
    → (derive_virtual_ip (x ∷ y ∷ rest) ≡ derive_virtual_ip (x' ∷ y' ∷ rest'))
      ↔ (SameOctet x x' × SameOctet y y')
unfolding derive_virtual_ip
derive_virtual_ip-eq_iff x y x' y' rest rest' h h' =
    ground (arith, clamp_iff x x' h.0 h'.0, clamp_iff y y' h.1.0 h'.1.0)

-- Every key of bytes, at least two, gives an address 10.99.c.d with c and d from 1 to 254, and
-- every such address comes from a key.
derive_virtual_ip_range :
    (c d : ℕ)
    → ((x y : ℕ) (rest : List ℕ)
        → IsBytes (x ∷ y ∷ rest)
        → (ip : Ipv4Addr) × (derive_virtual_ip (x ∷ y ∷ rest) ≡ some ip)
          × (ip.a ≡ 10)
          × (ip.b ≡ 99)
          × (1 ≤ ip.c)
          × (ip.c ≤ 254)
          × (1 ≤ ip.d)
          × (ip.d ≤ 254))
      × (1 ≤ c
          → c ≤ 254
          → 1 ≤ d
          → d ≤ 254
          → derive_virtual_ip (c ∷ d ∷ []) ≡ some (record { a = 10; b = 99; c = c; d = d }))
unfolding derive_virtual_ip
derive_virtual_ip_range c d = (
  λ x y rest bytes. (
    record { a = 10; b = 99; c = clamp x; d = clamp y },
    refl,
    refl,
    refl,
    ground arith,
    ground (arith, bytes.0),
    ground arith,
    ground (arith, bytes.1.0),
  ),
  λ h1 h2 h3 h4. ground arith,
)
