-- ===== src/Daemon/Mesh.antt =====
-- The addresses that a registry can have: there are 254 * 254 of them.
use decentis.Prelude.{
  ℕ, suc, ◌+◌, ◌-◌, ◌*◌, ◌≤◌, false, List, [], ◌∷◌, some, length, ◌≡◌, refl, sym, ap, ◌∙◌, arith,
  IsBytes, AllBelow, AllDiffer, IsAbsent, length-AllDiffer,
}
use decentis.Crypto.Identity.{Ipv4Addr, clamp, derive_virtual_ip}
use decentis.Crypto.Identity.Text.{ip_to_string}
use decentis.Daemon.{PeerRegistry, same}
use decentis.Daemon.Registry.{same_refl, AllKeys, AreDistinct}

-- The text of an address that a key can have.
abbrev mesh_ip : ℕ → ℕ → Ipv4Addr
mesh_ip c d = record { a = 10; b = 99; c = c; d = d }

abbrev pub IsMesh : List ℕ → Type 0
IsMesh vip =
    (c : ℕ) × (d : ℕ) × (1 ≤ c)
    × (c ≤ 254)
    × (1 ≤ d)
    × (d ≤ 254)
    × (vip ≡ ip_to_string (mesh_ip c d))

pub derive_virtual_ip-IsMesh :
    (key : List ℕ) {ip : Ipv4Addr}
    → IsBytes key
    → derive_virtual_ip key ≡ some ip
    → IsMesh (ip_to_string ip)
unfolding derive_virtual_ip
derive_virtual_ip-IsMesh [] bytes e = absurd (ground arith)
derive_virtual_ip-IsMesh (x ∷ []) bytes e = absurd (ground arith)
derive_virtual_ip-IsMesh (x ∷ y ∷ rest) {ip} bytes e =
    let made : mesh_ip (clamp x) (clamp y) ≡ ip = cc e in
    (
      clamp x,
      clamp y,
      ground arith,
      ground (arith, bytes.0),
      ground arith,
      ground (arith, bytes.1.0),
      ap ip_to_string (sym made),
    )

-- The number of an address of the mesh, below 254 * 254.
abbrev code : (vip : List ℕ) → IsMesh vip → ℕ
code vip (c, d, c1, c2, d1, d2, e) = (c - 1) * 254 + (d - 1)

code_injective :
    (vip vip' : List ℕ) (m : IsMesh vip) (m' : IsMesh vip') → code vip m ≡ code vip' m' → vip ≡ vip'
code_injective vip vip' (c, d, c1, c2, d1, d2, e) (c', d', c1', c2', d1', d2', e') same_code =
    let same_c : c ≡ c' = omega (arith, same_code) in
    let same_d : d ≡ d' = omega (arith, same_code, same_c) in rw (e, e', same_c, same_d) refl

abbrev codes : (peers : PeerRegistry) → AllKeys IsMesh peers → List ℕ
codes [] a = []
codes ((vip, conn) ∷ rest) a = code vip a.0 ∷ codes rest a.1

length-codes :
    (peers : PeerRegistry) (a : AllKeys IsMesh peers) → length (codes peers a) ≡ length peers
length-codes [] a = refl
length-codes ((vip, conn) ∷ rest) a = ap suc (length-codes rest a.1)

codes-AllBelow : (peers : PeerRegistry) (a : AllKeys IsMesh peers) → AllBelow 64516 (codes peers a)
codes-AllBelow [] a = tt
codes-AllBelow ((vip, conn) ∷ rest) ((c, d, c1, c2, d1, d2, e), a) =
    (omega arith, codes-AllBelow rest a)

codes-IsAbsent :
    (vip : List ℕ) (m : IsMesh vip) (peers : PeerRegistry) (a : AllKeys IsMesh peers)
    → AllKeys (λ other. same other vip ≡ false) peers
    → IsAbsent (code vip m) (codes peers a)
codes-IsAbsent vip m [] a differ = tt
codes-IsAbsent vip m ((other, conn) ∷ rest) a differ = (
  (λ same_code. cc (
      sym differ.0
      ∙ ap (same other) (sym (code_injective other vip a.0 m same_code))
      ∙ same_refl other)),
  codes-IsAbsent vip m rest a.1 differ.1,
)

codes-AllDiffer :
    (peers : PeerRegistry) (a : AllKeys IsMesh peers)
    → AreDistinct peers
    → AllDiffer (codes peers a)
codes-AllDiffer [] a distinct = tt
codes-AllDiffer ((vip, conn) ∷ rest) a distinct =
    (codes-IsAbsent vip a.0 rest a.1 distinct.0, codes-AllDiffer rest a.1 distinct.1)

-- There are not more addresses than that.
pub length-AreDistinct :
    (peers : PeerRegistry) → AllKeys IsMesh peers → AreDistinct peers → length peers ≤ 64516
length-AreDistinct peers a distinct = omega (
  arith,
  length-codes peers a,
  length-AllDiffer 64516 (codes peers a) (codes-AllBelow peers a)
      (codes-AllDiffer peers a distinct),
)
