-- ===== src/Daemon/Outcomes.antt =====
-- How attempts to connect end, and what they leave in the registry.
use decentis.Prelude.{
  ℕ, ◌<◌, ◌==◌, ◌&&◌, IsBytes, [], ◌∷◌, Bool-cases, sym, ap, Bool, true, false, List, some, none,
  if◌then◌else◌, ◌≡◌, refl, arith, ◌∙◌, inl, inr,
}
use decentis.Crypto.Identity.{Ipv4Addr, clamp, derive_virtual_ip}
use decentis.Crypto.Identity.Text.{ip_to_string, IsIpv4, ip_to_string_injective}
use decentis.Daemon.{
  Codecs, Connection, PeerRegistry, same, get, insert, established, register, on_incoming,
}
use decentis.Daemon.Registry.{same_refl, same-eq, get-insert}

on_incoming-open :
    (codecs : Codecs) (peers : PeerRegistry) (key : List ℕ) (conn : Connection) (ip : Ipv4Addr)
    → derive_virtual_ip key ≡ some ip
    → on_incoming codecs none (some conn) (some key) peers
      ≡ (established, insert peers (ip_to_string ip) conn)
unfolding on_incoming register
on_incoming-open codecs peers key conn ip e = ground (arith, e)

derive_virtual_ip-IsIpv4 :
    (x y : ℕ) (rest : List ℕ) {ip : Ipv4Addr}
    → x < 256
    → y < 256
    → derive_virtual_ip (x ∷ y ∷ rest) ≡ some ip
    → IsIpv4 ip × (ip.a ≡ 10) × (ip.b ≡ 99) × (ip.c ≡ clamp x) × (ip.d ≡ clamp y)
unfolding derive_virtual_ip
derive_virtual_ip-IsIpv4 x y rest hx hy e = ground arith

-- Of two keys: whether their first two bytes agree after 0 is read as 1 and 255 as 254.
abbrev pub collide : List ℕ → List ℕ → Bool
collide (x ∷ y ∷ rest) (x' ∷ y' ∷ rest') = (clamp x' == clamp x) && (clamp y' == clamp y)
collide _ _ = false

-- Two addresses are written alike exactly if the keys collide.
same-collide :
    (key key' : List ℕ) {ip ip' : Ipv4Addr}
    → IsBytes key
    → IsBytes key'
    → derive_virtual_ip key ≡ some ip
    → derive_virtual_ip key' ≡ some ip'
    → same (ip_to_string ip') (ip_to_string ip) ≡ collide key key'
same-collide [] key' h h' e e' = unfold derive_virtual_ip in absurd (ground arith)
same-collide (x ∷ []) key' h h' e e' = unfold derive_virtual_ip in absurd (ground arith)
same-collide (x ∷ y ∷ rest) [] h h' e e' = unfold derive_virtual_ip in absurd (ground arith)
same-collide (x ∷ y ∷ rest) (x' ∷ []) h h' e e' = unfold derive_virtual_ip in absurd (ground arith)
same-collide (x ∷ y ∷ rest) (x' ∷ y' ∷ rest') {ip} {ip'} h h' e e' =
    let at = derive_virtual_ip-IsIpv4 x y rest h.0 h.1.0 e in
    let at' = derive_virtual_ip-IsIpv4 x' y' rest' h'.0 h'.1.0 e' in
    elim (Bool-cases (same (ip_to_string ip') (ip_to_string ip))) [
      | inl hit ↦
          let eq =
            ip_to_string_injective ip' ip at'.0 at.0
              (same-eq (ip_to_string ip') (ip_to_string ip) hit) in
          ground
            (arith, hit, ap (λ (i : Ipv4Addr). i.c) eq, ap (λ (i : Ipv4Addr). i.d) eq, at.1, at'.1)
      | inr miss ↦ elim (Bool-cases (collide (x ∷ y ∷ rest) (x' ∷ y' ∷ rest'))) [
        | inr apart ↦ miss ∙ sym apart
        | inl alike ↦
            let eq : ip' ≡ ip = ground (arith, alike, at.1, at'.1) in
            absurd (
              ground (
                arith,
                miss,
                same_refl (ip_to_string ip),
                ap (λ i. same (ip_to_string i) (ip_to_string ip)) eq,
              ))
      ]
    ]

-- With no peer configured, of two inbound peers the second takes the place of the first in the
-- registry exactly if the first two bytes of their keys agree after 0 is read as 1 and 255 as 254;
-- otherwise the first keeps its place.
pub on_incoming_takes_over :
    (codecs : Codecs) (peers : PeerRegistry) (key key' : List ℕ) (conn conn' : Connection)
    {ip ip' : Ipv4Addr}
    → IsBytes key
    → IsBytes key'
    → derive_virtual_ip key ≡ some ip
    → derive_virtual_ip key' ≡ some ip'
    → let peers1 = (on_incoming codecs none (some conn) (some key) peers).1 in
      let peers2 = (on_incoming codecs none (some conn') (some key') peers1).1 in
      get peers2 (ip_to_string ip) ≡ some (if collide key key' then conn' else conn)
on_incoming_takes_over codecs peers key key' conn conn' {ip} {ip'} h h' e e' =
    let vip = ip_to_string ip in
    rw
      (
        on_incoming-open codecs peers key conn ip e,
        on_incoming-open codecs (insert peers vip conn) key' conn' ip' e',
      )
      (get-insert (insert peers vip conn) (ip_to_string ip') vip conn'
        ∙ by_same (same (ip_to_string ip') vip) (get-insert peers vip vip conn)
        ∙ ap (λ b. some (if b then conn' else conn)) (same-collide key key' h h' e e'))
  where
    by_same :
        (b : Bool)
        → let vip = ip_to_string ip in
          get (insert peers vip conn) vip ≡ (if same vip vip then some conn else get peers vip)
          → (if b then some conn' else get (insert peers vip conn) vip)
            ≡ some (if b then conn' else conn)
    by_same true kept = refl
    by_same false kept = kept ∙ ground (arith, same_refl (ip_to_string ip))
