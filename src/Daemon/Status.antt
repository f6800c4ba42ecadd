-- ===== src/Daemon/Status.antt =====
-- What the control service says of the number of peers, over the time of the daemon.
use decentis.Prelude.{
  ℕ, suc, ◌≤◌, false, List, [], ◌∷◌, Option, some, length, ◌≡◌, inl, inr, refl, arith, Bool-cases,
  IsBytes,
}
use decentis.Crypto.Identity.Text.{ip_to_string}
use decentis.Daemon.{Codecs, Connection, PeerRegistry, same, get, remove, insert, Event, run}
use decentis.Daemon.Registry.{
  same-eq, same_refl, AllKeys, AreDistinct, get-insert, insert-AllKeys, insert-AreDistinct,
}
use decentis.Daemon.Admission.{IsAdmitted, AllProved, run-Inv}
use decentis.Daemon.Control.{get_status}
use decentis.Daemon.Mesh.{IsMesh, derive_virtual_ip-IsMesh, length-AreDistinct}

length-remove_absent :
    (peers : PeerRegistry) (vip : List ℕ)
    → AllKeys (λ other. same other vip ≡ false) peers
    → length (remove peers vip) ≡ length peers
unfolding remove
length-remove_absent [] vip absent = refl
length-remove_absent ((key, conn) ∷ rest) vip absent =
    ground (arith, absent.0, length-remove_absent rest vip absent.1)

length-remove :
    (peers : PeerRegistry) (vip : List ℕ)
    → AreDistinct peers
    → length peers ≤ suc (length (remove peers vip))
unfolding remove
length-remove [] vip distinct = omega arith
length-remove ((key, conn) ∷ rest) vip distinct = elim (Bool-cases (same key vip)) [
  | inl hit ↦
      ground (arith, hit, length-remove_absent rest vip (rw (same-eq key vip hit) at distinct.0))
  | inr miss ↦ ground (arith, miss, length-remove rest vip distinct.1)
]

length-insert :
    (peers : PeerRegistry) (vip : List ℕ) (conn : Connection)
    → AreDistinct peers
    → length peers ≤ length (insert peers vip conn)
unfolding insert
length-insert peers vip conn distinct = length-remove peers vip distinct

-- A registry that has come from another one: it has at least as many addresses, all of the earlier
-- ones among them, and every address is one of the mesh.
abbrev Grown : PeerRegistry → PeerRegistry → Type 0
Grown before peers =
    AreDistinct peers
    × AllKeys IsMesh peers
    × (length before ≤ length peers)
    × ((vip : List ℕ) (conn : Connection)
        → get before vip ≡ some conn
        → (conn' : Connection) × (get peers vip ≡ some conn'))

pub insert-get :
    (peers : PeerRegistry) (vip other : List ℕ) (conn held : Connection)
    → get peers other ≡ some held
    → (conn' : Connection) × (get (insert peers vip conn) other ≡ some conn')
insert-get peers vip other conn held e = elim (Bool-cases (same vip other)) [
  | inl hit ↦ (conn, rw (get-insert peers vip other conn, hit) refl)
  | inr miss ↦ (held, rw (get-insert peers vip other conn, miss) e)
]

insert-Grown :
    (before peers : PeerRegistry) (vip : List ℕ) (conn : Connection)
    → IsMesh vip
    → Grown before peers
    → Grown before (insert peers vip conn)
insert-Grown before peers vip conn mesh (distinct, all, more, kept) = (
  insert-AreDistinct peers vip conn distinct,
  insert-AllKeys IsMesh peers vip conn mesh all,
  omega (arith, length-insert peers vip conn distinct),
  λ other held e.
      let (conn', found) = kept other held e in insert-get peers vip other conn conn' found,
)

-- There is a connection under the address.
abbrev pub IsRegistered : PeerRegistry → List ℕ → Type 0
IsRegistered peers vip = (conn : Connection) × (get peers vip ≡ some conn)

get_later :
    (key vip : List ℕ) (conn found : Connection) (rest : PeerRegistry)
    → get rest vip ≡ some found
    → IsRegistered ((key, conn) ∷ rest) vip
unfolding get
get_later key vip conn found rest e = elim (Bool-cases (same key vip)) [
  | inl hit ↦ (conn, rw hit)
  | inr miss ↦ (found, rw miss e)
]

all-IsRegistered :
    (before peers : PeerRegistry)
    → ((vip : List ℕ) (conn : Connection) → get before vip ≡ some conn → IsRegistered peers vip)
    → AllKeys (IsRegistered peers) before
unfolding get
all-IsRegistered [] peers kept = tt
all-IsRegistered ((key, conn) ∷ rest) peers kept = (
  kept key conn (rw same_refl),
  all-IsRegistered rest peers
      (λ vip found e. let (held, e') = get_later key vip conn found rest e in kept vip held e'),
)

module _ (codecs : Codecs) (peer_pub : Option (List ℕ))
    (decodes : (text key : List ℕ) → codecs.decode64 text ≡ some key → IsBytes key) where
  run-Grown :
      (before : PeerRegistry) (events : List Event) (peers : PeerRegistry)
      → AllProved IsBytes events
      → Grown before peers
      → Grown before (run codecs peer_pub events peers)
  run-Grown before events peers proved grown =
      run-Inv codecs peer_pub IsBytes (Grown before)
        (λ key ip conn peers admitted derived g.
          insert-Grown before peers (ip_to_string ip) conn
            (derive_virtual_ip-IsMesh key (IsAdmitted-IsBytes key admitted) derived) g)
        events peers proved grown
    where
      IsAdmitted-IsBytes : (key : List ℕ) → IsAdmitted codecs peer_pub IsBytes key → IsBytes key
      IsAdmitted-IsBytes key (inl (e, bytes)) = bytes
      IsAdmitted-IsBytes key (inr (id, t, e)) = decodes id key e

  -- From an empty registry, whatever connections, handshakes and rendezvous events come: the number
  -- of peers that the status tells is the size of the registry, which has at most 64516 addresses,
  -- so its cast to 32 bits is exact; and it never goes down, since an address that is registered
  -- stays so. The keys that handshakes prove, and those that base64 decodes to, are assumed to be
  -- bytes.
  pub run-get_status :
      (earlier later : List Event) (local_vip : List ℕ)
      → AllProved IsBytes earlier
      → AllProved IsBytes later
      → let before = run codecs peer_pub earlier [] in
        let peers = run codecs peer_pub later before in
        ((get_status local_vip peers).active_peers_count ≡ length peers)
        × (length peers ≤ 64516)
        × ((get_status local_vip before).active_peers_count
            ≤ (get_status local_vip peers).active_peers_count)
        × AllKeys (IsRegistered peers) before
  unfolding get_status
  run-get_status earlier later local_vip proved proved' =
      let before = run codecs peer_pub earlier [] in
      let peers = run codecs peer_pub later before in
      let (distinct, all, more, kept) =
        run-Grown [] earlier [] proved (tt, tt, omega arith, λ vip conn e. (conn, e)) in
      let (distinct', all', more', kept') =
        run-Grown before later before proved'
          (distinct, all, omega arith, λ vip conn e. (conn, e)) in
      let few = length-AreDistinct before all distinct in
      let few' = length-AreDistinct peers all' distinct' in
      (
        omega (arith, few'),
        few',
        omega (arith, few, few', more'),
        all-IsRegistered before peers kept',
      )
