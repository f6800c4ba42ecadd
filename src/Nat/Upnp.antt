-- ===== src/Nat/Upnp.antt =====
-- daemon/src/nat/upnp.rs: the port mapping at the router, made at the start and taken back at the
-- end. What the crate igd and the sockets answer is an argument; the calls that the router accepts
-- are recorded in order.
use decentis.Prelude.{ℕ, Bool, true, false, List, [], ◌∷◌, ◌++◌, Option, some, none}
use decentis.Nat.Stun.{SocketAddr}

pub data IpAddr : Type 0 where
  v4 v6 : ℕ → IpAddr

-- A UDP mapping of an external port to a local address, with its lease in seconds.
pub data RouterCall : Type 0 where
  add_port : ℕ → SocketAddr → ℕ → RouterCall
  remove_port : ℕ → RouterCall

abbrev pub lease : ℕ
lease = 86_400

pub data UpnpError : Type 0 where
  no_gateway bind_failed connect_failed no_local_addr local_v6 : UpnpError
  rejected no_external_ip external_v6 : UpnpError

pub data UpnpResult (A : Type 0) : Type 0 where
  ok : A → UpnpResult A
  err : UpnpError → UpnpResult A

-- What the calls give: `none` is an error of the call.
pub record MapAnswers : Type 0 where
  pub gateway : Bool
  pub bound : Bool
  pub connected : Bool
  pub local_ip : Option IpAddr
  pub adds : Bool
  pub external_ip : Option IpAddr

abbrev pub M : Type 0 → Type 0
M A = List RouterCall → UpnpResult A × List RouterCall

infixl 5 ◌>>=◌ ◌>>◌
abbrev pub ◌>>=◌ : {A B : Type 0} → M A → (A → M B) → M B
◌>>=◌ m k calls =
    let (r, calls') = m calls in elim r [ ok a ↦ k a calls' | err e ↦ (err e, calls') ]

abbrev pub ◌>>◌ : {B : Type 0} → M (Unit {0}) → M B → M B
m >> k = m >>= λ _. k

abbrev pub give : {A : Type 0} → A → M A
give a calls = (ok a, calls)

abbrev pub guard : Bool → UpnpError → M (Unit {0})
guard true e calls = (ok tt, calls)
guard false e calls = (err e, calls)

-- A request that the router accepts or rejects.
abbrev pub ask : Bool → RouterCall → M (Unit {0})
ask true call calls = (ok tt, calls ++ (call ∷ []))
ask false call calls = (err rejected, calls)

-- `match ... { IpAddr::V4(ip) => ip, _ => return Err(..) }` on the result of a call.
abbrev pub v4_or : Option IpAddr → UpnpError → UpnpError → M ℕ
v4_or none missing six calls = (err missing, calls)
v4_or (some (v6 ip)) missing six calls = (err six, calls)
v4_or (some (v4 ip)) missing six calls = (ok ip, calls)

unfoldable pub map_external_port : MapAnswers → ℕ → M SocketAddr
map_external_port a local_port = do
  guard a.gateway no_gateway
  guard a.bound bind_failed
  guard a.connected connect_failed
  local_ip ← v4_or a.local_ip no_local_addr local_v6
  ask a.adds (add_port local_port (record { port = local_port; ip = local_ip }) lease)
  external_ip ← v4_or a.external_ip no_external_ip external_v6
  give (record { port = local_port; ip = external_ip })

pub record RemoveAnswers : Type 0 where
  pub gateway : Bool
  pub removes : Bool

unfoldable pub remove_external_port : RemoveAnswers → ℕ → M (Unit {0})
remove_external_port a local_port = do
  guard a.gateway no_gateway
  ask a.removes (remove_port local_port)
