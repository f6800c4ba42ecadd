-- ===== src/Daemon/Main/Mapping.antt =====
-- The port mapping at the router: when it is still there after a regular end.
use decentis.Prelude.{
  ℕ, Bool, true, false, not, ◌&&◌, List, [], some, ltb, ◌≡◌, refl, arith, if◌then◌else◌,
}
use decentis.Crypto.Identity.{Disk}
use decentis.Nat.Upnp.{RouterCall, map_external_port}
use decentis.Tun.{AsyncDevice}
use decentis.Daemon.{Codecs}
use decentis.Daemon.Main.{World, Env, Exit, finished, stopped, teardown, main}
use decentis.Nat.Stun.{SocketAddr}
use decentis.Daemon.Settings.{port_text, bind_addr}
use decentis.Daemon.Main.Endings.{IsBound, served, IsServed, Ending, main-Ending}
use decentis.Daemon.Main.Router.{
  is_v4, is_mapped, accepted, unmapped, early, map_external_port-Early, apply_all-Early,
  remove_external_port-is_mapped, nat_task-early,
}

module _ (codecs : Codecs) (env : Env) (w : World) (port : ℕ) (parsed : IsBound env port)
    (fresh : w.router ≡ []) (clear : w.upnp_mapped ≡ false) where
  -- What is left of the mapping after a regular end.
  abbrev pub leaves_mapping : Bool
  leaves_mapping =
      accepted env.nat.upnp
      && (ltb 0 env.effects
          && not (ltb 1 env.effects && (is_v4 env.nat.upnp.external_ip && unmapped env.unmapping)))

  served-router :
      (disk : Disk) (dev : AsyncDevice) (node_id : List ℕ)
      → let up = served codecs env disk dev node_id port w in
        (is_mapped port up.router ≡ (accepted env.nat.upnp && ltb 0 env.effects))
        × (up.upnp_mapped
            ≡ (accepted env.nat.upnp && (is_v4 env.nat.upnp.external_ip && ltb 1 env.effects)))
  served-router disk dev node_id = rw (nat_task-early env.nat node_id port env.peer_pub) (
      apply_all-Early port env.nat.upnp (early (map_external_port env.nat.upnp port [])) _
        env.effects (record w { disk = disk; tun = some dev; endpoint_open = true })
        (map_external_port-Early env.nat.upnp port) fresh clear)

  teardown-is_mapped :
      (w' : World)
      → IsServed codecs env w (teardown env) w'
      → is_mapped port w'.router ≡ leaves_mapping
  unfolding teardown
  teardown-is_mapped w' (disk, dev, node_id, local_port, (addr', parsed', is'), e) =
      let up = served codecs env disk dev node_id port w in
      let same : local_port ≡ port = ground (arith, parsed.1, parsed.2) in
      rw (e, same)
        (by_flag _ _ up.upnp_mapped (served-router disk dev node_id).0
          (served-router disk dev node_id).1
          (remove_external_port-is_mapped port env.unmapping up.router))
    where
      by_flag :
          (router removed : List RouterCall) (flag : Bool)
          → is_mapped port router ≡ (accepted env.nat.upnp && ltb 0 env.effects)
          → flag ≡ (accepted env.nat.upnp && (is_v4 env.nat.upnp.external_ip && ltb 1 env.effects))
          → is_mapped port removed ≡ (is_mapped port router && not (unmapped env.unmapping))
          → is_mapped port (if flag then removed else router) ≡ leaves_mapping
      by_flag router removed true there marked gone = ground (arith, there, marked, gone)
      by_flag router removed false there marked gone = ground (arith, there, marked, gone)

  by_exit :
      (e : Exit) (w' : World)
      → Ending codecs env w e w'
      → e ≡ finished
      → is_mapped port w'.router ≡ leaves_mapping
  by_exit finished w' h same = teardown-is_mapped w' h
  by_exit (stopped e) w' h same = cc

-- After a regular end the router still has the mapping of the port that the endpoint was bound to
-- exactly if it had accepted it by then, and not all of this holds: the external address was found
-- to be of IPv4, the flag was set by then, and the router accepts the removal. So a mapping whose
-- external address is not found is never taken back.
pub main-is_mapped :
    (codecs : Codecs) (env : Env) (w : World) (addr : SocketAddr)
    → bind_addr (port_text env.port_var) ≡ some addr
    → w.router ≡ []
    → w.upnp_mapped ≡ false
    → (main codecs env w).0 ≡ finished
    → is_mapped addr.port (main codecs env w).1.router ≡ (
        accepted env.nat.upnp
        && (ltb 0 env.effects
            && not
                (ltb 1 env.effects && (is_v4 env.nat.upnp.external_ip && unmapped env.unmapping))))
main-is_mapped codecs env w addr parsed fresh clear =
    by_exit codecs env w addr.port (addr, parsed, refl) fresh clear (main codecs env w).0
      (main codecs env w).1 (main-Ending codecs env w)
