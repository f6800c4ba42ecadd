-- ===== src/Nat/Punch.antt =====
-- daemon/src/nat/punch.rs: the window of ports that `fire_prediction_probes` sends to. A port is a
-- `u16`; `saturating_sub` stops at 0 and `saturating_add` at 65535.
pub mod Window
use decentis.Prelude.{
  ℕ, zero, suc, ◌+◌, ◌-◌, max, min, Bool, List, [], ◌∷◌, Option, some, none, if◌then◌else◌,
}

abbrev pub start_port : ℕ → ℕ
start_port target_base_port = max (target_base_port - 64) 1024

abbrev pub end_port : ℕ → ℕ
end_port target_base_port = min (target_base_port + 63) 65535

-- The ports from `port` on, as many as there are rounds.
unfoldable pub ports_from : ℕ → ℕ → List ℕ
ports_from port zero = []
ports_from port (suc rounds) = port ∷ ports_from (port + 1) rounds

-- `for port in start_port..=end_port`; the range is empty if it ends before it starts.
unfoldable pub probe_ports : ℕ → List ℕ
unfolding ports_from
probe_ports target_base_port =
    ports_from (start_port target_base_port)
      (end_port target_base_port + 1 - start_port target_base_port)

-- `probes_fired`: the sends that the socket takes.
pub probes_fired : (ℕ → Bool) → List ℕ → ℕ
probes_fired takes [] = 0
probes_fired takes (port ∷ ports) =
    let fired = probes_fired takes ports in if takes port then fired + 1 else fired

-- `bound` is whether the socket could be opened, without which the call fails. The result is the
-- ports that are sent to, and the count.
unfoldable pub fire_prediction_probes : Bool → (ℕ → Bool) → ℕ → Option (List ℕ × ℕ)
unfolding probe_ports probes_fired
fire_prediction_probes bound takes target_base_port =
    if bound
    then some (probe_ports target_base_port, probes_fired takes (probe_ports target_base_port))
    else none
