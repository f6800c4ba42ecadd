-- ===== src/Tests/Dialer.antt =====
-- The rendezvous task on a stream with a stranger, an empty message, the configured peer, and an
-- end.
use decentis.Prelude.{ℕ, zero, true, false, List, [], ◌∷◌, some, none, ◌≡◌, refl}
use decentis.Crypto.Identity.{derive_virtual_ip}
use decentis.Crypto.Identity.Text.{ip_to_string, decimal}
use decentis.Nat.Punch.{fire_prediction_probes, probe_ports}
use decentis.Nat.Signaling.{PeerFound, peer_found, StreamRead, message, ended, relay}
use decentis.Daemon.{on_rendezvous, on_dialed, connect_either, register, insert, remove}
use decentis.Daemon.Dialer.{Meeting, probed, dialed, dialer, rendezvous_task}
use decentis.Tests.Daemon.{plain, vip, key, found, answers}

abbrev stranger : PeerFound
stranger = record { target_node_id = 9 ∷ 9 ∷ []; public_ip = []; public_port = 962; local_ip = [] }

abbrev reads : List StreamRead
reads =
    message (some (peer_found stranger))
    ∷ message none
    ∷ message (some (peer_found found))
    ∷ ended
    ∷ message (some (peer_found stranger))
    ∷ []

-- The socket of the probes opens for the first event only.
abbrev meet : ℕ → Meeting
meet zero = record { bound = true; takes = λ port. true; answers = answers }
meet _ = record { bound = false; takes = λ port. true; answers = answers }

-- The stranger's port 962 has two ports of the window above 1023; the peer is dialed twice.
runs-task : rendezvous_task plain (some key) meet reads [] ≡ (
  probed (record { port = 1024; ip = 7 })
      ∷ probed (record { port = 1025; ip = 7 })
      ∷ dialed (record { port = 4464; ip = 7 })
      ∷ dialed (record { port = 4464; ip = 7 })
      ∷ [],
  (vip, 3) ∷ [],
)
unfolding rendezvous_task relay dialer fire_prediction_probes on_rendezvous on_dialed connect_either
    register insert remove probe_ports derive_virtual_ip ip_to_string decimal
runs-task = refl
