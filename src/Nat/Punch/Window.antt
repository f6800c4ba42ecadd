-- ===== src/Nat/Punch/Window.antt =====
-- Which ports the probes go to, and how many there are.
use decentis.Prelude.{
  ℕ, zero, suc, ◌+◌, ◌-◌, ◌≤◌, ◌<◌, Bool, true, false, ◌||◌, List, [], ◌∷◌, some, length, ◌==◌, ◌≡◌,
  ◌↔◌, refl, arith,
}
use decentis.Nat.Punch.{
  start_port, end_port, ports_from, probe_ports, probes_fired, fire_prediction_probes,
}

abbrev pub contains : List ℕ → ℕ → Bool
contains [] port = false
contains (p ∷ ps) port = p == port || contains ps port

contains-ports_from :
    (port from rounds : ℕ)
    → (contains (ports_from from rounds) port ≡ true) ↔ ((from ≤ port) × (port < from + rounds))
unfolding ports_from
contains-ports_from port from zero = ground arith
contains-ports_from port from (suc rounds) =
    ground (arith, contains-ports_from port (from + 1) rounds)

length-ports_from : (from rounds : ℕ) → length (ports_from from rounds) ≡ rounds
unfolding ports_from
length-ports_from from zero = refl
length-ports_from from (suc rounds) = omega (arith, length-ports_from (from + 1) rounds)

probes_fired-le : (takes : ℕ → Bool) (ports : List ℕ) → probes_fired takes ports ≤ length ports
unfolding probes_fired
probes_fired-le takes [] = omega arith
probes_fired-le takes (p ∷ ps) = ground (arith, probes_fired-le takes ps)

-- For every base port a probe goes to a port exactly if that is at most 64 below and 63 above it,
-- and neither below 1024 nor above 65535; and no more probes are counted than the 128 at most
-- that are sent.
pub fire_prediction_probes_window :
    (takes : ℕ → Bool) (base : ℕ)
    → base < 65536
    → (ports : List ℕ) × (fired : ℕ) × (fire_prediction_probes true takes base
        ≡ some (ports, fired))
      × ((port : ℕ)
          → (contains ports port ≡ true)
            ↔ ((base ≤ port + 64) × (port ≤ base + 63) × (1024 ≤ port) × (port ≤ 65535)))
      × (length ports ≤ 128)
      × (fired ≤ length ports)
unfolding fire_prediction_probes
fire_prediction_probes_window takes base h = (
  probe_ports base,
  probes_fired takes (probe_ports base),
  refl,
  λ port. (λ sent. omega (arith, (within port).0 sent), λ near. (within port).1 (omega arith)),
  omega (arith, count),
  probes_fired-le takes (probe_ports base),
)
  where
    rounds : ℕ
    rounds = end_port base + 1 - start_port base

    within :
        (port : ℕ)
        → (contains (ports_from (start_port base) rounds) port ≡ true)
          ↔ ((start_port base ≤ port) × (port < start_port base + rounds))
    within port = contains-ports_from port (start_port base) rounds

    count : length (ports_from (start_port base) rounds) ≡ rounds
    count = length-ports_from (start_port base) rounds
