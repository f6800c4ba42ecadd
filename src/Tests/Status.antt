-- ===== src/Tests/Status.antt =====
-- The status over two inbound connections.
use decentis.Prelude.{ℕ, ◌≤◌, ◌%◌, List, [], ◌∷◌, some, none, length, ◌≡◌, refl, arith, IsBytes}
use decentis.Crypto.Identity.{derive_virtual_ip}
use decentis.Crypto.Identity.Text.{ip_to_string, decimal}
use decentis.Daemon.{
  Codecs, PeerRegistry, remove, insert, register, on_incoming, Event, incoming, step, run,
}
use decentis.Daemon.Control.{get_status}
use decentis.Daemon.Status.{IsRegistered, run-get_status}
use decentis.Daemon.Registry.{AllKeys}

abbrev low_bytes : List ℕ → List ℕ
low_bytes [] = []
low_bytes (x ∷ xs) = (x % 256) ∷ low_bytes xs

low_bytes-IsBytes : (xs : List ℕ) → IsBytes (low_bytes xs)
low_bytes-IsBytes [] = tt
low_bytes-IsBytes (x ∷ xs) = (omega arith, low_bytes-IsBytes xs)

abbrev bytewise : Codecs
bytewise = record {
  encode64 = λ key. key;
  decode64 = λ text. some (low_bytes text);
  parse_ip = λ text. none;
}

bytewise-IsBytes : (text key : List ℕ) → bytewise.decode64 text ≡ some key → IsBytes key
bytewise-IsBytes text key e =
    let same : low_bytes text ≡ key = cc e in rw (← same) (low_bytes-IsBytes text)

abbrev earlier : List Event
earlier = incoming (some 1) (some (5 ∷ 6 ∷ [])) ∷ []

abbrev later : List Event
later = incoming (some 2) (some (8 ∷ 9 ∷ [])) ∷ incoming (some 3) (some (5 ∷ 6 ∷ [])) ∷ []

abbrev before : PeerRegistry
before = run bytewise none earlier []

-- The first peer comes back over another connection, and is counted once.
counts-twice : (get_status [] (run bytewise none later before)).active_peers_count ≡ 2
unfolding get_status run step on_incoming register derive_virtual_ip insert remove ip_to_string
    decimal
counts-twice = refl

run-get_status_example :
    ((get_status [] (run bytewise none later before)).active_peers_count
      ≡ length (run bytewise none later before))
    × (length (run bytewise none later before) ≤ 64516)
    × ((get_status [] before).active_peers_count
        ≤ (get_status [] (run bytewise none later before)).active_peers_count)
    × AllKeys (IsRegistered (run bytewise none later before)) before
run-get_status_example =
    run-get_status bytewise none bytewise-IsBytes earlier later []
      (((omega arith, (omega arith, tt)), tt))
      ((omega arith, (omega arith, tt)), ((omega arith, (omega arith, tt)), tt))
