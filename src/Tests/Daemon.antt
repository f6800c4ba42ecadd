-- ===== src/Tests/Daemon.antt =====
-- The registry of daemon/src/main.rs with concrete codecs: a key is its own text.
use decentis.Prelude.{ℕ, true, List, [], ◌∷◌, some, none, ◌≡◌, refl, arith, ◌↔◌, ◌≤◌, length}
use decentis.Crypto.Identity.{Ipv4Addr, derive_virtual_ip}
use decentis.Crypto.Identity.Text.{decimal, ip_to_string}
use decentis.Crypto.Identity.Address.{SameOctet}
use decentis.Tun.{
  device_name, without_dots, AsyncDevice, start_tun_device, IsOnLink, start_tun_device-reaches_iff,
}
use decentis.Nat.Signaling.{PeerFound}
use decentis.Daemon.{
  Codecs, get, remove, insert, dial_failed, dial_ok, Answers, register, on_incoming, on_dialed,
  on_rendezvous, connect_either, Event, incoming, rendezvous, step, run,
}
use decentis.Daemon.Admission.{IsAddressOf, run_configured}
use decentis.Daemon.Outcomes.{on_incoming_takes_over}

abbrev pub plain : Codecs
plain = record { encode64 = λ key. key; decode64 = λ text. some text; parse_ip = λ text. some 7 }

-- 10.99.5.6
abbrev pub vip : List ℕ
vip = 49 ∷ 48 ∷ 46 ∷ 57 ∷ 57 ∷ 46 ∷ 53 ∷ 46 ∷ 54 ∷ []

abbrev pub key : List ℕ
key = 5 ∷ 6 ∷ []

abbrev pub found : PeerFound
found = record { target_node_id = key; public_ip = []; public_port = 70_000; local_ip = [] }

abbrev pub answers : Answers
answers = record { via_lan = dial_failed; via_public = dial_ok 3; handshake = true }

-- The peer comes in, a stranger does, and the peer is dialed.
abbrev pub events : List Event
events =
    incoming (some 1) (some key)
    ∷ incoming (some 2) (some (9 ∷ 9 ∷ []))
    ∷ rendezvous found answers
    ∷ []

ends-registered : run plain (some key) events [] ≡ (vip, 3) ∷ []
unfolding run step on_incoming on_rendezvous on_dialed connect_either register insert remove
    derive_virtual_ip ip_to_string decimal
ends-registered = refl

finds-peer : get (run plain (some key) events []) vip ≡ some 3
unfolding get run step on_incoming on_rendezvous on_dialed connect_either register insert remove
    derive_virtual_ip ip_to_string decimal
finds-peer = refl

run_configured_example : (k : List ℕ) × (some key ≡ some k) × IsAddressOf k vip
run_configured_example = run_configured plain key events vip (λ k. refl) finds-peer

abbrev pub address_of_five : Ipv4Addr
address_of_five = record { a = 10; b = 99; c = 5; d = 6 }

derives : derive_virtual_ip key ≡ some address_of_five
unfolding derive_virtual_ip
derives = refl

abbrev address_of_eight : Ipv4Addr
address_of_eight = record { a = 10; b = 99; c = 8; d = 9 }

derives-eight : derive_virtual_ip (8 ∷ 9 ∷ []) ≡ some address_of_eight
unfolding derive_virtual_ip
derives-eight = refl

derives-longer : derive_virtual_ip (5 ∷ 6 ∷ 7 ∷ []) ≡ some address_of_five
unfolding derive_virtual_ip
derives-longer = refl

on_incoming_takes_over_example :
    let peers1 = (on_incoming plain none (some 1) (some key) []).1 in
    let peers2 = (on_incoming plain none (some 2) (some (5 ∷ 6 ∷ 7 ∷ [])) peers1).1 in
    get peers2 vip ≡ some 2
unfolding ip_to_string decimal
on_incoming_takes_over_example =
    on_incoming_takes_over plain [] key (5 ∷ 6 ∷ 7 ∷ []) 1 2 (ground arith) (ground arith) derives
      derives-longer

-- mesh109956
names-device : device_name vip ≡ b'm' ∷ b'e' ∷ b's' ∷ b'h' ∷ 49 ∷ 48 ∷ 57 ∷ 57 ∷ 53 ∷ 54 ∷ []
unfolding device_name without_dots
names-device = refl

-- The device of 10.99.5.6 does not reach 10.99.8.9.
start_tun_device-reaches_iff_example :
    (dev : AsyncDevice) × (start_tun_device true (ip_to_string address_of_five) ≡ some dev)
    × (dev.ipv4 ≡ ip_to_string address_of_five)
    × (10 ≤ length dev.name)
    × (length dev.name ≤ 14)
    × (IsOnLink dev.mask address_of_five address_of_eight ↔ SameOctet 5 8)
start_tun_device-reaches_iff_example =
    start_tun_device-reaches_iff 5 6 8 9 [] [] (ground arith) (ground arith) derives derives-eight
