-- ===== src/Tests/Inbound.antt =====
-- Two connections that come in, of which one is not let in.
use decentis.Prelude.{ℕ, ◌+◌, List, [], ◌∷◌, some, ◌≡◌, refl}
use decentis.Crypto.Identity.{derive_virtual_ip}
use decentis.Crypto.Handshake.{build_responder}
use decentis.Transport.Handshake.{piece, closed, respond_reply, respond_noise_handshake}
use decentis.Transport.Handshake.Complete.{sound}
use decentis.Daemon.{register}
use decentis.Daemon.Inbound.{Incoming, Started, listens, bridges, closes, accept, inbound_listener}
use decentis.Daemon.Inbound.Guarded.{AllStarted, IsGuarded, inbound_listener-IsGuarded}
use decentis.Tests.Link.{toy_snow, listener}
use decentis.Tests.Daemon.{plain}

-- Keys [1, 2] and [5, 6], and a connection that ends before its handshake.
abbrev arriving : List Incoming
arriving =
    record { conn = some 1; stream = sound; arrival = piece (1 ∷ 2 ∷ []) }
    ∷ record { conn = some 2; stream = sound; arrival = piece (5 ∷ 6 ∷ []) }
    ∷ record { conn = some 3; stream = sound; arrival = closed }
    ∷ []

inbound_listener-IsGuarded_example :
    AllStarted
      (IsGuarded plain toy_snow
        (some (5 ∷ 6 ∷ []))
        listener
        arriving
        (inbound_listener plain toy_snow (some (5 ∷ 6 ∷ [])) listener arriving []).1)
      (inbound_listener plain toy_snow (some (5 ∷ 6 ∷ [])) listener arriving []).0
inbound_listener-IsGuarded_example =
    inbound_listener-IsGuarded plain toy_snow (some (5 ∷ 6 ∷ [])) listener arriving []

abbrev connection_of : Started → ℕ
connection_of (listens conn) = conn
connection_of (bridges conn tx rx) = conn + 100
connection_of (closes conn code) = code

abbrev connections_of : List Started → List ℕ
connections_of [] = []
connections_of (s ∷ rest) = connection_of s ∷ connections_of rest

starts-second :
    connections_of (inbound_listener plain toy_snow (some (5 ∷ 6 ∷ [])) listener arriving []).0
    ≡ 4001 ∷ 2 ∷ 102 ∷ []
unfolding inbound_listener accept respond_noise_handshake respond_reply build_responder register
    derive_virtual_ip
starts-second = refl
