-- ===== src/Transport/Handshake/Complete.antt =====
-- Two daemons whose messages reach each other both end the handshake with a session.
use decentis.Prelude.{ℕ, true, List, ◌≡◌, refl, take-ge}
use decentis.Crypto.Identity.{Keypair}
use decentis.Crypto.Session.{split_session}
use decentis.Crypto.Handshake.{Snow, build_initiator, build_responder, Completes}
use decentis.Transport.Handshake.{
  Stream, Arrival, piece, closed, Result, ok, err, initiate_noise_handshake, respond_reply,
  respond_noise_handshake,
}

-- A stream without errors.
abbrev pub sound : Stream
sound = record { opens = true; takes = true; finishes = true }

module _ (snow : Snow) (ki kr : Keypair) (c : Completes snow 1024 ki kr) where
  -- What the network hands back to the initiator, if it keeps each message in one piece.
  abbrev pub reply_of : Result (List ℕ × snow.HandshakeState) → Arrival
  reply_of (ok (resp, complete)) = piece resp
  reply_of (err e) = closed

  respond_reply-ok : respond_reply snow sound (piece c.init) kr ≡ ok (c.resp, c.r2)
  unfolding respond_reply build_responder
  respond_reply-ok =
      rw
        (
          c.parsed,
          c.responder_key,
          c.responder_built,
          take-ge 1024 c.init c.init_fits,
          c.init_read,
          c.resp_written,
        )
        refl

  pub respond_noise_handshake-ok :
      respond_noise_handshake snow sound (piece c.init) kr
      ≡ ok (
        (split_session c.responder_transport).0,
        (split_session c.responder_transport).1,
        ki.public,
      )
  unfolding respond_noise_handshake
  respond_noise_handshake-ok = rw (respond_reply-ok, c.key_known, c.responder_done) refl

  pub initiate_noise_handshake-ok :
      initiate_noise_handshake snow sound
        (λ init. reply_of (respond_reply snow sound (piece init) kr))
        ki
        kr.public
      ≡ ok (split_session c.initiator_transport)
  unfolding initiate_noise_handshake build_initiator
  initiate_noise_handshake-ok =
      rw
        (
          c.parsed,
          c.initiator_key,
          c.remote_key,
          c.initiator_built,
          c.init_written,
          respond_reply-ok,
          take-ge 1024 c.resp c.resp_fits,
          c.resp_read,
          c.initiator_done,
        )
        refl
