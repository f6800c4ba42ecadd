-- ===== src/Transport/Stream/DiskOps/Follow.antt =====
-- The operations of a stream, by themselves, make the file on the disk what the stream's writer
-- takes it to be.
use decentis.Prelude.{ℕ, zero, suc, List, [], ◌++◌, some, ◌≡◌, inl, inr, refl, sym, ap, ◌∙◌}
use decentis.FileRelay.Manifest.{FileManifest, ChunkPayload, Postcard}
use decentis.FileRelay.Disk.{DiskOp, Disk, apply_ops}
use decentis.Transport.Stream.Receive.{
  with_frame, Receiver, Turn, go, break, M, dispatch, turn, serve,
}
use decentis.Transport.Stream.DiskOps.Frames.{Together, with_frame-Together}
use decentis.Transport.Stream.DiskOps.{dispatch_ops, ops_of, turn_ops, serve_ops}
use decentis.Transport.Stream.DiskOps.Dispatching.{
  Agrees, Follows, apply_ops-append, dispatch-Follows,
}

module _ (file_of : List ℕ → ℕ) (manifests : Postcard FileManifest)
    (payloads : Postcard ChunkPayload) where
  serve-by :
      (fuel : ℕ) (r : Receiver) (x : Turn (Unit {0}))
      → turn manifests payloads r ≡ x
      → (serve manifests payloads (suc fuel) r
          ≡ (elim x [ go _ r' ↦ serve manifests payloads fuel r' | break r' ↦ some r' ]))
        × (serve_ops file_of manifests payloads (suc fuel) r
            ≡ turn_ops file_of manifests payloads r ++ (elim x [
              | go _ r' ↦ serve_ops file_of manifests payloads fuel r'
              | break r' ↦ []
            ]))
  unfolding serve serve_ops
  serve-by fuel r x e = (rw (e, serve) refl, rw (e, serve_ops) refl)

  -- On a disk without faults, and with nobody else at it, the operations of a task make the file
  -- what its writer takes it to be.
  pub serve-Agrees :
      (fuel : ℕ) (r : Receiver) (d : Disk) {r' : Receiver}
      → serve manifests payloads fuel r ≡ some r'
      → r.faults ≡ []
      → Agrees file_of d r.writer
      → Agrees file_of (apply_ops (serve_ops file_of manifests payloads fuel r) d) r'.writer
  unfolding turn_ops apply_ops turn
  serve-Agrees zero r d e calm a = absurd (unfold serve in cc e)
  serve-Agrees (suc fuel) r d {r'} e calm a =
      by_turn (with_frame-Together (dispatch manifests payloads) ops_turn r)
        (λ r2 d2 ran calm2 a2. serve-Agrees fuel r2 d2 {r' = r'} ran calm2 a2)
    where
      ops_turn : ℕ → List ℕ → M (List DiskOp)
      ops_turn frame_type payload_buf r1 =
          go (dispatch_ops file_of manifests payloads frame_type payload_buf r1) r1

      Goal : Type 0
      Goal =
          Agrees file_of (apply_ops (serve_ops file_of manifests payloads (suc fuel) r) d) r'.writer

      Later : Type 0
      Later =
          (r2 : Receiver) (d2 : Disk)
          → serve manifests payloads fuel r2 ≡ some r'
          → r2.faults ≡ []
          → Agrees file_of d2 r2.writer
          → Agrees file_of (apply_ops (serve_ops file_of manifests payloads fuel r2) d2) r'.writer

      by_result :
          Later
          → (ops : List DiskOp) (x : Turn (Unit {0})) → turn manifests payloads r ≡ x
          → turn_ops file_of manifests payloads r ≡ ops
          → Follows file_of manifests payloads d ops x
          → Goal
      by_result later ops (break r2) turned made never = absurd never
      by_result later ops (go _ r2) turned made (calm2, a2) =
          let (ran, all) = serve-by fuel r (go tt r2) turned in
          rw (all, made, apply_ops-append ops (serve_ops file_of manifests payloads fuel r2) d)
            (later r2 (apply_ops ops d) (sym ran ∙ e) calm2 a2)

      by_turn :
          Together
            (dispatch manifests payloads)
            ops_turn
            r
            (with_frame (dispatch manifests payloads) r)
            (with_frame ops_turn r)
          → Later
          → Goal
      by_turn (inl (r1, broke, quiet, kept)) later =
          let (ran, all) = serve-by fuel r (break r1) broke in
          let same : r1 ≡ r' = cc (sym ran ∙ e) in
          let none_made : turn_ops file_of manifests payloads r ≡ [] = ap ops_of quiet in
          rw (all, none_made, ← same, kept.0) a
      by_turn (inr (frame_type, payload_buf, r1, handed, made, kept)) later =
          by_result later (dispatch_ops file_of manifests payloads frame_type payload_buf r1)
            (dispatch manifests payloads frame_type payload_buf r1) handed (ap ops_of made)
            (dispatch-Follows file_of manifests payloads frame_type payload_buf r1 d (kept.1 ∙ calm)
              (rw kept.0 a))
