-- ===== src/Tftp/Client/Get/FromServer.antt =====
-- A whole download: src/tftp/client.mts receives what src/tftp/server.mts sends.
use tsbootkit.Base.{
  ℕ, suc, ◌+◌, ◌*◌, ◌≡◌, ◌<◌, refl, ap, subst, sym, ◌∙◌, arith, List, [], ◌∷◌, length, some, none,
  All, true, map,
}
use tsbootkit.Base.Text.{Str}
use tsbootkit.Base.Buffer.{Buffer}
use tsbootkit.Tftp.Transfer.{Transfer, wrap_number}
use tsbootkit.Tftp.Server.{
  Effect, send_packet, append_file, emit_complete, remove_transfer, close_file, emit_error,
}
use tsbootkit.Tftp.Server.Chunks.{
  concat, file_chunks, concat-file_chunks, window_chunks_full, EndsShort, window_chunks-EndsShort,
  data_effects, data_packet_bytes,
}
use tsbootkit.Tftp.Server.Download.{IsFresh, fresh_sends, acknowledge}
use tsbootkit.Tftp.Server.Upload.{IsUpload}
use tsbootkit.Tftp.Client.{ClientEffect, ClientSettings, Sender, block_size_of, window_size_of}
use tsbootkit.Tftp.Client.Get.{Get}
use tsbootkit.Tftp.Client.Get.Effects.{receive, stored, settled}
use tsbootkit.Tftp.Client.Get.Blocks.{data_packets, IsDownloading}
use tsbootkit.Tftp.Client.Get.Acks.{ack_of, download_acks}
use tsbootkit.Tftp.Client.Put.Packets.{sent}
use tsbootkit.Tftp.Client.Get.Stores.{download_stores, full_blocks_unsettled}

-- The packets that the server sends.
abbrev pub packets_of : List Effect → List Buffer
packets_of [] = []
packets_of (send_packet p ∷ es) = p ∷ packets_of es
packets_of (append_file c ∷ es) = packets_of es
packets_of (close_file ∷ es) = packets_of es
packets_of (remove_transfer ∷ es) = packets_of es
packets_of (emit_complete ∷ es) = packets_of es
packets_of (emit_error c m ∷ es) = packets_of es

packets_of-data_effects :
    (n : ℕ) (cs : List Buffer) → packets_of (data_effects true n cs) ≡ data_packets n cs
packets_of-data_effects n [] = refl
packets_of-data_effects n (c ∷ cs) =
    ap (◌∷◌ (data_packet_bytes (wrap_number true (n + 1)) c))
      (packets_of-data_effects (wrap_number true (n + 1)) cs)

pub EndsShort-IsUpload : (b : ℕ) (cs : List Buffer) → EndsShort b cs → IsUpload b cs
EndsShort-IsUpload b [] h = h
EndsShort-IsUpload b (c ∷ []) h = h.1
EndsShort-IsUpload b (c ∷ d ∷ cs) (e, h) = (e, EndsShort-IsUpload b (d ∷ cs) h)

module _ (file : Buffer) (message : Str) (now : ℕ) (t : Transfer) (fresh : IsFresh t)
    (c : ClientSettings) (sender : Sender) (g : Get) (d : IsDownloading c sender g) where
  -- The effects of the server's whole download bring the file to the client's disk.
  abbrev pub Arrives : (Get × List ClientEffect → Type 0) → Type 0
  Arrives Ends =
      (u : Transfer) × (effects : List Effect) × (acknowledge file message now (suc (length file)) t
        ≡ some (u, effects))
      × (let r = receive c sender (packets_of effects) g in (stored r.1 ≡ file) × Ends r)

  as_sent :
      (cs : List Buffer)
      → g.block_num ≡ 0
      → data_packets g.block_num cs ≡ packets_of (data_effects true 0 cs)
  as_sent cs first = ap (λ n. data_packets n cs) first ∙ sym (packets_of-data_effects 0 cs)

  whole : concat (file_chunks t.opts.blksize file) ≡ file
  whole = concat-file_chunks t.opts.blksize file fresh.ready.block_size

  -- A server with a fresh transfer and a client that expects block 1, with the same block size and
  -- both with windows of one block, so that a block is sent only after the one before it was
  -- written and acknowledged; the network brings every packet in order. Of a file whose length is no
  -- multiple of the block size the client stores exactly the file, and its promise resolves with the
  -- length; and it answers every DATA packet with the ACK of its number, for which the server waits.
  pub download_session :
      (k r : ℕ)
      → g.block_num ≡ 0
      → t.opts.windowsize ≡ 1
      → window_size_of g.validated ≡ 1
      → block_size_of g.validated ≡ t.opts.blksize
      → length file ≡ k * t.opts.blksize + r
      → 0 < r
      → r < t.opts.blksize
      → (u : Transfer) × (effects : List Effect) × (acknowledge file message now
            (suc (length file))
            t
          ≡ some (u, effects))
        × (let (end, made) = receive c sender (packets_of effects) g in
            (stored made ≡ file)
            × (settled made ≡ some (g.bytes_received + length file))
            × (sent made ≡ map ack_of (packets_of effects)))
  download_session k r first lockstep one agreed e pos small =
      let cs = file_chunks t.opts.blksize file in
      let (u, run, state) = fresh_sends file message now t fresh in
      let short =
        window_chunks-EndsShort (suc (length file)) t.opts.blksize k r file e pos small
          (omega arith) in
      let blocks =
        subst (λ b. IsUpload b cs) (sym agreed) (EndsShort-IsUpload t.opts.blksize cs short) in
      let got = download_stores c sender g cs d blocks in
      let acks = download_acks c sender g cs d one blocks in
      (
        u,
        data_effects true 0 cs,
        run,
        subst
            (λ ps.
              (stored (receive c sender ps g).1 ≡ file)
              × (settled (receive c sender ps g).1 ≡ some (g.bytes_received + length file))
              × (sent (receive c sender ps g).1 ≡ map ack_of ps))
            (as_sent cs first)
            (
              got.0 ∙ whole,
              got.1 ∙ ap (λ (f : Buffer). some (g.bytes_received + length f)) whole,
              acks,
            ),
      )

  -- Where the length is a multiple of the block size, and each block is written before the next packet
  -- comes, the client has stored exactly the file too, but its promise is not settled, and the
  -- download is still under way.
  pub download_session_hangs :
      (k : ℕ)
      → g.block_num ≡ 0
      → block_size_of g.validated ≡ t.opts.blksize
      → length file ≡ k * t.opts.blksize
      → Arrives (λ end. (settled end.1 ≡ none) × IsDownloading c sender end.0)
  download_session_hangs k first agreed e =
      let cs = file_chunks t.opts.blksize file in
      let (u, run, state) = fresh_sends file message now t fresh in
      let full = window_chunks_full (suc (length file)) t.opts.blksize k file e in
      let (stores, unsettled, still) =
        full_blocks_unsettled c sender g cs d
          (subst (λ b. All (λ x. length x ≡ b) cs) (sym agreed) full) in
      (u, data_effects true 0 cs, run, rw⁻¹ (as_sent cs first) (stores ∙ whole, (unsettled, still)))
