-- ===== src/Tftp/Client/Put/ToServer.antt =====
-- A whole upload: src/tftp/server.mts receives what src/tftp/client.mts sends.
use tsbootkit.Base.{
  ℕ, suc, ◌+◌, ◌*◌, ◌≡◌, ◌<◌, refl, ap, sym, subst, ◌∙◌, arith, some, List, [], ◌∷◌, ◌++◌, true,
  false, length,
}
use tsbootkit.Base.Buffer.{Buffer}
use tsbootkit.Tftp.Types.{ValidatedOptions}
use tsbootkit.Tftp.Transfer.{Transfer, done, wrap_number}
use tsbootkit.Tftp.Server.{Effect, handle_transfer_data}
use tsbootkit.Tftp.Server.Chunks.{file_chunks, window_chunks-EndsShort}
use tsbootkit.Tftp.Server.Upload.{
  IsReceiving, IsUpload, upload, appended, upload_stores_file, take_full,
}
use tsbootkit.Tftp.Client.{ClientSettings, ClientEffect, block_size_of}
use tsbootkit.Tftp.Client.Get.Effects.{settled}
use tsbootkit.Tftp.Client.Get.FromServer.{EndsShort-IsUpload}
use tsbootkit.Tftp.Client.Put.{Put}
use tsbootkit.Tftp.Client.Put.Numbers.{counted, counted_next}
use tsbootkit.Tftp.Client.Put.Packets.{sent, numbered_blocks}
use tsbootkit.Tftp.Client.Put.WholeFile.{IsUploading, acknowledged, upload_sends_file}

-- The server's handler, called for the blocks under the numbers that they have in `numbered_blocks`.
unfoldable pub takes : ℕ → ℕ → Transfer → List Buffer → Transfer × List Effect
takes now n t [] = (t, [])
takes now n t (c ∷ cs) =
    let o = handle_transfer_data false now t (counted (n + 1)) c in
    let (u, effects) = takes now (n + 1) o.transfer cs in (u, o.effects ++ effects)

-- They are the numbers that the server expects.
takes-upload :
    (now n : ℕ) (t : Transfer) (cs : List Buffer)
    → IsReceiving t
    → 0 < t.opts.blksize
    → t.block_num ≡ counted (n + 1)
    → IsUpload t.opts.blksize cs
    → takes now n t cs ≡ upload now t cs
unfolding takes upload
takes-upload now n t [] r pos e h = refl
takes-upload now n t (c ∷ []) r pos e h =
    ap (λ k. let o = handle_transfer_data false now t k c in (o.transfer, o.effects ++ [])) (sym e)
takes-upload now n t (c ∷ d ∷ cs) r pos e (full, h) =
    let o = handle_transfer_data false now t t.block_num c in
    let took = take_full now t c r pos full in
    let size = ap (λ (v : ValidatedOptions). v.blksize) took.opts in
    let next : o.transfer.block_num ≡ counted ((n + 1) + 1) =
      took.number ∙ ap (λ k. wrap_number true (k + 1)) e ∙ sym (counted_next (n + 1)) in
    ap
      (λ k.
        let q = handle_transfer_data false now t k c in
        let (u, effects) = takes now (n + 1) q.transfer (d ∷ cs) in (u, q.effects ++ effects))
      (sym e)
    ∙ ap (λ r. (r.0, o.effects ++ r.1))
        (takes-upload now (n + 1) o.transfer (d ∷ cs) took.receives (omega (arith, size)) next
          (subst (λ b. IsUpload b (d ∷ cs)) (sym size) h))

-- A client with an open upload at the start of a file, and a server that expects block 1 with
-- wrap-around on and the same block size above 0, the network bringing every packet in order and every window being
-- acknowledged: where the length of the file is no multiple of the block size, the packets that the client sends are
-- blocks under numbers for which the server's handler appends exactly the file and ends done, and
-- the client's promise resolves with the length.
pub upload_session :
    (c : ClientSettings) (file : Buffer) (p : Put) (now : ℕ) (t : Transfer) (k r : ℕ)
    → IsUploading p
    → p.offset ≡ 0
    → p.block_num ≡ 0
    → p.bytes_sent ≡ 0
    → IsReceiving t
    → t.block_num ≡ 1
    → t.opts.blksize ≡ block_size_of p.validated
    → length file ≡ k * block_size_of p.validated + r
    → 0 < r
    → r < block_size_of p.validated
    → (cs : List Buffer) × (q : Put) × (effects : List ClientEffect) × (acknowledged c file
          (suc (length file))
          p
        ≡ some (q, effects))
      × (sent effects ≡ numbered_blocks 0 cs)
      × (settled effects ≡ some (length file))
      × (appended (takes now 0 t cs).1 ≡ file)
      × ((takes now 0 t cs).0.state ≡ done)
upload_session c file p now t k r u start first none_sent receiving one agreed whole pos small =
    let b = block_size_of p.validated in
    let cs = file_chunks b file in
    let (all, (q, effects, run, packets, end)) =
      upload_sends_file c file p u start first none_sent in
    let shape : IsUpload t.opts.blksize cs =
      subst (λ size. IsUpload size cs) (sym agreed)
        (EndsShort-IsUpload b cs
          (window_chunks-EndsShort (suc (length file)) b k r file whole pos small (omega arith))) in
    let positive : 0 < t.opts.blksize = omega (arith, u.block_size, agreed) in
    let (stores, ended) = upload_stores_file now t cs receiving positive shape in
    let same = takes-upload now 0 t cs receiving positive one shape in
    (
      cs,
      q,
      effects,
      run,
      packets,
      end,
      ap (λ o. appended o.1) same ∙ stores ∙ all,
      ap (λ o. o.0.state) same ∙ ended,
    )
