-- ===== src/Tftp/Client/Get/Acks.antt =====
-- The ACKs of a download in windows of one block.
use tsbootkit.Base.{
  ℕ, ◌+◌, ◌≡◌, ◌≤◌, refl, sym, ap, subst, ◌∙◌, arith, true, List, [], ◌∷◌, ◌++◌, ltb, leb, length,
  map, Bool-cases, inl, inr,
}
use tsbootkit.Base.Buffer.{Buffer, bytes16}
use tsbootkit.Tftp.Encode.Layout.{encode_ack_lem}
use tsbootkit.Tftp.Server.Chunks.{data_packet_bytes}
use tsbootkit.Tftp.Server.Upload.{IsUpload}
use tsbootkit.Tftp.Client.{
  ClientSettings, ClientEffect, Sender, block_size_of, window_size_of, send_to, write_local,
  restart_timer, stop_timer, close_local, open_local, resolved, rejected,
}
use tsbootkit.Tftp.Client.Get.{Get, data_written, expected_block}
use tsbootkit.Tftp.Client.Get.Effects.{receive}
use tsbootkit.Tftp.Client.Get.Blocks.{
  data_packets, IsDownloading, data_written_full, received, still_downloading, expected_block_wraps,
}
use tsbootkit.Tftp.Client.Put.Packets.{sent}

-- The ACK of a DATA packet: its own block number behind the opcode 4.
abbrev pub ack_of : Buffer → Buffer
ack_of (a ∷ b ∷ high ∷ low ∷ content) = 0 ∷ 4 ∷ high ∷ low ∷ []
ack_of packet = []

sent-append : (es fs : List ClientEffect) → sent (es ++ fs) ≡ sent es ++ sent fs
sent-append [] fs = refl
sent-append (send_to port p ∷ es) fs = ap (◌∷◌ p) (sent-append es fs)
sent-append (write_local content ∷ es) fs = sent-append es fs
sent-append (open_local ∷ es) fs = sent-append es fs
sent-append (close_local ∷ es) fs = sent-append es fs
sent-append (restart_timer ∷ es) fs = sent-append es fs
sent-append (stop_timer ∷ es) fs = sent-append es fs
sent-append (resolved bytes v ∷ es) fs = sent-append es fs
sent-append (rejected message ∷ es) fs = sent-append es fs

expected_block_fits : (n : ℕ) → n ≤ 65535 → expected_block n ≤ 65535
expected_block_fits n h = ground arith

module _ (c : ClientSettings) (sender : Sender) where
  -- Full or short, a block is acknowledged at once.
  data_written_acks :
      (g : Get) (b : Buffer)
      → IsDownloading c sender g
      → window_size_of g.validated ≡ 1
      → sent (data_written g (expected_block g.block_num) b).1
        ≡ (0 ∷ 4 ∷ bytes16 (expected_block g.block_num)) ∷ []
  unfolding data_written
  data_written_acks g b d one =
      let n = expected_block g.block_num in
      let ack = encode_ack_lem n (expected_block_fits g.block_num d.numbered) in
      let window : leb 1 (g.in_window + 1) ≡ true = ground arith in
      elim (Bool-cases (ltb (length b) (block_size_of g.validated))) [
        | inl e ↦ rw (e, ack, d.is_open) refl
        | inr e ↦ rw (e, one, window, ack) refl
      ]

  one_ack :
      (g : Get) (b : Buffer) (msgs : List Buffer)
      → IsDownloading c sender g
      → window_size_of g.validated ≡ 1
      → let n = expected_block g.block_num in
        sent (receive c sender (data_packet_bytes n b ∷ msgs) g).1
        ≡ (0 ∷ 4 ∷ bytes16 n)
          ∷ sent (receive c sender msgs (data_written (record g { retries = 0 }) n b).0).1
  one_ack g b msgs d one =
      let start = record g { retries = 0 } in
      let on = still_downloading c sender start d refl refl refl d.numbered in
      let r = data_written start (expected_block g.block_num) b in
      let more = (receive c sender msgs r.0).1 in
      ap (λ x. sent x.1) (received c sender g b msgs d)
      ∙ sent-append r.1 more
      ∙ ap (λ a. a ++ sent more) (data_written_acks start b on one)

  receive_none : (g : Get) → receive c sender [] g ≡ (g, [])
  unfolding receive
  receive_none g = refl

  -- In windows of one block, the client answers the DATA packets of a transfer, all full but the
  -- last, each with the ACK of its number.
  pub download_acks :
      (g : Get) (cs : List Buffer)
      → IsDownloading c sender g
      → window_size_of g.validated ≡ 1
      → IsUpload (block_size_of g.validated) cs
      → sent (receive c sender (data_packets g.block_num cs) g).1
        ≡ map ack_of (data_packets g.block_num cs)
  download_acks g [] d one h = absurd h
  download_acks g (b ∷ []) d one h =
      let start = record g { retries = 0 } in
      let last = data_written start (expected_block g.block_num) b in
      rw (expected_block_wraps g.block_num d.numbered) (
        one_ack g b [] d one
        ∙ ap (λ r. (0 ∷ 4 ∷ bytes16 (expected_block g.block_num)) ∷ sent r.1) (receive_none last.0))
  download_acks g (b ∷ e ∷ cs) d one (full, rest) =
      let start = record g { retries = 0 } in
      let n = expected_block g.block_num in
      let on = still_downloading c sender start d refl refl refl d.numbered in
      let (goes_on, num, opts, bytes, quiet, unsettled) =
        data_written_full c sender start b on full in
      let g' = (data_written start n b).0 in
      let later =
        download_acks g' (e ∷ cs) goes_on (ap window_size_of opts ∙ one)
          (subst (λ v. IsUpload (block_size_of v) (e ∷ cs)) (sym opts) rest) in
      let here : sent (receive c sender (data_packets n (e ∷ cs)) g').1
          ≡ map ack_of (data_packets n (e ∷ cs)) =
        subst
          (λ k.
            sent (receive c sender (data_packets k (e ∷ cs)) g').1
            ≡ map ack_of (data_packets k (e ∷ cs)))
          num later in
      rw (expected_block_wraps g.block_num d.numbered)
        (one_ack g b (data_packets n (e ∷ cs)) d one ∙ ap (◌∷◌ (0 ∷ 4 ∷ bytes16 n)) here)
