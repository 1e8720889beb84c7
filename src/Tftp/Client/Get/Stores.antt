-- ===== src/Tftp/Client/Get/Stores.antt =====
-- What a download stores.
use tsbootkit.Base.{
  All, ◌+◌, ◌≡◌, refl, sym, ap, subst, ◌∙◌, arith, List, [], ◌∷◌, ◌++◌, length, some, none,
  append-nil, length-append,
}
use tsbootkit.Base.Buffer.{Buffer}
use tsbootkit.Tftp.Server.Chunks.{concat, data_packet_bytes}
use tsbootkit.Tftp.Server.Upload.{IsUpload}
use tsbootkit.Tftp.Client.{ClientSettings, Sender, block_size_of}
use tsbootkit.Tftp.Client.Get.{Get, data_written, expected_block}
use tsbootkit.Tftp.Client.Get.Effects.{
  receive, stored, settled, stored-append, settled-append, settled_first,
}
use tsbootkit.Tftp.Client.Get.Blocks.{
  data_packets, IsDownloading, data_written_full, data_written_short, received, still_downloading,
  expected_block_wraps,
}

module _ (c : ClientSettings) (sender : Sender) where
  -- The download goes on after a full block.
  receive_full :
      (g : Get) (b : Buffer) (msgs : List Buffer)
      → IsDownloading c sender g
      → length b ≡ block_size_of g.validated
      → let n = expected_block g.block_num in
        let all = receive c sender (data_packet_bytes n b ∷ msgs) g in
        (g' : Get) × IsDownloading c sender g'
        × (g'.block_num ≡ n)
        × (g'.validated ≡ g.validated)
        × (g'.bytes_received ≡ g.bytes_received + length b)
        × (stored all.1 ≡ b ++ stored (receive c sender msgs g').1)
        × (settled all.1 ≡ settled (receive c sender msgs g').1)
        × (all.0 ≡ (receive c sender msgs g').0)
  receive_full g b msgs d full =
      let start = record g { retries = 0 } in
      let (on, num, opts, bytes, quiet, unsettled) =
        data_written_full c sender start b
          (still_downloading c sender _ d refl refl refl d.numbered) full in
      let (g', after) = data_written start (expected_block g.block_num) b in
      let more = (receive c sender msgs g').1 in
      let run = received c sender g b msgs d in
      (
        g',
        on,
        num,
        opts,
        bytes,
        ap (λ r. stored r.1) run
            ∙ ap (◌++◌ b) (stored-append after more ∙ ap (λ s. s ++ stored more) quiet),
        ap (λ r. settled r.1) run ∙ settled-append after more unsettled,
        ap (λ r. r.0) run,
      )

  receive_none : (g : Get) → receive c sender [] g ≡ (g, [])
  unfolding receive
  receive_none g = refl

  -- Where the blocks of a transfer, all full but the last, come one after another and numbered from
  -- the expected one, the local file gets the blocks put together, and the promise
  -- resolves with the bytes received before and theirs.
  pub download_stores :
      (g : Get) (cs : List Buffer)
      → IsDownloading c sender g
      → IsUpload (block_size_of g.validated) cs
      → let r = receive c sender (data_packets g.block_num cs) g in
        (stored r.1 ≡ concat cs) × (settled r.1 ≡ some (g.bytes_received + length (concat cs)))
  download_stores g [] d h = absurd h
  download_stores g (b ∷ []) d h =
      let start = record g { retries = 0 } in
      let (writes, settles) =
        data_written_short c sender start b
          (still_downloading c sender _ d refl refl refl d.numbered) h in
      let last = data_written start (expected_block g.block_num) b in
      let none_after = ap (λ r. last.1 ++ r.1) (receive_none last.0) in
      rw (expected_block_wraps g.block_num d.numbered, received c sender g b [] d, none_after)
        (
          ap (◌++◌ b) (stored-append last.1 [] ∙ ap (λ s. s ++ []) writes),
          settled_first last.1 [] (g.bytes_received + length b) settles
              ∙ ap (λ (s : Buffer). some (g.bytes_received + length s)) (sym (append-nil b)),
        )
  download_stores g (b ∷ e ∷ cs) d (full, rest) =
      let n = expected_block g.block_num in
      let (g', on, num, opts, bytes, stores, settles, end) =
        receive_full g b (data_packets n (e ∷ cs)) d full in
      let (all, bytes_all) =
        download_stores g' (e ∷ cs) on
          (subst (λ v. IsUpload (block_size_of v) (e ∷ cs)) (sym opts) rest) in
      let numbered = ap (λ k. (receive c sender (data_packets k (e ∷ cs)) g').1) (sym num) in
      rw (expected_block_wraps g.block_num d.numbered) (
        stores ∙ ap (λ r. b ++ stored r) numbered ∙ ap (◌++◌ b) all,
        settles
            ∙ ap settled numbered
            ∙ bytes_all
            ∙ ap some (omega (arith, bytes, length-append b (concat (e ∷ cs)))),
      )

  -- Where only full blocks come, the local file gets them all too, but the download is under way
  -- still: nothing has settled it.
  pub full_blocks_unsettled :
      (g : Get) (cs : List Buffer)
      → IsDownloading c sender g
      → All (λ b. length b ≡ block_size_of g.validated) cs
      → let r = receive c sender (data_packets g.block_num cs) g in
        (stored r.1 ≡ concat cs) × (settled r.1 ≡ none) × IsDownloading c sender r.0
  full_blocks_unsettled g [] d h = rw (receive_none g) (refl, refl, d)
  full_blocks_unsettled g (b ∷ cs) d (full, rest) =
      let n = expected_block g.block_num in
      let (g', on, num, opts, bytes, stores, settles, end) =
        receive_full g b (data_packets n cs) d full in
      let (all, unsettled, still) =
        full_blocks_unsettled g' cs on
          (subst (λ v. All (λ b. length b ≡ block_size_of v) cs) (sym opts) rest) in
      let numbered = ap (λ k. receive c sender (data_packets k cs) g') (sym num) in
      rw (expected_block_wraps g.block_num d.numbered) (
        stores ∙ ap (λ r. b ++ stored r.1) numbered ∙ ap (◌++◌ b) all,
        settles ∙ ap (λ r. settled r.1) numbered ∙ unsettled,
        subst (λ h. IsDownloading c sender h) (sym (end ∙ ap (λ r. r.0) numbered)) still,
      )
