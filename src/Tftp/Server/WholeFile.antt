-- ===== src/Tftp/Server/WholeFile.antt =====
-- What a client that acknowledges every window gets from src/tftp/server.mts, and how the
-- transfer ends.
use tsbootkit.Base.{
  ℕ, suc, ◌+◌, ◌*◌, ◌≡◌, ◌<◌, arith, List, [], ◌∷◌, length, some, All, false, ◌++◌, if◌then◌else◌,
}
use tsbootkit.Base.Text.{Str}
use tsbootkit.Base.Buffer.{Buffer}
use tsbootkit.Tftp.Transfer.{Transfer, send_last, done, handle_ack}
use tsbootkit.Tftp.Server.{
  handle_transfer_ack, remove_transfer, emit_complete, remove_effects, close_file,
}
use tsbootkit.Tftp.Server.Chunks.{
  concat, file_chunks, concat-file_chunks, window_chunks_full, window_chunks-EndsShort, EndsShort,
}
use tsbootkit.Tftp.Server.Download.{IsFresh, Delivers, fresh_sends}

-- From a fresh transfer that wraps block numbers, with a block and a window size above 0, and
-- whatever the file: the download whose windows are acknowledged ends and sends the file: the data of its packets, numbered from 1 and wrapping to 1 after
-- 65535, make up the file when put together in the order in which they were sent.
pub download-Delivers_file :
    (file : Buffer) (message : Str) (now : ℕ) (t : Transfer) (fresh : IsFresh t)
    → (cs : List Buffer) × Delivers file message now t fresh cs × (concat cs ≡ file)
download-Delivers_file file message now t fresh = (
  file_chunks t.opts.blksize file,
  fresh_sends file message now t fresh,
  concat-file_chunks t.opts.blksize file fresh.ready.block_size,
)

-- Of a fresh transfer of a file whose length is no multiple of the block size, every packet but the last is full
-- and the last is short, so that the client sees the end.
pub download-EndsShort :
    (file : Buffer) (message : Str) (now : ℕ) (t : Transfer) (fresh : IsFresh t) (k r : ℕ)
    → length file ≡ k * t.opts.blksize + r
    → 0 < r
    → r < t.opts.blksize
    → (cs : List Buffer) × Delivers file message now t fresh cs × EndsShort t.opts.blksize cs
download-EndsShort file message now t fresh k r e pos small = (
  file_chunks t.opts.blksize file,
  fresh_sends file message now t fresh,
  window_chunks-EndsShort (suc (length file)) t.opts.blksize k r file e pos small (omega arith),
)

-- Of a fresh transfer of a file whose length is a multiple, the server reaches the state in which it waits for the final ACK having
-- sent full packets only: the empty block that would mark the end is not sent.
pub download_lacks_end :
    (file : Buffer) (message : Str) (now : ℕ) (t : Transfer) (fresh : IsFresh t) (k : ℕ)
    → length file ≡ k * t.opts.blksize
    → (cs : List Buffer) × Delivers file message now t fresh cs
      × All (λ c. length c ≡ t.opts.blksize) cs
download_lacks_end file message now t fresh k e = (
  file_chunks t.opts.blksize file,
  fresh_sends file message now t fresh,
  window_chunks_full (suc (length file)) t.opts.blksize k file e,
)

-- In the state of the final wait any ACK, whatever its number, completes the transfer: it is
-- removed, its file is closed, and it is reported complete.
pub final_ack_completes :
    (file : Buffer) (message : Str) (now : ℕ) (t : Transfer) (block_num : ℕ)
    → t.state ≡ send_last
    → handle_transfer_ack file message now t block_num
      ≡ some (record {
        transfer = record t { state = done; file_open = false; last_seen = now; retries = 0 };
        effects =
            remove_transfer
            ∷ ((if t.file_open then close_file ∷ [] else []) ++ (emit_complete ∷ []));
        thrown = false;
      })
unfolding handle_transfer_ack handle_ack remove_effects
final_ack_completes file message now t block_num e = rw e (ground arith)
