-- ===== src/Tftp/Server/Duplicates.antt =====
-- Duplicate and stray packets.
use tsbootkit.Base.{
  ℕ, suc, ◌+◌, ◌-◌, ◌≡◌, ◌≢◌, ◌≤◌, ◌<◌, ◌∙◌, arith, [], ◌∷◌, some, true, false, ◌++◌, ◌==◌,
  if◌then◌else◌, drop, length,
}
use tsbootkit.Base.Text.{Str, codes, is_empty}
use tsbootkit.Base.Buffer.{Buffer, bytes16, from_ascii}
use tsbootkit.Tftp.Encode.Layout.{encode_ack_lem, null_terminated}
use tsbootkit.Tftp.Transfer.{
  Transfer, send, recv, done, handle_ack, handle_data, set_error, advance_error, nothing, reply,
}
use tsbootkit.Tftp.Server.Rounds.{IsReady}
use tsbootkit.Tftp.Server.Window.{send_data_blocks-Ran}
use tsbootkit.Tftp.Server.Chunks.{concat, window_chunks, data_effects, last_number}
use tsbootkit.Tftp.Server.{
  handle_transfer_ack, handle_transfer_data, after_data, send_packet, append_file, remove_transfer,
  emit_complete, remove_effects, send_data_blocks, Outcome, close_file,
}

-- The duplicate is not ignored.
duplicate_ack-send :
    (file : Buffer) (message : Str) (now : ℕ) (t : Transfer) (block_num : ℕ)
    → t.state ≡ send
    → 0 < t.total_packets
    → t.block_num ≡ suc block_num
    → handle_transfer_ack file message now t block_num
      ≡ send_data_blocks file message now (record t { last_seen = now; retries = 0 })
unfolding handle_transfer_ack
duplicate_ack-send file message now t block_num s sent e =
    let behind : handle_ack t block_num now ≡ (record t { last_seen = now; retries = 0 }, nothing) =
      unfold handle_ack in rw (s, e) (ground arith) in
    rw (behind, s)

-- In a download with wrap-around that has sent a block and waits to send more, an ACK of the block
-- before the last one sent makes the server send the next window: its DATA packets carry the next
-- blocks of the file, as many as the window holds, numbered on from the last one sent, and the
-- transfer stands behind them.
pub duplicate_ack_sends :
    (file : Buffer) (message : Str) (now : ℕ) (t : Transfer)
    → IsReady t
    → (block_num : ℕ) → 0 < t.total_packets
    → t.block_num ≡ suc block_num
    → let cs = window_chunks t.opts.windowsize t.opts.blksize (drop t.file_offset file) in
      (o : Outcome) × (handle_transfer_ack file message now t block_num ≡ some o)
      × (o.effects ≡ data_effects true t.block_num cs)
      × (o.transfer.block_num ≡ last_number true t.block_num cs)
      × (o.transfer.file_offset ≡ t.file_offset + length (concat cs))
duplicate_ack_sends file message now t ready block_num sent e =
    let (o, run, ran) =
      send_data_blocks-Ran file message now (record t { last_seen = now; retries = 0 })
        (record {
          sending = ready.sending;
          unbuffered = ready.unbuffered;
          block_size = ready.block_size;
          window_size = ready.window_size;
          wrapping = ready.wrapping;
          numbered = ready.numbered;
        }) in
    (
      o,
      duplicate_ack-send file message now t block_num ready.sending sent e ∙ run,
      ran.effects,
      ran.number,
      ran.offset,
    )

-- In a download that has sent a block, an ACK of neither the last block nor the one before it ends
-- the transfer: it is removed and reported complete, and no packet
-- is sent, although the state machine made an ERROR packet.
pub stray_ack_completes :
    (file : Buffer) (message : Str) (now : ℕ) (t : Transfer) (block_num : ℕ)
    → t.state ≡ send
    → 0 < t.total_packets
    → block_num ≢ t.block_num
    → suc block_num ≢ t.block_num
    → (u : Transfer) × (p : Buffer) × (handle_ack t block_num now ≡ (u, reply (p ∷ []) true))
      × (handle_transfer_ack file message now t block_num
          ≡ some (record {
            transfer = record u { file_open = false };
            effects =
                remove_transfer
                ∷ ((if t.file_open then close_file ∷ [] else []) ++ (emit_complete ∷ []));
            thrown = false;
          }))
unfolding handle_transfer_ack remove_effects
stray_ack_completes file message now t block_num s sent other before =
    let started : (t.total_packets == 0) ≡ false = ground arith in
    let differs : (block_num == t.block_num) ≡ false = ground arith in
    let no_duplicate : (block_num + 1 == t.block_num) ≡ false = ground arith in
    let u = record t {
      state = done;
      error_code = 4;
      error_message = codes "ACK block number mismatch";
      last_seen = now;
      retries = 0;
    } in
    let p = 0 ∷ 5 ∷ (bytes16 4 ++ null_terminated (codes "ACK block number mismatch")) in
    let answer : handle_ack t block_num now ≡ (u, reply (p ∷ []) true) =
      unfold handle_ack set_error advance_error null_terminated from_ascii in
      rw (s, started, differs, no_duplicate) (ground arith) in
    (u, p, answer, rw answer (ground arith))

-- The ACK for a block that was received before.
duplicate_reply :
    (t : Transfer) (block_num now : ℕ) (content : Buffer)
    → t.state ≡ recv
    → t.block_num ≡ suc block_num
    → block_num ≤ 65535
    → handle_data t block_num content now
      ≡ (record t { last_seen = now; retries = 0 }, reply ((0 ∷ 4 ∷ bytes16 block_num) ∷ []) false)
unfolding handle_data
duplicate_reply t block_num now content s e fits =
    let back : suc block_num - 1 ≡ block_num = omega arith in
    let differs : (block_num == suc block_num) ≡ false = ground arith in
    let behind : (block_num + 1 == suc block_num) ≡ true = ground arith in
    rw (s, e, differs, behind, back, encode_ack_lem block_num fits)

-- In an upload that has received data, a DATA packet with the number before the expected one,
-- whatever it carries, and with appending to the file succeeding, makes the server append the data of the block
-- before once more, and acknowledge that block.
pub duplicate_data_appends :
    (now : ℕ) (t : Transfer) (block_num : ℕ) (content : Buffer)
    → t.state ≡ recv
    → t.block_num ≡ suc block_num
    → block_num ≤ 65535
    → is_empty t.recv_data ≡ false
    → handle_transfer_data false now t block_num content ≡ record {
      transfer = record t { last_seen = now; retries = 0 };
      effects = append_file t.recv_data ∷ send_packet (0 ∷ 4 ∷ bytes16 block_num) ∷ [];
      thrown = false;
    }
unfolding handle_transfer_data after_data
duplicate_data_appends now t block_num content s e fits full =
    rw (duplicate_reply t block_num now content s e fits, full, s)
