-- ===== src/Tftp/Server/Rounds.antt =====
-- One round of sendDataBlocks in src/tftp/server.mts: what it reads, packs and sends.
use tsbootkit.Base.{
  ℕ, zero, suc, ◌+◌, ◌≡◌, ◌≤◌, ◌<◌, refl, arith, Bool, true, false, [], ◌∷◌, length, ltb, take,
  some, le→not_ltb, lt→ltb,
}
use tsbootkit.Base.Text.{is_empty}
use tsbootkit.Base.Buffer.{Buffer}
use tsbootkit.Tftp.Encode.Layout.{encode_data_lem}
use tsbootkit.Tftp.Transfer.{Transfer, send, send_last, wrap_number, produce_data_packet}
use tsbootkit.Tftp.Server.{send_round, stop, sent}
use tsbootkit.Tftp.Server.Chunks.{data_packet_bytes}

-- A download that waits to send: nothing is left over from an earlier read.
pub record IsReady (t : Transfer) : Type 0 where
  pub sending : t.state ≡ send
  pub unbuffered : t.send_buffer ≡ []
  pub block_size : 0 < t.opts.blksize
  pub window_size : 0 < t.opts.windowsize
  pub wrapping : t.wrap_block_num ≡ true
  pub numbered : t.block_num ≤ 65535

pub wrap_number-le : (n : ℕ) → wrap_number true n ≤ 65535
wrap_number-le n = ground arith

-- A block of the file: full, or the short one at its end.
produce_full :
    (t : Transfer) (content : Buffer) (is_eof : Bool)
    → t.send_buffer ≡ []
    → t.wrap_block_num ≡ true
    → length content ≡ t.opts.blksize
    → let n = wrap_number true (t.block_num + 1) in
      produce_data_packet t content is_eof ≡ (
        record t { send_buffer = []; block_num = n; total_packets = t.total_packets + 1 },
        some (data_packet_bytes n content),
      )
unfolding produce_data_packet
produce_full t content is_eof unbuffered wrapping full =
    rw
      (
        unbuffered,
        wrapping,
        full,
        le→not_ltb t.opts.blksize t.opts.blksize (omega arith),
        encode_data_lem (wrap_number true (t.block_num + 1)) content
            (wrap_number-le (t.block_num + 1)),
      )
      (ground arith)

produce_short :
    (t : Transfer) (content : Buffer) (is_eof : Bool)
    → t.send_buffer ≡ []
    → t.wrap_block_num ≡ true
    → length content < t.opts.blksize
    → let n = wrap_number true (t.block_num + 1) in
      produce_data_packet t content is_eof ≡ (
        record t {
          send_buffer = [];
          block_num = n;
          total_packets = t.total_packets + 1;
          state = send_last;
        },
        some (data_packet_bytes n content),
      )
unfolding produce_data_packet
produce_short t content is_eof unbuffered wrapping short =
    rw
      (
        unbuffered,
        wrapping,
        le→not_ltb t.opts.blksize (length content) (omega arith),
        encode_data_lem (wrap_number true (t.block_num + 1)) content
            (wrap_number-le (t.block_num + 1)),
        lt→ltb (length content) t.opts.blksize short,
      )
      (ground arith)

pub take-nil : (b : ℕ) → take {A = ℕ} b [] ≡ []
take-nil zero = refl
take-nil (suc b) = refl

-- The transfer after one block was read, packed and counted.
abbrev pub advanced : Transfer → Buffer → Transfer
advanced t content = record t {
  file_offset = t.file_offset + length content;
  send_buffer = [];
  block_num = wrap_number true (t.block_num + 1);
  total_packets = t.total_packets + 1;
  bytes_sent = t.bytes_sent + length content;
}

-- What a round makes of a file at its end, of a short block and of a full one.
pub round_at_end :
    (t : Transfer)
    → IsReady t
    → send_round t.opts.blksize t []
      ≡ stop (record t { file_offset = t.file_offset + 0; state = send_last })
unfolding send_round
round_at_end t r = rw r.sending

pub round_short :
    (t : Transfer) (c : Buffer)
    → IsReady t
    → is_empty c ≡ false
    → length c < t.opts.blksize
    → send_round t.opts.blksize t c
      ≡ sent
          (record (advanced t c) { state = send_last })
          (data_packet_bytes (wrap_number true (t.block_num + 1)) c)
unfolding send_round
round_short t [] r e short = cc
round_short t (x ∷ c) r e short =
    rw
      (
        produce_short (record t { file_offset = t.file_offset + length (x ∷ c) }) (x ∷ c)
            (ltb (length (x ∷ c)) t.opts.blksize) r.unbuffered r.wrapping short,
        r.sending,
      )
      (ground arith)

pub round_full :
    (t : Transfer) (c : Buffer)
    → IsReady t
    → length c ≡ t.opts.blksize
    → send_round t.opts.blksize t c
      ≡ sent (advanced t c) (data_packet_bytes (wrap_number true (t.block_num + 1)) c)
unfolding send_round
round_full t [] r full = absurd (omega (arith, r.block_size))
round_full t (x ∷ c) r full =
    rw
      (
        produce_full (record t { file_offset = t.file_offset + length (x ∷ c) }) (x ∷ c)
            (ltb (length (x ∷ c)) t.opts.blksize) r.unbuffered r.wrapping full,
        r.sending,
      )
      (ground arith)
