-- ===== src/Tftp/Server/Run.antt =====
-- What a run of sendDataBlocks in src/tftp/server.mts leaves behind.
use tsbootkit.Base.{
  ℕ, suc, ◌+◌, ◌≡◌, ◌≤◌, ◌<◌, refl, arith, sym, true, false, List, [], ◌∷◌, ◌++◌, length, take,
  drop, append_assoc, append-nil, le→not_ltb, length-append,
}
use tsbootkit.Base.Buffer.{Buffer}
use tsbootkit.Tftp.Transfer.{Transfer, wrap_number}
use tsbootkit.Tftp.Server.{Effect, Outcome, send_packet}
use tsbootkit.Tftp.Server.Chunks.{
  window_chunks, window_state, concat, data_effects, data_packet_bytes, last_number,
}
use tsbootkit.Tftp.Server.Rounds.{IsReady, wrap_number-le, advanced}

-- A run that sent the window of `r` blocks at the front of `rest`, after the effects `before`.
pub record Ran (t : Transfer) (r : ℕ) (rest : Buffer) (before : List Effect) (o : Outcome)
    : Type 0 where
  pub effects :
      o.effects ≡ before ++ data_effects true t.block_num (window_chunks r t.opts.blksize rest)
  pub calm : o.thrown ≡ false
  pub state : o.transfer.state ≡ window_state r t.opts.blksize rest
  pub number :
      o.transfer.block_num ≡ last_number true t.block_num (window_chunks r t.opts.blksize rest)
  pub offset :
      o.transfer.file_offset ≡ t.file_offset + length (concat (window_chunks r t.opts.blksize rest))
  pub total :
      o.transfer.total_packets ≡ t.total_packets + length (window_chunks r t.opts.blksize rest)
  pub opts : o.transfer.opts ≡ t.opts
  pub wrapping : o.transfer.wrap_block_num ≡ true
  pub unbuffered : o.transfer.send_buffer ≡ []

pub advanced-IsReady : (t : Transfer) (c : Buffer) → IsReady t → IsReady (advanced t c)
advanced-IsReady t c r = record {
  sending = r.sending;
  unbuffered = refl;
  block_size = r.block_size;
  window_size = r.window_size;
  wrapping = r.wrapping;
  numbered = wrap_number-le (t.block_num + 1);
}

-- A full block in front of a run.
pub Ran-cons :
    (t : Transfer) (r : ℕ) (rest : Buffer) (before : List Effect) (o : Outcome)
    → t.opts.blksize ≤ length rest
    → 0 < t.opts.blksize
    → Ran
        (advanced t (take t.opts.blksize rest))
        r
        (drop t.opts.blksize rest)
        (before
          ++ (send_packet
                (data_packet_bytes (wrap_number true (t.block_num + 1)) (take t.opts.blksize rest))
              ∷ []))
        o
    → Ran t (suc r) rest before o
unfolding window_chunks window_state
Ran-cons t r [] before o fits pos h = absurd (omega arith)
Ran-cons t r (x ∷ rest) before o fits pos h =
    let many = le→not_ltb (length (x ∷ rest)) t.opts.blksize fits in
    let c = take t.opts.blksize (x ∷ rest) in
    let cs = window_chunks r t.opts.blksize (drop t.opts.blksize (x ∷ rest)) in
    record {
      effects = rw (many, h.effects) (append_assoc before _ _);
      calm = h.calm;
      state = rw (many, h.state);
      number = rw (many, h.number);
      offset = rw (many, h.offset) (omega (arith, length-append c (concat cs)));
      total = rw (many, h.total) (omega arith);
      opts = h.opts;
      wrapping = h.wrapping;
      unbuffered = h.unbuffered;
    }

pub Ran-nothing :
    (t : Transfer) (rest : Buffer) (before : List Effect)
    → IsReady t
    → Ran t 0 rest before (record { transfer = t; effects = before; thrown = false })
unfolding window_chunks window_state
Ran-nothing t rest before ready = record {
  effects = sym (append-nil before);
  calm = refl;
  state = ready.sending;
  number = refl;
  offset = omega arith;
  total = omega arith;
  opts = refl;
  wrapping = ready.wrapping;
  unbuffered = ready.unbuffered;
}
