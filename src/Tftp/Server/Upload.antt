-- ===== src/Tftp/Server/Upload.antt =====
-- A whole upload, block by block, and the ACKs that it gets.
use tsbootkit.Base.{
  ℕ, ◌+◌, ◌≡◌, ◌≤◌, ◌<◌, refl, arith, sym, ap, ap₂, subst, ◌∙◌, List, [], ◌∷◌, length, true, false,
  ◌++◌, ==_refl, if◌then◌else◌, ltb, leb, Bool-cases, inl, inr, lt→ltb, le→not_ltb, append-nil,
  append_assoc,
}
use tsbootkit.Base.Buffer.{Buffer, bytes16}
use tsbootkit.Tftp.Types.{ValidatedOptions}
use tsbootkit.Tftp.Encode.Layout.{encode_ack_lem}
use tsbootkit.Tftp.Transfer.{
  Transfer, Reply, recv, done, handle_data, accept_data, nothing, reply, wrap_number,
}
use tsbootkit.Tftp.Server.{
  Effect, Outcome, handle_transfer_data, after_data, send_packet, append_file, emit_complete,
  remove_effects, close_file, remove_transfer, emit_error,
}
use tsbootkit.Tftp.Server.Chunks.{concat}

-- What the effects write to the file.
abbrev pub appended : List Effect → Buffer
appended [] = []
appended (append_file c ∷ es) = c ++ appended es
appended (_ ∷ es) = appended es

appended-append : (es fs : List Effect) → appended (es ++ fs) ≡ appended es ++ appended fs
appended-append [] fs = refl
appended-append (append_file c ∷ es) fs = rw (appended-append es fs) (sym (append_assoc c _ _))
appended-append (send_packet p ∷ es) fs = appended-append es fs
appended-append (close_file ∷ es) fs = appended-append es fs
appended-append (remove_transfer ∷ es) fs = appended-append es fs
appended-append (emit_complete ∷ es) fs = appended-append es fs
appended-append (emit_error c m ∷ es) fs = appended-append es fs

-- An upload that expects its next block.
pub record IsReceiving (t : Transfer) : Type 0 where
  pub receiving : t.state ≡ recv
  pub wrapping : t.wrap_block_num ≡ true
  pub numbered : t.block_num ≤ 65535

-- All blocks are full but the last, which is short and may be empty.
abbrev pub IsUpload : ℕ → List Buffer → Type 0
IsUpload b [] = ⊥
IsUpload b (c ∷ []) = length c < b
IsUpload b (c ∷ d ∷ cs) = (length c ≡ b) × IsUpload b (d ∷ cs)

handle_data-expected :
    (t : Transfer) (now : ℕ) (c : Buffer)
    → t.state ≡ recv
    → length c ≤ t.opts.blksize
    → handle_data t t.block_num c now ≡ accept_data (record t { last_seen = now; retries = 0 }) c
unfolding handle_data
handle_data-expected t now c s fits =
    rw (s, ==_refl t.block_num, le→not_ltb t.opts.blksize (length c) fits)

-- The answer to a full block.
abbrev full_reply : Transfer → Buffer → Transfer × Reply
full_reply t c =
    if leb (t.last_acked + t.opts.windowsize) t.block_num
    then (
      record t {
        recv_data = c;
        bytes_received = t.bytes_received + length c;
        block_num = wrap_number t.wrap_block_num (t.block_num + 1);
        total_packets = t.total_packets + 1;
        last_acked = t.block_num;
      },
      reply ((0 ∷ 4 ∷ bytes16 t.block_num) ∷ []) false,
    )
    else (
      record t {
        recv_data = c;
        bytes_received = t.bytes_received + length c;
        block_num = wrap_number t.wrap_block_num (t.block_num + 1);
        total_packets = t.total_packets + 1;
      },
      nothing,
    )

-- A full block: it is stored, and acknowledged at the end of a window.
accept_full :
    (t : Transfer) (c : Buffer)
    → length c ≡ t.opts.blksize
    → t.block_num ≤ 65535
    → accept_data t c ≡ full_reply t c
unfolding accept_data
accept_full t c full fits =
    let whole : ltb (length c) t.opts.blksize ≡ false =
      le→not_ltb (length c) t.opts.blksize (omega arith) in
    rw (whole, encode_ack_lem t.block_num fits)

-- A short block ends the upload.
accept_short :
    (t : Transfer) (c : Buffer)
    → length c < t.opts.blksize
    → t.block_num ≤ 65535
    → accept_data t c ≡ (
      record t {
        recv_data = c;
        bytes_received = t.bytes_received + length c;
        last_acked = t.block_num;
        state = done;
      },
      reply ((0 ∷ 4 ∷ bytes16 t.block_num) ∷ []) true,
    )
unfolding accept_data
accept_short t c short fits =
    rw (lt→ltb (length c) t.opts.blksize short, encode_ack_lem t.block_num fits)

-- What the server does with one expected full block.
pub record TookBlock (t : Transfer) (c : Buffer) (o : Outcome) : Type 0 where
  pub stored : appended o.effects ≡ c
  pub receives : IsReceiving o.transfer
  pub number : o.transfer.block_num ≡ wrap_number true (t.block_num + 1)
  pub opts : o.transfer.opts ≡ t.opts

pub take_full :
    (now : ℕ) (t : Transfer) (c : Buffer)
    → IsReceiving t
    → 0 < t.opts.blksize
    → length c ≡ t.opts.blksize
    → TookBlock t c (handle_transfer_data false now t t.block_num c)
unfolding handle_transfer_data after_data
take_full now t [] r pos full = absurd (omega arith)
take_full now t (x ∷ c) r pos full =
    elim (Bool-cases (leb (t.last_acked + t.opts.windowsize) t.block_num)) [
      | inl due ↦
          rw (answer, due, r.receiving)
            (record {
              stored = ap (◌∷◌ x) (append-nil c);
              receives = record {
                receiving = refl;
                wrapping = r.wrapping;
                numbered = within_words;
              };
              number = rw r.wrapping;
              opts = refl;
            })
      | inr early ↦
          rw (answer, early, r.receiving)
            (record {
              stored = ap (◌∷◌ x) (append-nil c);
              receives = record {
                receiving = refl;
                wrapping = r.wrapping;
                numbered = within_words;
              };
              number = rw r.wrapping;
              opts = refl;
            })
    ]
  where
    touched : Transfer
    touched = record t { last_seen = now; retries = 0 }

    answer : handle_data t t.block_num (x ∷ c) now ≡ full_reply touched (x ∷ c)
    answer =
        handle_data-expected t now (x ∷ c) r.receiving (omega arith)
        ∙ accept_full touched (x ∷ c) full r.numbered

    within_words : wrap_number t.wrap_block_num (t.block_num + 1) ≤ 65535
    within_words = rw r.wrapping (ground arith)

-- A client that sends the blocks in order, each once, under the numbers that the server expects;
-- the final transfer and all effects.
unfoldable pub upload : ℕ → Transfer → List Buffer → Transfer × List Effect
upload now t [] = (t, [])
upload now t (c ∷ cs) =
    let o = handle_transfer_data false now t t.block_num c in
    let (u, effects) = upload now o.transfer cs in (u, o.effects ++ effects)

upload_last :
    (now : ℕ) (t : Transfer) (c : Buffer)
    → IsReceiving t
    → length c < t.opts.blksize
    → let (u, effects) = upload now t (c ∷ []) in (appended effects ≡ c) × (u.state ≡ done)
unfolding upload handle_transfer_data after_data remove_effects
upload_last now t [] r short =
    rw
      (
        handle_data-expected t now [] r.receiving (omega arith),
        accept_short (record t { last_seen = now; retries = 0 }) [] short r.numbered,
      )
      (ground arith)
upload_last now t (x ∷ c) r short =
    rw
      (
        handle_data-expected t now (x ∷ c) r.receiving (omega arith),
        accept_short (record t { last_seen = now; retries = 0 }) (x ∷ c) short r.numbered,
      )
      (ground (arith, append-nil c))

-- A transfer that receives, with wrap-around on and a positive block size, and gets blocks in order,
-- full but for a short last one, ends done with the blocks, put together, appended to the file,
-- whatever the window size and also past the wraparound of the block number.
pub upload_stores_file :
    (now : ℕ) (t : Transfer) (cs : List Buffer)
    → IsReceiving t
    → 0 < t.opts.blksize
    → IsUpload t.opts.blksize cs
    → let (u, effects) = upload now t cs in (appended effects ≡ concat cs) × (u.state ≡ done)
unfolding upload
upload_stores_file now t [] r pos h = absurd h
upload_stores_file now t (c ∷ []) r pos h =
    let (stored, ended) = upload_last now t c r h in (stored ∙ sym (append-nil c), ended)
upload_stores_file now t (c ∷ d ∷ cs) r pos (full, h) =
    let took = take_full now t c r pos full in
    let o = handle_transfer_data false now t t.block_num c in
    let size = ap (λ (v : ValidatedOptions). v.blksize) took.opts in
    let (stored, ended) =
      upload_stores_file now o.transfer (d ∷ cs) took.receives (omega (arith, size))
        (subst (λ b. IsUpload b (d ∷ cs)) (sym size) h) in
    (appended-append o.effects _ ∙ ap₂ ◌++◌ took.stored stored, ended)
