-- ===== src/Tftp/Client/Put/Window.antt =====
-- A window of an upload.
use tsbootkit.Base.{
  ℕ, zero, suc, ◌+◌, ◌≡◌, ◌≤◌, ◌<◌, refl, ap, sym, ◌∙◌, arith, true, false, none, some, List, [],
  ◌∷◌, take, drop, ltb, length, Option, length-take, length-append, lt→ltb, le→not_ltb, Bool-cases,
  inl, inr, take-all, ltb→lt, not_ltb→ge, drop-drop,
}
use tsbootkit.Base.Text.{Str, is_empty}
use tsbootkit.Base.Buffer.{Buffer}
use tsbootkit.Tftp.Encode.Layout.{encode_data_lem}
use tsbootkit.Tftp.Server.Chunks.{window_chunks, concat, data_packet_bytes}
use tsbootkit.Tftp.Client.{ClientEffect, send_to, block_size_of}
use tsbootkit.Tftp.Encode.{encode_data}
use tsbootkit.Tftp.Client.Put.{block_sent, Put, send_blocks, wire_block, sent_block, read_block}
use tsbootkit.Tftp.Client.Put.Numbers.{counted, wire_block-counted}

-- DATA packets for blocks, of which the first is the block after `n`.
abbrev pub block_packets : ℕ → ℕ → List Buffer → List ClientEffect
block_packets port n [] = []
block_packets port n (c ∷ cs) =
    send_to port (data_packet_bytes (counted (n + 1)) c) ∷ block_packets port (n + 1) cs

-- An upload that has sent more blocks.
pub record SentBlocks (p : Put) (cs : List Buffer) (r : (Put × List ClientEffect) × Option Str)
    : Type 0 where
  pub unthrown : r.1 ≡ none
  pub packets : r.0.1 ≡ block_packets p.server_port p.block_num cs
  pub offset : r.0.0.offset ≡ p.offset + length (concat cs)
  pub block_num : r.0.0.block_num ≡ p.block_num + length cs
  pub bytes_sent : r.0.0.bytes_sent ≡ p.bytes_sent + length (concat cs)
  pub validated : r.0.0.validated ≡ p.validated
  pub server_port : r.0.0.server_port ≡ p.server_port
  pub is_open : r.0.0.is_open ≡ p.is_open
  pub listening : r.0.0.listening ≡ p.listening

wire_block_fits : (n : ℕ) → wire_block n ≤ 65535
wire_block_fits n = ground arith

-- One round of the loop with a block of the file.
round :
    (left : ℕ) (file : Buffer) (p : Put)
    → is_empty (read_block file p.offset (block_size_of p.validated)) ≡ false
    → let c = read_block file p.offset (block_size_of p.validated) in
      let packet = data_packet_bytes (counted (p.block_num + 1)) c in
      let p1 = sent_block p c in
      send_blocks (suc left) file p
      ≡ block_sent p p1
          (some packet)
          (ltb (length c) (block_size_of p.validated))
          (send_blocks left file (record p1 { last_packet = packet }))
unfolding send_blocks
round left file p some_bytes =
    let c = read_block file p.offset (block_size_of p.validated) in
    let encoded : encode_data (wire_block (p.block_num + 1)) c
        ≡ some (data_packet_bytes (counted (p.block_num + 1)) c) =
      encode_data_lem (wire_block (p.block_num + 1)) c (wire_block_fits (p.block_num + 1))
      ∙ ap (λ n. some (data_packet_bytes n c)) (wire_block-counted (p.block_num + 1)) in
    rw (some_bytes, encoded) refl

-- The sent block and those of the rounds after it.
SentBlocks-cons :
    (p : Put) (c : Buffer) (cs : List Buffer) (r : (Put × List ClientEffect) × Option Str)
    → let packet = data_packet_bytes (counted (p.block_num + 1)) c in
      SentBlocks (record (sent_block p c) { last_packet = packet }) cs r
      → SentBlocks p (c ∷ cs) (block_sent p (sent_block p c) (some packet) false r)
SentBlocks-cons p c cs r s = record {
  unthrown = s.unthrown;
  packets =
      ap (◌∷◌ (send_to p.server_port (data_packet_bytes (counted (p.block_num + 1)) c))) s.packets;
  offset = omega (arith, s.offset, length-append c (concat cs));
  block_num = omega (arith, s.block_num);
  bytes_sent = omega (arith, s.bytes_sent, length-append c (concat cs));
  validated = s.validated;
  server_port = s.server_port;
  is_open = s.is_open;
  listening = s.listening;
}

SentBlocks-last :
    (p : Put) (c : Buffer) (r : (Put × List ClientEffect) × Option Str)
    → let packet = data_packet_bytes (counted (p.block_num + 1)) c in
      SentBlocks p (c ∷ []) (block_sent p (sent_block p c) (some packet) true r)
SentBlocks-last p c r = record {
  unthrown = refl;
  packets = refl;
  offset = omega (arith, length-append c []);
  block_num = refl;
  bytes_sent = omega (arith, length-append c []);
  validated = refl;
  server_port = refl;
  is_open = refl;
  listening = refl;
}

SentBlocks-none : (p : Put) → SentBlocks p [] ((p, []), none)
SentBlocks-none p = record {
  unthrown = refl;
  packets = refl;
  offset = omega arith;
  block_num = omega arith;
  bytes_sent = omega arith;
  validated = refl;
  server_port = refl;
  is_open = refl;
  listening = refl;
}

is_empty-take : (b x : ℕ) (xs : Buffer) → 0 < b → is_empty (take b (x ∷ xs)) ≡ false
is_empty-take zero x xs pos = absurd (omega arith)
is_empty-take (suc b) x xs pos = refl

chunks_last :
    (n b x : ℕ) (xs : Buffer)
    → length (x ∷ xs) < b
    → window_chunks (suc n) b (x ∷ xs) ≡ take b (x ∷ xs) ∷ []
unfolding window_chunks
chunks_last n b x xs short =
    rw (lt→ltb (length (x ∷ xs)) b short)
      (ap (λ (c : Buffer). c ∷ []) (sym (take-all b (x ∷ xs) (omega arith))))

chunks_more :
    (n b x : ℕ) (xs : Buffer)
    → b ≤ length (x ∷ xs)
    → window_chunks (suc n) b (x ∷ xs) ≡ take b (x ∷ xs) ∷ window_chunks n b (drop b (x ∷ xs))
unfolding window_chunks
chunks_more n b x xs enough = rw (le→not_ltb (length (x ∷ xs)) b enough) refl

no_blocks :
    (left : ℕ) (file : Buffer) (p : Put)
    → drop p.offset file ≡ []
    → SentBlocks p
        (window_chunks left (block_size_of p.validated) (drop p.offset file))
        (send_blocks left file p)
unfolding send_blocks window_chunks
no_blocks zero file p e = SentBlocks-none p
no_blocks (suc left) file p e =
    rw (e, take-all {A = ℕ} (block_size_of p.validated) [] (omega arith)) (SentBlocks-none p)

SentBlocks-zero :
    (file : Buffer) (p : Put)
    → SentBlocks p
        (window_chunks zero (block_size_of p.validated) (drop p.offset file))
        (send_blocks zero file p)
unfolding send_blocks window_chunks
SentBlocks-zero file p = SentBlocks-none p

abbrev SendsBlocks : ℕ → Buffer → Put → Type 0
SendsBlocks left file p =
    SentBlocks p (window_chunks left (block_size_of p.validated) (drop p.offset file))
      (send_blocks left file p)

sends_round :
    (left : ℕ) (file : Buffer) (p : Put) (x : ℕ) (xs : Buffer)
    → drop p.offset file ≡ x ∷ xs
    → 0 < block_size_of p.validated
    → ((q : Put) → 0 < block_size_of q.validated → SendsBlocks left file q)
    → SendsBlocks (suc left) file p
sends_round left file p x xs e pos others =
    let more : is_empty (read_block file p.offset (block_size_of p.validated)) ≡ false =
      rw e (is_empty-take (block_size_of p.validated) x xs pos) in
    let same : length (read_block file p.offset (block_size_of p.validated))
        ≡ length (take (block_size_of p.validated) (x ∷ xs)) =
      rw e refl in
    elim (Bool-cases (ltb (length (x ∷ xs)) (block_size_of p.validated))) [
      | inl short ↦
          let less = ltb→lt (length (x ∷ xs)) (block_size_of p.validated) short in
          let is_last : ltb (length (read_block file p.offset (block_size_of p.validated)))
                (block_size_of p.validated)
              ≡ true =
            lt→ltb (length (read_block file p.offset (block_size_of p.validated)))
              (block_size_of p.validated)
              (omega (arith, same, less, length-take (block_size_of p.validated) (x ∷ xs))) in
          let chunks : window_chunks (suc left) (block_size_of p.validated) (drop p.offset file)
              ≡ read_block file p.offset (block_size_of p.validated) ∷ [] =
            rw e (chunks_last left (block_size_of p.validated) x xs less) in
          rw (round left file p more, is_last, chunks)
            (SentBlocks-last p (read_block file p.offset (block_size_of p.validated)) (
              send_blocks left file
                (record (sent_block p (read_block file p.offset (block_size_of p.validated))) {
                  last_packet =
                      data_packet_bytes (counted (p.block_num + 1))
                        (read_block file p.offset (block_size_of p.validated));
                })))
      | inr long ↦
          let enough = not_ltb→ge (length (x ∷ xs)) (block_size_of p.validated) long in
          let full : length (read_block file p.offset (block_size_of p.validated))
              ≡ (block_size_of p.validated) =
            omega (arith, same, enough, length-take (block_size_of p.validated) (x ∷ xs)) in
          let goes_on : ltb (length (read_block file p.offset (block_size_of p.validated)))
                (block_size_of p.validated)
              ≡ false =
            le→not_ltb (length (read_block file p.offset (block_size_of p.validated)))
              (block_size_of p.validated) (omega (arith, full)) in
          let chunks : window_chunks (suc left) (block_size_of p.validated) (drop p.offset file)
              ≡ read_block file p.offset (block_size_of p.validated)
                ∷ window_chunks left (block_size_of p.validated) (
                    drop (p.offset + length (read_block file p.offset (block_size_of p.validated)))
                      file) =
            rw (full, ← drop-drop (block_size_of p.validated) p.offset file, e)
              (chunks_more left (block_size_of p.validated) x xs enough) in
          rw (round left file p more, goes_on, chunks)
            (SentBlocks-cons p (read_block file p.offset (block_size_of p.validated)) _ _
              (others _ pos))
    ]

-- A window of an upload with a block size above 0 sends the next blocks of the file, under the numbers
-- that the server counts to, and moves the offset and the counts past them.
pub send_blocks-SentBlocks :
    (left : ℕ) (file : Buffer) (p : Put)
    → 0 < block_size_of p.validated
    → SentBlocks p
        (window_chunks left (block_size_of p.validated) (drop p.offset file))
        (send_blocks left file p)
send_blocks-SentBlocks zero file p pos = SentBlocks-zero file p
send_blocks-SentBlocks (suc left) file p pos =
    by_rest (drop p.offset file) refl (send_blocks-SentBlocks left file)
  where
    by_rest :
        (rest : Buffer)
        → drop p.offset file ≡ rest
        → ((q : Put) → 0 < block_size_of q.validated → SendsBlocks left file q)
        → SendsBlocks (suc left) file p
    by_rest [] e others = no_blocks (suc left) file p e
    by_rest (x ∷ xs) e others = sends_round left file p x xs e pos others
