-- ===== src/Tftp/Client/Get/Blocks.antt =====
-- What a download makes of the next block.
use tsbootkit.Base.{
  ℕ, suc, ◌+◌, ◌==◌, ◌≡◌, ◌≤◌, ◌<◌, refl, sym, subst, ◌∙◌, arith, true, false, List, [], ◌∷◌, ◌++◌,
  ltb, leb, length, some, none, ok, lt→ltb, le→not_ltb, Bool-cases, inl, inr, ==_refl,
}
use tsbootkit.Base.Text.{str_eq}
use tsbootkit.Base.Buffer.{Buffer}
use tsbootkit.Tftp.Types.{Packet}
use tsbootkit.Tftp.Encode.Layout.{encode_ack_lem, encode_data_lem}
use tsbootkit.Tftp.Parse.{parse_packet, get_opcode}
use tsbootkit.Tftp.RoundTrip.{parse-encode_data}
use tsbootkit.Tftp.Transfer.{wrap_number}
use tsbootkit.Tftp.Server.Chunks.{data_packet_bytes}
use tsbootkit.Tftp.Client.{
  ClientSettings, ClientEffect, Sender, block_size_of, window_size_of, write_local,
}
use tsbootkit.Tftp.Client.Get.Overlap.{data_arrived_expected}
use tsbootkit.Tftp.Client.Get.{Get, on_get_message, from_server, data_written, expected_block}
use tsbootkit.Tftp.Client.Get.Effects.{receive, stored, settled}

-- The DATA packets of blocks, numbered after `n`, as the server numbers them.
abbrev pub data_packets : ℕ → List Buffer → List Buffer
data_packets n [] = []
data_packets n (b ∷ bs) =
    data_packet_bytes (wrap_number true (n + 1)) b ∷ data_packets (wrap_number true (n + 1)) bs

-- A download under way from `sender`.
pub record IsDownloading (c : ClientSettings) (sender : Sender) (g : Get) : Type 0 where
  pub listening : g.listening ≡ true
  pub from_host : str_eq sender.address c.host ≡ true
  pub from_port : sender.port ≡ g.server_port
  pub port_known : (g.server_port == 0) ≡ false
  pub is_open : g.is_open ≡ true
  pub numbered : g.block_num ≤ 65535

parse_data :
    (n : ℕ) (b : Buffer)
    → n ≤ 65535
    → parse_packet (data_packet_bytes n b) ≡ ok (some (Packet.data_packet n b))
parse_data n b fits =
    let (packet, sent, parsed) = parse-encode_data n b fits in
    let same : packet ≡ data_packet_bytes n b =
      ground (arith, sym sent ∙ encode_data_lem n b fits) in
    subst (λ p. parse_packet p ≡ ok (some (Packet.data_packet n b))) same parsed

expected_block_fits : (n : ℕ) → n ≤ 65535 → expected_block n ≤ 65535
expected_block_fits n h = ground arith

pub expected_block_wraps : (n : ℕ) → n ≤ 65535 → wrap_number true (n + 1) ≡ expected_block n
expected_block_wraps n h = ground arith

-- A message of the server passes the tests of the listener.
listened :
    (c : ClientSettings) (sender : Sender) (g : Get) (msg : Buffer)
    → IsDownloading c sender g
    → on_get_message c g sender msg ≡ from_server c g msg
unfolding on_get_message
listened c sender g msg d =
    let same_port : (sender.port == g.server_port) ≡ true =
      rw d.from_port (==_refl g.server_port) in
    simp (d.listening, d.from_host, d.port_known, same_port)

data_opcode : (n : ℕ) (b : Buffer) → get_opcode (data_packet_bytes n b) ≡ some 3
unfolding get_opcode
data_opcode n b = rw (le→not_ltb (suc (suc (suc (suc (length b))))) 2 (omega arith)) refl

-- What the handler makes of the next block.
next_block :
    (c : ClientSettings) (sender : Sender) (g : Get) (b : Buffer)
    → IsDownloading c sender g
    → from_server c g (data_packet_bytes (expected_block g.block_num) b) ≡ (
        let (g', after) = data_written (record g { retries = 0 }) (expected_block g.block_num) b in
        (g', write_local b ∷ after))
unfolding from_server
next_block c sender g b d =
    let n = expected_block g.block_num in
    rw (
      data_opcode n b,
      parse_data n b (expected_block_fits g.block_num d.numbered),
      data_arrived_expected c (record g { retries = 0 }) d.is_open,
    )

-- A full block is stored, and the download goes on; a short one ends it.
module _ (c : ClientSettings) (sender : Sender) where
  pub still_downloading :
      {g : Get} (h : Get)
      → IsDownloading c sender g
      → h.listening ≡ g.listening
      → h.server_port ≡ g.server_port
      → h.is_open ≡ g.is_open
      → h.block_num ≤ 65535
      → IsDownloading c sender h
  still_downloading h d listening port is_open numbered = record {
    listening = listening ∙ d.listening;
    from_host = d.from_host;
    from_port = d.from_port ∙ sym port;
    port_known = subst (λ p. (p == 0) ≡ false) (sym port) d.port_known;
    is_open = is_open ∙ d.is_open;
    numbered = numbered;
  }

  abbrev pub GoesOn : Get → Get × List ClientEffect → ℕ → Type 0
  GoesOn g r bytes =
      IsDownloading c sender r.0
      × (r.0.block_num ≡ expected_block g.block_num)
      × (r.0.validated ≡ g.validated)
      × (r.0.bytes_received ≡ g.bytes_received + bytes)
      × (stored r.1 ≡ [])
      × (settled r.1 ≡ none)

  pub data_written_full :
      (g : Get) (b : Buffer)
      → IsDownloading c sender g
      → length b ≡ block_size_of g.validated
      → GoesOn g (data_written g (expected_block g.block_num) b) (length b)
  unfolding data_written
  data_written_full g b d full =
      let n = expected_block g.block_num in
      let n_fits = expected_block_fits g.block_num d.numbered in
      let more : ltb (length b) (block_size_of g.validated) ≡ false =
        le→not_ltb (length b) (block_size_of g.validated) (omega (arith, full)) in
      elim (Bool-cases (leb (window_size_of g.validated) (g.in_window + 1))) [
        | inl e ↦
            rw (more, e, encode_ack_lem n n_fits)
              (still_downloading _ d refl refl refl n_fits, refl, refl, refl, refl, refl)
        | inr e ↦
            rw (more, e) (still_downloading _ d refl refl refl n_fits, refl, refl, refl, refl, refl)
      ]

  pub data_written_short :
      (g : Get) (b : Buffer)
      → IsDownloading c sender g
      → length b < block_size_of g.validated
      → let r = data_written g (expected_block g.block_num) b in
        (stored r.1 ≡ []) × (settled r.1 ≡ some (g.bytes_received + length b))
  unfolding data_written
  data_written_short g b d short =
      let n = expected_block g.block_num in
      rw
        (
          lt→ltb (length b) (block_size_of g.validated) short,
          encode_ack_lem n (expected_block_fits g.block_num d.numbered),
          d.is_open,
        )
        (refl, refl)

  pub received :
      (g : Get) (b : Buffer) (msgs : List Buffer)
      → IsDownloading c sender g
      → let n = expected_block g.block_num in
        let (g', after) = data_written (record g { retries = 0 }) n b in
        let (g2, more) = receive c sender msgs g' in
        receive c sender (data_packet_bytes n b ∷ msgs) g ≡ (g2, write_local b ∷ (after ++ more))
  unfolding receive
  received g b msgs d = rw (
    listened c sender g (data_packet_bytes (expected_block g.block_num) b) d,
    next_block c sender g b d,
  )
