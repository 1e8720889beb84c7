-- ===== src/Tftp/Tests.antt =====
-- Concrete packets and transfers on which the theorems of the TFTP part are used.
use tsbootkit.Base.{
  ◌≡◌, ◌≢◌, ◌≤◌, inl, refl, arith, List, [], ◌∷◌, some, none, true, false, length, ok, All,
}
use tsbootkit.Base.Text.{codes}
use tsbootkit.Base.Buffer.{Buffer}
use tsbootkit.Base.Store.{Map, has, get}
use tsbootkit.Tftp.Types.{Request, RawOptions, ValidatedOptions, Packet, blksize_name}
use tsbootkit.Tftp.Encode.{encode_rrq, encode_data, encode_oack, message_or_standard}
use tsbootkit.Tftp.Encode.Layout.{encode_data_range}
use tsbootkit.Tftp.Parse.{parse_packet}
use tsbootkit.Tftp.Parse.Strings.{IsWellFormed, IsText}
use tsbootkit.Tftp.RoundTrip.{IsSendable, parse-encode_rrq}
use tsbootkit.Tftp.Options.{validate_options, validated_to_raw}
use tsbootkit.Tftp.Options.Laws.{IsInRange, validate_options-IsInRange}
use tsbootkit.Tftp.Options.Wire.{oack_carries_options}
use tsbootkit.Tftp.Transfer.{Transfer, send, recv, send_last, done, handle_ack, reply}
use tsbootkit.Tftp.Server.{
  Effect, handle_transfer_ack, Outcome, handle_transfer_data, remove_transfer, close_file,
  emit_complete, append_file, send_packet,
}
use tsbootkit.Tftp.Server.Chunks.{concat, window_chunks}
use tsbootkit.Tftp.Server.Rounds.{IsReady}
use tsbootkit.Tftp.Server.Download.{IsFresh, Delivers}
use tsbootkit.Tftp.Server.WholeFile.{download-Delivers_file}
use tsbootkit.Tftp.Server.Duplicates.{
  duplicate_ack_sends, stray_ack_completes, duplicate_data_appends,
}
use tsbootkit.Tftp.Server.Upload.{IsReceiving, IsUpload, upload, appended, upload_stores_file}
use tsbootkit.Tftp.Requests.{Settings, Disk, regular, negotiated, handle_message, capped_options}
use tsbootkit.Tftp.Requests.Negotiation.{negotiated_blksize_le}
use tsbootkit.Tftp.Requests.Peers.{handle_message_spares_peers}

abbrev boot_options : RawOptions
boot_options = (blksize_name, codes "8") ∷ []

abbrev boot_request : Request
boot_request = record { filename = codes "a"; mode = codes "octet"; options = boot_options }

boot_options-IsWellFormed : IsWellFormed [] boot_options
unfolding has get
boot_options-IsWellFormed = ground arith

boot_request-IsSendable : IsSendable boot_request
boot_request-IsSendable = record {
  name_text = ground arith;
  named = refl;
  mode_known = inl refl;
  options_fit = boot_options-IsWellFormed;
}

parse-encode_rrq_example :
    (packet : Buffer) × (encode_rrq (codes "a") (codes "octet") boot_options ≡ some packet)
    × (parse_packet packet ≡ ok (some (Packet.rrq boot_request)))
parse-encode_rrq_example = parse-encode_rrq boot_request boot_request-IsSendable

encode_data_range_example : encode_data 65536 (7 ∷ []) ≡ none
encode_data_range_example = encode_data_range 65536 (7 ∷ []) (omega arith)

short_message-IsText : IsText (message_or_standard 4 (some (codes "no")))
short_message-IsText = ground arith

abbrev small_blocks : ValidatedOptions
small_blocks = record { blksize = 8; timeout = none; tsize = none; windowsize = 2 }

small_blocks-IsInRange : IsInRange small_blocks
small_blocks-IsInRange = record {
  blksize = (omega arith, omega arith);
  timeout = tt;
  windowsize = (omega arith, omega arith);
}

small_blocks_accepted : validate_options (validated_to_raw small_blocks) none ≡ ok small_blocks
unfolding validate_options validated_to_raw tsbootkit.Tftp.Options.limited_option
    tsbootkit.Base.Store.set tsbootkit.Tftp.Options.tsize_option
small_blocks_accepted = refl

validate_options-IsInRange_example : IsInRange small_blocks
validate_options-IsInRange_example =
    validate_options-IsInRange (validated_to_raw small_blocks) none small_blocks
      ((omega arith, omega arith), (omega arith, omega arith)) small_blocks_accepted

small_blocks_named : validated_to_raw small_blocks ≢ []
unfolding validated_to_raw
small_blocks_named = λ h. cc

oack_carries_options_example :
    (packet : Buffer) × (raw : RawOptions) × (encode_oack (validated_to_raw small_blocks)
      ≡ some packet)
    × (parse_packet packet ≡ ok (some (Packet.oack raw)))
    × (validate_options raw none ≡ ok small_blocks)
oack_carries_options_example =
    oack_carries_options small_blocks small_blocks-IsInRange tt small_blocks_named

-- A download in blocks of two bytes, two in a window, from its start.
abbrev pub tiny_download : Transfer
tiny_download = record {
  opcode = 1;
  filename = codes "a";
  mode = codes "octet";
  state = send;
  error_code = 0;
  error_message = [];
  opts = record { blksize = 2; timeout = none; tsize = none; windowsize = 2 };
  block_num = 0;
  last_acked = 0;
  total_packets = 0;
  wrap_block_num = true;
  filesize = 5;
  send_buffer = [];
  recv_data = [];
  bytes_received = 0;
  bytes_sent = 0;
  file_offset = 0;
  file_open = true;
  last_seen = 0;
  retries = 0;
  max_retries = 3;
}

tiny_download-IsReady : IsReady tiny_download
tiny_download-IsReady = record {
  sending = refl;
  unbuffered = refl;
  block_size = omega arith;
  window_size = omega arith;
  wrapping = refl;
  numbered = omega arith;
}

pub tiny_download-IsFresh : IsFresh tiny_download
tiny_download-IsFresh = record {
  ready = tiny_download-IsReady;
  unstarted = refl;
  first = refl;
  acked = refl;
  at_start = refl;
}

abbrev pub five_bytes : Buffer
five_bytes = 1 ∷ 2 ∷ 3 ∷ 4 ∷ 5 ∷ []

download-Delivers_file_example :
    (cs : List Buffer) × Delivers five_bytes [] 9 tiny_download tiny_download-IsFresh cs
    × (concat cs ≡ five_bytes)
download-Delivers_file_example =
    download-Delivers_file five_bytes [] 9 tiny_download tiny_download-IsFresh

abbrev last_sent : Transfer
last_sent = record tiny_download { state = send_last; block_num = 3; total_packets = 3 }

abbrev under_way : Transfer
under_way = record tiny_download {
  block_num = 2;
  last_acked = 2;
  total_packets = 2;
  file_offset = 4;
}

under_way-IsReady : IsReady under_way
under_way-IsReady = record {
  sending = refl;
  unbuffered = refl;
  block_size = omega arith;
  window_size = omega arith;
  wrapping = refl;
  numbered = omega arith;
}

duplicate_ack_sends_example :
    (o : Outcome) × (handle_transfer_ack five_bytes [] 9 under_way 1 ≡ some o)
    × (o.effects ≡ send_packet (0 ∷ 3 ∷ 0 ∷ 3 ∷ 5 ∷ []) ∷ [])
    × (o.transfer.block_num ≡ 3)
    × (o.transfer.file_offset ≡ 5)
unfolding window_chunks
duplicate_ack_sends_example =
    duplicate_ack_sends five_bytes [] 9 under_way under_way-IsReady 1 (omega arith) refl

not_the_last : 7 ≢ under_way.block_num
not_the_last = λ h. omega arith

not_the_one_before : 8 ≢ under_way.block_num
not_the_one_before = λ h. omega arith

stray_ack_completes_example :
    (u : Transfer) × (p : Buffer) × (handle_ack under_way 7 9 ≡ (u, reply (p ∷ []) true))
    × (handle_transfer_ack five_bytes [] 9 under_way 7
        ≡ some (record {
          transfer = record u { file_open = false };
          effects = remove_transfer ∷ close_file ∷ emit_complete ∷ [];
          thrown = false;
        }))
stray_ack_completes_example =
    stray_ack_completes five_bytes [] 9 under_way 7 refl (omega arith) not_the_last
      not_the_one_before

-- An upload in blocks of two bytes that waits for block 2, with the data of block 1.
abbrev tiny_upload : Transfer
tiny_upload = record tiny_download {
  opcode = 2;
  state = recv;
  block_num = 2;
  last_acked = 1;
  recv_data = 1 ∷ 2 ∷ [];
}

tiny_upload-IsReceiving : IsReceiving tiny_upload
tiny_upload-IsReceiving = record { receiving = refl; wrapping = refl; numbered = omega arith }

duplicate_data_appends_example : handle_transfer_data false 9 tiny_upload 1 (1 ∷ 2 ∷ []) ≡ record {
  transfer = record tiny_upload { last_seen = 9; retries = 0 };
  effects = append_file (1 ∷ 2 ∷ []) ∷ send_packet (0 ∷ 4 ∷ 0 ∷ 1 ∷ []) ∷ [];
  thrown = false;
}
duplicate_data_appends_example =
    duplicate_data_appends 9 tiny_upload 1 (1 ∷ 2 ∷ []) refl refl (omega arith) refl

two_blocks-IsUpload : IsUpload 2 ((3 ∷ 4 ∷ []) ∷ (5 ∷ []) ∷ [])
two_blocks-IsUpload = (refl, omega arith)

upload_stores_file_example :
    let (u, effects) = upload 9 tiny_upload ((3 ∷ 4 ∷ []) ∷ (5 ∷ []) ∷ []) in
    (appended effects ≡ 3 ∷ 4 ∷ 5 ∷ []) × (u.state ≡ done)
upload_stores_file_example =
    upload_stores_file 9 tiny_upload ((3 ∷ 4 ∷ []) ∷ (5 ∷ []) ∷ []) tiny_upload-IsReceiving
      (omega arith) two_blocks-IsUpload

abbrev wrapped_upload : Transfer
wrapped_upload = record tiny_upload { block_num = 1; last_acked = 65535 }

abbrev small_server : Settings
small_server = record {
  max_transfers = 4;
  max_retries = 3;
  max_blksize = 1000;
  timeout = 10;
  allow_write = false;
  rfc1350 = false;
}

abbrev big_blocks : Request
big_blocks = record {
  filename = codes "a";
  mode = codes "octet";
  options = (blksize_name, codes "1432") ∷ [];
}

big_blocks_capped :
    negotiated small_server big_blocks
    ≡ ok (record { blksize = 1000; timeout = none; tsize = none; windowsize = 1 })
unfolding validate_options capped_options tsbootkit.Tftp.Options.limited_option
    tsbootkit.Base.Store.set tsbootkit.Tftp.Options.tsize_option
big_blocks_capped = refl

negotiated_blksize_le_example : 1000 ≤ 1000
negotiated_blksize_le_example =
    negotiated_blksize_le small_server big_blocks
      (record { blksize = 1000; timeout = none; tsize = none; windowsize = 1 }) (omega arith)
      big_blocks_capped

abbrev small_disk : Disk
small_disk = record {
  in_root = true;
  stat = regular 5;
  exists = true;
  parent_writable = true;
  content = five_bytes;
  read_error = [];
}

-- The last ACK of one peer, while another one's transfer is under way.
last_ack_served :
    handle_message small_server small_disk false 9
      ((codes "a:1", last_sent) ∷ (codes "b:2", under_way) ∷ [])
      (codes "a:1")
      (0 ∷ 4 ∷ 0 ∷ 3 ∷ [])
    ≡ some ((codes "b:2", under_way) ∷ [], remove_transfer ∷ close_file ∷ emit_complete ∷ [])
unfolding handle_message tsbootkit.Tftp.Parse.get_opcode get
    tsbootkit.Tftp.Server.handle_existing_transfer parse_packet
    tsbootkit.Tftp.Parse.parse_ack_payload handle_transfer_ack handle_ack
    tsbootkit.Tftp.Server.remove_effects tsbootkit.Base.Store.delete
last_ack_served = refl

handle_message_spares_peers_example :
    let before : Map Transfer = (codes "a:1", last_sent) ∷ (codes "b:2", under_way) ∷ [] in
    (after : Map Transfer) × (effects : List Effect) × (handle_message small_server small_disk false
        9 before
        (codes "a:1")
        (0 ∷ 4 ∷ 0 ∷ 3 ∷ [])
      ≡ some (after, effects))
    × (get (codes "b:2") after ≡ get (codes "b:2") before)
handle_message_spares_peers_example =
    handle_message_spares_peers ((codes "a:1", last_sent) ∷ (codes "b:2", under_way) ∷ [])
      (codes "a:1") (codes "b:2") small_server small_disk 9 false (0 ∷ 4 ∷ 0 ∷ 3 ∷ []) refl
