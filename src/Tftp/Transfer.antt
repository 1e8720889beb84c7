-- ===== src/Tftp/Transfer.antt =====
-- src/tftp/state.mts: TFTPTransfer, the state machine of one transfer. A method returns the new
-- state and what it hands back; `now` is Date.now(). Path resolution and isPathInRoot, which ask
-- node:path and the file system, are not here, and the fields that only they and the log read
-- (peer, root, filepath, followSymlinks, tid) are left out.
use tsbootkit.Base.{
  ℕ, ◌+◌, ◌-◌, ◌*◌, Bool, true, false, ◌&&◌, ◌||◌, not, Option, none, some, List, [], ◌∷◌, ◌++◌,
  if◌then◌else◌, length, ltb, leb, ◌==◌, take, drop,
}
use tsbootkit.Base.Text.{Str, codes, is_empty}
use tsbootkit.Base.Buffer.{Buffer}
use tsbootkit.Tftp.Opcode
use tsbootkit.Tftp.ErrorCode
use tsbootkit.Tftp.Types.{ValidatedOptions, default_block_size, default_window_size, blocknum_reset}
use tsbootkit.Tftp.Encode.{encode_data, encode_ack, encode_error, encode_oack}
use tsbootkit.Tftp.Options.{PartialOptions, get_or, validated_to_raw}

pub data TransferState : Type 0 where
  send send_oack send_last recv recv_ack errored done : TransferState

abbrev pub is_send : TransferState → Bool
is_send send = true
is_send _ = false

abbrev pub is_send_last : TransferState → Bool
is_send_last send_last = true
is_send_last _ = false

abbrev pub is_recv : TransferState → Bool
is_recv recv = true
is_recv _ = false

abbrev pub is_done : TransferState → Bool
is_done done = true
is_done _ = false

abbrev pub is_errored : TransferState → Bool
is_errored errored = true
is_errored _ = false

abbrev pub default_timeout_secs : ℕ
default_timeout_secs = 10

abbrev pub default_max_retries : ℕ
default_max_retries = 5

pub record Transfer : Type 0 where
  pub opcode : ℕ
  pub filename : Str
  pub mode : Str
  pub state : TransferState
  pub error_code : ℕ
  pub error_message : Str
  pub opts : ValidatedOptions
  pub block_num : ℕ
  pub last_acked : ℕ
  pub total_packets : ℕ
  pub wrap_block_num : Bool
  pub filesize : ℕ
  pub send_buffer : Buffer
  pub recv_data : Buffer
  pub bytes_received : ℕ
  pub bytes_sent : ℕ
  pub file_offset : ℕ
  pub file_open : Bool
  pub last_seen : ℕ
  pub retries : ℕ
  pub max_retries : ℕ

-- StateResult | null, and a RangeError that an encoder threw.
pub data Reply : Type 0 where
  nothing : Reply
  reply : List Buffer → Bool → Reply
  range_error : Reply

abbrev pub reply_packet : Option Buffer → Bool → Reply
reply_packet none finished = range_error
reply_packet (some packet) finished = reply (packet ∷ []) finished

abbrev pub default_opts : ValidatedOptions
default_opts = record {
  blksize = default_block_size;
  timeout = none;
  tsize = none;
  windowsize = default_window_size;
}

abbrev pub initial_opts : Option PartialOptions → ValidatedOptions
initial_opts none = default_opts
initial_opts (some o) = record {
  blksize = get_or o.blksize default_block_size;
  timeout = o.timeout;
  tsize = o.tsize;
  windowsize = get_or o.windowsize default_window_size;
}

-- The constructor.
unfoldable pub new_transfer : ℕ → Str → Str → Option PartialOptions → Bool → ℕ → Transfer
new_transfer opcode filename mode opts wrap now = record {
  opcode = opcode;
  filename = filename;
  mode = mode;
  state = done;
  error_code = ErrorCode.not_defined;
  error_message = [];
  opts = initial_opts opts;
  block_num = 0;
  last_acked = 0;
  total_packets = 0;
  wrap_block_num = wrap;
  filesize = 0;
  send_buffer = [];
  recv_data = [];
  bytes_received = 0;
  bytes_sent = 0;
  file_offset = 0;
  file_open = false;
  last_seen = now;
  retries = 0;
  max_retries = default_max_retries;
}

unfoldable pub touch : Transfer → ℕ → Transfer
touch t now = record t { last_seen = now }

unfoldable pub get_timeout_ms : Transfer → ℕ
get_timeout_ms t = get_or t.opts.timeout default_timeout_secs * 1000

unfoldable pub is_timed_out : Transfer → ℕ → Bool
unfolding get_timeout_ms
is_timed_out t now = ltb (get_timeout_ms t * (t.retries + 1)) (now - t.last_seen)

-- The Boolean is false once the retries are used up.
unfoldable pub increment_retry : Transfer → Transfer × Bool
increment_retry t =
    let t' = record t { retries = t.retries + 1 } in (t', leb (t.retries + 1) t.max_retries)

-- tsize 0 asks for the size of the file.
abbrev pub answer_tsize : Option ℕ → ℕ → Option ℕ
answer_tsize none filesize = none
answer_tsize (some n) filesize = if n == 0 then some filesize else some n

unfoldable pub set_options : Transfer → ValidatedOptions → Transfer
set_options t opts = record t { opts = record opts { tsize = answer_tsize opts.tsize t.filesize } }

unfoldable pub set_error : Transfer → ℕ → Str → Transfer
set_error t code message = record t { state = errored; error_code = code; error_message = message }

unfoldable pub init_rrq : Transfer → Bool → Transfer
init_rrq t has_options = record t { block_num = 0; state = if has_options then send_oack else send }

unfoldable pub init_wrq : Transfer → Bool → Transfer
init_wrq t has_options = record t {
  block_num = 1;
  state = if has_options then send_oack else recv_ack;
}

abbrev pub or_undefined : Str → Option Str
or_undefined message = if is_empty message then none else some message

-- The encoder runs before the state changes.
abbrev pub finish_with : Transfer → TransferState → Option Buffer → Bool → Transfer × Reply
finish_with t s none finished = (t, range_error)
finish_with t s (some packet) finished = (record t { state = s }, reply (packet ∷ []) finished)

unfoldable pub advance_error : Transfer → Transfer × Reply
unfolding encode_error
advance_error t = finish_with t done (encode_error t.error_code (or_undefined t.error_message)) true

unfoldable pub advance_send_oack : Transfer → Transfer × Reply
unfolding encode_oack validated_to_raw
advance_send_oack t =
    finish_with t (if t.opcode == Opcode.rrq then send else recv)
      (encode_oack (validated_to_raw t.opts)) false

unfoldable pub advance_recv_ack : Transfer → Transfer × Reply
unfolding encode_ack
advance_recv_ack t = (record t { state = recv }, reply_packet (encode_ack 0) false)

abbrev pub advance_in : TransferState → Transfer → Transfer × Reply
advance_in send_oack t = advance_send_oack t
advance_in send t = (t, nothing)
advance_in send_last t = (t, nothing)
advance_in recv_ack t = advance_recv_ack t
advance_in recv t = (t, nothing)
advance_in errored t = advance_error t
advance_in done t = (t, nothing)

unfoldable pub advance_send : Transfer → ℕ → Transfer × Reply
unfolding touch
advance_send t now = advance_in t.state (touch t now)

-- Wraparound of a block number that has been incremented.
abbrev pub wrap_number : Bool → ℕ → ℕ
wrap_number wrap n = if ltb 65535 n && wrap then blocknum_reset else n

-- `none` for the packet is the RangeError of a block number above 65535.
unfoldable pub produce_data_packet : Transfer → Buffer → Bool → Transfer × Option Buffer
produce_data_packet t file_data is_eof =
    let whole = t.send_buffer ++ file_data in
    let too_long = ltb t.opts.blksize (length whole) in
    let content = if too_long then take t.opts.blksize whole else whole in
    let next = wrap_number t.wrap_block_num (t.block_num + 1) in
    (
      record t {
        send_buffer = if too_long then drop t.opts.blksize whole else [];
        block_num = next;
        total_packets = t.total_packets + 1;
        state =
            if ltb (length content) t.opts.blksize || is_eof
            then (if ltb (length content) t.opts.blksize then send_last else t.state)
            else t.state;
      },
      encode_data next content,
    )

unfoldable pub should_send_more_in_window : Transfer → Bool
should_send_more_in_window t = is_send t.state && ltb t.block_num (t.last_acked + t.opts.windowsize)

-- setError and then advanceError
abbrev pub fail : Transfer → Str → Transfer × Reply
fail t message = advance_error (set_error t ErrorCode.illegal_operation message)

-- Both comparisons with `this.blockNum` stand in the source; the second cannot succeed.
unfoldable pub ack_sending : Transfer → ℕ → Transfer × Reply
unfolding set_error advance_error
ack_sending t block_num =
    if block_num == 0 && t.total_packets == 0
    then (t, reply [] false)
    else if not (block_num == t.block_num)
    then (if block_num + 1 == t.block_num
        then (t, nothing)
        else if block_num == t.block_num
        then (t, nothing)
        else fail t (codes "ACK block number mismatch"))
    else (record t { last_acked = block_num }, nothing)

abbrev pub ack_in : TransferState → Transfer → ℕ → Transfer × Reply
ack_in send_last t block_num = (record t { state = done }, reply [] true)
ack_in send t block_num = ack_sending t block_num
ack_in _ t block_num = (t, nothing)

unfoldable pub handle_ack : Transfer → ℕ → ℕ → Transfer × Reply
unfolding ack_sending
handle_ack t block_num now = ack_in t.state (record t { last_seen = now; retries = 0 }) block_num

-- A block of the expected number and an allowed size.
unfoldable pub accept_data : Transfer → Buffer → Transfer × Reply
accept_data t content =
    let is_last = ltb (length content) t.opts.blksize in
    let current = t.block_num in
    let stored = record t {
      recv_data = content;
      bytes_received = t.bytes_received + length content;
      block_num = if is_last then current else wrap_number t.wrap_block_num (current + 1);
      total_packets = if is_last then t.total_packets else t.total_packets + 1;
    } in
    if is_last || leb (t.last_acked + t.opts.windowsize) current
    then (if is_last
        then (
          record stored { last_acked = current; state = done },
          reply_packet (encode_ack current) true,
        )
        else (record stored { last_acked = current }, reply_packet (encode_ack current) false))
    else (stored, nothing)

unfoldable pub handle_data : Transfer → ℕ → Buffer → ℕ → Transfer × Reply
unfolding accept_data set_error advance_error
handle_data t block_num content now =
    let t' = record t { last_seen = now; retries = 0 } in
    if not (is_recv t.state)
    then (t', nothing)
    else if not (block_num == t.block_num)
    then (if block_num + 1 == t.block_num
        then (t', reply_packet (encode_ack (t.block_num - 1)) false)
        else fail t' (codes "DATA block number mismatch"))
    else if ltb t.opts.blksize (length content)
    then fail t' (codes "DATA exceeds negotiated blksize")
    else accept_data t' content

unfoldable pub handle_error : Transfer → Transfer × Reply
handle_error t = (record t { state = done }, reply [] true)
