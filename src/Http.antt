-- ===== src/Http.antt =====
-- src/shared/http.mts: the HTTP server for boot files. A request is handled to its end before the
-- next one, and its response ends. What the file system, Node's path functions and the table of MIME types answer is a
-- record. Sockets, events, logging and the timers are left out.
pub mod Range
pub mod Paths
pub mod Responses
pub mod Collect
mod Tests
use tsbootkit.Base.{
  ℕ, suc, ◌+◌, ◌-◌, ◌*◌, ◌==◌, Bool, true, false, not, ◌&&◌, ◌||◌, Option, none, some, List, [],
  ◌∷◌, ◌++◌, if◌then◌else◌, ltb, leb, min, length, drop,
}
use tsbootkit.Base.Text.{Str, codes, is_empty, str_eq, starts_with, digit_prefix, all_digits, value}

-- state: 'active' | 'complete' | 'error'
pub data HttpState : Type 0 where
  active : HttpState
  complete : HttpState
  failed : HttpState

pub record HttpTransfer : Type 0 where
  pub id : ℕ
  pub method : Str
  pub path : Str
  pub client_ip : Str
  pub state : HttpState
  pub bytes_sent : ℕ
  pub file_size : ℕ
  pub started_at : ℕ
  pub status_code : Option ℕ

-- The transfers are a Map from their ids, which are new every time, in insertion order.
pub record HttpServer : Type 0 where
  pub root : Str
  pub max_file_size : ℕ
  pub follow_symlinks : Bool
  pub next_transfer_id : ℕ
  pub transfers : List HttpTransfer

-- What stat answers; a device, a FIFO or the like is `special`. Both have a size.
pub data Stat : Type 0 where
  regular : ℕ → Stat
  special : ℕ → Stat
  directory : Stat
  no_entry : Stat
  no_access : Stat
  stat_failed : Stat

-- `normalized root path` is path.normalize(path.join(root, path)). `none` is an exception.
pub record Host : Type 0 where
  pub normalized : Str → Str → Str
  pub join_path : Str → Str → Str
  pub stat : Str → Stat
  pub real_path : Str → Option Str
  pub mime_type : Str → Option Str

pub data Body : Type 0 where
  text : Str → Body
  no_body : Body
  whole_file : Str → Body
  part_of_file : Str → ℕ → ℕ → Body

pub data ContentRange : Type 0 where
  no_range : ContentRange
  satisfied : ℕ → ℕ → ℕ → ContentRange
  unsatisfied : ℕ → ContentRange

pub record Response : Type 0 where
  pub status : ℕ
  pub content_type : Option Str
  pub content_length : Option ℕ
  pub content_range : ContentRange
  pub body : Body

abbrev pub plain : ℕ → Str → Response
plain status message = record {
  status = status;
  content_type = some (codes "text/plain");
  content_length = none;
  content_range = no_range;
  body = text message;
}

-- Range parsing. /^bytes=(\d*)-(\d*)$/ gives the digits before and behind the dash.
abbrev pub split_dash : Str → Str → Option (Str × Str)
split_dash before [] = none
split_dash before (c ∷ cs) = if (c == b'-') && all_digits cs then some (before, cs) else none

abbrev pub match_range : Str → Option (Str × Str)
match_range header =
    let rest = drop 6 header in
    let digits = digit_prefix rest in
    if starts_with header (codes "bytes=")
    then split_dash digits (drop (length digits) rest)
    else none

-- The validation and the clamping. Where a file is empty, `start >= fileSize` holds, so that the
-- subtraction that stops at 0 is not seen.
abbrev pub valid_range : ℕ → ℕ → ℕ → Option (ℕ × ℕ)
valid_range file_size start end =
    if ltb end start || leb file_size start then none else some (start, min end (file_size - 1))

abbrev pub range_of : ℕ → Option (Str × Str) → Option (ℕ × ℕ)
range_of file_size none = none
range_of file_size (some (start_str, end_str)) =
    if is_empty start_str && not (is_empty end_str)
    then valid_range file_size (file_size - value 0 end_str) (file_size - 1)
    else if not (is_empty start_str) && is_empty end_str
    then valid_range file_size (value 0 start_str) (file_size - 1)
    else if not (is_empty start_str) && not (is_empty end_str)
    then valid_range file_size (value 0 start_str) (value 0 end_str)
    else none

unfoldable pub parse_range : Str → ℕ → Option (ℕ × ℕ)
parse_range header file_size = range_of file_size (match_range header)

-- The parts of a request that the handler reads; `path` is decoded, and `none` where that throws.
pub record Request : Type 0 where
  pub method : Str
  pub path : Option Str
  pub range : Option Str
  pub client_ip : Str

abbrev pub is_head : Request → Bool
is_head req = str_eq req.method (codes "HEAD")

abbrev pub or_type : Option Str → Str
or_type none = codes "application/octet-stream"
or_type (some s) = if is_empty s then codes "application/octet-stream" else s

-- A response, with the numbers that the transfer gets: the bytes sent and the size of the file.
pub record Served : Type 0 where
  pub response : Response
  pub bytes_sent : ℕ
  pub file_size : ℕ

abbrev pub refused : Response → Served
refused r = record { response = r; bytes_sent = 0; file_size = 0 }

-- The path protection. `root` has no separator at its end.
abbrev pub is_inside : Str → Str → Bool
is_inside root file = starts_with file (root ++ (b'/' ∷ [])) || str_eq file root

abbrev pub strip_sep : Str → Str
strip_sep [] = []
strip_sep (c ∷ []) = if c == b'/' then [] else c ∷ []
strip_sep (c ∷ d ∷ s) = c ∷ strip_sep (d ∷ s)

-- The check of the real path; none of the root is an exception, which ends in a response 500.
abbrev pub check_real : Option Str → Option Str → Option (ℕ × Str)
check_real none real_root = some (404, codes "Not Found")
check_real (some real) none = some (500, codes "Internal Server Error")
check_real (some real) (some real_root) =
    if is_inside real_root real then none else some (403, codes "Forbidden")

abbrev pub unless_refused : Option (ℕ × Str) → Served → Served
unless_refused none served = served
unless_refused (some (status, message)) served = refused (plain status message)

-- The transfer, as it stands after the response has ended.
abbrev pub recorded : ℕ → HttpServer → Request → Str → Served → HttpTransfer
recorded now srv req path served = record {
  id = srv.next_transfer_id;
  method = req.method;
  path = path;
  client_ip = req.client_ip;
  state = if leb 400 served.response.status then failed else complete;
  bytes_sent = served.bytes_sent;
  file_size = served.file_size;
  started_at = now;
  status_code = some served.response.status;
}

module _ (host : Host) where
  abbrev pub range_response : Request → Str → ℕ → Option (ℕ × ℕ) → Served
  range_response req file size none = record {
    response = record {
      status = 416;
      content_type = none;
      content_length = none;
      content_range = unsatisfied size;
      body = text (codes "Range Not Satisfiable");
    };
    bytes_sent = 0;
    file_size = size;
  }
  range_response req file size (some (start, end)) = record {
    response = record {
      status = 206;
      content_type = some (or_type (host.mime_type file));
      content_length = some (end - start + 1);
      content_range = satisfied start end size;
      body = if is_head req then no_body else part_of_file file start end;
    };
    bytes_sent = end - start + 1;
    file_size = size;
  }

  abbrev pub full_response : Request → Str → ℕ → Served
  full_response req file size = record {
    response = record {
      status = 200;
      content_type = some (or_type (host.mime_type file));
      content_length = some size;
      content_range = no_range;
      body = if is_head req then no_body else whole_file file;
    };
    bytes_sent = size;
    file_size = size;
  }

  -- An absent or empty Range header asks for the whole file.
  abbrev pub requested_part : Request → Str → ℕ → Option Str → Served
  requested_part req file size none = full_response req file size
  requested_part req file size (some header) =
      if is_empty header
      then full_response req file size
      else range_response req file size (parse_range header size)

  -- Anything but a directory.
  abbrev pub serve_plain : HttpServer → Request → Str → ℕ → Served
  serve_plain srv req file size =
      if ltb srv.max_file_size size
      then refused (plain 413 (codes "Payload Too Large"))
      else requested_part req file size req.range

  -- The index of a directory, which must be a regular file; serveFile calls itself, and its second stat answers as the first.
  abbrev pub serve_index : HttpServer → Request → Str → Stat → Served
  serve_index srv req index (regular size) = serve_plain srv req index size
  serve_index srv req index (special size) = refused (plain 404 (codes "Not Found"))
  serve_index srv req index directory = refused (plain 404 (codes "Not Found"))
  serve_index srv req index no_entry = refused (plain 404 (codes "Not Found"))
  serve_index srv req index no_access = refused (plain 404 (codes "Not Found"))
  serve_index srv req index stat_failed = refused (plain 404 (codes "Not Found"))

  abbrev pub serve_stat : HttpServer → Request → Str → Stat → Served
  serve_stat srv req file (regular size) = serve_plain srv req file size
  serve_stat srv req file (special size) = serve_plain srv req file size
  serve_stat srv req file directory =
      let index = host.join_path file (codes "index.html") in
      serve_index srv req index (host.stat index)
  serve_stat srv req file no_entry = refused (plain 404 (codes "Not Found"))
  serve_stat srv req file no_access = refused (plain 403 (codes "Forbidden"))
  serve_stat srv req file stat_failed = refused (plain 500 (codes "Internal Server Error"))

  unfoldable pub serve_file : HttpServer → Request → Str → Served
  serve_file srv req file = serve_stat srv req file (host.stat file)

  abbrev pub symlink_refusal : HttpServer → Str → Option (ℕ × Str)
  symlink_refusal srv file =
      if srv.follow_symlinks
      then none
      else check_real (host.real_path file) (host.real_path srv.root)

  unfoldable pub answer : HttpServer → Request → Str → Served
  unfolding serve_file
  answer srv req path =
      let file = host.normalized srv.root path in
      if not (str_eq req.method (codes "GET")) && not (is_head req)
      then refused (plain 405 (codes "Method Not Allowed"))
      else if not (is_inside (strip_sep srv.root) file)
      then refused (plain 403 (codes "Forbidden"))
      else unless_refused (symlink_refusal srv file) (serve_file srv req file)

  abbrev pub handle_path : ℕ → HttpServer → Request → Option Str → HttpServer × Response
  handle_path now srv req none = (srv, plain 500 (codes "Internal Server Error"))
  handle_path now srv req (some path) =
      let served = answer srv req path in
      (
        record srv {
          next_transfer_id = srv.next_transfer_id + 1;
          transfers = srv.transfers ++ (recorded now srv req path served ∷ []);
        },
        served.response,
      )

  unfoldable pub handle_request : ℕ → HttpServer → Request → HttpServer × Response
  unfolding answer
  handle_request now srv req = handle_path now srv req req.path

-- Transfer garbage collection.
abbrev pub transfer_gc_ms : ℕ
transfer_gc_ms = 60000

abbrev pub is_active : HttpState → Bool
is_active active = true
is_active complete = false
is_active failed = false

-- Adding to the time what the cutoff subtracts keeps to the natural numbers.
abbrev pub is_collected : ℕ → HttpTransfer → Bool
is_collected now t = not (is_active t.state) && ltb (t.started_at + transfer_gc_ms) now

unfoldable pub gc_transfers : ℕ → List HttpTransfer → List HttpTransfer
gc_transfers now [] = []
gc_transfers now (t ∷ ts) =
    let rest = gc_transfers now ts in if is_collected now t then rest else t ∷ rest

unfoldable pub active_transfers : List HttpTransfer → ℕ
active_transfers [] = 0
active_transfers (t ∷ ts) =
    let rest = active_transfers ts in if is_active t.state then suc rest else rest
