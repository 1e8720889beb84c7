-- ===== src/Http/Tests.antt =====
-- A concrete server and requests on which the theorems of the HTTP server are used.
use tsbootkit.Base.{◌≡◌, refl, [], ◌∷◌, ◌++◌, some, none, false, if◌then◌else◌}
use tsbootkit.Base.Text.{Str, codes, to_decimal, starts_with}
use tsbootkit.Http.{
  Host, HttpServer, HttpTransfer, Request, Stat, regular, directory, active, complete,
  handle_request, parse_range, gc_transfers, part_of_file, answer, serve_file,
}
use tsbootkit.Http.Range.{Asks, parse_range-decimals}
use tsbootkit.Http.Paths.{file_of, IsServed, IsLetThrough, handle_request_inside}
use tsbootkit.Http.Collect.{Leaves, gc_transfers-Leaves}

parse_range-decimals_example :
    Asks 4 20 10 (parse_range (codes "bytes=" ++ (to_decimal 4 ++ (b'-' ∷ to_decimal 20))) 10)
parse_range-decimals_example = parse_range-decimals 4 20 10

-- One directory with an index.
abbrev stat_of : Str → Stat
stat_of path = if starts_with path (codes "/srv/index.html") then regular 5 else directory

abbrev host : Host
host = record {
  normalized = λ root path. root ++ path;
  join_path = λ dir name. dir ++ name;
  stat = stat_of;
  real_path = λ path. some path;
  mime_type = λ path. none;
}

abbrev server : HttpServer
server = record {
  root = codes "/srv";
  max_file_size = 100;
  follow_symlinks = false;
  next_transfer_id = 1;
  transfers = [];
}

abbrev request : Request
request = record {
  method = codes "GET";
  path = some (codes "/");
  range = none;
  client_ip = codes "10.0.0.9";
}

carried : file_of (handle_request host 7 server request).1.body ≡ some (codes "/srv/index.html")
unfolding handle_request answer serve_file
carried = refl

handle_request_inside_example :
    IsServed host server request (codes "/srv/") (codes "/srv/index.html")
    × IsLetThrough host server request (codes "/srv/")
handle_request_inside_example =
    handle_request_inside host server request 7 (codes "/") (codes "/srv/index.html") refl carried

abbrev old_transfer : HttpTransfer
old_transfer = record {
  id = 1;
  method = codes "GET";
  path = codes "/a";
  client_ip = codes "10.0.0.9";
  state = complete;
  bytes_sent = 5;
  file_size = 5;
  started_at = 0;
  status_code = some 200;
}

abbrev running : HttpTransfer
running = record old_transfer { id = 2; state = active; status_code = none }

gc_transfers-Leaves_example :
    Leaves 70000 (old_transfer ∷ running ∷ []) (gc_transfers 70000 (old_transfer ∷ running ∷ []))
gc_transfers-Leaves_example = gc_transfers-Leaves 70000 (old_transfer ∷ running ∷ [])

old_removed : gc_transfers 70000 (old_transfer ∷ running ∷ []) ≡ running ∷ []
unfolding gc_transfers
old_removed = refl

-- The first two bytes of the index.
abbrev ranged : Request
ranged = record request { range = some (codes "bytes=0-1") }

part_carried :
    (handle_request host 7 server ranged).1.body ≡ part_of_file (codes "/srv/index.html") 0 1
unfolding handle_request answer serve_file parse_range
part_carried = refl
