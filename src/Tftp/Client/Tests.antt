-- ===== src/Tftp/Client/Tests.antt =====
-- Concrete transfers on which the theorems of the TFTP client are used.
use tsbootkit.Base.{List, ◌≡◌, refl, arith, [], ◌∷◌, some, none, true, false, map}
use tsbootkit.Base.Text.{codes}
use tsbootkit.Base.Buffer.{Buffer}
use tsbootkit.Tftp.Types.{ValidatedOptions}
use tsbootkit.Tftp.Tests.{tiny_download, tiny_download-IsFresh, five_bytes}
use tsbootkit.Tftp.Client.{ClientEffect, ClientSettings, new_client, Sender}
use tsbootkit.Tftp.Client.Get.{Get, data_arrived}
use tsbootkit.Tftp.Client.Get.Effects.{receive, stored, settled}
use tsbootkit.Tftp.Client.Get.Blocks.{IsDownloading}
use tsbootkit.Tftp.Client.Get.Overlap.{overlapping_data_dropped}
use tsbootkit.Tftp.Client.Get.Acks.{ack_of}
use tsbootkit.Tftp.Server.{Effect}
use tsbootkit.Tftp.Server.Download.{IsFresh, acknowledge}
use tsbootkit.Tftp.Client.Get.FromServer.{
  Arrives, packets_of, download_session, download_session_hangs,
}
use tsbootkit.Tftp.Client.Put.{Put}
use tsbootkit.Tftp.Client.Put.Numbers.{wire_block-counted, counted}
use tsbootkit.Tftp.Transfer.{Transfer, recv, done}
use tsbootkit.Tftp.Server.Upload.{IsReceiving, appended}
use tsbootkit.Tftp.Client.Put.Packets.{sent, numbered_blocks}
use tsbootkit.Tftp.Client.Put.WholeFile.{IsUploading, acknowledged}
use tsbootkit.Tftp.Client.Put.ToServer.{takes, upload_session}

abbrev client : ClientSettings
client = new_client (record {
  host = codes "10.0.0.1";
  port = none;
  mode = none;
  rfc1350 = none;
  lan = none;
  options = none;
  timeout = none;
  max_retries = none;
  local_port = none;
})

abbrev server : Sender
server = record { address = codes "10.0.0.1"; port = 4000 }

abbrev two_bytes : ValidatedOptions
two_bytes = record { blksize = 2; timeout = none; tsize = none; windowsize = 2 }

-- After the OACK.
abbrev begun : Get
begun = record {
  server_port = 4000;
  validated = some two_bytes;
  block_num = 0;
  bytes_received = 0;
  is_open = true;
  retries = 0;
  last_packet = 0 ∷ 4 ∷ 0 ∷ 0 ∷ [];
  in_window = 0;
  listening = true;
}

begun-IsDownloading : IsDownloading client server begun
unfolding new_client
begun-IsDownloading = record {
  listening = refl;
  from_host = refl;
  from_port = refl;
  port_known = refl;
  is_open = refl;
  numbered = omega arith;
}

-- The same in windows of one block.
abbrev lockstep_download : Transfer
lockstep_download = record tiny_download {
  opts = record { blksize = 2; timeout = none; tsize = none; windowsize = 1 };
}

lockstep_download-IsFresh : IsFresh lockstep_download
lockstep_download-IsFresh = record {
  ready = record {
    sending = refl;
    unbuffered = refl;
    block_size = omega arith;
    window_size = omega arith;
    wrapping = refl;
    numbered = omega arith;
  };
  unstarted = refl;
  first = refl;
  acked = refl;
  at_start = refl;
}

abbrev lockstep_begun : Get
lockstep_begun = record begun {
  validated = some (record { blksize = 2; timeout = none; tsize = none; windowsize = 1 });
}

lockstep_begun-IsDownloading : IsDownloading client server lockstep_begun
unfolding new_client
lockstep_begun-IsDownloading = record {
  listening = refl;
  from_host = refl;
  from_port = refl;
  port_known = refl;
  is_open = refl;
  numbered = omega arith;
}

download_session_example :
    (u : Transfer) × (effects : List Effect) × (acknowledge five_bytes [] 9 6 lockstep_download
      ≡ some (u, effects))
    × (let (end, made) = receive client server (packets_of effects) lockstep_begun in
        (stored made ≡ five_bytes)
        × (settled made ≡ some 5)
        × (sent made ≡ map ack_of (packets_of effects)))
download_session_example =
    download_session five_bytes [] 9 lockstep_download lockstep_download-IsFresh client server
      lockstep_begun lockstep_begun-IsDownloading 2 1 refl refl refl refl refl (omega arith)
      (omega arith)

download_session_hangs_example :
    Arrives
      (1 ∷ 2 ∷ 3 ∷ 4 ∷ [])
      []
      9
      tiny_download
      tiny_download-IsFresh
      client
      server
      begun
      begun-IsDownloading
      (λ end. (settled end.1 ≡ none) × IsDownloading client server end.0)
download_session_hangs_example =
    download_session_hangs (1 ∷ 2 ∷ 3 ∷ 4 ∷ []) [] 9 tiny_download tiny_download-IsFresh client
      server begun begun-IsDownloading 2 refl refl refl

overlapping_data_dropped_example :
    let during = data_arrived client begun 1 in
    (during.1 ≡ true) × (data_arrived client during.0.0 2 ≡ ((begun, []), false))
overlapping_data_dropped_example = overlapping_data_dropped client begun refl (omega arith)

wire_block-counted_example : 1 ≡ counted 65536
wire_block-counted_example = wire_block-counted 65536

abbrev upload : Put
upload = record {
  server_port = 4000;
  validated = some two_bytes;
  block_num = 0;
  bytes_sent = 0;
  is_open = true;
  retries = 0;
  last_packet = [];
  offset = 0;
  listening = true;
}

upload-IsUploading : IsUploading upload
upload-IsUploading = record {
  is_open = refl;
  listening = refl;
  block_size = omega arith;
  window_size = omega arith;
}

abbrev receiver : Transfer
receiver = record tiny_download { state = recv; block_num = 1 }

receiver-IsReceiving : IsReceiving receiver
receiver-IsReceiving = record { receiving = refl; wrapping = refl; numbered = omega arith }

upload_session_example :
    (cs : List Buffer) × (q : Put) × (effects : List ClientEffect) × (acknowledged client five_bytes
        6 upload
      ≡ some (q, effects))
    × (sent effects ≡ numbered_blocks 0 cs)
    × (settled effects ≡ some 5)
    × (appended (takes 9 0 receiver cs).1 ≡ five_bytes)
    × ((takes 9 0 receiver cs).0.state ≡ done)
upload_session_example =
    upload_session client five_bytes upload 9 receiver 2 1 upload-IsUploading refl refl refl
      receiver-IsReceiving refl refl refl (omega arith) (omega arith)
