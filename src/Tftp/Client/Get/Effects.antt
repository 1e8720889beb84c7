-- ===== src/Tftp/Client/Get/Effects.antt =====
-- What a download has stored, and how it was settled.
use tsbootkit.Base.{ℕ, ◌≡◌, refl, sym, List, [], ◌∷◌, ◌++◌, Option, some, none, append_assoc}
use tsbootkit.Base.Buffer.{Buffer}
use tsbootkit.Tftp.Client.{
  ClientSettings, ClientEffect, Sender, write_local, resolved, send_to, restart_timer, stop_timer,
  close_local, open_local, rejected,
}
use tsbootkit.Tftp.Client.Get.{Get, on_get_message}

-- Messages that come one after another.
unfoldable pub receive : ClientSettings → Sender → List Buffer → Get → Get × List ClientEffect
receive c sender [] g = (g, [])
receive c sender (msg ∷ msgs) g =
    let (g', effects) = on_get_message c g sender msg in
    let (g2, more) = receive c sender msgs g' in (g2, effects ++ more)

-- What is written to the local file.
abbrev pub stored : List ClientEffect → Buffer
stored [] = []
stored (write_local content ∷ es) = content ++ stored es
stored (send_to port p ∷ es) = stored es
stored (open_local ∷ es) = stored es
stored (close_local ∷ es) = stored es
stored (restart_timer ∷ es) = stored es
stored (stop_timer ∷ es) = stored es
stored (resolved bytes v ∷ es) = stored es
stored (rejected message ∷ es) = stored es

-- How the promise was settled first: the number of bytes.
abbrev pub settled : List ClientEffect → Option ℕ
settled [] = none
settled (resolved bytes v ∷ es) = some bytes
settled (write_local content ∷ es) = settled es
settled (send_to port p ∷ es) = settled es
settled (open_local ∷ es) = settled es
settled (close_local ∷ es) = settled es
settled (restart_timer ∷ es) = settled es
settled (stop_timer ∷ es) = settled es
settled (rejected message ∷ es) = settled es

pub stored-append : (es fs : List ClientEffect) → stored (es ++ fs) ≡ stored es ++ stored fs
stored-append [] fs = refl
stored-append (write_local content ∷ es) fs =
    rw (stored-append es fs) (sym (append_assoc content (stored es) (stored fs)))
stored-append (send_to port p ∷ es) fs = stored-append es fs
stored-append (open_local ∷ es) fs = stored-append es fs
stored-append (close_local ∷ es) fs = stored-append es fs
stored-append (restart_timer ∷ es) fs = stored-append es fs
stored-append (stop_timer ∷ es) fs = stored-append es fs
stored-append (resolved bytes v ∷ es) fs = stored-append es fs
stored-append (rejected message ∷ es) fs = stored-append es fs

pub settled-append :
    (es fs : List ClientEffect) → settled es ≡ none → settled (es ++ fs) ≡ settled fs
settled-append [] fs h = refl
settled-append (write_local content ∷ es) fs h = settled-append es fs h
settled-append (send_to port p ∷ es) fs h = settled-append es fs h
settled-append (open_local ∷ es) fs h = settled-append es fs h
settled-append (close_local ∷ es) fs h = settled-append es fs h
settled-append (restart_timer ∷ es) fs h = settled-append es fs h
settled-append (stop_timer ∷ es) fs h = settled-append es fs h
settled-append (resolved bytes v ∷ es) fs h = cc
settled-append (rejected message ∷ es) fs h = settled-append es fs h

pub settled_first :
    (es fs : List ClientEffect) (bytes : ℕ)
    → settled es ≡ some bytes
    → settled (es ++ fs) ≡ some bytes
settled_first [] fs n h = cc
settled_first (write_local content ∷ es) fs n h = settled_first es fs n h
settled_first (send_to port p ∷ es) fs n h = settled_first es fs n h
settled_first (open_local ∷ es) fs n h = settled_first es fs n h
settled_first (close_local ∷ es) fs n h = settled_first es fs n h
settled_first (restart_timer ∷ es) fs n h = settled_first es fs n h
settled_first (stop_timer ∷ es) fs n h = settled_first es fs n h
settled_first (resolved bytes v ∷ es) fs n h = h
settled_first (rejected message ∷ es) fs n h = settled_first es fs n h
