-- ===== src/Http/Responses.antt =====
-- The status, the length and the content of the responses of src/shared/http.mts.
use tsbootkit.Base.{ℕ, ◌+◌, ◌-◌, ◌≡◌, ◌≤◌, ◌<◌, ◌⊎◌, Bool, true, false, Option, none, some}
use tsbootkit.Base.Text.{Str, codes, str_eq}
use tsbootkit.Http.{
  Host, Request, Response, Body, text, no_body, whole_file, part_of_file, ContentRange, no_range,
  satisfied, unsatisfied, regular, special,
}

module _ (host : Host) where
  -- The file is no directory and has this size.
  abbrev pub HasSize : Str → ℕ → Type 0
  HasSize file size = (host.stat file ≡ regular size) ⊎ (host.stat file ≡ special size)

  -- What a response with a status, a Content-Length and a Content-Range may carry: a part of a file
  -- under 206, a whole file under 200, or a message; an answer to HEAD carries nothing in place of a
  -- file.
  abbrev pub Carries : Bool → ℕ → Option ℕ → ContentRange → Body → Type 0
  Carries head status size (satisfied start end total) (part_of_file file from to) =
      (head ≡ false)
      × (status ≡ 206)
      × (start ≤ end)
      × (end < total)
      × (size ≡ some (end - start + 1))
      × (from ≡ start)
      × (to ≡ end)
      × HasSize file total
  Carries head status size (satisfied start end total) no_body =
      (head ≡ true)
      × (status ≡ 206)
      × (start ≤ end)
      × (end < total)
      × (size ≡ some (end - start + 1))
  Carries head status size (unsatisfied total) (text message) = status ≡ 416
  Carries head status size no_range (whole_file file) =
      (head ≡ false) × (status ≡ 200) × ((total : ℕ) × (size ≡ some total) × HasSize file total)
  Carries head status size no_range no_body = (head ≡ true) × (status ≡ 200)
  Carries head status size no_range (text message) = (400 ≤ status) × (size ≡ none)
  Carries head status size range body = ⊥

  abbrev pub IsSound : Request → Response → Type 0
  IsSound req r =
      Carries (str_eq req.method (codes "HEAD")) r.status r.content_length r.content_range r.body
