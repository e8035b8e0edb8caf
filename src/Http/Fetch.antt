-- ===== src/Http/Fetch.antt =====
-- The download: `fetch` (src/http.rs). Its loops run on fuel; Http/Ending is about how much they need.
use rs_smarthome_nodes.Base.{
  ℕ, zero, suc, ◌+◌, ◌-◌, ◌%◌, Bool, true, false, not, Option, none, some, List, [], ◌∷◌, ◌++◌,
  drop, length, ltb, ◌==◌, if◌then◌else◌,
}
use rs_smarthome_nodes.Base.Bytes.{Bytes}
use rs_smarthome_nodes.Base.Result.{Result, ok, err, ◌>>?◌}
use rs_smarthome_nodes.Base.Text.Decimal.{show}
use rs_smarthome_nodes.Base.Text.{codes}
use rs_smarthome_nodes.Base.Words.{u32_mod}
use rs_smarthome_nodes.Http.Connection.{Connection}
use rs_smarthome_nodes.Http.{Url, Head, parse_head}

-- The messages, one constructor each; `out_of_fuel` is the model's own.
pub data FetchError : Type 0 where
  url_too_long range_header request_end write_failed flush_failed head_too_long read_failed :
      FetchError
  closed_early not_found range_ignored past_the_end refused sink_failed out_of_fuel : FetchError

abbrev pub crlf : Bytes
crlf = 13 ∷ 10 ∷ []

-- `{}.{}.{}.{}`
unfoldable pub dotted : List ℕ → Bytes
dotted [] = []
dotted (a ∷ []) = show a
dotted (a ∷ b ∷ rest) = show a ++ b'.' ∷ dotted (b ∷ rest)

-- A text that is pushed onto a buffer of 256 bytes.
abbrev pub pushed : Bytes → Bytes → FetchError → Result FetchError Bytes
pushed so_far text e = if ltb 256 (length (so_far ++ text)) then err e else ok (so_far ++ text)

unfoldable pub request_of : Url → ℕ → Result FetchError Bytes
unfolding dotted
request_of url from =
    let line = codes "GET " ++ (url.path ++ (codes " HTTP/1.1" ++ crlf)) in
    let host = codes "Host: " ++ (dotted url.ip ++ (crlf ++ (codes "Connection: close" ++ crlf))) in
    let range = codes "Range: bytes=" ++ (show from ++ (codes "-" ++ crlf)) in
    pushed [] (line ++ host) url_too_long >>? λ request.
    (if ltb 0 from then pushed request range range_header else ok request) >>? λ request.
    pushed request crlf request_end

-- What a status other than the expected one is reported as.
unfoldable pub refusal : ℕ → FetchError
refusal status =
    if status == 404
    then not_found
    else if status == 200
    then range_ignored
    else if status == 416
    then past_the_end
    else refused

abbrev pub head_max : ℕ
head_max = 512

module _ (conn : Connection) where
  open conn use {Stream, write_all, flush, read}

  abbrev pub HeadResult : Type 0
  HeadResult = Stream × Result FetchError (Head × Bytes)

  unfoldable pub head_parsed :
      (Stream → Bytes → HeadResult) → Stream → Bytes → Option Head → HeadResult
  head_parsed next s got (some head) = (s, ok (head, got))
  head_parsed next s got none = next s got

  unfoldable pub head_step :
      (Stream → Bytes → HeadResult) → Stream × Option Bytes → Bytes → HeadResult
  head_step next (s, none) got = (s, err read_failed)
  head_step next (s, some []) got = (s, err closed_early)
  head_step next (s, some (b ∷ bs)) got =
      head_parsed next s (got ++ b ∷ bs) (parse_head (got ++ b ∷ bs))

  -- The head with all that was read for it.
  unfoldable pub head_loop : ℕ → Stream → Bytes → HeadResult
  head_loop zero s got = (s, err out_of_fuel)
  head_loop (suc fuel) s got =
      let more = head_step (head_loop fuel) (read s (head_max - length got)) got in
      if length got == head_max then (s, err head_too_long) else more

module _ (conn : Connection) {W : Type 0} (sink : W → Bytes → W × Bool) where
  open conn use {Stream, write_all, flush, read}

  abbrev pub BodyResult : Type 0
  BodyResult = Stream × W × Result FetchError ℕ

  unfoldable pub body_sunk : (Stream → W → ℕ → BodyResult) → Stream → W × Bool → ℕ → BodyResult
  body_sunk next s (w, true) total = next s w total
  body_sunk next s (w, false) total = (s, w, err sink_failed)

  unfoldable pub body_step :
      (Stream → W → ℕ → BodyResult) → Stream × Option Bytes → W → ℕ → BodyResult
  body_step next (s, none) w total = (s, w, err read_failed)
  body_step next (s, some []) w total = (s, w, ok total)
  body_step next (s, some (b ∷ bs)) w total =
      body_sunk next s (sink w (b ∷ bs)) ((total + length (b ∷ bs)) % u32_mod)

  -- `room` is the size of `scratch`.
  unfoldable pub body_loop : ℕ → ℕ → Stream → W → ℕ → BodyResult
  body_loop room zero s w total = (s, w, err out_of_fuel)
  body_loop room (suc fuel) s w total = body_step (body_loop room fuel) (read s room) w total

  -- What came behind the head goes first.
  unfoldable pub body_from : ℕ → ℕ → Stream → W → Bytes → BodyResult
  body_from room fuel s w [] = body_loop room fuel s w 0
  body_from room fuel s w (b ∷ bs) =
      body_sunk (body_loop room fuel) s (sink w (b ∷ bs)) ((0 + length (b ∷ bs)) % u32_mod)

  unfoldable pub with_head : ℕ → ℕ → ℕ → W → Stream × Result FetchError (Head × Bytes) → BodyResult
  with_head from room fuel w (s, err e) = (s, w, err e)
  with_head from room fuel w (s, ok (head, got)) =
      if not (head.status == (if ltb 0 from then 206 else 200))
      then (s, w, err (refusal head.status))
      else body_from room fuel s w (drop head.body_at got)

  unfoldable pub with_request : ℕ → ℕ → ℕ → Stream → W → Result FetchError Bytes → BodyResult
  with_request from room fuel s w (err e) = (s, w, err e)
  with_request from room fuel s w (ok request) =
      let sent = write_all s request in
      let flushed = flush (sent.0) in
      if not (sent.1)
      then (sent.0, w, err write_failed)
      else if not (flushed.1)
      then (flushed.0, w, err flush_failed)
      else with_head from room fuel w (head_loop conn 513 (flushed.0) [])

  unfoldable pub fetch : Url → ℕ → ℕ → ℕ → Stream → W → BodyResult
  fetch url from room fuel s w = with_request from room fuel s w (request_of url from)
