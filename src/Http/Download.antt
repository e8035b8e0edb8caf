-- ===== src/Http/Download.antt =====
-- A download as a whole, when it succeeded: `fetch` (src/http.rs).
use rs_smarthome_nodes.Base.{
  ==_iff, bind-eq-some, ℕ, ◌+◌, ◌≤◌, ◌<◌, ◌≡◌, refl, ap, ◌∙◌, Bool, true, some, List, [], ◌∷◌, ◌++◌,
  take, drop, drop-append, length, length-drop, ltb, ◌==◌, if◌then◌else◌, arith, Bool-cases, inl,
  inr,
}
use rs_smarthome_nodes.Base.Bytes.{Bytes}
use rs_smarthome_nodes.Base.Result.{Result, ok, err}
use rs_smarthome_nodes.Base.Text.{from_utf8, split}
use rs_smarthome_nodes.Http.Connection.{Connection}
use rs_smarthome_nodes.Http.Delivery.{Delivered, HeadOf, head_loop_ok, body_from_ok}
use rs_smarthome_nodes.Http.Fetch.{
  head_max, FetchError, with_head, with_request, fetch, head_loop, request_of,
}
use rs_smarthome_nodes.Http.{
  Url, Head, parse_head, head_of, status_of, split_lines, find, find_from, starts_with,
}

starts_with-le : (needle s : Bytes) → starts_with needle s ≡ true → length needle ≤ length s
unfolding starts_with
starts_with-le [] s h = omega arith
starts_with-le (n ∷ ns) [] h = cc
starts_with-le (n ∷ ns) (c ∷ cs) h = ground (arith, starts_with-le ns cs)

find_from-le :
    (at : ℕ) (hay needle : Bytes) {i : ℕ}
    → find_from at hay needle ≡ some i
    → i + length needle ≤ at + length hay
unfolding find_from
find_from-le at [] needle e = cc
find_from-le at (c ∷ cs) needle {i = i} e =
    ground (arith, starts_with-le needle (c ∷ cs), find_from-le (at + 1) cs needle {i = i})

head_of-at :
    (end : ℕ) (lines : List Bytes) {head : Head}
    → head_of end lines ≡ some head
    → head.body_at ≡ end + 4
head_of-at end [] e = cc
head_of-at end (line ∷ lines) e =
    let parts = bind-eq-some (status_of (split b' ' line)) _ e in ground (arith, parts.2)

parse_head-le : (buf : Bytes) {head : Head} → parse_head buf ≡ some head → head.body_at ≤ length buf
unfolding parse_head find
parse_head-le buf e =
    let found = bind-eq-some (find_from 0 buf (13 ∷ 10 ∷ 13 ∷ 10 ∷ [])) _ e in
    let text = bind-eq-some (from_utf8 (take found.0 buf)) _ found.2 in
    omega (
      arith,
      find_from-le 0 buf (13 ∷ 10 ∷ 13 ∷ 10 ∷ []) found.1,
      head_of-at found.0 (split_lines text.0) text.2,
    )

module _ (conn : Connection) {W : Type 0} (sink : W → Bytes → W × Bool) (room : ℕ)
    (h : 0 < room) where
  open conn use {Stream, write_all, flush, unread}

  -- The stream began with a response's head of the expected status; the sink took what followed it.
  abbrev pub Downloaded : ℕ → Bytes → W → W → ℕ → Type 0
  Downloaded from response w w' n =
      (all : Bytes) × (rest : Bytes) × (head : Head) × (response ≡ all ++ rest)
      × (parse_head all ≡ some head)
      × (head.status ≡ (if ltb 0 from then 206 else 200))
      × Delivered conn sink room w (drop head.body_at response) 0 w' n

  with_head_ok :
      (from fuel : ℕ) (s : Stream) (w : W) (n : ℕ) (r : Stream × Result FetchError (Head × Bytes))
      → HeadOf conn s [] r
      → (with_head conn sink from room fuel w r).2 ≡ ok n
      → Downloaded from (unread s) w (with_head conn sink from room fuel w r).1 n
  unfolding with_head
  with_head_ok from fuel s w n (s1, err e) read done = cc
  with_head_ok from fuel s w n (s1, ok (head, all)) read done =
      elim (Bool-cases (head.status == (if ltb 0 from then 206 else 200))) [
        | inl good ↦
            let cut =
              ap (drop head.body_at) read.0
              ∙ drop-append head.body_at all (unread s1) (parse_head-le all read.1) in
            let done' = (rw good at done) in
            let short : length (drop head.body_at all) ≤ head_max =
              omega (arith, read.2, length-drop head.body_at all) in
            rw good (
              all,
              unread s1,
              head,
              read.0,
              read.1,
              (==_iff _ _).0 good,
              (rw cut
                  (body_from_ok conn sink room h fuel s1 w (drop head.body_at all) n short done')),
            )
        | inr bad ↦ let done' = (rw bad at done) in (cc)
      ]

  -- What the server sends once the request is out.
  abbrev pub response_to : Stream → Bytes → Bytes
  response_to s request = unread (flush (write_all s request).0).0

  requested_ok :
      (from fuel : ℕ) (s : Stream) (w : W) (n : ℕ) (request : Bytes)
      → (with_request conn sink from room fuel s w (ok request)).2 ≡ ok n
      → Downloaded from
          (response_to s request)
          w
          (with_request conn sink from room fuel s w (ok request)).1
          n
  unfolding with_request
  requested_ok from fuel s w n request done = elim (Bool-cases (write_all s request).1) [
    | inr failed ↦ let done' = (rw failed at done) in (cc)
    | inl sent ↦ elim (Bool-cases (flush (write_all s request).0).1) [
      | inr failed ↦ let done' = (rw (sent, failed) at done) in (cc)
      | inl flushed ↦
          let done' = (rw (sent, flushed) at done) in
          rw (sent, flushed)
            (with_head_ok from fuel _ w n (head_loop conn 513 (flush (write_all s request).0).0 [])
              (head_loop_ok conn 513 (flush (write_all s request).0).0 [] (omega arith)) done')
    ]
  ]

  asked_ok :
      (from fuel : ℕ) (s : Stream) (w : W) (n : ℕ) (r : Result FetchError Bytes)
      → (with_request conn sink from room fuel s w r).2 ≡ ok n
      → (request : Bytes) × (r ≡ ok request)
        × Downloaded from
            (response_to s request)
            w
            (with_request conn sink from room fuel s w r).1
            n
  unfolding with_request
  asked_ok from fuel s w n (ok request) done =
      (request, refl, requested_ok from fuel s w n request done)
  asked_ok from fuel s w n (err e) done = cc

  -- A download into a buffer with room for a byte at least: where it reports success with a count, it sent a
  -- request, the response to it began with a head
  -- whose status is 206 if a range was asked for and 200 otherwise, and the sink took, piece by piece,
  -- all the bytes that followed that head; the count is their number, modulo 2 ^ 32.
  pub fetch_delivers :
      (url : Url) (from fuel : ℕ) (s : Stream) (w : W) (n : ℕ)
      → (fetch conn sink url from room fuel s w).2 ≡ ok n
      → (request : Bytes) × (request_of url from ≡ ok request)
        × Downloaded from (response_to s request) w (fetch conn sink url from room fuel s w).1 n
  unfolding fetch
  fetch_delivers url from fuel s w n done = asked_ok from fuel s w n (request_of url from) done
