-- ===== src/Http/Ending.antt =====
-- How long a download lasts: the loops of `fetch` (src/http.rs).
use rs_smarthome_nodes.Base.{
  ℕ, zero, suc, ◌+◌, ◌-◌, ◌%◌, ◌≤◌, ◌<◌, ◌≡◌, ◌≢◌, refl, ap, ◌∙◌, Bool, true, false, Option, none,
  some, [], ◌∷◌, ◌++◌, drop, length, length-append, ltb, ◌==◌, if◌then◌else◌, arith, Bool-cases,
  inl, inr,
}
use rs_smarthome_nodes.Base.Bytes.{Bytes}
use rs_smarthome_nodes.Base.Result.{Result, ok, err}
use rs_smarthome_nodes.Base.Words.{u32_mod}
use rs_smarthome_nodes.Http.Connection.{Connection}
use rs_smarthome_nodes.Http.Delivery.{HeadOf, head_loop_ok}
use rs_smarthome_nodes.Http.Fetch.{
  FetchError, out_of_fuel, body_sunk, body_step, body_loop, body_from, with_head, with_request,
  fetch, head_loop, head_step, head_parsed, request_of, head_max, refusal,
}
use rs_smarthome_nodes.Http.{Url, Head, parse_head}

module _ (conn : Connection) where
  open conn use {Stream, read, unread, read-le}

  abbrev HeadEnds : Stream × Result FetchError (Head × Bytes) → Type 0
  HeadEnds r = r.1 ≢ err out_of_fuel

  head_parsed-Ends :
      (fuel : ℕ) (s : Stream) (got : Bytes) (o : Option Head)
      → HeadEnds (head_loop conn fuel s got)
      → HeadEnds (head_parsed conn (head_loop conn fuel) s got o)
  unfolding head_parsed
  head_parsed-Ends fuel s got none h = h
  head_parsed-Ends fuel s got (some head) h = λ e. cc

  head_step-Ends :
      (fuel : ℕ) (s s1 : Stream) (got : Bytes) (b : Option Bytes)
      → read s (head_max - length got) ≡ (s1, b)
      → length got < 512
      → 512 < suc fuel + length got
      → ((all : Bytes)
          → length all ≤ 512
          → 512 < fuel + length all
          → HeadEnds (head_loop conn fuel s1 all))
      → HeadEnds (head_step conn (head_loop conn fuel) (s1, b) got)
  unfolding head_step
  head_step-Ends fuel s s1 got none e small enough ih = λ e'. cc
  head_step-Ends fuel s s1 got (some []) e small enough ih = λ e'. cc
  head_step-Ends fuel s s1 got (some (c ∷ cs)) e small enough ih =
      let fits = read-le s (head_max - length got) (ap (λ r. r.1) e) in
      let size = length-append got (c ∷ cs) in
      head_parsed-Ends fuel s1 (got ++ c ∷ cs) (parse_head (got ++ c ∷ cs))
        (ih (got ++ c ∷ cs) (omega arith) (omega arith))

  head_loop-Ends :
      (fuel : ℕ) (s : Stream) (got : Bytes)
      → length got ≤ 512
      → 512 < fuel + length got
      → HeadEnds (head_loop conn fuel s got)
  unfolding head_loop
  head_loop-Ends zero s got small enough = absurd (omega arith)
  head_loop-Ends (suc fuel) s got small enough = elim (Bool-cases (length got == head_max)) [
    | inl full ↦ rw full (λ e. cc)
    | inr room ↦
        rw room (head_step-Ends fuel s _ got _ refl (ground arith) enough (head_loop-Ends fuel _))
  ]

module _ (conn : Connection) {W : Type 0} (sink : W → Bytes → W × Bool) (room : ℕ) where
  open conn use {Stream, write_all, flush, read, unread, read-unread}

  sunk-ends :
      (fuel : ℕ) (s : Stream) (r : W × Bool) (total : ℕ)
      → ((w : W) → (body_loop conn sink room fuel s w total).2 ≢ err out_of_fuel)
      → (body_sunk conn sink (body_loop conn sink room fuel) s r total).2 ≢ err out_of_fuel
  unfolding body_sunk
  sunk-ends fuel s (w, true) total ih = ih w
  sunk-ends fuel s (w, false) total ih = λ e. cc

  step-ends :
      (fuel : ℕ) (s s1 : Stream) (b : Option Bytes) (w : W) (total : ℕ)
      → read s room ≡ (s1, b)
      → length (unread s) < suc fuel
      → ((w' : W) (total' : ℕ)
          → length (unread s1) < fuel
          → (body_loop conn sink room fuel s1 w' total').2 ≢ err out_of_fuel)
      → (body_step conn sink (body_loop conn sink room fuel) (s1, b) w total).2 ≢ err out_of_fuel
  unfolding body_step
  step-ends fuel s s1 none w total e enough ih = λ e'. cc
  step-ends fuel s s1 (some []) w total e enough ih = λ e'. cc
  step-ends fuel s s1 (some (c ∷ cs)) w total e enough ih =
      let left =
        ap length (read-unread s room (ap (λ r. r.1) e) ∙ ap (λ r. c ∷ cs ++ unread (r.0)) e) in
      let size = length-append (c ∷ cs) (unread s1) in
      sunk-ends fuel s1 (sink w (c ∷ cs)) ((total + length (c ∷ cs)) % u32_mod)
        (λ w'. ih w' ((total + length (c ∷ cs)) % u32_mod) (omega arith))

  body_loop-ends :
      (fuel : ℕ) (s : Stream) (w : W) (total : ℕ)
      → length (unread s) < fuel
      → (body_loop conn sink room fuel s w total).2 ≢ err out_of_fuel
  unfolding body_loop
  body_loop-ends zero s w total enough = absurd (omega arith)
  body_loop-ends (suc fuel) s w total enough =
      step-ends fuel s (read s room).0 (read s room).1 w total refl enough
        (body_loop-ends fuel (read s room).0)

  body_from-ends :
      (fuel : ℕ) (s : Stream) (w : W) (leftover : Bytes)
      → length (unread s) < fuel
      → (body_from conn sink room fuel s w leftover).2 ≢ err out_of_fuel
  unfolding body_from
  body_from-ends fuel s w [] enough = body_loop-ends fuel s w 0 enough
  body_from-ends fuel s w (b ∷ bs) enough =
      sunk-ends fuel s (sink w (b ∷ bs)) _ (λ w'. body_loop-ends fuel s w' _ enough)

  refusal-ends : (status : ℕ) → refusal status ≢ out_of_fuel
  unfolding refusal
  refusal-ends status = ground arith

  with_head-ends :
      (from fuel : ℕ) (s : Stream) (w : W) (r : Stream × Result FetchError (Head × Bytes))
      → HeadOf conn s [] r
      → HeadEnds conn r
      → length (unread s) < fuel
      → (with_head conn sink from room fuel w r).2 ≢ err out_of_fuel
  unfolding with_head
  with_head-ends from fuel s w (s1, err e) read ends enough = λ same. ends (cc)
  with_head-ends from fuel s w (s1, ok (head, all)) read ends enough =
      let size = length-append all (unread s1) in
      let left = ap length read.0 in
      elim (Bool-cases (head.status == (if ltb 0 from then 206 else 200))) [
        | inl good ↦ rw good (body_from-ends fuel s1 w (drop head.body_at all) (omega arith))
        | inr bad ↦ rw bad (λ e. refusal-ends head.status (cc))
      ]

  requested-ends :
      (from fuel : ℕ) (s : Stream) (w : W) (request : Bytes)
      → length (unread (flush (write_all s request).0).0) < fuel
      → (with_request conn sink from room fuel s w (ok request)).2 ≢ err out_of_fuel
  unfolding with_request
  requested-ends from fuel s w request enough = elim (Bool-cases (write_all s request).1) [
    | inr failed ↦ rw failed (λ e. cc)
    | inl sent ↦ elim (Bool-cases (flush (write_all s request).0).1) [
      | inr failed ↦ rw (sent, failed) (λ e. cc)
      | inl flushed ↦
          rw (sent, flushed)
            (with_head-ends from fuel _ w (head_loop conn 513 (flush (write_all s request).0).0 [])
              (head_loop_ok conn 513 (flush (write_all s request).0).0 [] (omega arith))
              (head_loop-Ends conn 513 (flush (write_all s request).0).0 [] (omega arith)
                (omega arith))
              enough)
    ]
  ]

  asked-ends :
      (from fuel : ℕ) (s : Stream) (w : W) (r : Result FetchError Bytes)
      → r ≢ err out_of_fuel
      → ((request : Bytes) → length (unread (flush (write_all s request).0).0) < fuel)
      → (with_request conn sink from room fuel s w r).2 ≢ err out_of_fuel
  unfolding with_request
  asked-ends from fuel s w (ok request) fine enough =
      requested-ends from fuel s w request (enough request)
  asked-ends from fuel s w (err e) fine enough = λ same. fine (cc)

  request-ends : (url : Url) (from : ℕ) → request_of url from ≢ err out_of_fuel
  unfolding request_of
  request-ends url from = ground arith

  -- A download ends: with a turn for each byte of the response and one more, whatever the server sends and
  -- however its bytes are split, the loops do not run out; nor does the head's, which has 513.
  pub fetch-ends :
      (url : Url) (from fuel : ℕ) (s : Stream) (w : W)
      → ((request : Bytes) → length (unread (flush (write_all s request).0).0) < fuel)
      → (fetch conn sink url from room fuel s w).2 ≢ err out_of_fuel
  unfolding fetch
  fetch-ends url from fuel s w enough =
      asked-ends from fuel s w (request_of url from) (request-ends url from) enough
