-- ===== src/Http/Sinks.antt =====
-- Invariants of the sink over a download: `fetch` (src/http.rs).
use rs_smarthome_nodes.Base.{
  ℕ, zero, suc, ◌+◌, ◌≡◌, ◌≤◌, refl, arith, length-drop, Bool, true, false, Option, none, some, [],
  ◌∷◌, drop, length, ltb, ◌==◌, if◌then◌else◌, Bool-cases, inl, inr,
}
use rs_smarthome_nodes.Base.Bytes.{Bytes}
use rs_smarthome_nodes.Base.Result.{Result, ok, err}
use rs_smarthome_nodes.Http.Connection.{Connection}
use rs_smarthome_nodes.Http.Fetch.{
  head_max, FetchError, body_sunk, body_step, body_loop, body_from, with_head, with_request, fetch,
  head_loop, request_of,
}
use rs_smarthome_nodes.Http.Delivery.{HeadOf, head_loop_ok}
use rs_smarthome_nodes.Http.{Url, Head}

module _ (conn : Connection) {W : Type 0} (sink : W → Bytes → W × Bool) (room : ℕ) (P : W → Type 0)
    (keeps : (w : W) (b : Bytes) → length b ≤ room + head_max → P w → P (sink w b).0) where
  open conn use {Stream, write_all, flush, read, read-le}

  body_sunk-keeps :
      (fuel : ℕ) (s : Stream) (r : W × Bool) (total : ℕ)
      → P r.0
      → ((w : W) → P w → P (body_loop conn sink room fuel s w total).1)
      → P (body_sunk conn sink (body_loop conn sink room fuel) s r total).1
  unfolding body_sunk
  body_sunk-keeps fuel s (w, true) total p ih = ih w p
  body_sunk-keeps fuel s (w, false) total p ih = p

  body_step-keeps :
      (fuel : ℕ) (r : Stream × Option Bytes) (w : W) (total : ℕ)
      → ((b : Bytes) → r.1 ≡ some b → length b ≤ room)
      → P w
      → ((w' : W) (total' : ℕ) → P w' → P (body_loop conn sink room fuel r.0 w' total').1)
      → P (body_step conn sink (body_loop conn sink room fuel) r w total).1
  unfolding body_step
  body_step-keeps fuel (s, none) w total short p ih = p
  body_step-keeps fuel (s, some []) w total short p ih = p
  body_step-keeps fuel (s, some (c ∷ cs)) w total short p ih =
      body_sunk-keeps fuel s (sink w (c ∷ cs)) _
        (keeps w (c ∷ cs) (omega (arith, short (c ∷ cs) refl)) p) (λ w'. ih w' _)

  body_loop-keeps :
      (fuel : ℕ) (s : Stream) (w : W) (total : ℕ)
      → P w
      → P (body_loop conn sink room fuel s w total).1
  unfolding body_loop
  body_loop-keeps zero s w total p = p
  body_loop-keeps (suc fuel) s w total p =
      body_step-keeps fuel (read s room) w total (λ b. read-le s room {b = b}) p
        (body_loop-keeps fuel (read s room).0)

  body_from-keeps :
      (fuel : ℕ) (s : Stream) (w : W) (leftover : Bytes)
      → length leftover ≤ head_max
      → P w
      → P (body_from conn sink room fuel s w leftover).1
  unfolding body_from
  body_from-keeps fuel s w [] short p = body_loop-keeps fuel s w 0 p
  body_from-keeps fuel s w (b ∷ bs) short p =
      body_sunk-keeps fuel s (sink w (b ∷ bs)) _ (keeps w (b ∷ bs) (omega (arith, short)) p)
        (λ w'. body_loop-keeps fuel s w' _)

  with_head-keeps :
      (from fuel : ℕ) (w : W) (s : Stream) (r : Stream × Result FetchError (Head × Bytes))
      → HeadOf conn s [] r
      → P w
      → P (with_head conn sink from room fuel w r).1
  unfolding with_head
  with_head-keeps from fuel w s0 (s, err e) of p = p
  with_head-keeps from fuel w s0 (s, ok (head, all)) of p =
      elim (Bool-cases (head.status == (if ltb 0 from then 206 else 200))) [
        | inl good ↦ rw good (
            body_from-keeps fuel s w (drop head.body_at all)
              (omega (arith, of.2, length-drop head.body_at all)) p)
        | inr bad ↦ rw bad p
      ]

  asked-keeps :
      (from fuel : ℕ) (s : Stream) (w : W) (r : Result FetchError Bytes)
      → P w
      → P (with_request conn sink from room fuel s w r).1
  unfolding with_request
  asked-keeps from fuel s w (err e) p = p
  asked-keeps from fuel s w (ok request) p = elim (Bool-cases (write_all s request).1) [
    | inr failed ↦ rw failed p
    | inl sent ↦ elim (Bool-cases (flush (write_all s request).0).1) [
      | inr failed ↦ rw (sent, failed) p
      | inl flushed ↦
          rw (sent, flushed)
            (with_head-keeps from fuel w _ (head_loop conn 513 (flush (write_all s request).0).0 [])
              (head_loop_ok conn 513 (flush (write_all s request).0).0 [] (omega arith)) p)
    ]
  ]

  pub fetch-keeps :
      (url : Url) (from fuel : ℕ) (s : Stream) (w : W)
      → P w
      → P (fetch conn sink url from room fuel s w).1
  unfolding fetch
  fetch-keeps url from fuel s w p = asked-keeps from fuel s w (request_of url from) p
