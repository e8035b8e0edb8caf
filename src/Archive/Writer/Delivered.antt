-- ===== src/Archive/Writer/Delivered.antt =====
-- Rows and outages (timeseries/src/questdb/writer.rs).
use rs_smarthome_nodes.Base.{
  ℕ, ◌+◌, ◌≤◌, ◌<◌, max, ◌≡◌, refl, sym, ap, ◌∙◌, lt→leb_false, Bool, true, false, List, [], ◌∷◌,
  ◌++◌, ltb, leb, if-keeps, Bool-cases, inl, inr, append-nil, arith, All,
}
use rs_smarthome_nodes.Base.Double.{Float64}
use rs_smarthome_nodes.Base.Int.{ℤ}
use rs_smarthome_nodes.Archive.Writer.{
  max_pending_lines, Settings, Pending, Answer, Outcome, written, kept, dropped, answered, flush,
  flush_some, line_of, received, Event, arrived, tick, step, run,
}
use rs_smarthome_nodes.Archive.Writer.Conserved.{
  settled, all_written, all_dropped, all_dropped-append, lines_in, rows_in, arrivals, InRange,
  run-Conserves,
}

-- What a batch that fails, or is dropped, says of its size.
abbrev pub IsFair : ℕ → Outcome → Type 0
IsFair limit (written body rows) = rows ≤ limit
IsFair limit (kept body rows) = rows < max_pending_lines
IsFair limit (dropped body rows) = (max_pending_lines ≤ rows) × (rows ≤ limit)

abbrev pub AreFair : ℕ → List Outcome → Type 0
AreFair limit os = All (IsFair limit) os

All-append :
    (limit : ℕ) (a b : List Outcome) → AreFair limit a → AreFair limit b → AreFair limit (a ++ b)
All-append limit [] b h k = k
All-append limit (o ∷ a) b (x, h) k = (x, All-append limit a b h k)

-- More rows than a batch, or than the backlog may have, never wait.
abbrev limit_of : Settings → ℕ
limit_of settings = max settings.batch_max max_pending_lines

abbrev Bounded : ℕ → Pending × List Outcome → Type 0
Bounded limit (after, os) = (after.lines < limit) × AreFair limit os

answered-Bounded :
    (limit : ℕ) (accepted : Bool) (now : ℤ) (p : Pending)
    → max_pending_lines ≤ limit
    → p.lines ≤ limit
    → Bounded limit (answered accepted now p)
answered-Bounded limit true now p h k = omega arith
answered-Bounded limit false now p h k = ground arith

module _ (f : Float64) (settings : Settings) where
  step-Bounded :
      (e : Event) (p : Pending)
      → p.lines < limit_of settings
      → Bounded (limit_of settings) (step f settings e p)
  unfolding step received flush_some flush
  step-Bounded (arrived r a) p h =
      let more : Pending = record p {
        body = p.body ++ line_of f settings r;
        lines = p.lines + 1;
      } in
      elim (Bool-cases (leb settings.batch_max (p.lines + 1))) [
        | inl full ↦
            rw full (
              answered-Bounded (limit_of settings) a.accepted a.now more (omega arith)
                (omega arith))
        | inr room ↦ rw room (ground arith)
      ]
  step-Bounded (tick a) p h =
      if-keeps (Bounded (limit_of settings)) (ltb 0 p.lines)
        (answered-Bounded (limit_of settings) a.accepted a.now p (omega arith) (omega arith))
        (h, tt)

  -- Never do more rows wait than a batch or 100,000 have; a batch fails and is kept only below
  -- 100,000 rows, and is dropped only from there.
  pub run-AreFair :
      (es : List Event) (a : Answer) (p : Pending)
      → p.lines < max settings.batch_max max_pending_lines
      → ((run f settings es a p).0.lines < max settings.batch_max max_pending_lines)
        × AreFair (max settings.batch_max max_pending_lines) (run f settings es a p).1
  unfolding run
  run-AreFair [] a p h = step-Bounded (tick a) p h
  run-AreFair (e ∷ es) a p h =
      let (under, fair) = step-Bounded e p h in
      let (end, others) = run-AreFair es a (step f settings e p).0 under in
      (end, All-append _ (step f settings e p).1 _ fair others)

  -- No batch is dropped, and the queue has room for what is to come.
  abbrev Safe : ℕ → Pending × List Outcome → Type 0
  Safe rows (after, os) =
      (after.lines + rows < max_pending_lines)
      × (all_dropped os ≡ 0)
      × (after.lines ≡ 0 → after.body ≡ [])

  answered-Safe :
      (accepted : Bool) (now : ℤ) (p : Pending) (rows : ℕ)
      → p.lines + rows < max_pending_lines
      → (p.lines ≡ 0 → p.body ≡ [])
      → Safe rows (answered accepted now p)
  unfolding all_dropped
  answered-Safe true now p rows h k = (omega arith, omega arith, λ e. refl)
  answered-Safe false now p rows h k =
      rw (lt→leb_false max_pending_lines p.lines (omega arith)) (h, omega arith, k)

  step-Safe :
      (e : Event) (p : Pending) (rows : ℕ)
      → p.lines + (arrivals e + rows) < max_pending_lines
      → (p.lines ≡ 0 → p.body ≡ [])
      → Safe rows (step f settings e p)
  unfolding step received flush_some flush
  step-Safe (arrived r a) p rows h k =
      let more : Pending = record p {
        body = p.body ++ line_of f settings r;
        lines = p.lines + 1;
      } in
      if-keeps (Safe rows) (leb settings.batch_max (p.lines + 1))
        (answered-Safe a.accepted a.now more rows (omega arith) (λ e. absurd (omega arith)))
        (unfold all_dropped in (omega arith, omega arith, λ e. absurd (omega arith)))
  step-Safe (tick a) p rows h k =
      if-keeps (Safe rows) (ltb 0 p.lines) (answered-Safe a.accepted a.now p rows (omega arith) k)
        (unfold all_dropped in (omega arith, omega arith, k))

  -- At the end nothing is left.
  abbrev Empties : Pending × List Outcome → Type 0
  Empties (after, os) = (after.lines ≡ 0) × (after.body ≡ []) × (all_dropped os ≡ 0)

  flush_some-Empties :
      (now : ℤ) (p : Pending)
      → (p.lines ≡ 0 → p.body ≡ [])
      → Empties (flush_some (record { accepted = true; now = now }) p)
  unfolding flush_some flush all_dropped
  flush_some-Empties now p k = elim (Bool-cases (ltb 0 p.lines)) [
    | inl some_rows ↦ rw some_rows (refl, refl, omega arith)
    | inr no_rows ↦ rw no_rows (ground arith, k (ground arith), omega arith)
  ]

  run-Empties :
      (es : List Event) (now : ℤ) (p : Pending)
      → p.lines + rows_in es < max_pending_lines
      → (p.lines ≡ 0 → p.body ≡ [])
      → Empties (run f settings es (record { accepted = true; now = now }) p)
  unfolding run rows_in
  run-Empties [] now p h k = flush_some-Empties now p k
  run-Empties (e ∷ es) now p h k =
      let last : Answer = record { accepted = true; now = now } in
      let after = step f settings e p in
      let (room, none_dropped, fits) = step-Safe e p (rows_in es) h k in
      let (no_lines, no_body, rest_dropped) = run-Empties es now (after.0) room fits in
      (
        no_lines,
        no_body,
        omega (
          arith,
          all_dropped-append (after.1) (run f settings es last (after.0)).1,
          none_dropped,
          rest_dropped,
        ),
      )

  -- If fewer than 100,000 rows come and the database takes the last batch, then whatever failed
  -- before, the batches that were written are the lines of all the records, in their order.
  pub run-delivers :
      (es : List Event) (now : ℤ) (p : Pending)
      → p.lines ≡ 0
      → p.body ≡ []
      → InRange p.stats
      → rows_in es < max_pending_lines
      → let os = (run f settings es (record { accepted = true; now = now }) p).1 in
        (settled os ≡ lines_in f settings es) × (all_written os ≡ rows_in es) × (all_dropped os ≡ 0)
  run-delivers es now p h k ranges few =
      let last : Answer = record { accepted = true; now = now } in
      let result = run f settings es last p in
      let all = run-Conserves f settings es last p ranges in
      let (no_lines, no_body, none_dropped) = run-Empties es now p (omega arith) (λ e. k) in
      (
        sym (append-nil (settled (result.1)))
            ∙ ap (λ b. settled (result.1) ++ b) (sym no_body)
            ∙ all.in_order
            ∙ ap (λ b. b ++ lines_in f settings es) k,
        omega (arith, all.counted, no_lines, none_dropped, h),
        none_dropped,
      )
