-- ===== src/Archive/Writer/Conserved.antt =====
-- What becomes of the rows that the writer task is handed (timeseries/src/questdb/writer.rs).
use rs_smarthome_nodes.Base.{
  ℕ, ◌+◌, ◌%◌, ◌<◌, ◌≡◌, refl, sym, ap, subst, ◌∙◌, Bool, true, false, List, [], ◌∷◌, ◌++◌, ltb,
  leb, if-keeps, append_assoc, append-nil, arith,
}
use rs_smarthome_nodes.Base.Bytes.{Bytes}
use rs_smarthome_nodes.Base.Double.{Float64}
use rs_smarthome_nodes.Base.Int.{ℤ}
use rs_smarthome_nodes.Base.Words.{u64_mod}
use rs_smarthome_nodes.Archive.{Record}
use rs_smarthome_nodes.Archive.Shared.{Stats, record_write, record_write_error, record_dropped}
use rs_smarthome_nodes.Archive.Writer.{
  max_pending_lines, Settings, Pending, Answer, Outcome, written, kept, dropped, answered, flush,
  flush_some, line_of, received, Event, arrived, tick, step, run,
}

abbrev pub settled_by : Outcome → Bytes
settled_by (written body rows) = body
settled_by (kept body rows) = []
settled_by (dropped body rows) = body

-- The bodies that left the queue, written or dropped, in their order.
unfoldable pub settled : List Outcome → Bytes
settled [] = []
settled (o ∷ os) = settled_by o ++ settled os

abbrev pub written_rows : Outcome → ℕ
written_rows (written body rows) = rows
written_rows (kept body rows) = 0
written_rows (dropped body rows) = 0

abbrev pub dropped_rows : Outcome → ℕ
dropped_rows (written body rows) = 0
dropped_rows (kept body rows) = 0
dropped_rows (dropped body rows) = rows

unfoldable pub all_written : List Outcome → ℕ
all_written [] = 0
all_written (o ∷ os) = written_rows o + all_written os

unfoldable pub all_dropped : List Outcome → ℕ
all_dropped [] = 0
all_dropped (o ∷ os) = dropped_rows o + all_dropped os

abbrev pub arrival : Float64 → Settings → Event → Bytes
arrival f settings (arrived r a) = line_of f settings r
arrival f settings (tick a) = []

abbrev pub arrivals : Event → ℕ
arrivals (arrived r a) = 1
arrivals (tick a) = 0

-- The lines of all the records that came, and their number.
unfoldable pub lines_in : Float64 → Settings → List Event → Bytes
lines_in f settings [] = []
lines_in f settings (e ∷ es) = arrival f settings e ++ lines_in f settings es

unfoldable pub rows_in : List Event → ℕ
rows_in [] = 0
rows_in (e ∷ es) = arrivals e + rows_in es

-- From `p` with `more` come `after` and the outcomes, and nothing is lost or written twice.
pub record Conserves (p : Pending) (more : Bytes) (rows : ℕ) (after : Pending) (os : List Outcome)
    : Type 0 where
  pub in_order : settled os ++ after.body ≡ p.body ++ more
  pub counted : all_written os + all_dropped os + after.lines ≡ p.lines + rows
  pub reported_written :
      after.stats.rows_written ≡ (p.stats.rows_written + all_written os) % u64_mod
  pub reported_dropped :
      after.stats.rows_dropped ≡ (p.stats.rows_dropped + all_dropped os) % u64_mod

abbrev pub InRange : Stats → Type 0
InRange s = (s.rows_written < u64_mod) × (s.rows_dropped < u64_mod)

settled-append : (a b : List Outcome) → settled (a ++ b) ≡ settled a ++ settled b
unfolding settled
settled-append [] b = refl
settled-append (o ∷ a) b = simp (settled-append a b, append_assoc)

all_written-append : (a b : List Outcome) → all_written (a ++ b) ≡ all_written a + all_written b
unfolding all_written
all_written-append [] b = omega arith
all_written-append (o ∷ a) b = omega (arith, all_written-append a b)

pub all_dropped-append : (a b : List Outcome) → all_dropped (a ++ b) ≡ all_dropped a + all_dropped b
unfolding all_dropped
all_dropped-append [] b = omega arith
all_dropped-append (o ∷ a) b = omega (arith, all_dropped-append a b)

abbrev Kept : Pending → Pending × List Outcome → Type 0
Kept p (after, os) = Conserves p [] 0 after os

still : (p : Pending) → InRange p.stats → Conserves p [] 0 p []
unfolding settled all_written all_dropped
still p h = record {
  in_order = sym (append-nil p.body);
  counted = omega arith;
  reported_written = omega arith;
  reported_dropped = omega arith;
}

answered-Kept :
    (accepted : Bool) (now : ℤ) (p : Pending) → InRange p.stats → Kept p (answered accepted now p)
unfolding settled all_written all_dropped record_write record_write_error record_dropped
answered-Kept true now p h = record {
  in_order = append-nil (p.body ++ []);
  counted = omega arith;
  reported_written = omega arith;
  reported_dropped = omega arith;
}
answered-Kept false now p h =
    if-keeps (Kept p) (leb max_pending_lines p.lines)
      (record {
        in_order = append-nil (p.body ++ []);
        counted = omega arith;
        reported_written = omega arith;
        reported_dropped = omega arith;
      })
      (record {
        in_order = sym (append-nil p.body);
        counted = omega arith;
        reported_written = omega arith;
        reported_dropped = omega arith;
      })

flush_some-Kept : (a : Answer) (p : Pending) → InRange p.stats → Kept p (flush_some a p)
unfolding flush_some flush
flush_some-Kept a p h =
    if-keeps (Kept p) (ltb 0 p.lines) (answered-Kept a.accepted a.now p h) (still p h)

Conserves-chain :
    (p q r : Pending) (x y : Bytes) (n m : ℕ) (os more : List Outcome)
    → Conserves p x n q os
    → Conserves q y m r more
    → Conserves p (x ++ y) (n + m) r (os ++ more)
Conserves-chain p q r x y n m os more h k = record {
  in_order =
      ap (λ b. b ++ r.body) (settled-append os more)
      ∙ append_assoc (settled os) (settled more) r.body
      ∙ ap (λ b. settled os ++ b) k.in_order
      ∙ sym (append_assoc (settled os) q.body y)
      ∙ ap (λ b. b ++ y) h.in_order
      ∙ append_assoc p.body x y;
  counted =
      omega (arith, all_written-append os more, all_dropped-append os more, h.counted, k.counted);
  reported_written =
      omega (arith, all_written-append os more, h.reported_written, k.reported_written);
  reported_dropped =
      omega (arith, all_dropped-append os more, h.reported_dropped, k.reported_dropped);
}

-- A batch on its way after a record came.
grown :
    (p more : Pending) (line : Bytes)
    → Conserves p line 1 more []
    → (result : Pending × List Outcome) → Kept more result
    → Conserves p line 1 (result.0) (result.1)
grown p more line h (after, os) k =
    subst (λ x. Conserves p x 1 after os) (append-nil line)
      (Conserves-chain p more after line [] 1 0 [] os h k)

module _ (f : Float64) (settings : Settings) where
  abbrev Steps : Event → Pending → Pending × List Outcome → Type 0
  Steps e p (after, os) = Conserves p (arrival f settings e) (arrivals e) after os

  received-Steps :
      (r : Record) (a : Answer) (p : Pending)
      → InRange p.stats
      → Steps (arrived r a) p (received f settings r a p)
  unfolding received flush
  received-Steps r a p h =
      let line = line_of f settings r in
      let more : Pending = record p { body = p.body ++ line; lines = p.lines + 1 } in
      let joined : Conserves p line 1 more [] =
        (unfold settled all_written all_dropped in
          record {
            in_order = refl;
            counted = omega arith;
            reported_written = omega arith;
            reported_dropped = omega arith;
          }) in
      if-keeps (Steps (arrived r a) p) (leb settings.batch_max (p.lines + 1))
        (grown p more line joined (answered a.accepted a.now more)
          (answered-Kept a.accepted a.now more h))
        joined

  step-Steps : (e : Event) (p : Pending) → InRange p.stats → Steps e p (step f settings e p)
  unfolding step
  step-Steps (arrived r a) p h = received-Steps r a p h
  step-Steps (tick a) p h = flush_some-Kept a p h

  -- However the records, the ticks and the answers follow one another, the bodies that were written
  -- or dropped and what is still pending are the lines of all the records, in the order in which they
  -- came; every row is written, dropped or pending, and the counters say how many.
  pub run-Conserves :
      (es : List Event) (a : Answer) (p : Pending)
      → InRange p.stats
      → Conserves p
          (lines_in f settings es)
          (rows_in es)
          (run f settings es a p).0
          (run f settings es a p).1
  unfolding run lines_in rows_in
  run-Conserves [] a p h = flush_some-Kept a p h
  run-Conserves (e ∷ es) a p h =
      let after = step f settings e p in
      let first = step-Steps e p h in
      Conserves-chain p (after.0) (run f settings es a (after.0)).0 (arrival f settings e)
        (lines_in f settings es) (arrivals e) (rows_in es) (after.1)
        (run f settings es a (after.0)).1 first
        (run-Conserves es a (after.0) (omega (arith, first)))
