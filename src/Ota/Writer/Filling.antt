-- ===== src/Ota/Writer/Filling.antt =====
-- A chunk on its way through the staging buffer: `Writer::write` (src/ota.rs).
use rs_smarthome_nodes.Base.{
  ℕ, zero, suc, ◌+◌, ◌-◌, ◌≤◌, ◌<◌, ◌≡◌, refl, ap, sym, ◌∙◌, min, [], ◌∷◌, ◌++◌, append-nil,
  append_assoc, take, drop, length, length-append, length-take, length-drop, take-append-drop,
  arith,
}
use rs_smarthome_nodes.Base.Bytes.{Bytes}
use rs_smarthome_nodes.Base.Result.{ok, err}
use rs_smarthome_nodes.Base.Words.{u32_mod}
use rs_smarthome_nodes.Flash.{Storage}
use rs_smarthome_nodes.Ota.Writer.{Writer, Done, and_then, staged, flush_if_full, fill}
use rs_smarthome_nodes.Ota.Writer.Staging.{
  Held, Alike, Alike-self, Alike-trans, refused, staged-Held, flush_if_full-Held,
}

module _ (flash : Storage) where
  open flash use {Chip}

  and_then_ok :
      (next : Writer Chip → Bytes → Done Chip) (r : Done Chip) (rest : Bytes)
      → (and_then flash next r rest).1 ≡ ok tt
      → (r.1 ≡ ok tt) × (and_then flash next r rest ≡ next r.0 rest)
  and_then_ok next (w, ok _) rest done = (refl, refl)
  and_then_ok next (w, err e) rest done = absurd (refused done)

  -- `w'` comes from `w` and holds these bytes, in flash and behind that in the buffer, which has room.
  abbrev pub Took : Writer Chip → Writer Chip → Bytes → Type 0
  Took w w' bytes =
      (sent : Bytes) × (kept : Bytes) × (sent ++ kept ≡ bytes)
      × Held flash w' sent kept
      × Alike flash w w'
      × (w'.filled < length w'.buf)

  Took-trans :
      (u v w : Writer Chip) {bytes bytes' : Bytes}
      → Alike flash u v
      → bytes ≡ bytes'
      → Took v w bytes
      → Took u w bytes'
  Took-trans u v w same e (sent, kept, all, held, same', room) =
      (sent, kept, all ∙ e, held, Alike-trans flash u v w same same', room)

  -- One turn of the loop.
  turn-Took :
      (w : Writer Chip) (sent kept piece : Bytes)
      → Held flash w sent kept
      → 0 < length w.buf
      → w.filled + length piece ≤ length w.buf
      → length sent + length kept + length piece < u32_mod
      → (flush_if_full flash (staged flash w piece)).1 ≡ ok tt
      → Took w (flush_if_full flash (staged flash w piece)).0 ((sent ++ kept) ++ piece)
  turn-Took w sent kept piece held room fits word done =
      let (held1, same1) = staged-Held flash w sent kept piece held fits word in
      let size : length (staged flash w piece).buf ≡ length w.buf = same1.buf_same in
      let (sent', kept', all, held2, same2, room2) =
        flush_if_full-Held flash (staged flash w piece) sent (kept ++ piece) held1
          (omega (arith, size, room)) done in
      (
        sent',
        kept',
        all ∙ sym (append_assoc sent kept piece),
        held2,
        Alike-trans flash w (staged flash w piece) _ same1 same2,
        omega (arith, room2, same2.buf_same),
      )

  rest-Took :
      (next : Writer Chip → Bytes → Done Chip) (w : Writer Chip) (sent kept piece rest : Bytes)
      → Held flash w sent kept
      → 0 < length w.buf
      → w.filled + length piece ≤ length w.buf
      → length sent + length kept + length (piece ++ rest) < u32_mod
      → ((w1 : Writer Chip) (sent' kept' : Bytes)
          → Held flash w1 sent' kept'
          → w1.filled < length w1.buf
          → length sent' + length kept' + length rest < u32_mod
          → (next w1 rest).1 ≡ ok tt
          → Took w1 (next w1 rest).0 ((sent' ++ kept') ++ rest))
      → (and_then flash next (flush_if_full flash (staged flash w piece)) rest).1 ≡ ok tt
      → Took w
          (and_then flash next (flush_if_full flash (staged flash w piece)) rest).0
          ((sent ++ kept) ++ (piece ++ rest))
  rest-Took next w sent kept piece rest held room fits word ih done =
      let (good, through) =
        and_then_ok next (flush_if_full flash (staged flash w piece)) rest done in
      let (sent', kept', all, held', same, room') =
        turn-Took w sent kept piece held room fits (omega (arith, word, length-append piece rest))
          good in
      let long : length sent' + length kept' ≡ length sent + length kept + length piece =
        sym (length-append sent' kept')
        ∙ ap length all
        ∙ length-append (sent ++ kept) piece
        ∙ ap (λ m. m + length piece) (length-append sent kept) in
      rw through (
        Took-trans w _ _ same (ap (λ b. b ++ rest) all ∙ append_assoc (sent ++ kept) piece rest) (
          ih _ sent' kept' held' room' (omega (arith, word, long, length-append piece rest))
            (rw through at done)))

  pub fill-Took :
      (fuel : ℕ) (w : Writer Chip) (chunk sent kept : Bytes)
      → Held flash w sent kept
      → w.filled < length w.buf
      → length sent + length kept + length chunk < u32_mod
      → length chunk ≤ fuel
      → (fill flash fuel w chunk).1 ≡ ok tt
      → Took w (fill flash fuel w chunk).0 ((sent ++ kept) ++ chunk)
  unfolding fill
  fill-Took zero w [] sent kept held room word enough done =
      (sent, kept, sym (append-nil (sent ++ kept)), held, Alike-self flash w, room)
  fill-Took zero w (c ∷ cs) sent kept held room word enough done = absurd (omega arith)
  fill-Took (suc fuel) w [] sent kept held room word enough done =
      (sent, kept, sym (append-nil (sent ++ kept)), held, Alike-self flash w, room)
  fill-Took (suc fuel) w (c ∷ cs) sent kept held room word enough done =
      let n = min (length w.buf - w.filled) (length (c ∷ cs)) in
      let parts = take-append-drop n (c ∷ cs) in
      Took-trans w w _ (Alike-self flash w) (ap (λ b. (sent ++ kept) ++ b) parts) (
        rest-Took (fill flash fuel) w sent kept (take n (c ∷ cs)) (drop n (c ∷ cs)) held
          (omega arith) (omega (arith, length-take n (c ∷ cs))) (rw parts word)
          (λ w1 sent' kept' h r l d.
            fill-Took fuel w1 (drop n (c ∷ cs)) sent' kept' h r l
              (omega (arith, length-drop n (c ∷ cs))) d)
          done)
