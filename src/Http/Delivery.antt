-- ===== src/Http/Delivery.antt =====
-- What a download hands to its sink: the loops of `fetch` (src/http.rs).
use rs_smarthome_nodes.Base.{
  Bool-cases, inl, inr, ℕ, zero, suc, ◌+◌, ◌-◌, ◌%◌, ◌≤◌, ◌<◌, ◌≡◌, refl, ap, sym, ◌∙◌, Bool, true,
  false, Option, none, some, List, [], ◌∷◌, ◌++◌, append_assoc, length, length-append, ◌==◌,
  if◌then◌else◌, arith,
}
use rs_smarthome_nodes.Base.Bytes.{Bytes}
use rs_smarthome_nodes.Base.Result.{Result, ok, err}
use rs_smarthome_nodes.Base.Words.{u32_mod}
use rs_smarthome_nodes.Http.Connection.{Connection}
use rs_smarthome_nodes.Http.Fetch.{
  FetchError, body_sunk, body_step, body_loop, body_from, head_loop, head_step, head_parsed,
  head_max,
}
use rs_smarthome_nodes.Http.{Head, parse_head}
use rs_smarthome_nodes.Sha256.Streaming.{together}

module _ {W : Type 0} (sink : W → Bytes → W × Bool) where
  -- Pieces handed over one by one, up to the first that is refused.
  unfoldable pub feeds : W → List Bytes → W × Bool
  feeds w [] = (w, true)
  feeds w (p ∷ ps) =
      let sunk = sink w p in
      let rest = feeds (sunk.0) ps in if sunk.1 then rest else (sunk.0, false)

-- No piece is longer than the larger of the two buffers, and so than both together.
unfoldable pub AreShort : ℕ → List Bytes → Type 0
AreShort m [] = Unit {0}
AreShort m (p ∷ ps) = (length p ≤ m) × AreShort m ps

counted_none : (total n : ℕ) → total < u32_mod → total ≡ n → n ≡ (total + 0) % u32_mod
counted_none total n lt e = omega arith

module _ (conn : Connection) {W : Type 0} (sink : W → Bytes → W × Bool) where
  open conn use {Stream, write_all, flush, read, unread, read-le, read-unread, read_end}

  -- The sink took pieces that make up these bytes and ended in this state; so many were counted.
  abbrev pub Delivered : ℕ → W → Bytes → ℕ → W → ℕ → Type 0
  Delivered room w bytes total w' n =
      (pieces : List Bytes) × AreShort (room + head_max) pieces
      × (feeds sink w pieces ≡ (w', true))
      × (together pieces ≡ bytes)
      × (n ≡ (total + length bytes) % u32_mod)

  Delivered-cons :
      (room : ℕ) (w : W) (b bytes : Bytes) (total : ℕ) (w1 w' : W) (n : ℕ)
      → length b ≤ room + head_max
      → sink w b ≡ (w1, true)
      → Delivered room w1 bytes ((total + length b) % u32_mod) w' n
      → Delivered room w (b ++ bytes) total w' n
  unfolding feeds together AreShort
  Delivered-cons room w b bytes total w1 w' n short e (pieces, shorts, fed, joined, counted) = (
    b ∷ pieces,
    (short, shorts),
    rw e fed,
    ap (λ t. b ++ t) joined,
    omega (arith, length-append b bytes),
  )

  module _ (room : ℕ) (h : 0 < room) where
    sunk_ok :
        (fuel : ℕ) (s : Stream) (b : Bytes) (w : W) (total n : ℕ) (r : W × Bool)
        → length b ≤ room + head_max
        → sink w b ≡ r
        → ((w1 : W) (total' : ℕ)
            → (body_loop conn sink room fuel s w1 total').2 ≡ ok n
            → total' < u32_mod
            → Delivered room w1 (unread s) total' (body_loop conn sink room fuel s w1 total').1 n)
        → (body_sunk conn sink (body_loop conn sink room fuel) s r ((total + length b) % u32_mod)).2
          ≡ ok n
        → Delivered room w
            (b ++ unread s)
            total
            (body_sunk conn sink
              (body_loop conn sink room fuel)
              s
              r
              ((total + length b) % u32_mod)).1
            n
    unfolding body_sunk
    sunk_ok fuel s b w total n (w1, true) short e ih done =
        Delivered-cons room w b (unread s) total w1 _ n short e
          (ih w1 ((total + length b) % u32_mod) done (omega arith))
    sunk_ok fuel s b w total n (w1, false) short e ih done = cc

    step_ok :
        (fuel : ℕ) (s s1 : Stream) (b : Option Bytes) (w : W) (total n : ℕ)
        → read s room ≡ (s1, b)
        → ((w1 : W) (total' : ℕ)
            → (body_loop conn sink room fuel s1 w1 total').2 ≡ ok n
            → total' < u32_mod
            → Delivered room w1 (unread s1) total' (body_loop conn sink room fuel s1 w1 total').1 n)
        → total < u32_mod
        → (body_step conn sink (body_loop conn sink room fuel) (s1, b) w total).2 ≡ ok n
        → Delivered room w
            (unread s)
            total
            (body_step conn sink (body_loop conn sink room fuel) (s1, b) w total).1
            n
    unfolding body_step
    step_ok fuel s s1 none w total n e ih lt done = cc
    step_ok fuel s s1 (some []) w total n e ih lt done =
        let over = read_end s room h (ap (λ r. r.1) e) in
        (
          [],
          (unfold AreShort in tt),
          (unfold feeds in refl),
          (unfold together in sym over),
          rw over (counted_none total n lt (cc)),
        )
    step_ok fuel s s1 (some (c ∷ cs)) w total n e ih lt done =
        let left = read-unread s room (ap (λ r. r.1) e) ∙ ap (λ r. c ∷ cs ++ unread (r.0)) e in
        rw left (
          sunk_ok fuel s1 (c ∷ cs) w total n (sink w (c ∷ cs))
            (omega (arith, read-le s room (ap (λ r. r.1) e))) refl ih done)

    body_loop_ok :
        (fuel : ℕ) (s : Stream) (w : W) (total n : ℕ)
        → (body_loop conn sink room fuel s w total).2 ≡ ok n
        → total < u32_mod
        → Delivered room w (unread s) total (body_loop conn sink room fuel s w total).1 n
    unfolding body_loop
    body_loop_ok zero s w total n done lt = cc
    body_loop_ok (suc fuel) s w total n done lt =
        step_ok fuel s (read s room).0 (read s room).1 w total n refl
          (λ w1 total'. body_loop_ok fuel (read s room).0 w1 total' n) lt done

module _ (conn : Connection) where
  open conn use {Stream, read, unread, read-le, read-unread}

  -- The head was read from the front of the stream.
  abbrev pub HeadRead : Stream → Bytes → Stream → Head → Bytes → Type 0
  HeadRead s got s' head all =
      (got ++ unread s ≡ all ++ unread s') × (parse_head all ≡ some head) × (length all ≤ head_max)

  abbrev pub HeadOf : Stream → Bytes → Stream × Result FetchError (Head × Bytes) → Type 0
  HeadOf s got (s', err e) = Unit {0}
  HeadOf s got (s', ok (head, all)) = HeadRead s got s' head all

  HeadOf-shift :
      (s s1 : Stream) (got all : Bytes) (r : Stream × Result FetchError (Head × Bytes))
      → got ++ unread s ≡ all ++ unread s1
      → HeadOf s1 all r
      → HeadOf s got r
  HeadOf-shift s s1 got all (s', err e) same h = tt
  HeadOf-shift s s1 got all (s', ok (head, bytes)) same h = (same ∙ h.0, h.1, h.2)

  parsed_ok :
      (fuel : ℕ) (s s1 : Stream) (got b : Bytes) (o : Option Head)
      → unread s ≡ b ++ unread s1
      → parse_head (got ++ b) ≡ o
      → length (got ++ b) ≤ head_max
      → HeadOf s1 (got ++ b) (head_loop conn fuel s1 (got ++ b))
      → HeadOf s got (head_parsed conn (head_loop conn fuel) s1 (got ++ b) o)
  unfolding head_parsed
  parsed_ok fuel s s1 got b (some head) left e le ih =
      (ap (λ t. got ++ t) left ∙ sym (append_assoc got b (unread s1)), e, le)
  parsed_ok fuel s s1 got b none left e le ih =
      HeadOf-shift s s1 got (got ++ b) (head_loop conn fuel s1 (got ++ b))
        (ap (λ t. got ++ t) left ∙ sym (append_assoc got b (unread s1))) ih

  head_step_ok :
      (fuel : ℕ) (s s1 : Stream) (got : Bytes) (b : Option Bytes)
      → read s (head_max - length got) ≡ (s1, b)
      → length got ≤ head_max
      → ((all : Bytes) → length all ≤ head_max → HeadOf s1 all (head_loop conn fuel s1 all))
      → HeadOf s got (head_step conn (head_loop conn fuel) (s1, b) got)
  unfolding head_step
  head_step_ok fuel s s1 got none e le ih = tt
  head_step_ok fuel s s1 got (some []) e le ih = tt
  head_step_ok fuel s s1 got (some (c ∷ cs)) e le ih =
      let left = read-unread s _ (ap (λ r. r.1) e) ∙ ap (λ r. c ∷ cs ++ unread (r.0)) e in
      let fits : length (got ++ c ∷ cs) ≤ head_max = omega (
        arith,
        le,
        read-le s (head_max - length got) (ap (λ r. r.1) e),
        length-append got (c ∷ cs),
      ) in
      parsed_ok fuel s s1 got (c ∷ cs) (parse_head (got ++ c ∷ cs)) left refl fits
        (ih (got ++ c ∷ cs) fits)

  pub head_loop_ok :
      (fuel : ℕ) (s : Stream) (got : Bytes)
      → length got ≤ head_max
      → HeadOf s got (head_loop conn fuel s got)
  unfolding head_loop
  head_loop_ok zero s got le = tt
  head_loop_ok (suc fuel) s got le = elim (Bool-cases (length got == head_max)) [
    | inl full ↦ rw full tt
    | inr room ↦ rw room (head_step_ok fuel s _ got _ refl le (head_loop_ok fuel _))
  ]

module _ (conn : Connection) {W : Type 0} (sink : W → Bytes → W × Bool) (room : ℕ)
    (h : 0 < room) where
  open conn use {Stream, unread}

  pub body_from_ok :
      (fuel : ℕ) (s : Stream) (w : W) (leftover : Bytes) (n : ℕ)
      → length leftover ≤ head_max
      → (body_from conn sink room fuel s w leftover).2 ≡ ok n
      → Delivered conn sink room w
          (leftover ++ unread s)
          0
          (body_from conn sink room fuel s w leftover).1
          n
  unfolding body_from
  body_from_ok fuel s w [] n le done = body_loop_ok conn sink room h fuel s w 0 n done (omega arith)
  body_from_ok fuel s w (b ∷ bs) n le done =
      sunk_ok conn sink room h fuel s (b ∷ bs) w 0 n (sink w (b ∷ bs)) (omega arith) refl
        (λ w1 total'. body_loop_ok conn sink room h fuel s w1 total' n) done
