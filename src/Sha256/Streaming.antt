-- ===== src/Sha256/Streaming.antt =====
-- The digest does not depend on the pieces that a message arrives in.
use native.Mathlib.Nat.{add-zero}
use rs_smarthome_nodes.Base.{
  ℕ, zero, suc, ◌+◌, ◌-◌, ◌%◌, ◌^◌, ◌≤◌, ◌<◌, ◌≡◌, refl, ap, ap₂, sym, ◌∙◌, min, List, [], ◌∷◌,
  ◌++◌, set, copy_at, take, drop, length, length-take, length-append, take-append-drop,
  append_assoc, append-nil, arith,
}
use rs_smarthome_nodes.Base.Bytes.{Bytes}
use rs_smarthome_nodes.Sha256.{Sha256, settle, absorb, update, finish, fresh_hasher}

-- The reference: byte by byte.
unfoldable pub feed_byte : Sha256 → ℕ → Sha256
feed_byte s x = settle (record s { block = set s.block s.filled x; filled = s.filled + 1 })

unfoldable pub feed : Sha256 → Bytes → Sha256
feed s [] = s
feed s (x ∷ xs) = feed (feed_byte s x) xs

feed-append : (s : Sha256) (xs ys : Bytes) → feed s (xs ++ ys) ≡ feed (feed s xs) ys
unfolding feed
feed-append s [] ys = refl
feed-append s (x ∷ xs) ys = feed-append (feed_byte s x) xs ys

settle-open : (s : Sha256) → s.filled < 64 → settle s ≡ s
unfolding settle
settle-open s h = ground arith

settle-lt : (s : Sha256) → s.filled ≤ 64 → (settle s).filled < 64
unfolding settle
settle-lt s h = ground arith

feed-lt : (s : Sha256) (xs : Bytes) → s.filled < 64 → (feed s xs).filled < 64
unfolding feed feed_byte
feed-lt s [] h = h
feed-lt s (x ∷ xs) h = feed-lt (feed_byte s x) xs (settle-lt _ (omega arith))

copy_at-none : (b : Bytes) (at : ℕ) → copy_at b at [] ≡ b
copy_at-none [] at = refl
copy_at-none (y ∷ b) zero = refl
copy_at-none (y ∷ b) (suc at) = ap (◌∷◌ y) (copy_at-none b at)

copy_at-cons :
    (b : Bytes) (at x : ℕ) (xs : Bytes) → copy_at b at (x ∷ xs) ≡ copy_at (set b at x) (suc at) xs
copy_at-cons [] at x xs = refl
copy_at-cons (y ∷ b) zero x xs = refl
copy_at-cons (y ∷ b) (suc at) x xs = ap (◌∷◌ y) (copy_at-cons b at x xs)

abbrev grown : Sha256 → Bytes → ℕ → Sha256
grown s b n = record s { block = b; filled = n }

feed_byte-open :
    (s : Sha256) (x : ℕ)
    → s.filled + 1 < 64
    → feed_byte s x ≡ grown s (set s.block s.filled x) (s.filled + 1)
unfolding feed_byte
feed_byte-open s x h = settle-open (grown s (set s.block s.filled x) (s.filled + 1)) h

-- A piece that fits the block, copied at once.
abbrev copied : (s : Sha256) (xs : Bytes) → Sha256
copied s xs = settle (grown s (copy_at s.block s.filled xs) (s.filled + length xs))

copied_lem :
    (s : Sha256) (xs : Bytes) → s.filled < 64 → s.filled + length xs ≤ 64 → copied s xs ≡ feed s xs
unfolding feed
copied_lem s [] h k =
    ap settle (ap₂ (grown s) (copy_at-none s.block s.filled) (add-zero s.filled)) ∙ settle-open s h
copied_lem s (x ∷ []) h k =
    unfold feed_byte in
    ap (λ b. settle (grown s b (s.filled + 1)))
      (copy_at-cons s.block s.filled x [] ∙ copy_at-none (set s.block s.filled x) (suc s.filled))
copied_lem s (x ∷ y ∷ xs) h k =
    let next = grown s (set s.block s.filled x) (s.filled + 1) in
    ap settle (
      ap₂ (grown s)
        (copy_at-cons s.block s.filled x (y ∷ xs)
          ∙ ap (λ n. copy_at (set s.block s.filled x) n (y ∷ xs)) (omega arith))
        (omega arith))
    ∙ copied_lem next (y ∷ xs) (omega arith) (omega arith)
    ∙ ap (λ t. feed t (y ∷ xs)) (sym (feed_byte-open s x (omega arith)))

-- The loop with enough fuel, a turn for each byte, ends and has fed every byte.
absorb_lem :
    (fuel : ℕ) (s : Sha256) (xs : Bytes)
    → s.filled < 64
    → length xs ≤ fuel
    → absorb fuel s xs ≡ feed s xs
unfolding absorb
absorb_lem zero s [] h k = unfold feed in refl
absorb_lem zero s (x ∷ xs) h k = absurd (omega arith)
absorb_lem (suc fuel) s [] h k = unfold feed in refl
absorb_lem (suc fuel) s (x ∷ xs) h k =
    let n = min (64 - s.filled) (suc (length xs)) in
    let piece = take n (x ∷ xs) in
    let rest = drop n (x ∷ xs) in
    let size = length-take n (x ∷ xs) in
    let both = ap length (take-append-drop n (x ∷ xs)) in
    let sizes = length-append piece rest in
    ap (λ t. absorb fuel t rest)
      (ap (λ m. settle (grown s (copy_at s.block s.filled piece) (s.filled + m))) (omega arith)
        ∙ copied_lem s piece h (omega arith))
    ∙ absorb_lem fuel (feed s piece) rest (feed-lt s piece h) (omega arith)
    ∙ sym (feed-append s piece rest)
    ∙ ap (feed s) (take-append-drop n (x ∷ xs))

abbrev measured : ℕ → Sha256 → Sha256
measured n s = record s { len = n }

settle-measured : (n : ℕ) (s : Sha256) → settle (measured n s) ≡ measured n (settle s)
unfolding settle
settle-measured n s = ground arith

feed-measured : (n : ℕ) (s : Sha256) (xs : Bytes) → feed (measured n s) xs ≡ measured n (feed s xs)
unfolding feed feed_byte
feed-measured n s [] = refl
feed-measured n s (x ∷ xs) =
    ap (λ t. feed t xs) (settle-measured n _) ∙ feed-measured n (feed_byte s x) xs

update_lem :
    (s : Sha256) (xs : Bytes)
    → s.filled < 64
    → update s xs ≡ measured ((s.len + length xs) % 2 ^ 64) (feed s xs)
unfolding update
update_lem s xs h = absorb_lem (length xs) _ xs h (omega arith) ∙ feed-measured _ s xs

-- Two pieces in a row leave the hasher where their concatenation does.
pub update-append :
    (s : Sha256) (xs ys : Bytes) → s.filled < 64 → update (update s xs) ys ≡ update s (xs ++ ys)
update-append s xs ys h =
    ap (λ t. update t ys) (update_lem s xs h)
    ∙ update_lem (measured ((s.len + length xs) % 2 ^ 64) (feed s xs)) ys (feed-lt s xs h)
    ∙ ap (measured _) (feed-measured _ (feed s xs) ys ∙ ap (measured _) (sym (feed-append s xs ys)))
    ∙ ap (λ n. measured n (feed s (xs ++ ys))) (omega (arith, length-append xs ys))
    ∙ sym (update_lem s (xs ++ ys) h)

unfoldable pub updates : Sha256 → List Bytes → Sha256
updates s [] = s
updates s (c ∷ cs) = updates (update s c) cs

unfoldable pub together : List Bytes → Bytes
together [] = []
together (c ∷ cs) = c ++ together cs

updates-update :
    (s : Sha256) (c : Bytes) (cs : List Bytes)
    → s.filled < 64
    → updates (update s c) cs ≡ update s (c ++ together cs)
unfolding updates together
updates-update s c [] h = ap (update s) (sym (append-nil c))
updates-update s c (c' ∷ cs) h =
    ap (λ t. updates t cs) (update-append s c c' h)
    ∙ updates-update s (c ++ c') cs h
    ∙ ap (update s) (append_assoc c c' (together cs))

-- However a message is split into pieces, its digest is that of the whole message at once.
pub finish-updates :
    (pieces : List Bytes)
    → finish (updates fresh_hasher pieces) ≡ finish (update fresh_hasher (together pieces))
unfolding updates together update absorb
finish-updates [] = refl
finish-updates (c ∷ cs) = ap finish (updates-update fresh_hasher c cs (omega arith))
