-- ===== src/Presence/Window.antt =====
-- The ring against the list of the last readings.
use rs_smarthome_nodes.Base.{
  ℕ, suc, ◌+◌, ◌-◌, ◌%◌, ◌≤◌, ◌<◌, ◌≡◌, ◌⊎◌, inr, refl, sym, ap, ap₂, ◌∙◌, List, [], ◌∷◌, ◌++◌,
  append-nil, append_assoc, length, take, drop, set, take-suc-set, drop-suc-set, drop-one_append,
  drop-append, drop-drop, length-append, length-take, length-drop, length-set, length-replicate,
  take_all, drop_all, ltb, arith, if◌then◌else◌, dec_lt,
}
use rs_smarthome_nodes.Base.Int.{ℤ, pos}
use rs_smarthome_nodes.Presence.{Ring, new, push}

pub record IsValid (w : Ring) : Type 0 where
  pub full_length : length w.buf ≡ 32
  pub len_fits : w.len ≤ 32
  pub next_fits : w.next < 32
  pub in_step : (w.len ≡ 32) ⊎ (w.next ≡ w.len)

-- The readings that the ring holds, the oldest first.
unfoldable pub readings : Ring → List ℤ
readings w = if ltb w.len 32 then take w.len w.buf else drop w.next w.buf ++ take w.next w.buf

-- The last 32 items of a list.
unfoldable pub latest : List ℤ → List ℤ
latest xs = drop (length xs - 32) xs

pub new-IsValid : IsValid new
unfolding new
new-IsValid = record {
  full_length = length-replicate 32 (pos 0);
  len_fits = omega arith;
  next_fits = omega arith;
  in_step = inr refl;
}

pub push-IsValid : (w : Ring) (x : ℤ) → IsValid w → IsValid (push w x)
unfolding push
push-IsValid w x v = record {
  full_length = length-set w.buf w.next x ∙ v.full_length;
  len_fits = ground arith;
  next_fits = omega arith;
  in_step = ground arith;
}

-- The buffer after a push, told by what lay before and behind the place.
buf_after :
    (n : ℕ) (buf : List ℤ) (x : ℤ)
    → length buf ≡ 32
    → n < 32
    → drop ((n + 1) % 32) (set buf n x) ++ take ((n + 1) % 32) (set buf n x)
      ≡ drop (suc n) buf ++ (take n buf ++ (x ∷ []))
buf_after n buf x hl hn = elim (dec_lt n 31) [
  | yes h ↦
      let e : (n + 1) % 32 ≡ suc n = omega arith in
      rw e (ap₂ (◌++◌) (drop-suc-set n buf x) (take-suc-set n buf x (omega arith)))
  | no h ↦
      let e : (n + 1) % 32 ≡ 0 = omega arith in
      rw e (
        append-nil (set buf n x)
        ∙ sym (take_all (suc n) (set buf n x) (omega (arith, length-set buf n x)))
        ∙ take-suc-set n buf x (omega arith)
        ∙ sym (
            ap (λ (t : List ℤ). t ++ (take n buf ++ (x ∷ [])))
              (drop_all (suc n) buf (omega arith))))
]

latest_short : (xs : List ℤ) → length xs ≤ 32 → latest xs ≡ xs
unfolding latest
latest_short xs h = let e : length xs - 32 ≡ 0 = omega arith in rw e

latest_one : (xs : List ℤ) → length xs ≡ 33 → latest xs ≡ drop 1 xs
unfolding latest
latest_one xs h = rw h

pub readings_short : (w : Ring) → w.len < 32 → readings w ≡ take w.len w.buf
unfolding readings
readings_short w h = ground arith

pub readings_long : (w : Ring) → w.len ≡ 32 → readings w ≡ drop w.next w.buf ++ take w.next w.buf
unfolding readings
readings_long w h = ground arith

pub length-readings : (w : Ring) → IsValid w → length (readings w) ≡ w.len
unfolding readings
length-readings w v = ground (
  arith,
  length-take w.len w.buf,
  length-append (drop w.next w.buf) (take w.next w.buf),
  length-drop w.next w.buf,
  length-take w.next w.buf,
)

take-push :
    (w : Ring) (x : ℤ)
    → w.next ≡ w.len
    → w.len < 31
    → w.len < length w.buf
    → take (push w x).len (push w x).buf ≡ take w.len w.buf ++ (x ∷ [])
unfolding push
take-push w x at short inside =
    let e : (push w x).len ≡ suc w.len = ground arith in
    rw e (rw at (take-suc-set w.len w.buf x inside))

push_growing :
    (w : Ring) (x : ℤ)
    → IsValid w
    → w.len < 31
    → readings (push w x) ≡ latest (readings w ++ (x ∷ []))
push_growing w x v h =
    let at : w.next ≡ w.len = omega (arith, v) in
    let held : length (readings w ++ (x ∷ [])) ≤ 32 =
      omega (arith, length-append (readings w) (x ∷ []), length-readings w v) in
    readings_short (push w x) (unfold push in ground arith)
    ∙ take-push w x at h (omega (arith, v))
    ∙ ap (λ (t : List ℤ). t ++ (x ∷ [])) (sym (readings_short w (omega arith)))
    ∙ sym (latest_short (readings w ++ (x ∷ [])) held)

push_wraps :
    (w : Ring) (x : ℤ)
    → IsValid w
    → 31 ≤ w.len
    → readings (push w x) ≡ drop (suc w.next) w.buf ++ (take w.next w.buf ++ (x ∷ []))
unfolding push
push_wraps w x v h =
    readings_long (push w x) (ground arith) ∙ buf_after w.next w.buf x v.full_length v.next_fits

push_filling :
    (w : Ring) (x : ℤ)
    → IsValid w
    → w.len ≡ 31
    → readings (push w x) ≡ latest (readings w ++ (x ∷ []))
push_filling w x v h =
    let at : w.next ≡ 31 = omega (arith, v) in
    let same : w.len ≡ w.next = omega arith in
    let held : length (readings w ++ (x ∷ [])) ≤ 32 =
      omega (arith, length-append (readings w) (x ∷ []), length-readings w v) in
    push_wraps w x v (omega arith)
    ∙ ap (λ (t : List ℤ). t ++ (take w.next w.buf ++ (x ∷ [])))
        (drop_all (suc w.next) w.buf (omega (arith, v)))
    ∙ ap (λ (k : ℕ). take k w.buf ++ (x ∷ [])) (sym same)
    ∙ ap (λ (t : List ℤ). t ++ (x ∷ [])) (sym (readings_short w (omega arith)))
    ∙ sym (latest_short (readings w ++ (x ∷ [])) held)

push_full :
    (w : Ring) (x : ℤ)
    → IsValid w
    → w.len ≡ 32
    → readings (push w x) ≡ latest (readings w ++ (x ∷ []))
push_full w x v h =
    let held : length (readings w ++ (x ∷ [])) ≡ 33 =
      omega (arith, length-append (readings w) (x ∷ []), length-readings w v) in
    push_wraps w x v (omega arith)
    ∙ sym (drop-one_append w.next w.buf (take w.next w.buf ++ (x ∷ [])) (omega (arith, v)))
    ∙ ap (drop 1) (sym (append_assoc (drop w.next w.buf) (take w.next w.buf) (x ∷ [])))
    ∙ ap (λ (t : List ℤ). drop 1 (t ++ (x ∷ []))) (sym (readings_long w h))
    ∙ sym (latest_one (readings w ++ (x ∷ [])) held)

-- A push appends its reading and drops what is older than the last 32.
pub readings-push :
    (w : Ring) (x : ℤ) → IsValid w → readings (push w x) ≡ latest (readings w ++ (x ∷ []))
readings-push w x v = elim (dec_lt w.len 31) [
  | yes h ↦ push_growing w x v h
  | no h ↦ elim (dec_lt w.len 32) [
    | yes h' ↦ push_filling w x v (omega arith)
    | no h' ↦ push_full w x v (omega arith)
  ]
]

unfoldable pub push_all : Ring → List ℤ → Ring
push_all w [] = w
push_all w (x ∷ xs) = push_all (push w x) xs

latest-append : (xs ys : List ℤ) → latest (latest xs ++ ys) ≡ latest (xs ++ ys)
unfolding latest
latest-append xs ys =
    let k = length xs - 32 in
    let j = length (drop k xs ++ ys) - 32 in
    let joined : drop k xs ++ ys ≡ drop k (xs ++ ys) = sym (drop-append k xs ys (omega arith)) in
    let sum : k + j ≡ length (xs ++ ys) - 32 =
      omega (arith, length-append xs ys, length-append (drop k xs) ys, length-drop k xs) in
    ap (drop j) joined ∙ drop-drop j k (xs ++ ys) ∙ ap (λ (t : ℕ). drop t (xs ++ ys)) sum

readings-push_all :
    (w : Ring) (xs : List ℤ) → IsValid w → readings (push_all w xs) ≡ latest (readings w ++ xs)
unfolding push_all
readings-push_all w [] v = sym (
    ap latest (append-nil (readings w))
    ∙ latest_short (readings w) (omega (arith, length-readings w v, v)))
readings-push_all w (x ∷ xs) v =
    readings-push_all (push w x) xs (push-IsValid w x v)
    ∙ ap (λ (t : List ℤ). latest (t ++ xs)) (readings-push w x v)
    ∙ latest-append (readings w ++ (x ∷ [])) xs
    ∙ ap latest (append_assoc (readings w) (x ∷ []) xs)

-- After any readings the ring holds the last 32 of them, oldest first.
pub push_all-latest : (xs : List ℤ) → readings (push_all new xs) ≡ latest xs
unfolding readings new
push_all-latest xs = readings-push_all new xs new-IsValid

pub push_all-IsValid : (w : Ring) (xs : List ℤ) → IsValid w → IsValid (push_all w xs)
unfolding push_all
push_all-IsValid w [] v = v
push_all-IsValid w (x ∷ xs) v = push_all-IsValid (push w x) xs (push-IsValid w x v)
