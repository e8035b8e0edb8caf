-- ===== src/Sha256.antt =====
-- The digest of an image (src/sha256.rs). Indices stay within the fixed arrays.
pub mod Hex
pub mod Streaming
mod Tests
use rs_smarthome_nodes.Base.{
  ℕ, zero, suc, ◌+◌, ◌-◌, ◌*◌, ◌/◌, ◌%◌, ◌^◌, min, List, [], ◌∷◌, ◌++◌, reverse, bit_and, bit_xor,
  copy_at, take, drop, length, get_or, replicate, ◌==◌, if◌then◌else◌,
}
use rs_smarthome_nodes.Base.Bytes.{Bytes, be_at, be_bytes}
use rs_smarthome_nodes.Base.Words.{u32_max, u32_mod}

abbrev pub round_constants : List ℕ
round_constants =
    0x428a_2f98 ∷ 0x7137_4491 ∷ 0xb5c0_fbcf ∷ 0xe9b5_dba5 ∷ 0x3956_c25b ∷ 0x59f1_11f1 ∷ 0x923f_82a4
    ∷ 0xab1c_5ed5 ∷ 0xd807_aa98 ∷ 0x1283_5b01 ∷ 0x2431_85be ∷ 0x550c_7dc3 ∷ 0x72be_5d74
    ∷ 0x80de_b1fe ∷ 0x9bdc_06a7 ∷ 0xc19b_f174 ∷ 0xe49b_69c1 ∷ 0xefbe_4786 ∷ 0x0fc1_9dc6
    ∷ 0x240c_a1cc ∷ 0x2de9_2c6f ∷ 0x4a74_84aa ∷ 0x5cb0_a9dc ∷ 0x76f9_88da ∷ 0x983e_5152
    ∷ 0xa831_c66d ∷ 0xb003_27c8 ∷ 0xbf59_7fc7 ∷ 0xc6e0_0bf3 ∷ 0xd5a7_9147 ∷ 0x06ca_6351
    ∷ 0x1429_2967 ∷ 0x27b7_0a85 ∷ 0x2e1b_2138 ∷ 0x4d2c_6dfc ∷ 0x5338_0d13 ∷ 0x650a_7354
    ∷ 0x766a_0abb ∷ 0x81c2_c92e ∷ 0x9272_2c85 ∷ 0xa2bf_e8a1 ∷ 0xa81a_664b ∷ 0xc24b_8b70
    ∷ 0xc76c_51a3 ∷ 0xd192_e819 ∷ 0xd699_0624 ∷ 0xf40e_3585 ∷ 0x106a_a070 ∷ 0x19a4_c116
    ∷ 0x1e37_6c08 ∷ 0x2748_774c ∷ 0x34b0_bcb5 ∷ 0x391c_0cb3 ∷ 0x4ed8_aa4a ∷ 0x5b9c_ca4f
    ∷ 0x682e_6ff3 ∷ 0x748f_82ee ∷ 0x78a5_636f ∷ 0x84c8_7814 ∷ 0x8cc7_0208 ∷ 0x90be_fffa
    ∷ 0xa450_6ceb ∷ 0xbef9_a3f7 ∷ 0xc671_78f2 ∷ []

-- The eight words of the state, and the eight variables of a block's rounds.
pub record Words : Type 0 where
  pub a : ℕ
  pub b : ℕ
  pub c : ℕ
  pub d : ℕ
  pub e : ℕ
  pub f : ℕ
  pub g : ℕ
  pub h : ℕ

abbrev pub initial : Words
initial = record {
  a = 0x6a09_e667;
  b = 0xbb67_ae85;
  c = 0x3c6e_f372;
  d = 0xa54f_f53a;
  e = 0x510e_527f;
  f = 0x9b05_688c;
  g = 0x1f83_d9ab;
  h = 0x5be0_cd19;
}

pub record Sha256 : Type 0 where
  pub state : Words
  pub block : Bytes
  pub filled : ℕ
  pub len : ℕ

abbrev pub fresh_hasher : Sha256
fresh_hasher = record { state = initial; block = replicate 64 0; filled = 0; len = 0 }

unfoldable pub rotate_right : ℕ → ℕ → ℕ
rotate_right x k = x / 2 ^ k + x % 2 ^ k * 2 ^ (32 - k)

-- `wrapping_add`
abbrev pub add_u32 : ℕ → ℕ → ℕ
add_u32 x y = (x + y) % u32_mod

unfoldable pub block_words : ℕ → ℕ → Bytes → List ℕ
block_words zero at block = []
block_words (suc n) at block = be_at block at ∷ block_words n (at + 4) block

-- The next word of the schedule; the words so far stand newest first, so that `w[i - k]` is at `k - 1`.
unfoldable pub next_word : List ℕ → ℕ
unfolding rotate_right
next_word w =
    let far = get_or w 14 0 in
    let near = get_or w 1 0 in
    let s0 = bit_xor (bit_xor (rotate_right far 7) (rotate_right far 18)) (far / 8) in
    let s1 = bit_xor (bit_xor (rotate_right near 17) (rotate_right near 19)) (near / 1024) in
    add_u32 (add_u32 (add_u32 (get_or w 15 0) s0) (get_or w 6 0)) s1

unfoldable pub extend : ℕ → List ℕ → List ℕ
extend zero w = w
extend (suc n) w = extend n (next_word w ∷ w)

unfoldable pub round : Words → ℕ → ℕ → Words
unfolding rotate_right
round v k w =
    let s1 = bit_xor (bit_xor (rotate_right v.e 6) (rotate_right v.e 11)) (rotate_right v.e 25) in
    let ch = bit_xor (bit_and v.e v.f) (bit_and (u32_max - v.e) v.g) in
    let t1 = add_u32 (add_u32 (add_u32 (add_u32 v.h s1) ch) k) w in
    let s0 = bit_xor (bit_xor (rotate_right v.a 2) (rotate_right v.a 13)) (rotate_right v.a 22) in
    let maj = bit_xor (bit_xor (bit_and v.a v.b) (bit_and v.a v.c)) (bit_and v.b v.c) in
    let t2 = add_u32 s0 maj in
    record {
      a = add_u32 t1 t2;
      b = v.a;
      c = v.b;
      d = v.c;
      e = add_u32 v.d t1;
      f = v.e;
      g = v.f;
      h = v.g;
    }

unfoldable pub rounds : List ℕ → List ℕ → Words → Words
rounds (k ∷ ks) (w ∷ ws) v = rounds ks ws (round v k w)
rounds _ _ v = v

unfoldable pub compress : Words → Bytes → Words
unfolding block_words extend rounds
compress s block =
    let w = reverse (extend 48 (reverse (block_words 16 0 block))) in
    let v = rounds round_constants w s in
    record {
      a = add_u32 s.a v.a;
      b = add_u32 s.b v.b;
      c = add_u32 s.c v.c;
      d = add_u32 s.d v.d;
      e = add_u32 s.e v.e;
      f = add_u32 s.f v.f;
      g = add_u32 s.g v.g;
      h = add_u32 s.h v.h;
    }

-- The end of the loop's body: a full block is compressed.
unfoldable pub settle : Sha256 → Sha256
settle s = if s.filled == 64 then record s { state = compress s.state s.block; filled = 0 } else s

-- The loop over the data. Each turn takes at least a byte while the block is not full.
unfoldable pub absorb : ℕ → Sha256 → Bytes → Sha256
absorb zero s bytes = s
absorb (suc fuel) s [] = s
absorb (suc fuel) s (x ∷ rest) =
    let bytes = x ∷ rest in
    let n = min (64 - s.filled) (length bytes) in
    let s' = record s { block = copy_at s.block s.filled (take n bytes); filled = s.filled + n } in
    absorb fuel (settle s') (drop n bytes)

unfoldable pub update : Sha256 → Bytes → Sha256
update s bytes = absorb (length bytes) (record s { len = (s.len + length bytes) % 2 ^ 64 }) bytes

-- The padding loop, at most 63 turns.
unfoldable pub pad : ℕ → Sha256 → Sha256
pad zero s = s
pad (suc fuel) s = if s.filled == 56 then s else pad fuel (update s (0 ∷ []))

unfoldable pub digest : Words → Bytes
digest w =
    be_bytes w.a
    ++ (be_bytes w.b
        ++ (be_bytes w.c
            ++ (be_bytes w.d
                ++ (be_bytes w.e ++ (be_bytes w.f ++ (be_bytes w.g ++ be_bytes w.h))))))

unfoldable pub finish : Sha256 → Bytes
finish s =
    let bits = s.len * 8 % 2 ^ 64 in
    let s' = pad 64 (update s (0x80 ∷ [])) in
    let block = copy_at s'.block 56 (be_bytes (bits / u32_mod) ++ be_bytes (bits % u32_mod)) in
    digest (compress s'.state block)
