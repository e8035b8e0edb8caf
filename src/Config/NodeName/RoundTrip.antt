-- ===== src/Config/NodeName/RoundTrip.antt =====
-- The node name survives the flash.
use rs_smarthome_nodes.Base.{
  eq_self, ◌≤◌, ◌<◌, ◌≡◌, ap, sym, ◌∙◌, true, false, ◌||◌, some, ◌∷◌, ◌++◌, ◌>>=◌, copy_at,
  replicate, take, length, length-copy_at, length-append, ltb, ◌==◌, arith,
}
use rs_smarthome_nodes.Base.Bytes.{Bytes, le_bytes, le_at}
use rs_smarthome_nodes.Base.Slices.{copy_at-append_left, take-append_left, take-copy_at}
use rs_smarthome_nodes.Base.Text.{is_utf8, from_utf8_lem}
use rs_smarthome_nodes.Config.NodeName.{
  encode_node_name, decode_node_name, named, load_node_name, store_node_name, node_offset,
  node_blob_len, write_named,
}
use rs_smarthome_nodes.Crc.Sealing.{seal, le_at-sealed, take-sealed}
use rs_smarthome_nodes.Crc.{crc32}
use rs_smarthome_nodes.Flash.{Storage}

-- How the blob lies: the header and the name in its 16 places, then the checksum.
field : Bytes → Bytes
field name = copy_at (replicate 16 0) 0 name

sealed : Bytes → Bytes
sealed name = 0x4e ∷ 0x4f ∷ 0x44 ∷ 0x45 ∷ 1 ∷ length name ∷ 0 ∷ 0 ∷ field name

length-sealed : (name : Bytes) → 24 ≡ length (sealed name)
unfolding sealed field
length-sealed name = omega (arith, length-copy_at (replicate 16 0) 0 name)

named_lem : (name : Bytes) → length name ≤ 16 → named name ≡ sealed name ++ replicate 4 0
unfolding named sealed field
named_lem name h =
    ap (λ (t : Bytes). 0x4e ∷ 0x4f ∷ 0x44 ∷ 0x45 ∷ 1 ∷ length name ∷ 0 ∷ 0 ∷ t)
      (copy_at-append_left (replicate 16 0) (replicate 4 0) name h)

length_test :
    (name : Bytes)
    → 0 < length name
    → length name ≤ 16
    → (length name == 0 || ltb 16 (length name)) ≡ false
length_test name h0 h = ground arith

encode_node_name_lem :
    (name : Bytes)
    → 0 < length name
    → length name ≤ 16
    → encode_node_name name ≡ some (sealed name ++ le_bytes (crc32 (sealed name)))
unfolding encode_node_name
encode_node_name_lem name h0 h =
    rw (length_test name h0 h)
      (rw (named_lem name h) (ap some (seal (sealed name) 24 (length-sealed name))))

field-read :
    (name : Bytes)
    → length name ≤ 16
    → (tail : Bytes) → take (length name) (field name ++ tail) ≡ name
unfolding field
field-read name h tail =
    take-append_left (copy_at (replicate 16 0) 0 name) tail (length name)
      (omega (arith, length-copy_at (replicate 16 0) 0 name))
    ∙ take-copy_at (replicate 16 0) name h

-- The decoder's answer once the checksum of the blob stands.
decode-field :
    (name : Bytes) (c : Bytes)
    → 0 < length name
    → length name ≤ 16
    → is_utf8 name ≡ true
    → le_at (sealed name ++ c) 24 ≡ crc32 (take 24 (sealed name ++ c))
    → decode_node_name (sealed name ++ c) ≡ some name
unfolding decode_node_name sealed
decode-field name c h0 h u e =
    rw e (simp (eq_self, length_test name h0 h, field-read name h c, from_utf8_lem name u))

decode-sealed :
    (name : Bytes)
    → 0 < length name
    → length name ≤ 16
    → is_utf8 name ≡ true
    → decode_node_name (sealed name ++ le_bytes (crc32 (sealed name))) ≡ some name
decode-sealed name h0 h u = decode-field name (le_bytes (crc32 (sealed name))) h0 h u (
    le_at-sealed (sealed name) 24 (length-sealed name)
    ∙ ap crc32 (sym (take-sealed (sealed name) 24 (length-sealed name))))

-- Every name of 1 to 16 bytes of UTF-8 is encoded, and decoding the blob gives the name back.
pub decode-encode_node_name :
    (name : Bytes)
    → 0 < length name
    → length name ≤ 16
    → is_utf8 name ≡ true
    → encode_node_name name >>= decode_node_name ≡ some name
decode-encode_node_name name h0 h u =
    rw (encode_node_name_lem name h0 h) (decode-sealed name h0 h u)

length-blob :
    (name : Bytes) → length (sealed name ++ le_bytes (crc32 (sealed name))) ≡ node_blob_len
unfolding sealed field
length-blob name =
    rw (length-append (sealed name) (le_bytes (crc32 (sealed name))))
      (omega (arith, length-sealed name))

module _ (flash : Storage) where
  open flash use {Chip, write, read-write}

  -- What the driver wrote of the sealed name is what it reads, and the decoder takes it.
  load-sealed :
      (name : Bytes) (chip : Chip)
      → 0 < length name
      → length name ≤ 16
      → is_utf8 name ≡ true
      → (write chip node_offset (sealed name ++ le_bytes (crc32 (sealed name)))).1 ≡ true
      → load_node_name flash
          (write chip node_offset (sealed name ++ le_bytes (crc32 (sealed name)))).0
        ≡ some name
  unfolding load_node_name
  load-sealed name chip h0 h u done = rw (← length-blob name) (
      rw (read-write chip node_offset (sealed name ++ le_bytes (crc32 (sealed name))) done)
        (decode-sealed name h0 h u))

  store_node_name_lem :
      (name : Bytes) (chip : Chip)
      → 0 < length name
      → length name ≤ 16
      → store_node_name flash name chip
        ≡ write chip node_offset (sealed name ++ le_bytes (crc32 (sealed name)))
  unfolding store_node_name write_named
  store_node_name_lem name chip h0 h = rw (encode_node_name_lem name h0 h)

  -- A name of 1 to 16 bytes of UTF-8 that was stored without an error is the one the next boot loads.
  pub load-store_node_name :
      (name : Bytes) (chip : Chip)
      → 0 < length name
      → length name ≤ 16
      → is_utf8 name ≡ true
      → (store_node_name flash name chip).1 ≡ true
      → load_node_name flash (store_node_name flash name chip).0 ≡ some name
  load-store_node_name name chip h0 h u done =
      let e = store_node_name_lem name chip h0 h in
      rw e (load-sealed name chip h0 h u (ap (λ r. r.1) (sym e) ∙ done))
