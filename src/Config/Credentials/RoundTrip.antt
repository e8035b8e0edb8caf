-- ===== src/Config/Credentials/RoundTrip.antt =====
-- The credentials survive the flash.
use rs_smarthome_nodes.Base.{
  eq_self, ℕ, ◌≤◌, ◌<◌, ◌≡◌, ap, sym, ◌∙◌, true, false, ◌||◌, some, ◌∷◌, ◌++◌, ◌>>=◌, copy_at,
  replicate, take, drop, length, length-copy_at, length-append, append_assoc, ltb, ◌==◌, arith,
}
use rs_smarthome_nodes.Base.Bytes.{Bytes, le_bytes, le_at}
use rs_smarthome_nodes.Base.Slices.{
  copy_at-append_left, copy_at-append_right, take-append_left, take-copy_at, drop-append_right,
}
use rs_smarthome_nodes.Base.Text.{is_utf8, from_utf8_lem}
use rs_smarthome_nodes.Config.Credentials.{
  encode_credentials, decode_credentials, joined, load_credentials, store_credentials,
  write_credentials, wifi_offset, wifi_blob_len,
}
use rs_smarthome_nodes.Crc.Sealing.{seal, le_at-sealed, take-sealed}
use rs_smarthome_nodes.Crc.{crc32}
use rs_smarthome_nodes.Flash.{Storage}

-- A text at the front of a field of `n` zeroes.
field : ℕ → Bytes → Bytes
field n text = copy_at (replicate n 0) 0 text

length-field32 : (t : Bytes) → length (field 32 t) ≡ 32
unfolding field
length-field32 t = length-copy_at (replicate 32 0) 0 t

length-field64 : (t : Bytes) → length (field 64 t) ≡ 64
unfolding field
length-field64 t = length-copy_at (replicate 64 0) 0 t

-- How the blob lies: header, network, passphrase, then the checksum.
sealed : Bytes → Bytes → Bytes
sealed ssid psk =
    0x57 ∷ 0x49 ∷ 0x46 ∷ 0x49 ∷ 1 ∷ length ssid ∷ length psk ∷ 0 ∷ (field 32 ssid ++ field 64 psk)

length-sealed : (ssid psk : Bytes) → 104 ≡ length (sealed ssid psk)
unfolding sealed
length-sealed ssid psk =
    omega
      (arith, length-append (field 32 ssid) (field 64 psk), length-field32 ssid, length-field64 psk)

fields_lem :
    (ssid psk : Bytes)
    → length ssid ≤ 32
    → length psk ≤ 64
    → copy_at (copy_at (replicate 100 0) 0 ssid) 32 psk
      ≡ (field 32 ssid ++ field 64 psk) ++ replicate 4 0
unfolding field
fields_lem ssid psk h k =
    ap (λ t. copy_at t 32 psk) (copy_at-append_left (replicate 32 0) (replicate 68 0) ssid h)
    ∙ copy_at-append_right (field 32 ssid) (replicate 68 0) 32 psk (sym (length-field32 ssid))
    ∙ ap (λ t. field 32 ssid ++ t) (copy_at-append_left (replicate 64 0) (replicate 4 0) psk k)
    ∙ sym (append_assoc (field 32 ssid) (field 64 psk) (replicate 4 0))

joined_lem :
    (ssid psk : Bytes)
    → length ssid ≤ 32
    → length psk ≤ 64
    → joined ssid psk ≡ sealed ssid psk ++ replicate 4 0
unfolding joined sealed
joined_lem ssid psk h k =
    ap (λ (t : Bytes). 0x57 ∷ 0x49 ∷ 0x46 ∷ 0x49 ∷ 1 ∷ length ssid ∷ length psk ∷ 0 ∷ t)
      (fields_lem ssid psk h k)

length_tests :
    (ssid psk : Bytes)
    → 0 < length ssid
    → length ssid ≤ 32
    → length psk ≤ 64
    → ((length ssid == 0 || ltb 32 (length ssid)) ≡ false) × (ltb 64 (length psk) ≡ false)
length_tests ssid psk h0 h k = ground arith

encode_credentials_lem :
    (ssid psk : Bytes)
    → 0 < length ssid
    → length ssid ≤ 32
    → length psk ≤ 64
    → encode_credentials ssid psk ≡ some (sealed ssid psk ++ le_bytes (crc32 (sealed ssid psk)))
unfolding encode_credentials
encode_credentials_lem ssid psk h0 h k =
    let tests = length_tests ssid psk h0 h k in
    rw (tests.0) (
      rw (tests.1) (
        rw (joined_lem ssid psk h k)
          (ap some (seal (sealed ssid psk) 104 (length-sealed ssid psk)))))

ssid-read :
    (ssid psk tail : Bytes)
    → length ssid ≤ 32
    → take (length ssid) ((field 32 ssid ++ field 64 psk) ++ tail) ≡ ssid
unfolding field
ssid-read ssid psk tail h =
    ap (λ t. take (length ssid) t) (append_assoc (field 32 ssid) (field 64 psk) tail)
    ∙ take-append_left (field 32 ssid) (field 64 psk ++ tail) (length ssid)
        (omega (arith, length-field32 ssid))
    ∙ take-copy_at (replicate 32 0) ssid h

psk-read :
    (ssid psk tail : Bytes)
    → length psk ≤ 64
    → take (length psk) (drop 32 ((field 32 ssid ++ field 64 psk) ++ tail)) ≡ psk
unfolding field
psk-read ssid psk tail k =
    ap (λ t. take (length psk) (drop 32 t)) (append_assoc (field 32 ssid) (field 64 psk) tail)
    ∙ ap (λ t. take (length psk) t)
        (drop-append_right (field 32 ssid) (field 64 psk ++ tail) 32 (sym (length-field32 ssid)))
    ∙ take-append_left (field 64 psk) tail (length psk) (omega (arith, length-field64 psk))
    ∙ take-copy_at (replicate 64 0) psk k

-- The decoder's answer once the checksum of the blob stands.
decode-fields :
    (ssid psk c : Bytes)
    → 0 < length ssid
    → length ssid ≤ 32
    → length psk ≤ 64
    → is_utf8 ssid ≡ true
    → is_utf8 psk ≡ true
    → le_at (sealed ssid psk ++ c) 104 ≡ crc32 (take 104 (sealed ssid psk ++ c))
    → decode_credentials (sealed ssid psk ++ c) ≡ some (ssid, psk)
unfolding decode_credentials sealed
decode-fields ssid psk c h0 h k u v e =
    let tests = length_tests ssid psk h0 h k in
    rw e (
      simp (
        eq_self,
        tests.0,
        tests.1,
        ssid-read ssid psk c h,
        psk-read ssid psk c k,
        from_utf8_lem ssid u,
        from_utf8_lem psk v,
      ))

-- The blob as it is stored.
blob : Bytes → Bytes → Bytes
blob ssid psk = sealed ssid psk ++ le_bytes (crc32 (sealed ssid psk))

decode-blob :
    (ssid psk : Bytes)
    → 0 < length ssid
    → length ssid ≤ 32
    → length psk ≤ 64
    → is_utf8 ssid ≡ true
    → is_utf8 psk ≡ true
    → decode_credentials (blob ssid psk) ≡ some (ssid, psk)
unfolding blob
decode-blob ssid psk h0 h k u v =
    decode-fields ssid psk (le_bytes (crc32 (sealed ssid psk))) h0 h k u v (
      le_at-sealed (sealed ssid psk) 104 (length-sealed ssid psk)
      ∙ ap crc32 (sym (take-sealed (sealed ssid psk) 104 (length-sealed ssid psk))))

length-blob : (ssid psk : Bytes) → length (blob ssid psk) ≡ wifi_blob_len
unfolding blob
length-blob ssid psk =
    rw (length-append (sealed ssid psk) (le_bytes (crc32 (sealed ssid psk))))
      (omega (arith, length-sealed ssid psk))

-- A network's name of 1 to 32 bytes of UTF-8 and a passphrase of up to 64 bytes of UTF-8, an empty one
-- included, are encoded, and decoding the blob gives both back.
pub decode-encode_credentials :
    (ssid psk : Bytes)
    → 0 < length ssid
    → length ssid ≤ 32
    → length psk ≤ 64
    → is_utf8 ssid ≡ true
    → is_utf8 psk ≡ true
    → encode_credentials ssid psk >>= decode_credentials ≡ some (ssid, psk)
unfolding blob
decode-encode_credentials ssid psk h0 h k u v =
    rw (encode_credentials_lem ssid psk h0 h k) (decode-blob ssid psk h0 h k u v)

module _ (flash : Storage) where
  open flash use {Chip, write, read-write}

  load-blob :
      (ssid psk : Bytes) (chip : Chip)
      → 0 < length ssid
      → length ssid ≤ 32
      → length psk ≤ 64
      → is_utf8 ssid ≡ true
      → is_utf8 psk ≡ true
      → (write chip wifi_offset (blob ssid psk)).1 ≡ true
      → load_credentials flash (write chip wifi_offset (blob ssid psk)).0 ≡ some (ssid, psk)
  unfolding load_credentials
  load-blob ssid psk chip h0 h k u v done =
      rw (← length-blob ssid psk)
        (rw (read-write chip wifi_offset (blob ssid psk) done) (decode-blob ssid psk h0 h k u v))

  store_credentials_lem :
      (ssid psk : Bytes) (chip : Chip)
      → 0 < length ssid
      → length ssid ≤ 32
      → length psk ≤ 64
      → store_credentials flash ssid psk chip ≡ write chip wifi_offset (blob ssid psk)
  unfolding store_credentials write_credentials blob
  store_credentials_lem ssid psk chip h0 h k = rw (encode_credentials_lem ssid psk h0 h k)

  -- A network's name of 1 to 32 bytes and a passphrase of up to 64, both UTF-8, that were stored without
  -- an error are the ones the next boot loads.
  pub load-store_credentials :
      (ssid psk : Bytes) (chip : Chip)
      → 0 < length ssid
      → length ssid ≤ 32
      → length psk ≤ 64
      → is_utf8 ssid ≡ true
      → is_utf8 psk ≡ true
      → (store_credentials flash ssid psk chip).1 ≡ true
      → load_credentials flash (store_credentials flash ssid psk chip).0 ≡ some (ssid, psk)
  load-store_credentials ssid psk chip h0 h k u v done =
      let e = store_credentials_lem ssid psk chip h0 h k in
      rw e (load-blob ssid psk chip h0 h k u v (ap (λ r. r.1) (sym e) ∙ done))
