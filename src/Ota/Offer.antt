-- ===== src/Ota/Offer.antt =====
-- The offer of an update: `Offer`, `parse_offer`, `is_for_node` and `field` (src/ota.rs).
pub mod Accepted
use rs_smarthome_nodes.Base.{
  ℕ, ◌+◌, Bool, false, not, ◌||◌, Option, none, some, [], ◌∷◌, ◌++◌, ◌>>=◌, drop, length, ◌==◌, ltb,
  if◌then◌else◌,
}
use rs_smarthome_nodes.Base.Bytes.{Bytes}
use rs_smarthome_nodes.Base.Result.{Result, ok, err, ◌>>?◌, ok_or}
use rs_smarthome_nodes.Base.Text.Decimal.{parse_u32}
use rs_smarthome_nodes.Base.Text.{codes, bytes_eq, strip_prefix, split_once, trim, trim_start}
use rs_smarthome_nodes.Http.{find}
use rs_smarthome_nodes.Ota.Writer.{slot_size}
use rs_smarthome_nodes.Sha256.Hex.{parse_hex_digest}

pub record Offer : Type 0 where
  pub version : Bytes
  pub url : Bytes
  pub sha256 : Bytes
  pub size : ℕ

pub data OfferError : Type 0 where
  incomplete already_running wrong_node bad_digest bad_size : OfferError

-- The value without quotes ends before `,` or `}`, or with the text.
unfoldable pub until_separator : Bytes → Bytes
until_separator [] = []
until_separator (c ∷ cs) =
    let rest = until_separator cs in if c == b',' || c == b'}' then [] else c ∷ rest

abbrev pub quote : ℕ
quote = 34

unfoldable pub bare_value : Bytes → Option Bytes
bare_value rest =
    let value = trim (until_separator rest) in if length value == 0 then none else some value

abbrev pub value_at : Bytes → Option Bytes → Option Bytes
value_at rest (some quoted) = do parts ← split_once quote quoted; some (parts.0)
value_at rest none = bare_value rest

-- `heapless::String<24>` holds the quoted key and the colon, or the field is missing.
unfoldable pub field : Bytes → Bytes → Option Bytes
field json key =
    let needle = quote ∷ key ++ quote ∷ b':' ∷ [] in
    if ltb 24 (length needle) then none else do
      start ← find json needle
      let rest = trim_start (drop (start + length needle) json)
      value_at rest (strip_prefix (quote ∷ []) rest)

abbrev pub dash_first : Option Bytes → Bool
dash_first (some (c ∷ cs)) = c == b'-'
dash_first _ = false

unfoldable pub is_for_node : Bytes → Bytes → Bool
is_for_node version node_id = dash_first (strip_prefix node_id version)

-- The checks behind the four fields.
unfoldable pub checked_offer :
    Bytes → Bytes → Bytes → Bytes → Bytes → Bytes → Result OfferError Offer
checked_offer version url digest_text size_text current_version node_id =
    if bytes_eq version current_version
    then err already_running
    else if not (is_for_node version node_id)
    then err wrong_node
    else ok_or (parse_hex_digest digest_text) bad_digest >>? λ sha256.
        ok_or (parse_u32 size_text) bad_size >>? λ size.
        if size == 0 || ltb slot_size size
        then err bad_size
        else ok record { version = version; url = url; sha256 = sha256; size = size }

unfoldable pub parse_offer : Bytes → Bytes → Bytes → Result OfferError Offer
parse_offer payload current_version node_id =
    ok_or (field payload (codes "version")) incomplete >>? λ version.
    ok_or (field payload (codes "url")) incomplete >>? λ url.
    ok_or (field payload (codes "sha256")) incomplete >>? λ digest_text.
    ok_or (field payload (codes "size")) incomplete >>? λ size_text.
    checked_offer version url digest_text size_text current_version node_id
