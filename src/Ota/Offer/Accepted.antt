-- ===== src/Ota/Offer/Accepted.antt =====
-- What is known of an offer that was accepted: `parse_offer` (src/ota.rs).
use rs_smarthome_nodes.Base.{
  ℕ, ◌<◌, ◌≤◌, ◌≡◌, ◌≢◌, refl, ap, ◌∙◌, true, false, ◌||◌, Option, none, some, [], ◌∷◌, ◌++◌,
  length, ◌==◌, ==_iff, ltb, if◌then◌else◌, Bool-cases, subst, inl, inr, arith,
}
use rs_smarthome_nodes.Base.Bytes.{Bytes}
use rs_smarthome_nodes.Base.Result.{Result, ok, err, ok_or, bind-eq-ok, ok_or-eq-ok}
use rs_smarthome_nodes.Base.Text.{codes, bytes_eq, bytes_eq_refl, strip_prefix}
use rs_smarthome_nodes.Base.Text.Decimal.{parse_u32}
use rs_smarthome_nodes.Ota.Offer.{
  Offer, OfferError, parse_offer, checked_offer, is_for_node, dash_first, field, incomplete,
  bad_digest, bad_size,
}
use rs_smarthome_nodes.Ota.Writer.{slot_size}
use rs_smarthome_nodes.Sha256.Hex.{parse_hex_digest, parse_hex_digest-length}

strip_prefix-eq : (p s : Bytes) {rest : Bytes} → strip_prefix p s ≡ some rest → s ≡ p ++ rest
unfolding strip_prefix
strip_prefix-eq [] s e = cc
strip_prefix-eq (x ∷ p) [] e = cc
strip_prefix-eq (x ∷ p) (c ∷ s) {rest = rest} e = elim (Bool-cases (c == x)) [
  | inl same ↦
      let here : c ≡ x = (==_iff c x).0 same in
      let later : s ≡ p ++ rest = strip_prefix-eq p s (rw same at e) in cc
  | inr other ↦ let e' = rw other at e in (cc)
]

dashed :
    (node_id version : Bytes) (o : Option Bytes)
    → strip_prefix node_id version ≡ o
    → dash_first o ≡ true
    → (rest : Bytes) × (version ≡ node_id ++ b'-' ∷ rest)
dashed node_id version none e h = absurd (cc)
dashed node_id version (some []) e h = absurd (cc)
dashed node_id version (some (c ∷ cs)) e h =
    (cs, strip_prefix-eq node_id version e ∙ ap (λ x. node_id ++ x ∷ cs) ((==_iff c b'-').0 h))

-- A version is for a node just when it is the node's name, a dash and anything.
pub is_for_node-dashed :
    (version node_id : Bytes)
    → is_for_node version node_id ≡ true
    → (rest : Bytes) × (version ≡ node_id ++ b'-' ∷ rest)
unfolding is_for_node
is_for_node-dashed version node_id h = dashed node_id version (strip_prefix node_id version) refl h

-- An offer for this node that does not name the version that runs, of a size that fits a slot.
abbrev pub IsAcceptable : Bytes → Bytes → Offer → Type 0
IsAcceptable current_version node_id o =
    (o.version ≢ current_version)
    × ((rest : Bytes) × (o.version ≡ node_id ++ b'-' ∷ rest))
    × (length o.sha256 ≡ 32)
    × (0 < o.size)
    × (o.size ≤ slot_size)

ok_inj : {a b : Offer} → ◌≡◌ {A = Result OfferError Offer} (ok a) (ok b) → a ≡ b
ok_inj e = cc

other : (a b : Bytes) → bytes_eq a b ≡ false → a ≢ b
other a b h e = let same : bytes_eq a b ≡ true = rw e (bytes_eq_refl b) in (cc)

sized :
    (version url digest current node_id : Bytes) (size : ℕ) {o : Offer}
    → bytes_eq version current ≡ false
    → is_for_node version node_id ≡ true
    → length digest ≡ 32
    → (if size == 0 || ltb slot_size size
        then err bad_size
        else ok record { version = version; url = url; sha256 = digest; size = size })
      ≡ ok o
    → IsAcceptable current node_id o
sized version url digest current node_id size {o = o} fresh here long e =
    elim (Bool-cases (size == 0 || ltb slot_size size)) [
      | inl bad ↦ let e' = rw bad at e in (cc)
      | inr fits ↦
          let is : record { version = version; url = url; sha256 = digest; size = size } ≡ o =
            ok_inj (rw fits at e) in
          subst (IsAcceptable current node_id) is (
            other version current fresh,
            is_for_node-dashed version node_id here,
            long,
            ground (arith, fits),
            ground (arith, fits),
          )
    ]

checked_offer-IsAcceptable :
    (version url digest_text size_text current node_id : Bytes) {o : Offer}
    → checked_offer version url digest_text size_text current node_id ≡ ok o
    → IsAcceptable current node_id o
unfolding checked_offer
checked_offer-IsAcceptable version url digest_text size_text current node_id {o = o} e =
    elim (Bool-cases (bytes_eq version current)) [
      | inl same ↦ let e' = rw same at e in (cc)
      | inr fresh ↦ elim (Bool-cases (is_for_node version node_id)) [
        | inr elsewhere ↦ let e' = rw (fresh, elsewhere) at e in (cc)
        | inl here ↦
            let e' = rw (fresh, here) at e in
            let digest = bind-eq-ok (ok_or (parse_hex_digest digest_text) bad_digest) _ e' in
            let size = bind-eq-ok (ok_or (parse_u32 size_text) bad_size) _ digest.2 in
            sized version url digest.0 current node_id size.0 {o = o} fresh here
              (parse_hex_digest-length digest_text {d = digest.0}
                (ok_or-eq-ok _ bad_digest digest.1))
              size.2
      ]
    ]

-- An offer that is accepted names a version that is not the running one and that begins with the node's
-- name and a dash; it has a digest of 32 bytes, and a size above 0 that fits a slot.
pub parse_offer-IsAcceptable :
    (payload current_version node_id : Bytes) (o : Offer)
    → parse_offer payload current_version node_id ≡ ok o
    → IsAcceptable current_version node_id o
unfolding parse_offer
parse_offer-IsAcceptable payload current node_id o e =
    let version = bind-eq-ok (ok_or (field payload (codes "version")) incomplete) _ e in
    let url = bind-eq-ok (ok_or (field payload (codes "url")) incomplete) _ version.2 in
    let digest = bind-eq-ok (ok_or (field payload (codes "sha256")) incomplete) _ url.2 in
    let size = bind-eq-ok (ok_or (field payload (codes "size")) incomplete) _ digest.2 in
    checked_offer-IsAcceptable version.0 url.0 digest.0 size.0 current node_id {o = o} size.2
