-- ===== src/Sha256/Tests.antt =====
-- The digest of "abc", as the standard gives it.
use rs_smarthome_nodes.Base.{◌≡◌, List, refl, [], ◌∷◌, take}
use rs_smarthome_nodes.Base.Bytes.{Bytes}
use rs_smarthome_nodes.Sha256.Streaming.{updates, together, finish-updates}
use rs_smarthome_nodes.Sha256.{
  fresh_hasher, update, finish, absorb, settle, pad, digest, compress, block_words, next_word,
  extend, rotate_right, rounds, round,
}

abc :
    take 4 (finish (update fresh_hasher (0x61 ∷ 0x62 ∷ 0x63 ∷ []))) ≡ 0xba ∷ 0x78 ∷ 0x16 ∷ 0xbf ∷ []
unfolding finish update absorb settle pad digest compress block_words next_word extend rotate_right
    rounds round
abc = refl

abbrev two_pieces : List Bytes
two_pieces = (0x61 ∷ []) ∷ (0x62 ∷ 0x63 ∷ []) ∷ []

finish-updates_example :
    finish (updates fresh_hasher two_pieces) ≡ finish (update fresh_hasher (together two_pieces))
finish-updates_example = finish-updates two_pieces
