-- ===== src/Ota/Update.antt =====
-- An update from the offer to the reboot: `run_update` (src/main.rs).
-- The download's time budget is the number of reads that its body gets: a read that is still pending when
-- the budget is spent is one too many, and the future is dropped.
pub mod Started
pub mod Installed
pub mod Harmless
mod Tests
use rs_smarthome_nodes.Base.{ℕ, Bool, Option, none, some}
use rs_smarthome_nodes.Base.Bytes.{Bytes}
use rs_smarthome_nodes.Base.Result.{Result, ok, err, ◌>>?◌, map_err, is_ok}
use rs_smarthome_nodes.Flash.{Storage}
use rs_smarthome_nodes.Http.Connection.{Connection}
use rs_smarthome_nodes.Http.Fetch.{FetchError, fetch}
use rs_smarthome_nodes.Http.{Url, UrlError, parse_url}
use rs_smarthome_nodes.Ota.{Active, active, target_slot}
use rs_smarthome_nodes.Ota.Flashing.{read_otadata, activate}
use rs_smarthome_nodes.Ota.Offer.{Offer, OfferError, parse_offer}
use rs_smarthome_nodes.Ota.Writer.{Writer, WriterError, writer_new, writer_write, writer_finish}

pub data UpdateError : Type 0 where
  bad_offer : OfferError → UpdateError
  bad_url : UrlError → UpdateError
  bad_writer : WriterError → UpdateError
  unreachable : UpdateError
  -- also when the budget was exceeded
  not_fetched : FetchError → UpdateError
  bad_image : WriterError → UpdateError
  not_activated : UpdateError

-- The array `scratch` of `run_update`.
abbrev pub scratch_len : ℕ
scratch_len = 512

module _ (flash : Storage) where
  open flash use {Chip}

  -- What is known before the connection is made.
  pub record Start : Type 0 where
    pub offer : Offer
    pub url : Url
    pub current : Active
    pub writer : Writer Chip

  -- `current_version` and `node_id` are `FW_VERSION` and `node::active().id`.
  unfoldable pub start : Bytes → Bytes → Bytes → Bytes → Chip → Result UpdateError Start
  start current_version node_id staging offer_json chip =
      map_err bad_offer (parse_offer offer_json current_version node_id) >>? λ offer.
      map_err bad_url (parse_url offer.url) >>? λ url.
      let current = active (read_otadata flash chip) in
      map_err bad_writer (writer_new flash (target_slot current) offer.size staging chip)
      >>? λ writer. ok record { offer = offer; url = url; current = current; writer = writer }

  -- The closure that `fetch` calls with each chunk.
  unfoldable pub write_chunk : Writer Chip → Bytes → Writer Chip × Bool
  write_chunk w chunk = let done = writer_write flash w chunk in (done.0, is_ok done.1)

  abbrev pub seq_of : Chip × Option ℕ → Chip × Result UpdateError ℕ
  seq_of (chip, some seq) = (chip, ok seq)
  seq_of (chip, none) = (chip, err not_activated)

  unfoldable pub switched : Active → Chip × Result WriterError ℕ → Chip × Result UpdateError ℕ
  switched current (chip, err e) = (chip, err (bad_image e))
  switched current (chip, ok slot) = seq_of (activate flash current slot chip)

  unfoldable pub finished :
      Active → Bytes → Writer Chip → Result FetchError ℕ → Chip × Result UpdateError ℕ
  finished current digest w (err e) = (w.chip, err (not_fetched e))
  finished current digest w (ok total) = switched current (writer_finish flash w digest)

  module _ (conn : Connection) where
    open conn use {Stream}

    unfoldable pub downloaded : ℕ → Start → Option Stream → Chip × Result UpdateError ℕ
    downloaded budget st none = (st.writer.chip, err unreachable)
    downloaded budget st (some s) =
        let fetched = fetch conn write_chunk st.url 0 scratch_len budget s st.writer in
        finished st.current st.offer.sha256 fetched.1 fetched.2

    abbrev pub carried_out :
        ℕ
        → (Bytes → ℕ → Option Stream)
        → Chip
        → Result UpdateError Start
        → Chip × Result UpdateError ℕ
    carried_out budget connect chip (err e) = (chip, err e)
    carried_out budget connect chip (ok st) = downloaded budget st (connect st.url.ip st.url.port)

    -- The flash behind it, and the new sequence number or why there is none.
    unfoldable pub run_update :
        ℕ
        → (Bytes → ℕ → Option Stream)
        → Bytes
        → Bytes
        → Bytes
        → Bytes
        → Chip
        → Chip × Result UpdateError ℕ
    run_update budget connect current_version node_id staging offer_json chip =
        carried_out budget connect chip (start current_version node_id staging offer_json chip)
