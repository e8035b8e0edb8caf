-- ===== src/Ota/Update/Started.antt =====
-- What is checked before the connection is made: `run_update` (src/main.rs).
use rs_smarthome_nodes.Base.{◌≡◌, refl}
use rs_smarthome_nodes.Base.Bytes.{Bytes}
use rs_smarthome_nodes.Base.Result.{ok, map_err, bind-eq-ok, map_err-eq-ok}
use rs_smarthome_nodes.Flash.{Storage}
use rs_smarthome_nodes.Http.{parse_url}
use rs_smarthome_nodes.Ota.{active, target_slot}
use rs_smarthome_nodes.Ota.Flashing.{read_otadata}
use rs_smarthome_nodes.Ota.Offer.{parse_offer}
use rs_smarthome_nodes.Ota.Update.{bad_offer, bad_url, bad_writer, Start, start}
use rs_smarthome_nodes.Ota.Writer.{writer_new}

module _ (flash : Storage) where
  open flash use {Chip}

  pub start_ok :
      (current_version node_id staging offer_json : Bytes) (chip : Chip) {st : Start flash}
      → start flash current_version node_id staging offer_json chip ≡ ok st
      → (parse_offer offer_json current_version node_id ≡ ok st.offer)
        × (st.current ≡ active (read_otadata flash chip))
        × (writer_new flash
              (target_slot (active (read_otadata flash chip)))
              st.offer.size
              staging
              chip
            ≡ ok st.writer)
  unfolding start
  start_ok current_version node_id staging offer_json chip {st = st} e =
      let offer =
        bind-eq-ok (map_err bad_offer (parse_offer offer_json current_version node_id)) _ e in
      let url = bind-eq-ok (map_err bad_url (parse_url offer.0.url)) _ offer.2 in
      let writer =
        bind-eq-ok (map_err bad_writer (writer_new flash _ offer.0.size staging chip)) _ url.2 in
      let is : record {
        offer = offer.0;
        url = url.0;
        current = active (read_otadata flash chip);
        writer = writer.0;
      }
          ≡ st =
        cc in
      rw (← is) (map_err-eq-ok bad_offer _ offer.1, refl, map_err-eq-ok bad_writer _ writer.1)
