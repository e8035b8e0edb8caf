-- ===== src/Ota/Update/Installed.antt =====
-- What an update that succeeded installed: `run_update` (src/main.rs).
use rs_smarthome_nodes.Base.{
  ℕ, ◌≤◌, ◌<◌, ◌≡◌, refl, ap, sym, ◌∙◌, true, Option, none, some, List, [], ◌∷◌, ◌++◌, append-nil,
  append_assoc, length, Bool-cases, inl, inr, arith, subst,
}
use rs_smarthome_nodes.Base.Bytes.{Bytes}
use rs_smarthome_nodes.Base.Result.{Result, ok, err, is_ok}
use rs_smarthome_nodes.Flash.{Storage}
use rs_smarthome_nodes.Http.Connection.{Connection}
use rs_smarthome_nodes.Http.Delivery.{AreShort, feeds}
use rs_smarthome_nodes.Http.Download.{fetch_delivers}
use rs_smarthome_nodes.Http.Fetch.{FetchError, fetch}
use rs_smarthome_nodes.Ota.{Active, active, target_slot}
use rs_smarthome_nodes.Ota.Flashing.{read_otadata, load_pending, activate}
use rs_smarthome_nodes.Ota.Offer.{Offer, parse_offer}
use rs_smarthome_nodes.Ota.Slots.{AreInUse}
use rs_smarthome_nodes.Ota.Trial.{fresh, activate_switches}
use rs_smarthome_nodes.Ota.Update.{
  UpdateError, Start, start, write_chunk, seq_of, switched, finished, downloaded, carried_out,
  run_update, scratch_len,
}
use rs_smarthome_nodes.Ota.Update.Harmless.{
  activate-above, slot_offset-le, read_otadata-Untouched, fetched-Confined,
}
use rs_smarthome_nodes.Ota.Update.Started.{start_ok}
use rs_smarthome_nodes.Ota.Writer.{
  Writer, WriterError, writer_write, writer_finish, slot_offset, slot_size,
}
use rs_smarthome_nodes.Ota.Writer.Confined.{Confined, writer_new-Confined, finish-Confined}
use rs_smarthome_nodes.Ota.Writer.Image.{
  Writing, Holds, writer_new-Writing, writer_write-Writing, writer_finish-Holds,
}
use rs_smarthome_nodes.Sha256.Streaming.{together}

is_ok-tt : (r : Result WriterError (Unit {0})) → is_ok r ≡ true → r ≡ ok tt
is_ok-tt (ok u) h = refl
is_ok-tt (err e) h = absurd (cc)

module _ (flash : Storage) where
  open flash use {Chip, read}

  write_chunk-Writing :
      (slot expected : ℕ) (bytes b : Bytes) (w : Writer Chip)
      → Writing flash slot expected bytes w
      → expected ≤ slot_size
      → length b ≤ 0x8000_0000
      → length bytes ≤ expected
      → (write_chunk flash w b).1 ≡ true
      → Writing flash slot expected (bytes ++ b) (write_chunk flash w b).0
        × (length (bytes ++ b) ≤ expected)
  unfolding write_chunk
  write_chunk-Writing slot expected bytes b w now fits short le done =
      writer_write-Writing flash slot expected bytes b w now fits short le
        (is_ok-tt (writer_write flash w b).1 done)

  -- The chunks that the writer took are the image so far.
  feeds-Writing :
      (slot expected m : ℕ) (pieces : List Bytes) (bytes : Bytes) (w w' : Writer Chip)
      → expected ≤ slot_size
      → m ≤ 0x8000_0000
      → AreShort m pieces
      → Writing flash slot expected bytes w
      → length bytes ≤ expected
      → feeds (write_chunk flash) w pieces ≡ (w', true)
      → Writing flash slot expected (bytes ++ together pieces) w'
  unfolding feeds together AreShort
  feeds-Writing slot expected m [] bytes w w' fits bound short now le fed =
      subst (Writing flash slot expected (bytes ++ [])) (ap (λ r. r.0) fed)
        (subst (λ b. Writing flash slot expected b w) (sym (append-nil bytes)) now)
  feeds-Writing slot expected m (p ∷ ps) bytes w w' fits bound short now le fed =
      elim (Bool-cases (write_chunk flash w p).1) [
        | inl took ↦
            let (now', le') =
              write_chunk-Writing slot expected bytes p w now fits (omega (arith, short.0, bound))
                le took in
            subst (λ b. Writing flash slot expected b w') (append_assoc bytes p (together ps))
              (feeds-Writing slot expected m ps (bytes ++ p) (write_chunk flash w p).0 w' fits bound
                short.1 now' le' (rw took at fed))
        | inr refused ↦ let fed' = rw refused at fed in absurd (cc)
      ]

  -- The image is in its slot and the selector says that it runs next, on trial.
  abbrev pub Installed : ℕ → Offer → ℕ → Bytes → Chip → Type 0
  Installed slot offer seq image chip =
      Holds flash slot offer.size offer.sha256 image chip
      × (Active.slot (active (read_otadata flash chip)) ≡ slot)
      × (Active.seq (active (read_otadata flash chip)) ≡ seq)
      × (load_pending flash chip ≡ some (fresh seq))

  seq_of_ok :
      (r : Chip × Option ℕ) (n : ℕ)
      → (seq_of flash r).1 ≡ ok n
      → (r.1 ≡ some n) × ((seq_of flash r).0 ≡ r.0)
  seq_of_ok (chip, some seq) n h = (cc, refl)
  seq_of_ok (chip, none) n h = absurd (cc)

  activated-Installed :
      (offer : Offer) (n slot s : ℕ) (begin chip : Chip) (image : Bytes)
      → AreInUse (read_otadata flash begin)
      → read_otadata flash chip ≡ read_otadata flash begin
      → s ≡ slot
      → Holds flash slot offer.size offer.sha256 image chip
      → (activate flash (active (read_otadata flash begin)) s chip).1 ≡ some n
      → Installed slot offer n image (activate flash (active (read_otadata flash begin)) s chip).0
  activated-Installed offer n slot s begin chip image live same is (size, there, digest) done =
      let now = active (read_otadata flash begin) in
      let old : active (read_otadata flash chip) ≡ now = ap active same in
      let (runs, (numbered, noted)) = rw old at (
        activate_switches flash s n chip (subst AreInUse (sym same) live)
          (subst (λ a. (activate flash a s chip).1 ≡ some n) (sym old) done)) in
      (
        (
          size,
          activate-above flash now s chip (slot_offset slot) offer.size (slot_offset-le slot)
              ∙ there,
          digest,
        ),
        runs ∙ is,
        numbered,
        noted,
      )

  switched-Installed :
      (offer : Offer) (n slot : ℕ) (begin : Chip) (image : Bytes) (r : Chip × Result WriterError ℕ)
      → AreInUse (read_otadata flash begin)
      → read_otadata flash r.0 ≡ read_otadata flash begin
      → ((s : ℕ) → r.1 ≡ ok s → (s ≡ slot) × Holds flash slot offer.size offer.sha256 image r.0)
      → (switched flash (active (read_otadata flash begin)) r).1 ≡ ok n
      → Installed slot offer n image (switched flash (active (read_otadata flash begin)) r).0
  unfolding switched
  switched-Installed offer n slot begin image (chip, err e) live same held done = absurd (cc)
  switched-Installed offer n slot begin image (chip, ok s) live same held done =
      let r = activate flash (active (read_otadata flash begin)) s chip in
      let (got, left) = seq_of_ok r n done in
      let (is, holds) = held s refl in
      subst (Installed slot offer n image) (sym left)
        (activated-Installed offer n slot s begin chip image live same is holds got)

  finished-Installed :
      (offer : Offer) (n slot : ℕ) (begin : Chip) (image : Bytes) (w : Writer Chip)
      (r : Result FetchError ℕ)
      → AreInUse (read_otadata flash begin)
      → 0 < offer.size
      → Confined flash slot begin 0 w
      → Writing flash slot offer.size image w
      → (finished flash (active (read_otadata flash begin)) offer.sha256 w r).1 ≡ ok n
      → Installed slot offer n image
          (finished flash (active (read_otadata flash begin)) offer.sha256 w r).0
  unfolding finished
  finished-Installed offer n slot begin image w (err e) live some_byte c now done = absurd (cc)
  finished-Installed offer n slot begin image w (ok total) live some_byte c now done =
      switched-Installed offer n slot begin image (writer_finish flash w offer.sha256) live
        (read_otadata-Untouched flash slot begin _
          (finish-Confined flash slot begin w offer.sha256 c))
        (λ s. writer_finish-Holds flash slot offer.size s image offer.sha256 w now some_byte) done

  finished_ok :
      (current : Active) (digest : Bytes) (w : Writer Chip) (r : Result FetchError ℕ) (n : ℕ)
      → (finished flash current digest w r).1 ≡ ok n
      → (total : ℕ) × (r ≡ ok total)
  unfolding finished
  finished_ok current digest w (err e) n done = absurd (cc)
  finished_ok current digest w (ok total) n done = (total, refl)

  module _ (conn : Connection) where
    open conn use {Stream}

    -- What the server sent as the image, or nothing.
    fetched-Writing :
        (budget slot total : ℕ) (st : Start flash) (s : Stream)
        → Writing flash slot st.offer.size [] st.writer
        → st.offer.size ≤ slot_size
        → (fetch conn (write_chunk flash) st.url 0 scratch_len budget s st.writer).2 ≡ ok total
        → (image : Bytes) × Writing flash slot st.offer.size image
            (fetch conn (write_chunk flash) st.url 0 scratch_len budget s st.writer).1
    fetched-Writing budget slot total st s now fits done =
        let got =
          fetch_delivers conn (write_chunk flash) scratch_len (omega arith) st.url 0 budget s
            st.writer total done in
        let (
          request,
          sent,
          (all, rest, head, cut, parsed, status, (pieces, short, fed, joined, counted)),
        ) =
          got in
        (
          together pieces,
          feeds-Writing slot st.offer.size _ pieces [] st.writer _ fits (omega arith) short now
              (omega arith) fed,
        )

    downloaded-Installed :
        (budget n : ℕ) (begin : Chip) (st : Start flash) (o : Option Stream)
        → AreInUse (read_otadata flash begin)
        → st.current ≡ active (read_otadata flash begin)
        → Writing flash (target_slot st.current) st.offer.size [] st.writer
        → 0 < st.offer.size
        → st.offer.size ≤ slot_size
        → Confined flash (target_slot st.current) begin 0 st.writer
        → (downloaded flash conn budget st o).1 ≡ ok n
        → (image : Bytes) × Installed
            (target_slot st.current)
            st.offer
            n
            image
            (downloaded flash conn budget st o).0
    unfolding downloaded
    downloaded-Installed budget n begin st none live is now some_byte fits c done = absurd (cc)
    downloaded-Installed budget n begin st (some s) live is now some_byte fits c done =
        let slot = target_slot st.current in
        let (total, fetched) = finished_ok st.current st.offer.sha256 _ _ n done in
        let (image, written) = fetched-Writing budget slot total st s now fits fetched in
        (
          image,
          (rw (← is) at (
              finished-Installed st.offer n slot begin image _ _ live some_byte
                (fetched-Confined flash conn budget slot begin st s c) written (rw is at done))),
        )

    carried_out-Installed :
        (budget n : ℕ) (connect : Bytes → ℕ → Option Stream)
        (current_version node_id staging offer_json : Bytes) (chip : Chip)
        (r : Result UpdateError (Start flash))
        → AreInUse (read_otadata flash chip)
        → start flash current_version node_id staging offer_json chip ≡ r
        → (carried_out flash conn budget connect chip r).1 ≡ ok n
        → (offer : Offer) × (image : Bytes) × (parse_offer offer_json current_version node_id
            ≡ ok offer)
          × Installed
              (target_slot (active (read_otadata flash chip)))
              offer
              n
              image
              (carried_out flash conn budget connect chip r).0
    carried_out-Installed budget n connect current_version node_id staging offer_json chip (err e)
          live begun done =
        absurd (cc)
    carried_out-Installed budget n connect current_version node_id staging offer_json chip (ok st)
          live begun done =
        let (offered, is, made) =
          start_ok flash current_version node_id staging offer_json chip {st = st} begun in
        let (now, some_byte, fits) =
          writer_new-Writing flash _ st.offer.size staging chip st.writer made in
        let (image, installed) =
          downloaded-Installed budget n chip st (connect st.url.ip st.url.port) live is
            (subst (λ a. Writing flash (target_slot a) st.offer.size [] st.writer) (sym is) now)
            some_byte fits
            (subst (λ a. Confined flash (target_slot a) chip 0 st.writer) (sym is)
              (writer_new-Confined flash _ st.offer.size staging chip st.writer made))
            done in
        (
          st.offer,
          image,
          offered,
          subst
              (λ a.
                Installed (target_slot a) st.offer n image
                  (carried_out flash conn budget connect chip (ok st)).0)
              is installed,
        )

    -- An update that reports success with a sequence number was offered; the slot that was not running holds
    -- an image of the size and the SHA-256 digest that the offer promised, the boot loader runs that slot
    -- next, by the entry with that number, and the pending record says that the image was not tried yet.
    -- Where the selector's sequence numbers are above 0 and leave room for the next.
    pub run_update-Installed :
        (budget : ℕ) (connect : Bytes → ℕ → Option Stream)
        (current_version node_id staging offer_json : Bytes) (chip : Chip) (n : ℕ)
        → AreInUse (read_otadata flash chip)
        → (run_update flash conn budget connect current_version node_id staging offer_json chip).1
          ≡ ok n
        → (offer : Offer) × (image : Bytes) × (parse_offer offer_json current_version node_id
            ≡ ok offer)
          × Installed
              (target_slot (active (read_otadata flash chip)))
              offer
              n
              image
              (run_update flash conn budget connect current_version node_id staging offer_json
                chip).0
    unfolding run_update
    run_update-Installed budget connect current_version node_id staging offer_json chip n live =
        carried_out-Installed budget n connect current_version node_id staging offer_json chip _
          live refl
