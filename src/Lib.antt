-- ===== src/Lib.antt =====
-- This library models the firmware of the smart-home nodes (a bird feeder's scale, a terrace's
-- sensors, a lamp, all on one ESP32) and proves what its parts promise. The firmware boots, reads its
-- settings from flash, samples its sensors, decides whether a bird is there, publishes to the broker
-- at intervals and sleeps; what must survive the sleep lies in RTC RAM, what must survive a power cut
-- in flash. Beside it stands the service of timeseries, which takes what the nodes publish from the
-- broker, writes it to a database and draws charts from there.
--
-- The files, and the code they are about (paths from the repository's root):
--   Base           numbers, machine words, bytes, text and lists that the other modules share;
--                  Base/Float has `f32` and Base/Double `f64` as a bit pattern, with the operations as
--                  a parameter; Base/Keyed maps as association lists
--   Flash          the flash driver of `esp-storage` as an interface; Flash/Memory meets it
--   Config         src/config.rs: the settings and the messages that change them (`apply`); Config/Blob
--                  the blob in flash with the migrations from versions 5 and 6; Config/NodeName and
--                  Config/Credentials the two blobs beside it
--   Archive        timeseries/src: the values of model.rs; Archive/Shared state.rs; Archive/Topics,
--                  Archive/Measurements and Archive/Handling mqtt.rs, from a topic to the records that
--                  are sent; Archive/Lines and Archive/Writer questdb/writer.rs; Archive/Database
--                  questdb/client.rs; Archive/Rollup questdb/rollup.rs; Archive/Series
--                  questdb/series.rs, with the fetches of a chart in Series/Fetching and of the overview
--                  and the channels in Series/Overview; Archive/Periods questdb/periods.rs, with its
--                  fetch in Periods/Fetching; Archive/Grouping the loop that both share;
--                  Archive/Settings and Archive/Retention config.rs
--   Crc            the checksums of src/config.rs, src/ota.rs, src/sensors/mod.rs and src/ds18b20.rs
--   Http           src/http.rs: URLs and response heads; Http/Fetch the download, over the connection of
--                  Http/Connection, an interface that Http/Scripted meets
--   Ota            src/ota.rs: the boot selector and the pending record; Ota/Flashing their flash
--                  operations with `ota_begin_attempt` and `ota_confirm` of src/main.rs; Ota/Offer the offer,
--                  Ota/Writer the writer of the image, and Ota/Update `run_update` of src/main.rs, which puts
--                  all of them together
--   ResetReason    src/reset_reason.rs: the latched reason and the boot log in flash
--   State          src/state.rs and the visit counter's check of src/sensors/scale.rs: the words in RTC RAM
--   Presence       src/presence.rs: the decision, the ring of readings with its median, the tare
--   Sensors        src/sensors/mod.rs: readings and their text; Sensors/Sds011 the dust sensor
--                  (src/sensors/sds011.rs) on the line of Sensors/Uart, Sensors/Scd41 the CO₂ sensor
--                  (src/sensors/scd41.rs), Sensors/Sgp41 the gas sensor (src/sensors/sgp41.rs,
--                  with its step in src/platform.rs) and Sensors/Sht31 the air's temperature and humidity
--                  (src/sensors/sht31.rs) on the bus of Sensors/I2c
--   Hx711          src/hx711.rs: the load cell's converter, pulse by pulse
--   Ds18b20        src/ds18b20.rs: the cell's temperature on its 1-Wire line
--   Sha256         src/sha256.rs: the digest of an image, as a stream
--   Solar          src/solar.rs: sunrise, sunset and night
--   Battery        src/battery.rs: the charge curve and parking
--   Lamp           src/lamp.rs: the evening's light
--   Ntp            src/ntp.rs and src/clock.rs: the time from the network
--   Wifi           src/wifi.rs: which credentials are in force, the waits between retries, the console
-- Lamp uses Solar and Battery; Config uses Solar for its night cadence; State uses Ntp's test of a
-- plausible time and ResetReason's latch; Ota/Update uses Http, Sha256, Flash and the rest of Ota; the
-- blobs use Crc and Flash; Wifi uses Config/Credentials; Sensors and Ds18b20 use Crc. Within Archive,
-- Handling changes Shared and sends records, Writer gathers them as Lines into batches, and Series
-- and Periods ask Database for what they show, of a view that Rollup chooses or of the base table.
-- Each component's Tests module runs it at concrete inputs.
--
-- How the code is written down. A struct is a record, an enum a data type, and a function a function of
-- the same name; a method that changes its object returns the changed one. Numbers are natural
-- numbers with the wrap-around or saturation of the machine word written out; signed words are
-- integers kept in their range. Text is its bytes. A `Result` whose message is only logged is an `Option`; in
-- the update and the download it is a `Result` with a constructor for each message. The RTC words
-- are one record, and a plain word's getter and setter are the record's field. A flash operation takes
-- the chip and returns it with a flag of success; of a failed write it is only assumed that it keeps to the
-- sectors that it was to write. A line, a bus or a connection is passed on in the same way; a line and a
-- bus also tell what was written to them, and whether each write succeeded. In Archive the broker is a list of events; for the writer the database is the answer that comes with an
-- event, and for what reads it the answer to a statement while the fetch runs, which is kept with the
-- list of the statements that were asked. The exchange over HTTP, the readers of JSON, of TOML and of
-- numbers, and the gas sensor's index algorithm are parameters, being other people's code.
-- The loops run over a list or count down, but for those on fuel. The digest's loop over a piece has a
-- turn for each byte, and each turn takes at least one; the padding has 64, and fills a block of 64. The
-- writer's loop over a chunk has a turn for each byte and one that only empties the buffer. The head of a
-- response has 513 turns, of which each but the last reads a byte at least into a buffer of 512. The body
-- gets as many reads as the caller says: that is the download's time budget, and where it is more than
-- the response has bytes, it is not used up. The dust sensor's timeouts are counts too: how often the driver
-- may hunt for a frame's head, and how many frames are there before the deadline of its warm-up. The
-- converter's is a number of polls.
--
-- Not modelled: the schema, the annotations, the web pages and the start of timeseries, which are
-- statements and routes around what is modelled; the tasks and the loop of src/main.rs, which join the
-- modelled parts over the radio and the pins, but for the update; the rest of src/platform.rs, which
-- wraps the hardware; formatting; and the payloads of src/discovery.rs and src/node.rs, which are text
-- without state.
pub mod Archive
pub mod Base
pub mod Battery
pub mod Config
pub mod Crc
pub mod Ds18b20
pub mod Flash
pub mod Http
pub mod Hx711
pub mod Lamp
pub mod Ntp
pub mod Ota
pub mod Presence
pub mod ResetReason
pub mod Sensors
pub mod Sha256
pub mod Solar
pub mod State
pub mod Wifi
