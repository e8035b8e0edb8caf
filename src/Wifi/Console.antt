-- ===== src/Wifi/Console.antt =====
-- The console's session: `parse` and `Session` (src/wifi.rs). `read_line` and `provision` are I/O.
use rs_smarthome_nodes.Base.{
  ◌≤◌, ◌<◌, ◌≡◌, refl, ◌||◌, Option, none, some, List, [], ◌∷◌, reverse, length, ◌==◌,
  if◌then◌else◌, arith,
}
use rs_smarthome_nodes.Base.Bytes.{Bytes}
use rs_smarthome_nodes.Base.Text.{codes, bytes_eq, trim, trim_end, split_once}
use rs_smarthome_nodes.Config.Credentials.{ssid_max, psk_max}
use rs_smarthome_nodes.Wifi.{Credentials, credentials_new, is_empty, try_from}

pub data Command : Type 0 where
  ssid_line : Bytes → Command
  psk_line : Bytes → Command
  save_line : Command
  clear_line : Command
  show_line : Command
  done_line : Command
  empty_line : Command
  unknown_line : Bytes → Command

unfoldable pub drop_newlines : Bytes → Bytes
drop_newlines [] = []
drop_newlines (c ∷ cs) = let rest = drop_newlines cs in if c == 10 || c == 13 then rest else c ∷ cs

unfoldable pub command_of : Bytes → Bytes → Command
command_of keyword rest =
    if bytes_eq keyword (codes "ssid")
    then ssid_line (trim rest)
    else if bytes_eq keyword (codes "psk")
        || bytes_eq keyword (codes "pass")
        || bytes_eq keyword (codes "password")
    then psk_line (trim_end rest)
    else if bytes_eq keyword (codes "save")
    then save_line
    else if bytes_eq keyword (codes "clear")
    then clear_line
    else if bytes_eq keyword (codes "show")
    then show_line
    else if bytes_eq keyword (codes "done")
        || bytes_eq keyword (codes "exit")
        || bytes_eq keyword (codes "quit")
    then done_line
    else unknown_line keyword

abbrev pub keyword_and_rest : Bytes → Option (Bytes × Bytes) → Bytes × Bytes
keyword_and_rest trimmed (some parts) = parts
keyword_and_rest trimmed none = (trimmed, [])

unfoldable pub parse : Bytes → Command
parse line =
    let trimmed = trim (reverse (drop_newlines (reverse (drop_newlines line)))) in
    let (keyword, rest) = keyword_and_rest trimmed (split_once 32 trimmed) in
    if is_empty trimmed then empty_line else command_of keyword rest

pub data Outcome : Type 0 where
  save : Credentials → Outcome
  clear : Outcome
  go_on : Outcome

pub record Session : Type 0 where
  pub ssid : Bytes
  pub psk : Bytes

abbrev pub new_session : Session
new_session = record { ssid = []; psk = [] }

-- `Ok(None)`, `Ok(Some(outcome))` and the errors.
pub data Reply : Type 0 where
  more : Reply
  ends : Outcome → Reply
  refused : Reply

abbrev pub entered_ssid : Session → Option Bytes → Session × Reply
entered_ssid s (some value) = (record s { ssid = value }, more)
entered_ssid s none = (s, refused)

abbrev pub entered_psk : Session → Option Bytes → Session × Reply
entered_psk s (some value) = (record s { psk = value }, more)
entered_psk s none = (s, refused)

abbrev pub saved : Session → Option Credentials → Session × Reply
saved s (some c) = (s, ends (save c))
saved s none = (s, refused)

unfoldable pub apply_command : Session → Command → Session × Reply
apply_command s (ssid_line value) = entered_ssid s (try_from ssid_max value)
apply_command s (psk_line value) = entered_psk s (try_from psk_max value)
apply_command s save_line = saved s (credentials_new s.ssid s.psk)
apply_command s clear_line = (s, ends clear)
apply_command s done_line = (s, ends go_on)
apply_command s show_line = (s, more)
apply_command s empty_line = (s, more)
apply_command s (unknown_line word) = (s, refused)

-- The commands of a session, up to the one that ends it.
unfoldable pub session : Session → List Command → Option Outcome
session s [] = none
session s (c ∷ cs) =
    let after = apply_command s c in
    let rest = session (after.0) cs in elim (after.1) [ ends outcome ↦ some outcome | _ ↦ rest ]

abbrev pub Fitting : Session → Type 0
Fitting s = (length s.ssid ≤ ssid_max) × (length s.psk ≤ psk_max)

abbrev pub Storable : Credentials → Type 0
Storable c = (0 < length c.ssid) × ((length c.ssid ≤ ssid_max) × (length c.psk ≤ psk_max))

saved_keeps : (s : Session) (o : Option Credentials) → (saved s o).0 ≡ s
saved_keeps s none = refl
saved_keeps s (some c) = refl

apply_command-Fitting : (s : Session) (c : Command) → Fitting s → Fitting (apply_command s c).0
unfolding apply_command
apply_command-Fitting s (ssid_line value) h = ground arith
apply_command-Fitting s (psk_line value) h = ground arith
apply_command-Fitting s save_line h = rw (saved_keeps s (credentials_new s.ssid s.psk)) h
apply_command-Fitting s clear_line h = h
apply_command-Fitting s done_line h = h
apply_command-Fitting s show_line h = h
apply_command-Fitting s empty_line h = h
apply_command-Fitting s (unknown_line word) h = h

credentials_new-Storable :
    (ssid psk : Bytes) {c : Credentials} → credentials_new ssid psk ≡ some c → Storable c
unfolding credentials_new
credentials_new-Storable [] psk e = ground arith
credentials_new-Storable (x ∷ ssid) psk e = ground arith

saved_lem :
    (s : Session) (o : Option Credentials) {c : Credentials}
    → (saved s o).1 ≡ ends (save c)
    → o ≡ some c
saved_lem s none e = ground arith
saved_lem s (some d) e = ground arith

reply-Storable :
    (s : Session) (command : Command) {c : Credentials}
    → (apply_command s command).1 ≡ ends (save c)
    → Storable c
unfolding apply_command
reply-Storable s (ssid_line value) e = ground arith
reply-Storable s (psk_line value) e = ground arith
reply-Storable s save_line e =
    credentials_new-Storable s.ssid s.psk (saved_lem s (credentials_new s.ssid s.psk) e)
reply-Storable s clear_line e = ground arith
reply-Storable s done_line e = ground arith
reply-Storable s show_line e = ground arith
reply-Storable s empty_line e = ground arith
reply-Storable s (unknown_line word) e = ground arith

-- Whatever is typed, credentials that a session ends by saving have a network's name, and both fit
-- their fields in flash.
pub session-Storable :
    (s : Session) (commands : List Command) {c : Credentials}
    → session s commands ≡ some (save c)
    → Storable c
unfolding session
session-Storable s [] {c = c} e = ground arith
session-Storable s (command ∷ rest) {c = c} e = ground (
  arith,
  reply-Storable s command {c = c},
  session-Storable (apply_command s command).0 rest {c = c},
)
