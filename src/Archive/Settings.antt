-- ===== src/Archive/Settings.antt =====
-- The service's settings (timeseries/src/config.rs). The files and the reader of TOML are parameters;
-- the messages of the errors are constructors.
pub mod Usable
use rs_smarthome_nodes.Base.{
  ℕ, Bool, true, false, not, ◌&&◌, ◌||◌, Option, none, some, List, [], ◌∷◌, ◌==◌, if◌then◌else◌,
}
use rs_smarthome_nodes.Base.Bytes.{Bytes}
use rs_smarthome_nodes.Base.Result.{Result, ok, err, ◌>>?◌, ok_or}
use rs_smarthome_nodes.Base.Text.{codes, strip_prefix}
use rs_smarthome_nodes.Archive.Lines.{is_break}
use rs_smarthome_nodes.Archive.Retention.{Retention, RetentionError, parse}
use rs_smarthome_nodes.Archive.Series.Fetching.{is_empty}

pub record Mqtt : Type 0 where
  pub host : Bytes
  pub port : ℕ
  pub user : Bytes
  pub password : Bytes
  pub password_file : Option Bytes
  pub client_id : Bytes
  pub namespace : Bytes
  pub discovery_prefix : Bytes

pub record QuestDb : Type 0 where
  pub url : Bytes
  pub user : Bytes
  pub password : Bytes
  pub password_file : Option Bytes
  pub table : Bytes
  pub status_table : Bytes
  pub annotations_table : Bytes
  pub retention : Bytes
  pub rollup_retention : Bytes
  pub rollups : Bool
  pub flush_interval_secs : ℕ
  pub batch_max : ℕ

pub record Web : Type 0 where
  pub bind : Bytes
  pub floorplan : Option Bytes
  pub rooms : List (Bytes × Bytes)

pub record Settings : Type 0 where
  pub mqtt : Mqtt
  pub questdb : QuestDb
  pub web : Web

abbrev pub default_mqtt : Mqtt
default_mqtt = record {
  host = codes "127.0.0.1";
  port = 1883;
  user = [];
  password = [];
  password_file = none;
  client_id = codes "smarthome-timeseries";
  namespace = codes "smarthome";
  discovery_prefix = codes "homeassistant";
}

abbrev pub default_questdb : QuestDb
default_questdb = record {
  url = codes "http://127.0.0.1:9000";
  user = [];
  password = [];
  password_file = none;
  table = codes "readings";
  status_table = codes "node_status";
  annotations_table = codes "annotations";
  retention = codes "3y";
  rollup_retention = codes "50y";
  rollups = true;
  flush_interval_secs = 5;
  batch_max = 1000;
}

abbrev pub default_web : Web
default_web = record { bind = codes "127.0.0.1:8087"; floorplan = none; rooms = [] }

abbrev pub default_settings : Settings
default_settings = record { mqtt = default_mqtt; questdb = default_questdb; web = default_web }

pub data SettingsError : Type 0 where
  unreadable bad_toml unreadable_secret no_client_id no_namespace : SettingsError
  bad_url bad_flush_interval bad_batch_max : SettingsError
  bad_retention : RetentionError → SettingsError

-- `trim_end_matches(['\r', '\n'])`
unfoldable pub trim_breaks : Bytes → Bytes
trim_breaks [] = []
trim_breaks (c ∷ cs) =
    let rest = trim_breaks cs in if is_empty rest && is_break c then [] else c ∷ rest

-- `trim_end_matches('/')`
unfoldable pub trim_slashes : Bytes → Bytes
trim_slashes [] = []
trim_slashes (c ∷ cs) =
    let rest = trim_slashes cs in if is_empty rest && c == 47 then [] else c ∷ rest

abbrev pub starts_with : Bytes → Bytes → Bool
starts_with prefix text = elim (strip_prefix prefix text) [ none ↦ false | some rest ↦ true ]

abbrev pub ensure : Bool → SettingsError → Result SettingsError (Unit {0})
ensure true e = ok tt
ensure false e = err e

abbrev pub checked_retention : Result RetentionError Retention → Result SettingsError (Unit {0})
checked_retention (ok r) = ok tt
checked_retention (err e) = err (bad_retention e)

unfoldable pub validate : Settings → Result SettingsError (Unit {0})
validate s = ensure (not (is_empty s.mqtt.client_id)) no_client_id >>? λ _.
    ensure (not (is_empty s.mqtt.namespace)) no_namespace >>? λ _.
    ensure
      (starts_with (codes "http://") s.questdb.url || starts_with (codes "https://") s.questdb.url)
      bad_url
    >>? λ _. ensure (not (s.questdb.flush_interval_secs == 0)) bad_flush_interval >>? λ _.
        ensure (not (s.questdb.batch_max == 0)) bad_batch_max >>? λ _.
        checked_retention (parse s.questdb.retention) >>? λ _.
        checked_retention (parse s.questdb.rollup_retention)

unfoldable pub questdb_base : Settings → Bytes
unfolding trim_slashes
questdb_base s = trim_slashes s.questdb.url

-- `expect`s that there is no error.
unfoldable pub retention_of : Settings → Result RetentionError Retention
retention_of s = parse s.questdb.retention

unfoldable pub rollup_retention_of : Settings → Result RetentionError Retention
rollup_retention_of s = parse s.questdb.rollup_retention

pub record Files : Type 0 where
  pub read_to_string : Bytes → Option Bytes
  pub from_str : Bytes → Option Settings

module _ (files : Files) where
  unfoldable pub read_secret : Bytes → Result SettingsError Bytes
  unfolding trim_breaks
  read_secret path =
      ok_or (files.read_to_string path) unreadable_secret >>? λ raw. ok (trim_breaks raw)

  -- The password, from its file if one is named.
  abbrev pub secret : Option Bytes → Bytes → Result SettingsError Bytes
  secret none password = ok password
  secret (some path) password = read_secret path

  unfoldable pub resolve_secrets : Settings → Result SettingsError Settings
  unfolding read_secret
  resolve_secrets s = secret s.mqtt.password_file s.mqtt.password >>? λ broker.
      secret s.questdb.password_file s.questdb.password >>? λ database. ok (record s {
        mqtt = record s.mqtt { password = broker };
        questdb = record s.questdb { password = database };
      })

  abbrev pub settings_at : Option Bytes → Result SettingsError Settings
  settings_at none = ok default_settings
  settings_at (some path) =
      ok_or (files.read_to_string path) unreadable >>? λ text. ok_or (files.from_str text) bad_toml

  unfoldable pub load : Option Bytes → Result SettingsError Settings
  unfolding resolve_secrets validate
  load path = settings_at path >>? λ s.
      resolve_secrets s >>? λ resolved. validate resolved >>? λ _. ok resolved
