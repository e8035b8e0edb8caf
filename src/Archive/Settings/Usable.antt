-- ===== src/Archive/Settings/Usable.antt =====
-- What the service can rely on once its settings are loaded (timeseries/src/config.rs).
use rs_smarthome_nodes.Base.{
  ℕ, ◌<◌, ◌≡◌, refl, subst, Bool, true, false, not, ◌||◌, Option, ◌==◌, arith,
}
use rs_smarthome_nodes.Base.Bytes.{Bytes}
use rs_smarthome_nodes.Base.Result.{Result, ok, err, bind-eq-ok}
use rs_smarthome_nodes.Base.Text.{codes}
use rs_smarthome_nodes.Archive.Retention.{Retention, RetentionError, parse}
use rs_smarthome_nodes.Archive.Series.Fetching.{is_empty}
use rs_smarthome_nodes.Archive.Settings.{
  Settings, SettingsError, no_client_id, no_namespace, bad_url, bad_flush_interval, bad_batch_max,
  starts_with, ensure, checked_retention, validate, retention_of, rollup_retention_of, Files,
  settings_at, resolve_secrets, load,
}

-- The retentions that are expected to parse do, the writer's batch and its interval are above 0, and
-- the broker gets a client id and a namespace.
pub record IsUsable (s : Settings) : Type 0 where
  pub client_id : is_empty s.mqtt.client_id ≡ false
  pub namespace : is_empty s.mqtt.namespace ≡ false
  pub flush_interval : 0 < s.questdb.flush_interval_secs
  pub batch_max : 0 < s.questdb.batch_max
  pub retention : (r : Retention) × (retention_of s ≡ ok r)
  pub rollup_retention : (r : Retention) × (rollup_retention_of s ≡ ok r)

ensured : (b : Bool) (e : SettingsError) {u : Unit {0}} → ensure b e ≡ ok u → b ≡ true
ensured true e h = refl
ensured false e h = cc

retained :
    (r : Result RetentionError Retention) {u : Unit {0}}
    → checked_retention r ≡ ok u
    → (a : Retention) × (r ≡ ok a)
retained (ok a) h = (a, refl)
retained (err e) h = cc

not-true : (b : Bool) → not b ≡ true → b ≡ false
not-true b h = ground arith

above_zero : (n : ℕ) → not (n == 0) ≡ true → 0 < n
above_zero n h = ground arith

validate-IsUsable : (s : Settings) {u : Unit {0}} → validate s ≡ ok u → IsUsable s
unfolding validate retention_of rollup_retention_of
validate-IsUsable s h =
    let (u1, a, h1) = bind-eq-ok (ensure (not (is_empty s.mqtt.client_id)) no_client_id) _ h in
    let (u2, b, h2) = bind-eq-ok (ensure (not (is_empty s.mqtt.namespace)) no_namespace) _ h1 in
    let (u3, c, h3) =
      bind-eq-ok
        (ensure
          (starts_with (codes "http://") s.questdb.url
            || starts_with (codes "https://") s.questdb.url)
          bad_url)
        _ h2 in
    let (u4, d, h4) =
      bind-eq-ok (ensure (not (s.questdb.flush_interval_secs == 0)) bad_flush_interval) _ h3 in
    let (u5, e, h5) = bind-eq-ok (ensure (not (s.questdb.batch_max == 0)) bad_batch_max) _ h4 in
    let (u6, f, h6) = bind-eq-ok (checked_retention (parse s.questdb.retention)) _ h5 in
    record {
      client_id = not-true _ (ensured _ no_client_id a);
      namespace = not-true _ (ensured _ no_namespace b);
      flush_interval = above_zero _ (ensured _ bad_flush_interval d);
      batch_max = above_zero _ (ensured _ bad_batch_max e);
      retention = retained _ f;
      rollup_retention = retained _ h6;
    }

-- Settings that load are usable: the retentions parse, so that neither of the `expect`s fails, the
-- writer's batch and interval are above 0, and the client id and the namespace are there, whatever
-- the files hold.
pub load-IsUsable :
    (files : Files) (path : Option Bytes) {s : Settings} → load files path ≡ ok s → IsUsable s
unfolding load
load-IsUsable files path {s} h =
    let (read, a, h1) = bind-eq-ok (settings_at files path) _ h in
    let (resolved, b, h2) = bind-eq-ok (resolve_secrets files read) _ h1 in
    let (u, c, same) = bind-eq-ok (validate resolved) _ h2 in
    let e : resolved ≡ s = cc in subst IsUsable e (validate-IsUsable resolved c)
