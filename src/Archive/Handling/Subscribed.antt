-- ===== src/Archive/Handling/Subscribed.antt =====
-- The filters that the ingest task subscribes to, and the topics that it has a use for
-- (timeseries/src/mqtt.rs).
use rs_smarthome_nodes.Base.{◌≡◌, ◌≢◌, refl, Bool, true, false, ◌&&◌, ◌||◌, List, [], ◌∷◌, arith}
use rs_smarthome_nodes.Base.Bytes.{Bytes}
use rs_smarthome_nodes.Base.Text.{codes, bytes_eq, split, Lacks, split-append}
use rs_smarthome_nodes.Archive.Handling.{readings_filter, meter_filter, discovery_filter}
use rs_smarthome_nodes.Archive.Topics.{ignored, classify, classify_parts, config}

-- How a broker matches a topic: level by level, where `+` stands for any one.
unfoldable pub match_levels : List Bytes → List Bytes → Bool
match_levels [] [] = true
match_levels (p ∷ ps) (l ∷ ls) = (bytes_eq p (codes "+") || bytes_eq l p) && match_levels ps ls
match_levels _ _ = false

unfoldable pub matches : Bytes → Bytes → Bool
unfolding match_levels
matches filter topic = match_levels (split 47 filter) (split 47 topic)

module _ (namespace prefix : Bytes) where
  abbrev covered : List Bytes → Bool
  covered parts =
      match_levels (namespace ∷ codes "+" ∷ codes "+" ∷ []) parts
      || match_levels (namespace ∷ codes "+" ∷ codes "+" ∷ codes "+" ∷ []) parts
      || match_levels (prefix ∷ codes "sensor" ∷ codes "+" ∷ codes "+" ∷ config ∷ []) parts

  classify_parts-covered :
      (parts : List Bytes) → classify_parts namespace prefix parts ≢ ignored → covered parts ≡ true
  unfolding classify_parts match_levels bytes_eq
  classify_parts-covered [] h = absurd (h refl)
  classify_parts-covered (a ∷ []) h = ground arith
  classify_parts-covered (a ∷ b ∷ []) h = ground arith
  classify_parts-covered (a ∷ b ∷ c ∷ []) h = ground arith
  classify_parts-covered (a ∷ b ∷ c ∷ d ∷ []) h = ground arith
  classify_parts-covered (a ∷ b ∷ c ∷ d ∷ e ∷ []) h = ground arith
  classify_parts-covered (a ∷ b ∷ c ∷ d ∷ e ∷ x ∷ r) h = ground arith

  -- The levels of the three filters.
  module _ (plain : Lacks 47 namespace) (plain_prefix : Lacks 47 prefix) where
    split-readings_filter :
        split 47 (readings_filter namespace) ≡ namespace ∷ codes "+" ∷ codes "+" ∷ []
    unfolding readings_filter split
    split-readings_filter = rw (split-append 47 namespace (codes "+/+") plain) refl

    split-meter_filter :
        split 47 (meter_filter namespace) ≡ namespace ∷ codes "+" ∷ codes "+" ∷ codes "+" ∷ []
    unfolding meter_filter split
    split-meter_filter = rw (split-append 47 namespace (codes "+/+/+") plain) refl

    split-discovery_filter :
        split 47 (discovery_filter prefix)
        ≡ prefix ∷ codes "sensor" ∷ codes "+" ∷ codes "+" ∷ config ∷ []
    unfolding discovery_filter split
    split-discovery_filter =
        rw (split-append 47 prefix (codes "sensor/+/+/config") plain_prefix) refl

    -- Every topic that the task has a use for matches one of the three filters that it subscribes
    -- to, for a namespace and a prefix of one level.
    pub classify-covered :
        (topic : Bytes)
        → classify namespace prefix topic ≢ ignored
        → (matches (readings_filter namespace) topic
            || matches (meter_filter namespace) topic
            || matches (discovery_filter prefix) topic)
          ≡ true
    unfolding matches classify
    classify-covered topic h =
        rw (split-readings_filter, split-meter_filter, split-discovery_filter)
          (classify_parts-covered (split 47 topic) h)
