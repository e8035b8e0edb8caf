-- ===== src/Archive/Topics.antt =====
-- What a topic is: `classify` (timeseries/src/mqtt.rs).
pub mod Named
use rs_smarthome_nodes.Base.{Bool, true, false, ◌&&◌, ◌||◌, List, [], ◌∷◌, if◌then◌else◌}
use rs_smarthome_nodes.Base.Bytes.{Bytes}
use rs_smarthome_nodes.Base.Text.{codes, bytes_eq, split}

pub data Parsed : Type 0 where
  reading : Bytes → Bytes → Parsed
  status : Bytes → Parsed
  discovery : Bytes → Bytes → Parsed
  ignored : Parsed

abbrev pub provision : Bytes
provision = codes "provision"

abbrev pub config : Bytes
config = codes "config"

abbrev pub is_empty : Bytes → Bool
is_empty [] = true
is_empty (c ∷ cs) = false

-- `(node, key)` of a topic under the namespace.
unfoldable pub node_topic : Bytes → Bytes → Parsed
node_topic node key =
    if is_empty node || is_empty key || bytes_eq node provision
    then ignored
    else if bytes_eq key (codes "status")
    then status node
    else reading node key

unfoldable pub namespace_topic : List Bytes → Parsed
unfolding node_topic
namespace_topic (node ∷ key ∷ []) = node_topic node key
namespace_topic (node ∷ sequence ∷ key ∷ []) =
    if bytes_eq sequence config then ignored else node_topic node key
namespace_topic _ = ignored

unfoldable pub discovery_topic : List Bytes → Parsed
discovery_topic (component ∷ node ∷ key ∷ ending ∷ []) =
    if bytes_eq component (codes "sensor") && bytes_eq ending config
    then discovery node key
    else ignored
discovery_topic _ = ignored

unfoldable pub classify_parts : Bytes → Bytes → List Bytes → Parsed
unfolding namespace_topic discovery_topic
classify_parts namespace prefix [] = ignored
classify_parts namespace prefix (first ∷ rest) =
    if bytes_eq first namespace
    then namespace_topic rest
    else if bytes_eq first prefix
    then discovery_topic rest
    else ignored

-- 47 is `/`.
unfoldable pub classify : Bytes → Bytes → Bytes → Parsed
unfolding classify_parts
classify namespace prefix topic = classify_parts namespace prefix (split 47 topic)
