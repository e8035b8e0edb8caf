-- ===== src/Archive/Topics/Named.antt =====
-- Which topics are readings (timeseries/src/mqtt.rs).
use rs_smarthome_nodes.Base.{
  ◌≡◌, ap, ap₂, ◌≢◌, ◌↔◌, refl, Bool, true, false, List, [], ◌∷◌, arith, if◌then◌else◌,
}
use rs_smarthome_nodes.Base.Bytes.{Bytes}
use rs_smarthome_nodes.Base.Text.{codes, bytes_eq, bytes_eq→eq, bytes_eq_refl, split}
use rs_smarthome_nodes.Archive.Topics.{
  Parsed, reading, ignored, classify, classify_parts, namespace_topic, discovery_topic, node_topic,
  config, provision, is_empty,
}

abbrev pub Named : Bytes → Bytes → Type 0
Named node sensor = (node ≢ []) × (sensor ≢ []) × (node ≢ provision) × (sensor ≢ codes "status")

-- The levels of a topic of the sensor's readings.
abbrev pub IsReadingTopic : Bytes → Bytes → Bytes → List Bytes → Type 0
IsReadingTopic namespace node sensor (a ∷ b ∷ c ∷ []) =
    (a ≡ namespace) × (b ≡ node) × (c ≡ sensor) × Named b c
IsReadingTopic namespace node sensor (a ∷ b ∷ sequence ∷ c ∷ []) =
    (a ≡ namespace) × (b ≡ node) × (sequence ≢ config) × (c ≡ sensor) × Named b c
IsReadingTopic namespace node sensor _ = ⊥

-- Each test that the code makes, as the equation that it stands for.
is_empty-nil : (a : Bytes) → is_empty a ≡ true → a ≡ []
is_empty-nil [] h = refl
is_empty-nil (x ∷ a) h = cc

ne→bytes_eq : (a b : Bytes) → a ≢ b → bytes_eq a b ≡ false
ne→bytes_eq a b h = ground (arith, bytes_eq→eq a b)

bytes_eq→ne : (a b : Bytes) → bytes_eq a b ≡ false → a ≢ b
bytes_eq→ne a b h e = cc (h, bytes_eq_refl a, ap (bytes_eq a) e)

ne→is_empty : (a : Bytes) → a ≢ [] → is_empty a ≡ false
ne→is_empty [] h = absurd (h refl)
ne→is_empty (x ∷ a) h = refl

is_empty→ne : (a : Bytes) → is_empty a ≡ false → a ≢ []
is_empty→ne a h e = cc (h, ap is_empty e)

node_topic-Named :
    (b c : Bytes) {node sensor : Bytes}
    → node_topic b c ≡ reading node sensor
    → (b ≡ node) × (c ≡ sensor) × Named b c
unfolding node_topic
node_topic-Named b c e =
    ground
      (arith, is_empty→ne b, is_empty→ne c, bytes_eq→ne b provision, bytes_eq→ne c (codes "status"))

Named-node_topic :
    (b c : Bytes) {node sensor : Bytes}
    → (b ≡ node) × (c ≡ sensor) × Named b c
    → node_topic b c ≡ reading node sensor
unfolding node_topic
Named-node_topic b c (p, q, (full_b, full_c, other_b, other_c)) =
    rw
      (
        ne→is_empty b full_b,
        ne→is_empty c full_c,
        ne→bytes_eq b provision other_b,
        ne→bytes_eq c (codes "status") other_c,
      )
      (ap₂ reading p q)

other_sequence :
    (knob : Bool) (p : Parsed) {node sensor : Bytes}
    → (if knob then ignored else p) ≡ reading node sensor
    → (knob ≡ false) × (p ≡ reading node sensor)
other_sequence knob p e = ground arith

own_branch :
    (own theirs : Bool) (p q : Parsed) {node sensor : Bytes}
    → (if own then p else if theirs then q else ignored) ≡ reading node sensor
    → q ≢ reading node sensor
    → (own ≡ true) × (p ≡ reading node sensor)
own_branch own theirs p q e h = ground arith

module _ (namespace prefix node sensor : Bytes) where
  namespace_topic-named :
      (a : Bytes) (rest : List Bytes)
      → a ≡ namespace
      → namespace_topic rest ≡ reading node sensor
      → IsReadingTopic namespace node sensor (a ∷ rest)
  unfolding namespace_topic
  namespace_topic-named a (b ∷ c ∷ []) h e =
      let (p, q, named) = node_topic-Named b c e in (h, p, q, named)
  namespace_topic-named a (b ∷ sequence ∷ c ∷ []) h e =
      let (other, named) = other_sequence (bytes_eq sequence config) (node_topic b c) e in
      let (p, q, n) = node_topic-Named b c named in (h, p, bytes_eq→ne sequence config other, q, n)
  namespace_topic-named a [] h e = cc
  namespace_topic-named a (b ∷ []) h e = cc
  namespace_topic-named a (b ∷ c ∷ d ∷ x ∷ r) h e = cc

  discovery_topic-ne-reading : (rest : List Bytes) → discovery_topic rest ≢ reading node sensor
  unfolding discovery_topic
  discovery_topic-ne-reading (a ∷ b ∷ c ∷ d ∷ []) e = ground arith
  discovery_topic-ne-reading [] e = cc
  discovery_topic-ne-reading (a ∷ []) e = cc
  discovery_topic-ne-reading (a ∷ b ∷ []) e = cc
  discovery_topic-ne-reading (a ∷ b ∷ c ∷ []) e = cc
  discovery_topic-ne-reading (a ∷ b ∷ c ∷ d ∷ x ∷ r) e = cc

  classify_parts-named :
      (parts : List Bytes)
      → classify_parts namespace prefix parts ≡ reading node sensor
      → IsReadingTopic namespace node sensor parts
  unfolding classify_parts
  classify_parts-named [] e = cc
  classify_parts-named (a ∷ rest) e =
      let (own, named) =
        own_branch (bytes_eq a namespace) (bytes_eq a prefix) (namespace_topic rest)
          (discovery_topic rest) e (discovery_topic-ne-reading rest) in
      namespace_topic-named a rest (bytes_eq→eq a namespace own) named

  named-classify_parts :
      (parts : List Bytes)
      → IsReadingTopic namespace node sensor parts
      → classify_parts namespace prefix parts ≡ reading node sensor
  unfolding classify_parts namespace_topic
  named-classify_parts (a ∷ b ∷ c ∷ []) (h, p, q, named) =
      rw (h, bytes_eq_refl namespace) (Named-node_topic b c (p, q, named))
  named-classify_parts (a ∷ b ∷ sequence ∷ c ∷ []) (h, p, k, q, named) =
      rw (h, bytes_eq_refl namespace, ne→bytes_eq sequence config k)
        (Named-node_topic b c (p, q, named))
  named-classify_parts [] h = absurd h
  named-classify_parts (a ∷ []) h = absurd h
  named-classify_parts (a ∷ b ∷ []) h = absurd h
  named-classify_parts (a ∷ b ∷ c ∷ d ∷ e ∷ r) h = absurd h

  -- A topic is a reading exactly if it is `<namespace>/<node>/<sensor>`, or with one level more
  -- before the sensor that is not `config`, where node and sensor are not empty, the node is not
  -- `provision` and the sensor not `status`.
  pub classify-reading_iff :
      (topic : Bytes)
      → (classify namespace prefix topic ≡ reading node sensor)
        ↔ IsReadingTopic namespace node sensor (split 47 topic)
  unfolding classify
  classify-reading_iff topic =
      (classify_parts-named (split 47 topic), named-classify_parts (split 47 topic))
