-- ===== src/Gossip/Topics.antt =====
-- pkg/gossip/service.go: what a node does with a message of a topic, and what it publishes.
pub mod Messages
use p2p_gossip_lb.Prelude.{ℕ, suc, ◌-◌, ◌^◌, Bool, true, false, Option, none, some, if◌then◌else◌}
use p2p_gossip_lb.Prelude.Int.{ℤ, pos, negsuc}
use p2p_gossip_lb.Prelude.Text.{Text, text_eq, codes}
use p2p_gossip_lb.Prelude.Time.{Time}
use p2p_gossip_lb.Registry.Models.{BackendMeta, BackendMetrics, NodeAdvert}
use p2p_gossip_lb.Registry.Encoding.{Crypto}
use p2p_gossip_lb.Registry.Store.{
  Store, apply_backend_meta, apply_backend_metrics, apply_node_advert,
}
use p2p_gossip_lb.Gossip.Envelope.{Envelope, EnvelopeError, Wire, verify_envelope, encode_envelope}

pub data Topic : Type 0 where
  backends_meta backends_metrics node_adverts : Topic

abbrev pub topic_name : Topic → Text
topic_name backends_meta = codes "mesh/v1/backends/meta"
topic_name backends_metrics = codes "mesh/v1/backends/metrics"
topic_name node_adverts = codes "mesh/v1/nodes/adverts"

-- CBOR decoding of the payloads, by a library
pub record Payloads (Float : Type 0) : Type 0 where
  pub decode_meta : Text → Option BackendMeta
  pub decode_metrics : Text → Option (BackendMetrics Float)
  pub decode_advert : Text → Option NodeAdvert
  pub encode_meta : BackendMeta → Option Text
  pub encode_metrics : BackendMetrics Float → Option Text
  pub encode_advert : NodeAdvert → Option Text

pub record Message : Type 0 where
  pub received_from : Text
  pub bytes : Text

pub data Verdict : Type 0 where
  decode_failed topic_mismatch : Verdict
  not_verified : EnvelopeError → Verdict
  handled : Verdict

module _ {Float : Type 0} (wire : Wire) (crypto : Crypto) (payloads : Payloads Float) where
  -- `handlePayload`; errors of the store are logged
  pub handle_payload : Store Float → Topic → Text → Time → Store Float
  handle_payload s backends_meta payload now = elim (payloads.decode_meta payload) [
    | none ↦ s
    | some meta ↦ (apply_backend_meta crypto s meta).0
  ]
  handle_payload s backends_metrics payload now = elim (payloads.decode_metrics payload) [
    | none ↦ s
    | some metrics ↦ apply_backend_metrics s metrics now
  ]
  handle_payload s node_adverts payload now = elim (payloads.decode_advert payload) [
    | none ↦ s
    | some advert ↦ (apply_node_advert crypto s advert).0
  ]

  consume_verified :
      Store Float → Topic → Envelope → Time → Option EnvelopeError → Store Float × Verdict
  consume_verified s topic env now (some e) = (s, not_verified e)
  consume_verified s topic env now none = (handle_payload s topic env.payload now, handled)

  consume_decoded : Store Float → Topic → Message → Time → Option Envelope → Store Float × Verdict
  unfolding consume_verified
  consume_decoded s topic msg now none = (s, decode_failed)
  consume_decoded s topic msg now (some env) =
      if text_eq env.topic (topic_name topic)
      then consume_verified s topic env now (verify_envelope wire msg.received_from env)
      else (s, topic_mismatch)

  -- one round of the loop of `consume`
  pub consume : Store Float → Topic → Message → Time → Store Float × Verdict
  unfolding consume_decoded
  consume s topic msg now = consume_decoded s topic msg now (wire.decode msg.bytes)

  validate_decoded : Topic → Message → Option Envelope → Bool
  validate_decoded topic msg none = false
  validate_decoded topic msg (some env) =
      if text_eq env.topic (topic_name topic)
      then elim (verify_envelope wire msg.received_from env) [ none ↦ true | some e ↦ false ]
      else false

  -- the validator that `registerValidators` gives to a topic
  pub validate : Topic → Message → Bool
  unfolding validate_decoded
  validate topic msg = validate_decoded topic msg (wire.decode msg.bytes)

  -- `Publish`: the bytes that go to the topic. Every topic of `Topic` was joined by `NewService`.
  unfoldable pub publish : Topic → Text → ℕ → wire.PrivateKey → ℤ → Option Text
  publish topic payload clock key now =
      encode_envelope wire (topic_name topic) payload clock key now

  -- `PublishBackendMeta`: the local store takes the announcement whatever becomes of the message.
  unfoldable publish_backend_meta :
      Store Float → BackendMeta → wire.PrivateKey → ℤ → Store Float × Option Text
  unfolding publish
  publish_backend_meta s meta key now = elim (payloads.encode_meta meta) [
    | none ↦ (s, none)
    | some buf ↦
        ((apply_backend_meta crypto s meta).0, publish backends_meta buf meta.clock key now)
  ]

  unfoldable publish_node_advert :
      Store Float → NodeAdvert → wire.PrivateKey → ℤ → Store Float × Option Text
  unfolding publish
  publish_node_advert s advert key now = elim (payloads.encode_advert advert) [
    | none ↦ (s, none)
    | some buf ↦
        ((apply_node_advert crypto s advert).0, publish node_adverts buf advert.clock key now)
  ]

  -- `uint64(metrics.AtUnix)`, the bit pattern of the `int64`
  abbrev to_uint64 : ℤ → ℕ
  to_uint64 (pos n) = n
  to_uint64 (negsuc n) = 2 ^ 64 - suc n

  unfoldable publish_backend_metrics :
      Store Float → BackendMetrics Float → wire.PrivateKey → ℤ → Time → Store Float × Option Text
  unfolding publish
  publish_backend_metrics s metrics key now received = elim (payloads.encode_metrics metrics) [
    | none ↦ (s, none)
    | some buf ↦ (
      apply_backend_metrics s metrics received,
      publish backends_metrics buf (to_uint64 metrics.at_unix) key now,
    )
  ]
