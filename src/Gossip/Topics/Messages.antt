-- ===== src/Gossip/Topics/Messages.antt =====
-- Which messages reach the store: the validator and the consumer agree, what is published is
-- accepted, and what is dropped changes nothing.
use p2p_gossip_lb.Prelude.{
  ℕ, ◌≡◌, ◌≢◌, ◌↔◌, ◌⊎◌, inl, inr, true, some, arith, Option-cases, Bool-cases,
}
use p2p_gossip_lb.Prelude.Int.{ℤ}
use p2p_gossip_lb.Prelude.Text.{Text, text_eq, text_eq_of_eq, eq_of_text_eq}
use p2p_gossip_lb.Prelude.Time.{Time}
use p2p_gossip_lb.Registry.Encoding.{Crypto}
use p2p_gossip_lb.Registry.Store.{Store, apply_backend_metrics}
use p2p_gossip_lb.Registry.Store.Signatures.{
  apply_node_advert-meta, Authentic, apply_backend_meta-Authentic,
}
use p2p_gossip_lb.Gossip.Envelope.{peer_mismatch, Envelope, Wire, verify_envelope}
use p2p_gossip_lb.Gossip.Envelope.Verified.{
  IsSound, SignedBy, verify_envelope_sound, encode_envelope-verifies, verify_envelope-mismatch,
}
use p2p_gossip_lb.Gossip.Topics.{
  Topic, topic_name, backends_meta, backends_metrics, node_adverts, Payloads, Message, not_verified,
  handled, handle_payload, consume, validate, publish,
}

module _ {Float : Type 0} (wire : Wire) (crypto : Crypto) (payloads : Payloads Float) where
  -- The validator lets a message pass exactly if the consumer handles it.
  pub validate_iff_handled :
      (s : Store Float) (topic : Topic) (msg : Message) (now : Time)
      → (validate wire crypto payloads topic msg ≡ true)
        ↔ ((consume wire crypto payloads s topic msg now).1 ≡ handled)
  unfolding validate consume
  validate_iff_handled s topic msg now = (λ h. ground (arith, h), λ h. ground (arith, h))

  -- A message is not handled, and changes nothing, or it is handled: then it names its topic, carries
  -- the key of the peer that it was received from, is signed with it, and its payload goes to the store.
  pub consume_cases :
      (s : Store Float) (topic : Topic) (msg : Message) (now : Time)
      → (((consume wire crypto payloads s topic msg now).0 ≡ s)
          × ((consume wire crypto payloads s topic msg now).1 ≢ handled))
        ⊎ ((env : Envelope) × (wire.decode msg.bytes ≡ some env)
            × (env.topic ≡ topic_name topic)
            × SignedBy wire msg.received_from env
            × (consume wire crypto payloads s topic msg now
                ≡ (handle_payload wire crypto payloads s topic env.payload now, handled)))
  unfolding consume
  consume_cases s topic msg now = elim (Option-cases (wire.decode msg.bytes)) [
    | inl e ↦ inl (ground (arith, e), λ x. ground (arith, e, x))
    | inr (env, e) ↦ elim (Bool-cases (text_eq env.topic (topic_name topic))) [
      | inr other ↦ inl (ground (arith, e, other), λ x. ground (arith, e, other, x))
      | inl same ↦ elim (Option-cases (verify_envelope wire msg.received_from env)) [
        | inr (x, bad) ↦ inl (ground (arith, e, same, bad), λ x. ground (arith, e, same, bad, x))
        | inl good ↦ inr (
          env,
          e,
          eq_of_text_eq _ _ same,
          verify_envelope_sound wire msg.received_from env good,
          ground (arith, e, same, good),
        )
      ]
    ]
  ]

  handle_payload-Authentic :
      (s : Store Float) (topic : Topic) (payload : Text) (now : Time)
      → Authentic crypto s
      → Authentic crypto (handle_payload wire crypto payloads s topic payload now)
  unfolding handle_payload
  handle_payload-Authentic s backends_meta payload now h =
      elim (Option-cases (payloads.decode_meta payload)) [
        | inl e ↦ rw (e, handle_payload) h
        | inr (meta, e) ↦ rw (e, handle_payload) (apply_backend_meta-Authentic crypto s meta h)
      ]
  handle_payload-Authentic s backends_metrics payload now h =
      elim (Option-cases (payloads.decode_metrics payload)) [
        | inl e ↦ rw (e, handle_payload) h
        | inr (metrics, e) ↦
            rw (e, handle_payload) (record { signed = unfold apply_backend_metrics in h.signed })
      ]
  handle_payload-Authentic s node_adverts payload now h =
      elim (Option-cases (payloads.decode_advert payload)) [
        | inl e ↦ rw (e, handle_payload) h
        | inr (advert, e) ↦
            rw (e, handle_payload)
              (record { signed = rw (apply_node_advert-meta crypto s advert) h.signed })
      ]

  -- No message, forged or not, makes a store show metadata that its owner did not sign, if it showed
  -- none before.
  pub consume-Authentic :
      (s : Store Float) (topic : Topic) (msg : Message) (now : Time)
      → Authentic crypto s
      → Authentic crypto (consume wire crypto payloads s topic msg now).0
  consume-Authentic s topic msg now h = elim (consume_cases s topic msg now) [
    | inl (same, _) ↦ rw same h
    | inr (env, _, _, _, e) ↦ rw e (handle_payload-Authentic s topic env.payload now h)
  ]

  -- What a node publishes, a node that receives it from that peer hands to its store, if the libraries
  -- are sound: decoding undoes encoding, and a signature verifies with its key.
  pub publish-handled :
      (s : Store Float) (topic : Topic) (payload from bytes : Text) (clock : ℕ)
      (key : wire.PrivateKey) (sent : ℤ) (now : Time)
      → IsSound wire
      → wire.peer_id (wire.public_of key) ≡ some from
      → publish wire crypto payloads topic payload clock key sent ≡ some bytes
      → consume wire crypto payloads s topic (record { received_from = from; bytes = bytes }) now
        ≡ (handle_payload wire crypto payloads s topic payload now, handled)
  unfolding publish consume
  publish-handled s topic payload from bytes clock key sent now sound id made =
      let (env, decoded, topic_same, payload_same, _, verified) =
        encode_envelope-verifies wire (topic_name topic) payload from bytes clock key sent sound id
          made in
      ground (
        arith,
        decoded,
        topic_same,
        payload_same,
        verified,
        text_eq_of_eq env.topic (topic_name topic) topic_same,
      )

  -- What a node publishes is dropped by a node that receives it from another peer than its author, if
  -- the libraries are sound: the key in the envelope is compared with the peer that handed it on.
  pub relayed-dropped :
      (s : Store Float) (topic : Topic) (payload author from bytes : Text) (clock : ℕ)
      (key : wire.PrivateKey) (sent : ℤ) (now : Time)
      → IsSound wire
      → wire.peer_id (wire.public_of key) ≡ some author
      → author ≢ from
      → publish wire crypto payloads topic payload clock key sent ≡ some bytes
      → consume wire crypto payloads s topic (record { received_from = from; bytes = bytes }) now
        ≡ (s, not_verified peer_mismatch)
  unfolding publish consume
  relayed-dropped s topic payload author from bytes clock key sent now sound id ne made =
      let (env, decoded, topic_same, _, _, verified) =
        encode_envelope-verifies wire (topic_name topic) payload author bytes clock key sent sound
          id made in
      let mismatch =
        verify_envelope-mismatch wire author from env
          (verify_envelope_sound wire author env verified) ne in
      ground (
        arith,
        decoded,
        topic_same,
        mismatch,
        text_eq_of_eq env.topic (topic_name topic) topic_same,
      )
