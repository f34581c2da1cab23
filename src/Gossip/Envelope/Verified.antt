-- ===== src/Gossip/Envelope/Verified.antt =====
-- An envelope that verifies was signed with the key of its sender, and what a node encodes verifies.
use p2p_gossip_lb.Prelude.{
  ℕ, ◌≡◌, ◌≢◌, ◌↔◌, inl, inr, refl, ap, true, Option, none, some, arith, Bool-cases,
}
use p2p_gossip_lb.Prelude.Int.{ℤ}
use p2p_gossip_lb.Prelude.Text.{Text, text_eq, text_eq_of_eq, text_eq_of_ne, eq_of_text_eq}
use p2p_gossip_lb.Gossip.Envelope.{
  Envelope, Wire, canonical_envelope, encode_envelope, verify_envelope, check_key, check_peer,
  check_signature, ◌>>=◌, peer_mismatch,
}

-- Inversion of a chain that gives a value.
>>=-eq-some {ℓ κ} :
    {A : Type ℓ} {B : Type κ} (o : Option A) (f : A → Option B) {b : B}
    → (o >>= f) ≡ some b
    → (a : A) × (o ≡ some a) × (f a ≡ some b)
>>=-eq-some none f h = cc
>>=-eq-some (some a) f h = (a, refl, h)

-- What the libraries document: a decoder undoes its encoder, a key is read back, and a signature of
-- a key verifies with its public key.
pub record IsSound (wire : Wire) : Type 0 where
  pub decode-marshal :
      (env : Envelope) (t : Text) → wire.marshal env ≡ some t → wire.decode t ≡ some env
  pub unmarshal-raw :
      (key : wire.PublicKey) (t : Text) → wire.raw key ≡ some t → wire.unmarshal t ≡ some key
  pub verify-sign :
      (key : wire.PrivateKey) (message sig : Text)
      → wire.sign key message ≡ some sig
      → wire.verify (wire.public_of key) message sig ≡ some true

module _ (wire : Wire) where
  -- The key in the envelope is that of the peer it came from, and the signature is one of the
  -- encoding of all the envelope's other fields.
  pub record SignedBy (from : Text) (env : Envelope) : Type 0 where
    pub key : wire.PublicKey
    pub message : Text
    pub key_read : wire.unmarshal env.pub_key ≡ some key
    pub sender : wire.peer_id key ≡ some from
    pub encoded :
        wire.marshal_signed (record {
          topic = env.topic;
          clock = env.clock;
          time = env.time;
          payload = env.payload;
          pub_key = env.pub_key;
        })
        ≡ some message
    pub signed : wire.verify key message env.signature ≡ some true

  check_signature_sound :
      (key : wire.PublicKey) (env : Envelope) (o : Option Text)
      → check_signature wire key env o ≡ none
      → (m : Text) × (o ≡ some m) × (wire.verify key m env.signature ≡ some true)
  unfolding check_signature
  check_signature_sound key env none h = cc
  check_signature_sound key env (some m) h = (m, refl, ground arith)

  check_peer_sound :
      (from : Text) (key : wire.PublicKey) (env : Envelope) (o : Option Text)
      → check_peer wire from key env o ≡ none
      → (o ≡ some from) × (check_signature wire key env (canonical_envelope wire env) ≡ none)
  unfolding check_peer
  check_peer_sound from key env none h = cc
  check_peer_sound from key env (some id) h = elim (Bool-cases (text_eq id from)) [
    | inl same ↦ (ap some (eq_of_text_eq id from same), rw same at h)
    | inr other ↦ absurd (cc (rw other at h))
  ]

  check_key_sound :
      (from : Text) (env : Envelope) (o : Option wire.PublicKey)
      → check_key wire from env o ≡ none
      → (key : wire.PublicKey) × (o ≡ some key)
        × (check_peer wire from key env (wire.peer_id key) ≡ none)
  unfolding check_key
  check_key_sound from env none h = cc
  check_key_sound from env (some key) h = (key, refl, h)

  pub verify_envelope_sound :
      (from : Text) (env : Envelope) → verify_envelope wire from env ≡ none → SignedBy from env
  unfolding verify_envelope canonical_envelope
  verify_envelope_sound from env h =
      let (key, read, peer) = check_key_sound from env (wire.unmarshal env.pub_key) h in
      let (sender, checked) = check_peer_sound from key env (wire.peer_id key) peer in
      let (m, encoded, signed) = check_signature_sound key env _ checked in
      record {
        key = key;
        message = m;
        key_read = read;
        sender = sender;
        encoded = encoded;
        signed = signed;
      }

  verify_envelope_complete :
      (from : Text) (env : Envelope) → SignedBy from env → verify_envelope wire from env ≡ none
  unfolding verify_envelope canonical_envelope
  verify_envelope_complete from env h = rw (
    h.key_read,
    check_key,
    h.sender,
    check_peer,
    text_eq_of_eq from from refl,
    h.encoded,
    check_signature,
    h.signed,
  )

  -- `verifyEnvelope` returns nil exactly for an envelope that carries the key of the peer it came
  -- from, and a signature with this key of the encoding of its topic, clock, time, payload and key.
  pub verify_envelope_iff :
      (from : Text) (env : Envelope) → (verify_envelope wire from env ≡ none) ↔ SignedBy from env
  verify_envelope_iff from env = (verify_envelope_sound from env, verify_envelope_complete from env)

  -- What `encodeEnvelope` makes decodes to an envelope of its arguments, which verifies as coming
  -- from the peer of its key.
  pub encode_envelope-verifies :
      (topic payload from bytes : Text) (clock : ℕ) (key : wire.PrivateKey) (now : ℤ)
      → IsSound wire
      → wire.peer_id (wire.public_of key) ≡ some from
      → encode_envelope wire topic payload clock key now ≡ some bytes
      → (env : Envelope) × (wire.decode bytes ≡ some env)
        × (env.topic ≡ topic)
        × (env.payload ≡ payload)
        × (env.clock ≡ clock)
        × (verify_envelope wire from env ≡ none)
  unfolding encode_envelope canonical_envelope
  encode_envelope-verifies topic payload from bytes clock key now sound id made =
      let (pub_bytes, public, signing) = >>=-eq-some (wire.raw (wire.public_of key)) _ made in
      let (to_sign, encoded, signed) = >>=-eq-some _ _ signing in
      let (sig, signature, marshalled) = >>=-eq-some (wire.sign key to_sign) _ signed in
      let env : Envelope = record {
        topic = topic;
        clock = clock;
        time = now;
        payload = payload;
        pub_key = pub_bytes;
        signature = sig;
      } in
      (
        env,
        sound.decode-marshal env bytes marshalled,
        refl,
        refl,
        refl,
        verify_envelope_complete from env (record {
          key = wire.public_of key;
          message = to_sign;
          key_read = sound.unmarshal-raw _ pub_bytes public;
          sender = id;
          encoded = encoded;
          signed = sound.verify-sign key to_sign sig signature;
        }),
      )

  -- The signature of one peer does not verify as another's.
  pub verify_envelope-mismatch :
      (author from : Text) (env : Envelope)
      → SignedBy author env
      → author ≢ from
      → verify_envelope wire from env ≡ some peer_mismatch
  unfolding verify_envelope
  verify_envelope-mismatch author from env h ne =
      rw (h.key_read, check_key, h.sender, check_peer, text_eq_of_ne author from ne) refl
