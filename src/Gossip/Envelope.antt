-- ===== src/Gossip/Envelope.antt =====
-- pkg/gossip/service.go: `envelope`, its encoding and its verification. libp2p's keys and the CBOR
-- encoder are libraries, hence parameters; an error of theirs is `none`.
pub mod Verified
use p2p_gossip_lb.Prelude.{ℕ, Bool, true, false, Option, none, some, List, []}
use p2p_gossip_lb.Prelude.Int.{ℤ}
use p2p_gossip_lb.Prelude.Text.{Text, text_eq}
use p2p_gossip_lb.Prelude.{if◌then◌else◌}

pub record Envelope : Type 0 where
  pub topic : Text
  pub clock : ℕ
  pub time : ℤ
  pub payload : Text
  pub pub_key : Text
  pub signature : Text

-- the local struct `signed` of `canonicalEnvelope`
pub record SignedEnvelope : Type 0 where
  pub topic : Text
  pub clock : ℕ
  pub time : ℤ
  pub payload : Text
  pub pub_key : Text

pub record Wire : Type 1 where
  pub PublicKey : Type 0
  pub PrivateKey : Type 0
  pub public_of : PrivateKey → PublicKey
  pub raw : PublicKey → Option Text
  pub unmarshal : Text → Option PublicKey
  pub peer_id : PublicKey → Option Text
  pub sign : PrivateKey → Text → Option Text
  pub verify : PublicKey → Text → Text → Option Bool
  pub marshal_signed : SignedEnvelope → Option Text
  pub marshal : Envelope → Option Text
  pub decode : Text → Option Envelope

pub data EnvelopeError : Type 0 where
  unmarshal_pubkey no_peer_id peer_mismatch not_encoded signature_invalid : EnvelopeError

infixl 5 ◌>>=◌
abbrev pub ◌>>=◌ {ℓ κ} : {A : Type ℓ} {B : Type κ} → Option A → (A → Option B) → Option B
none >>= f = none
some a >>= f = f a

module _ (wire : Wire) where
  unfoldable pub canonical_envelope : Envelope → Option Text
  canonical_envelope env = wire.marshal_signed (record {
    topic = env.topic;
    clock = env.clock;
    time = env.time;
    payload = env.payload;
    pub_key = env.pub_key;
  })

  -- `encodeEnvelope` at the Unix time `now`
  unfoldable pub encode_envelope : Text → Text → ℕ → wire.PrivateKey → ℤ → Option Text
  unfolding canonical_envelope
  encode_envelope topic payload clock key now = do
    pub_bytes ← wire.raw (wire.public_of key)
    let env : Envelope = record {
      topic = topic;
      clock = clock;
      time = now;
      payload = payload;
      pub_key = pub_bytes;
      signature = [];
    }
    to_sign ← canonical_envelope env
    sig ← wire.sign key to_sign
    wire.marshal (record env { signature = sig })

  check_signature : wire.PublicKey → Envelope → Option Text → Option EnvelopeError
  check_signature key env none = some not_encoded
  check_signature key env (some to_verify) = elim (wire.verify key to_verify env.signature) [
    | none ↦ some signature_invalid
    | some good ↦ if good then none else some signature_invalid
  ]

  check_peer : Text → wire.PublicKey → Envelope → Option Text → Option EnvelopeError
  unfolding check_signature canonical_envelope
  check_peer from key env none = some no_peer_id
  check_peer from key env (some id) =
      if text_eq id from
      then check_signature key env (canonical_envelope env)
      else some peer_mismatch

  check_key : Text → Envelope → Option wire.PublicKey → Option EnvelopeError
  unfolding check_peer
  check_key from env none = some unmarshal_pubkey
  check_key from env (some key) = check_peer from key env (wire.peer_id key)

  -- `verifyEnvelope`: `none` where it returns nil
  pub verify_envelope : Text → Envelope → Option EnvelopeError
  unfolding check_key
  verify_envelope from env = check_key from env (wire.unmarshal env.pub_key)
