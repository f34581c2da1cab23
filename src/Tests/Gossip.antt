-- ===== src/Tests/Gossip.antt =====
-- A concrete wire format and keys, and runs of pkg/gossip/service.go with them.
use p2p_gossip_lb.Prelude.{
  ◌≢◌, ℕ, suc, zero, ◌≡◌, ◌⊎◌, ◌↔◌, refl, ap, sym, ◌∙◌, true, false, Option, none, some, [], ◌∷◌,
  ◌++◌, arith, ite,
}
use p2p_gossip_lb.Prelude.Int.{ℤ, pos, negsuc}
use p2p_gossip_lb.Prelude.Text.{Text, codes, dec_text, text_eq, text_eq_of_eq}
use p2p_gossip_lb.GoMap
use p2p_gossip_lb.Crdt.Clock.{Entry}
use p2p_gossip_lb.Crdt.LwwMap
use p2p_gossip_lb.Crdt.LwwMap.Join.{Agree}
use p2p_gossip_lb.Registry.Models.{BackendMeta, NodeAdvert}
use p2p_gossip_lb.Registry.Store.{Store}
use p2p_gossip_lb.Registry.Store.Signatures.{Authentic}
use p2p_gossip_lb.Gossip.Envelope.{
  peer_mismatch, Envelope, Wire, verify_envelope, canonical_envelope, encode_envelope,
}
use p2p_gossip_lb.Gossip.Envelope.Verified.{IsSound, SignedBy, verify_envelope_iff}
use p2p_gossip_lb.Gossip.Topics.{
  topic_name, backends_meta, Payloads, Message, not_verified, handled, handle_payload, consume,
  validate, publish,
}
use p2p_gossip_lb.Gossip.Topics.Messages.{
  relayed-dropped, validate_iff_handled, consume_cases, consume-Authentic, publish-handled,
}
use p2p_gossip_lb.Gossip.Sync.{sync_with_peer}
use p2p_gossip_lb.Gossip.Sync.Exchange.{travelled, mutual_sync_converges}
use p2p_gossip_lb.Tests.Registry.{
  toy_crypto, backend, good, forged, empty, empty-Authentic, measured,
}

-- a text that ends in 0, in front of the rest
abbrev put_text : Text → Text → Text
put_text [] rest = 0 ∷ rest
put_text (c ∷ cs) rest = suc c ∷ put_text cs rest

abbrev read_text : Text → Text × Text
read_text [] = ([], [])
read_text (zero ∷ rest) = ([], rest)
read_text (suc c ∷ rest) = let (cs, after) = read_text rest in (c ∷ cs, after)

read_text-put_text : (cs rest : Text) → read_text (put_text cs rest) ≡ (cs, rest)
read_text-put_text [] rest = refl
read_text-put_text (c ∷ cs) rest = rw (read_text-put_text cs rest) refl

abbrev put_int : ℤ → Text → Text
put_int (pos n) rest = 0 ∷ n ∷ rest
put_int (negsuc n) rest = 1 ∷ n ∷ rest

abbrev put_envelope : Envelope → Text
put_envelope env =
    env.clock
    ∷ put_int env.time (
        put_text env.topic
          (put_text env.payload (put_text env.pub_key (put_text env.signature []))))

abbrev read_fields : ℕ → ℤ → Text → Option Envelope
read_fields clock time t =
    let a = read_text t in
    let b = read_text a.1 in
    let c = read_text b.1 in
    let d = read_text c.1 in
    some (record {
      topic = a.0;
      clock = clock;
      time = time;
      payload = b.0;
      pub_key = c.0;
      signature = d.0;
    })

abbrev read_envelope : Text → Option Envelope
read_envelope (clock ∷ zero ∷ n ∷ rest) = read_fields clock (pos n) rest
read_envelope (clock ∷ suc k ∷ n ∷ rest) = read_fields clock (negsuc n) rest
read_envelope _ = none

read_fields-put :
    (clock : ℕ) (time : ℤ) (a b c d : Text)
    → read_fields clock time (put_text a (put_text b (put_text c (put_text d []))))
      ≡ some (record {
        topic = a;
        clock = clock;
        time = time;
        payload = b;
        pub_key = c;
        signature = d;
      })
read_fields-put clock time a b c d =
    rw
      (
        read_text-put_text a (put_text b (put_text c (put_text d []))),
        read_text-put_text b (put_text c (put_text d [])),
        read_text-put_text c (put_text d []),
        read_text-put_text d [],
      )
      refl

read_envelope-put_int :
    (env : Envelope) (time : ℤ) → env.time ≡ time → read_envelope (put_envelope env) ≡ some env
read_envelope-put_int env (pos n) e = rw e (
    read_fields-put env.clock (pos n) env.topic env.payload env.pub_key env.signature
    ∙ ap some (ground (arith, e)))
read_envelope-put_int env (negsuc n) e = rw e (
    read_fields-put env.clock (negsuc n) env.topic env.payload env.pub_key env.signature
    ∙ ap some (ground (arith, e)))

-- A key is a text, its own public half and peer ID. A signature is the key in front of the message.
abbrev toy_wire : Wire
toy_wire = record {
  PublicKey = Text;
  PrivateKey = Text;
  public_of = λ k. k;
  raw = λ k. some k;
  unmarshal = λ t. some t;
  peer_id = λ k. some k;
  sign = λ k message. some (k ++ message);
  verify = λ k message sig. some (text_eq sig (k ++ message));
  marshal_signed = λ s. some s.payload;
  marshal = λ env. some (put_envelope env);
  decode = read_envelope;
}

signature_ok :
    (k message sig : Text)
    → some (k ++ message) ≡ some sig
    → some (text_eq sig (k ++ message)) ≡ some true
signature_ok k message sig e = ap some (text_eq_of_eq sig (k ++ message) (cc))

toy_wire-IsSound : IsSound toy_wire
toy_wire-IsSound = record {
  decode-marshal = λ env t e.
      let same : put_envelope env ≡ t = cc in rw (← same) (read_envelope-put_int env env.time refl);
  unmarshal-raw = λ key t e. sym e;
  verify-sign = signature_ok;
}

abbrev toy_payloads : Payloads ℕ
toy_payloads = record {
  decode_meta = λ t. some (backend t t 3);
  decode_metrics = λ t. some measured;
  decode_advert = λ t. none;
  encode_meta = λ m. some m.id;
  encode_metrics = λ m. some m.id;
  encode_advert = λ a. some a.id;
}

abbrev letter : Envelope
letter = record {
  topic = topic_name backends_meta;
  clock = 3;
  time = pos 5;
  payload = codes "x";
  pub_key = codes "peer";
  signature = codes "peerx";
}

abbrev message : Message
message = record { received_from = codes "peer"; bytes = put_envelope letter }

verify_envelope_iff_example :
    (verify_envelope toy_wire (codes "peer") letter ≡ none)
    ↔ SignedBy toy_wire (codes "peer") letter
verify_envelope_iff_example = verify_envelope_iff toy_wire (codes "peer") letter

validate_iff_handled_example :
    (validate toy_wire toy_crypto toy_payloads backends_meta message ≡ true)
    ↔ ((consume toy_wire toy_crypto toy_payloads empty backends_meta message (pos 9)).1 ≡ handled)
validate_iff_handled_example =
    validate_iff_handled toy_wire toy_crypto toy_payloads empty backends_meta message (pos 9)

consume_cases_example :
    (((consume toy_wire toy_crypto toy_payloads empty backends_meta message (pos 9)).0 ≡ empty)
      × ((consume toy_wire toy_crypto toy_payloads empty backends_meta message (pos 9)).1
          ≢ handled))
    ⊎ ((env : Envelope) × (toy_wire.decode message.bytes ≡ some env)
        × (env.topic ≡ topic_name backends_meta)
        × SignedBy toy_wire (codes "peer") env
        × (consume toy_wire toy_crypto toy_payloads empty backends_meta message (pos 9) ≡ (
          handle_payload toy_wire toy_crypto toy_payloads empty backends_meta env.payload (pos 9),
          handled,
        )))
consume_cases_example =
    consume_cases toy_wire toy_crypto toy_payloads empty backends_meta message (pos 9)

consume-Authentic_example :
    Authentic toy_crypto
      (consume toy_wire toy_crypto toy_payloads empty backends_meta message (pos 9)).0
consume-Authentic_example =
    consume-Authentic toy_wire toy_crypto toy_payloads empty backends_meta message (pos 9)
      empty-Authentic

abbrev sent : Text
sent = put_envelope letter

published :
    publish toy_wire toy_crypto toy_payloads backends_meta (codes "x") 3 (codes "peer") (pos 5)
    ≡ some sent
unfolding publish encode_envelope canonical_envelope
published = refl

publish-handled_example :
    consume toy_wire toy_crypto toy_payloads empty backends_meta
      (record { received_from = codes "peer"; bytes = sent })
      (pos 9)
    ≡ (
      handle_payload toy_wire toy_crypto toy_payloads empty backends_meta (codes "x") (pos 9),
      handled,
    )
publish-handled_example =
    publish-handled toy_wire toy_crypto toy_payloads empty backends_meta (codes "x") (codes "peer")
      sent 3 (codes "peer") (pos 5) (pos 9) toy_wire-IsSound refl published

abbrev live : BackendMeta → ℕ → Entry BackendMeta
live meta lamport = record {
  value = meta;
  clock = record { lamport = lamport; unix_nano = pos 5 };
  tombstone = false;
}

abbrev knows : Entry BackendMeta → Store ℕ
knows e = record empty {
  meta = record { items = (codes "x", e) ∷ [] };
  meta_vv = record { vv = (codes "x", e.clock.lamport) ∷ [] };
}

abbrev no_meta : BackendMeta
no_meta = backend [] [] 0

abbrev no_advert : NodeAdvert
no_advert = record {
  id = [];
  ns_serving = false;
  ips = [];
  country = [];
  region = [];
  at_unix = pos 0;
  pub_key = [];
  sig = [];
  clock = 0;
}

knows-IsMap : (e : Entry BackendMeta) → GoMap.IsMap dec_text (knows e).meta.items
unfolding GoMap.get
knows-IsMap e = (refl, tt)

live_travels :
    (meta : BackendMeta) (n : ℕ) (k : Text)
    → travelled no_meta (GoMap.get dec_text k (knows (live meta n)).meta.items)
      ≡ GoMap.get dec_text k (knows (live meta n)).meta.items
unfolding GoMap.get
live_travels meta n k =
    elim (dec_text (codes "x") k)
      as (λ d.
        travelled no_meta (ite d (some (live meta n)) none) ≡ ite d (some (live meta n)) none) [
          | yes p ↦ refl
          | no p ↦ refl
        ]

live-Agree :
    (k : Text)
    → Agree
        (GoMap.get dec_text k (knows (live good 3)).meta.items)
        (GoMap.get dec_text k (knows (live forged 4)).meta.items)
unfolding GoMap.get
live-Agree k =
    elim (dec_text (codes "x") k)
      as (λ d. Agree (ite d (some (live good 3)) none) (ite d (some (live forged 4)) none)) [
        | yes p ↦ (λ same. absurd (cc))
        | no p ↦ tt
      ]

mutual_sync_converges_example :
    LwwMap.get dec_text
      (sync_with_peer no_meta no_advert (knows (live good 3)) (knows (live forged 4))).meta
      (codes "x")
    ≡ LwwMap.get dec_text
        (sync_with_peer no_meta no_advert (knows (live forged 4)) (knows (live good 3))).meta
        (codes "x")
mutual_sync_converges_example =
    mutual_sync_converges no_meta no_advert (knows (live good 3)) (knows (live forged 4))
      (knows-IsMap (live good 3)) (knows-IsMap (live forged 4)) (live_travels good 3)
      (live_travels forged 4) live-Agree (codes "x")

relayed-dropped_example :
    consume toy_wire toy_crypto toy_payloads empty backends_meta
      (record { received_from = codes "relay"; bytes = sent })
      (pos 9)
    ≡ (empty, not_verified peer_mismatch)
relayed-dropped_example =
    relayed-dropped toy_wire toy_crypto toy_payloads empty backends_meta (codes "x") (codes "peer")
      (codes "relay") sent 3 (codes "peer") (pos 5) (pos 9) toy_wire-IsSound refl (λ e. cc)
      published
