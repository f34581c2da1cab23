-- ===== src/Registry/Encoding.antt =====
-- pkg/registry/encoding.go: what is signed. The local struct `signed` of each function is a record;
-- the canonical CBOR encoder and Ed25519 are libraries, hence parameters.
use p2p_gossip_lb.Prelude.{ℕ, ◌≡◌, Bool, Option, some, List, arith}
use p2p_gossip_lb.Prelude.Int.{ℤ}
use p2p_gossip_lb.Prelude.Text.{Text}
use p2p_gossip_lb.GoMap.{GoMap}
use p2p_gossip_lb.Registry.Models.{BackendMeta, BackendMetrics, NodeAdvert}

pub record SignedMeta : Type 0 where
  pub id : Text
  pub host : Text
  pub ips : List Text
  pub country : Text
  pub region : Text
  pub chain_id : Text
  pub caps : GoMap Text Bool
  pub archival : Bool
  pub added_at : ℤ
  pub clock : ℕ
  pub owner_pk : Text

pub record SignedAdvert : Type 0 where
  pub id : Text
  pub ns_serving : Bool
  pub ips : List Text
  pub country : Text
  pub region : Text
  pub at_unix : ℤ
  pub clock : ℕ
  pub pub_key : Text

pub record SignedMetrics (Float : Type 0) : Type 0 where
  pub id : Text
  pub at_unix : ℤ
  pub height : ℤ
  pub catching_up : Bool
  pub cpu : Float
  pub p95_ms : Float
  pub rps : Float
  pub fail_rate : Float
  pub rtt_ms : Float
  pub health : Text

-- `none` is an encoder's error.
pub record Crypto : Type 0 where
  pub marshal_meta : SignedMeta → Option Text
  pub marshal_advert : SignedAdvert → Option Text
  pub verify : Text → Text → Text → Bool

unfoldable signed_meta : BackendMeta → SignedMeta
signed_meta meta = record {
  id = meta.id;
  host = meta.host;
  ips = meta.ips;
  country = meta.country;
  region = meta.region;
  chain_id = meta.chain_id;
  caps = meta.caps;
  archival = meta.archival;
  added_at = meta.added_at;
  clock = meta.clock;
  owner_pk = meta.owner_pk;
}

unfoldable signed_advert : NodeAdvert → SignedAdvert
signed_advert advert = record {
  id = advert.id;
  ns_serving = advert.ns_serving;
  ips = advert.ips;
  country = advert.country;
  region = advert.region;
  at_unix = advert.at_unix;
  clock = advert.clock;
  pub_key = advert.pub_key;
}

unfoldable canonical_backend_metrics :
    {Float : Type 0} → (SignedMetrics Float → Option Text) → BackendMetrics Float → Option Text
canonical_backend_metrics marshal metrics = marshal (record {
  id = metrics.id;
  at_unix = metrics.at_unix;
  height = metrics.height;
  catching_up = metrics.catching_up;
  cpu = metrics.cpu;
  p95_ms = metrics.p95_ms;
  rps = metrics.rps;
  fail_rate = metrics.fail_rate;
  rtt_ms = metrics.rtt_ms;
  health = metrics.health;
})

module _ (crypto : Crypto) where
  unfoldable pub canonical_backend_meta : BackendMeta → Option Text
  unfolding signed_meta
  canonical_backend_meta meta = crypto.marshal_meta (signed_meta meta)

  unfoldable pub canonical_node_advert : NodeAdvert → Option Text
  unfolding signed_advert
  canonical_node_advert advert = crypto.marshal_advert (signed_advert advert)

  -- The signed bytes bind every field but the signature: where the encoder gives different records
  -- different bytes, two metadata records with the same signed bytes differ in `Sig` at most.
  signed_bytes_bind :
      (a b : BackendMeta) (bytes : Text)
      → ((x y : SignedMeta) (t : Text)
          → crypto.marshal_meta x ≡ some t
          → crypto.marshal_meta y ≡ some t
          → x ≡ y)
      → canonical_backend_meta a ≡ some bytes
      → canonical_backend_meta b ≡ some bytes
      → a ≡ record b { sig = a.sig }
  unfolding canonical_backend_meta
  signed_bytes_bind a b bytes injective p q =
      let e = injective (signed_meta a) (signed_meta b) bytes p q in ground (arith, e)
