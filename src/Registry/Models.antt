-- ===== src/Registry/Models.antt =====
-- pkg/registry/models.go. IDs, hosts and regions are Go strings; keys, signatures and `net.IP` are
-- byte slices. `float32` is a type that is given: the registry only carries such values.
use p2p_gossip_lb.Prelude.{ℕ, Bool, List}
use p2p_gossip_lb.Prelude.Int.{ℤ}
use p2p_gossip_lb.Prelude.Text.{Text}
use p2p_gossip_lb.GoMap.{GoMap}

pub record BackendMeta : Type 0 where
  pub id : Text
  pub host : Text
  pub ips : List Text
  pub country : Text
  pub region : Text
  pub chain_id : Text
  pub caps : GoMap Text Bool
  pub archival : Bool
  pub owner_pk : Text
  pub added_at : ℤ
  pub sig : Text
  pub clock : ℕ

pub record BackendMetrics (Float : Type 0) : Type 0 where
  pub id : Text
  pub at_unix : ℤ
  pub height : ℤ
  pub catching_up : Bool
  pub cpu : Float
  pub p95_ms : Float
  pub rps : Float
  pub fail_rate : Float
  pub rtt_ms : Float
  pub health : Text
  pub sig : Text

pub record NodeAdvert : Type 0 where
  pub id : Text
  pub ns_serving : Bool
  pub ips : List Text
  pub country : Text
  pub region : Text
  pub at_unix : ℤ
  pub pub_key : Text
  pub sig : Text
  pub clock : ℕ
