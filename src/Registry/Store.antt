-- ===== src/Registry/Store.antt =====
-- pkg/registry/store.go: `Store`. A method takes each map's lock in turn; the model runs a method
-- as one step, with the clock's value as an argument.
pub mod Signatures
pub mod Versions
pub mod Metrics
use p2p_gossip_lb.Prelude.{
  ℕ, Bool, true, false, Option, none, some, List, [], ◌∷◌, map, length, ◌==◌, if◌then◌else◌, keep,
  not,
}
use p2p_gossip_lb.Prelude.Int.{ℤ, pos, ltb_ℤ, leb_ℤ, ◌*ℤ◌, ◌-ℤ◌, int64}
use p2p_gossip_lb.Prelude.Text.{Text, dec_text}
use p2p_gossip_lb.Prelude.Time.{Time, Duration, seconds, sub}
use p2p_gossip_lb.GoMap
use p2p_gossip_lb.GoMap.{GoMap}
use p2p_gossip_lb.Crdt.Clock.{Clock, Entry}
use p2p_gossip_lb.Crdt.LwwMap
use p2p_gossip_lb.Crdt.LwwMap.{LwwMap, new_lww_map}
use p2p_gossip_lb.Crdt.VersionVector
use p2p_gossip_lb.Crdt.VersionVector.{VersionVector, new_version_vector, bump}
use p2p_gossip_lb.Registry.Models.{BackendMeta, BackendMetrics, NodeAdvert}
use p2p_gossip_lb.Registry.Encoding.{Crypto, canonical_backend_meta, canonical_node_advert}

pub data Error : Type 0 where
  invalid_signature missing_owner_key missing_node_key encoding : Error

pub data Result (A : Type 0) : Type 0 where
  ok : A → Result A
  err : Error → Result A

pub record TimedMetric (Float : Type 0) : Type 0 where
  pub value : BackendMetrics Float
  pub received_at : Time

pub record Store (Float : Type 0) : Type 0 where
  pub meta : LwwMap Text BackendMeta
  pub meta_vv : VersionVector
  pub nodes : LwwMap Text NodeAdvert
  pub node_vv : VersionVector
  pub metrics : GoMap Text (TimedMetric Float)
  pub metrics_ttl : Duration

unfoldable new_store : {Float : Type 0} → Duration → Store Float
new_store ttl = record {
  meta = new_lww_map;
  meta_vv = new_version_vector;
  nodes = new_lww_map;
  node_vv = new_version_vector;
  metrics = [];
  metrics_ttl = if leb_ℤ ttl (pos 0) then seconds 10 else ttl;
}

-- `crdt.Clock{Lamport: clock, UnixNano: at * int64(time.Second)}`
abbrev pub clock_of : ℕ → ℤ → Clock
clock_of lamport at = record { lamport = lamport; unix_nano = int64 (at *ℤ seconds 1) }

-- the loop `for node, counter := range vv { s.metaVV.Bump(node, counter) }`
pub bump_all : VersionVector → GoMap Text ℕ → VersionVector
bump_all v [] = v
bump_all v ((node, counter) ∷ rest) = bump_all (bump v node counter) rest

module _ {Float : Type 0} where
  pub admit_meta :
      Store Float → BackendMeta → LwwMap Text BackendMeta × Bool → Store Float × Result Bool
  admit_meta s meta (m, true) =
      (record s { meta = m; meta_vv = bump s.meta_vv meta.id meta.clock }, ok true)
  admit_meta s meta (m, false) = (record s { meta = m }, ok false)

  check_meta : Crypto → Store Float → BackendMeta → Option Text → Store Float × Result Bool
  unfolding admit_meta
  check_meta crypto s meta none = (s, err encoding)
  check_meta crypto s meta (some encoded) =
      if crypto.verify meta.owner_pk encoded meta.sig
      then admit_meta s meta
          (LwwMap.upsert dec_text s.meta meta.id meta (clock_of meta.clock meta.added_at))
      else (s, err invalid_signature)

  pub apply_backend_meta : Crypto → Store Float → BackendMeta → Store Float × Result Bool
  unfolding check_meta
  apply_backend_meta crypto s meta =
      if length meta.owner_pk == 32
      then check_meta crypto s meta (canonical_backend_meta crypto meta)
      else (s, err missing_owner_key)

  admit_advert :
      Store Float → NodeAdvert → LwwMap Text NodeAdvert × Bool → Store Float × Result Bool
  admit_advert s advert (m, true) =
      (record s { nodes = m; node_vv = bump s.node_vv advert.id advert.clock }, ok true)
  admit_advert s advert (m, false) = (record s { nodes = m }, ok false)

  check_advert : Crypto → Store Float → NodeAdvert → Option Text → Store Float × Result Bool
  unfolding admit_advert
  check_advert crypto s advert none = (s, err encoding)
  check_advert crypto s advert (some encoded) =
      if crypto.verify advert.pub_key encoded advert.sig
      then admit_advert s advert
          (LwwMap.upsert dec_text s.nodes advert.id advert (clock_of advert.clock advert.at_unix))
      else (s, err invalid_signature)

  pub apply_node_advert : Crypto → Store Float → NodeAdvert → Store Float × Result Bool
  unfolding check_advert
  apply_node_advert crypto s advert =
      if length advert.pub_key == 32
      then check_advert crypto s advert (canonical_node_advert crypto advert)
      else (s, err missing_node_key)

  unfoldable pub apply_backend_metrics : Store Float → BackendMetrics Float → Time → Store Float
  apply_backend_metrics s m now = record s {
    metrics = GoMap.put dec_text m.id (record { value = m; received_at = now }) s.metrics;
  }

  -- `time.Since(metric.receivedAt) > s.metricsTTL`
  abbrev pub is_stale : Duration → Time → TimedMetric Float → Bool
  is_stale ttl now metric = ltb_ℤ ttl (sub now metric.received_at)

  -- `Prune` at the time `now`; `now_nano` is the clock that the two calls of `Cleanup` read.
  pub prune : Store Float → Time → ℤ → Store Float
  prune s now now_nano = record s {
    metrics = keep (λ e. not (is_stale s.metrics_ttl now e.1)) s.metrics;
    meta = (LwwMap.cleanup dec_text now_nano s.meta s.metrics_ttl).0;
    nodes = (LwwMap.cleanup dec_text now_nano s.nodes s.metrics_ttl).0;
  }

  -- the snapshots copy the maps
  abbrev pub backend_snapshot : Store Float → GoMap Text (Entry BackendMeta) × GoMap Text ℕ
  backend_snapshot s = (LwwMap.snapshot s.meta, VersionVector.snapshot s.meta_vv)

  abbrev pub node_snapshot : Store Float → GoMap Text (Entry NodeAdvert) × GoMap Text ℕ
  node_snapshot s = (LwwMap.snapshot s.nodes, VersionVector.snapshot s.node_vv)

  unfoldable pub merge_backend_delta :
      Store Float → GoMap Text (Entry BackendMeta) → GoMap Text ℕ → Store Float
  merge_backend_delta s entries vv =
      let (m, changed) = LwwMap.merge dec_text s.meta entries in
      record s { meta = m; meta_vv = if changed then bump_all s.meta_vv vv else s.meta_vv }

  unfoldable pub merge_node_delta :
      Store Float → GoMap Text (Entry NodeAdvert) → GoMap Text ℕ → Store Float
  merge_node_delta s entries vv =
      let (m, changed) = LwwMap.merge dec_text s.nodes entries in
      record s { nodes = m; node_vv = if changed then bump_all s.node_vv vv else s.node_vv }

  unfoldable pub latest_metrics : Store Float → GoMap Text (BackendMetrics Float)
  latest_metrics s = map (λ e. (e.0, e.1.value)) s.metrics
