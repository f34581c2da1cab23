-- ===== src/Gossip/Sync.antt =====
-- pkg/gossip/service.go: the anti-entropy exchange. A node answers a request with its whole state;
-- the one that asked merges the answer. The stream and its CBOR encoding are not modelled: an
-- exchange that fails on the way merges nothing.
pub mod Exchange
use p2p_gossip_lb.Prelude.{ℕ, Bool, true, false, Option, none, some, List, [], ◌∷◌, if◌then◌else◌}
use p2p_gossip_lb.Prelude.Int.{ℤ}
use p2p_gossip_lb.Prelude.Text.{Text, dec_text}
use p2p_gossip_lb.GoMap
use p2p_gossip_lb.GoMap.{GoMap}
use p2p_gossip_lb.Crdt.Clock.{Clock, Entry}
use p2p_gossip_lb.Crdt.VersionVector
use p2p_gossip_lb.Registry.Models.{BackendMeta, NodeAdvert}
use p2p_gossip_lb.Registry.Store.{
  Store, backend_snapshot, node_snapshot, merge_backend_delta, merge_node_delta,
}

pub record SyncClock : Type 0 where
  pub lamport : ℕ
  pub unix_nano : ℤ

-- `backendSyncEntry` and `nodeSyncEntry`, by the type of what is announced
pub record SyncEntry (V : Type 0) : Type 0 where
  pub id : Text
  pub value : V
  pub clock : SyncClock
  pub tomb : Bool

pub record SyncRequest : Type 0 where
  pub meta_vv : GoMap Text ℕ
  pub node_vv : GoMap Text ℕ

pub record SyncResponse : Type 0 where
  pub meta_entries : List (SyncEntry BackendMeta)
  pub node_entries : List (SyncEntry NodeAdvert)
  pub meta_vv : GoMap Text ℕ
  pub node_vv : GoMap Text ℕ

-- The two pairs of functions are the same code at the two types. A tombstone travels without its
-- value: `zero_value` is the zero of the type.
module _ {V : Type 0} (zero_value : V) where
  pub to_sync_entries : GoMap Text (Entry V) → List (SyncEntry V)
  to_sync_entries [] = []
  to_sync_entries ((id, entry) ∷ rest) =
      record {
        id = id;
        value = if entry.tombstone then zero_value else entry.value;
        clock = record { lamport = entry.clock.lamport; unix_nano = entry.clock.unix_nano };
        tomb = entry.tombstone;
      }
      ∷ to_sync_entries rest

  abbrev pub received : SyncEntry V → Entry V
  received entry = record {
    value = if entry.tomb then zero_value else entry.value;
    clock = record { lamport = entry.clock.lamport; unix_nano = entry.clock.unix_nano };
    tombstone = entry.tomb;
  }

  -- the loop that fills the map `out`
  pub from_sync_loop : GoMap Text (Entry V) → List (SyncEntry V) → GoMap Text (Entry V)
  from_sync_loop out [] = out
  from_sync_loop out (entry ∷ rest) =
      from_sync_loop (GoMap.put dec_text entry.id (received entry) out) rest

  pub from_sync_entries : List (SyncEntry V) → GoMap Text (Entry V)
  unfolding from_sync_loop
  from_sync_entries entries = from_sync_loop [] entries

pub to_backend_sync_entries :
    BackendMeta → GoMap Text (Entry BackendMeta) → List (SyncEntry BackendMeta)
unfolding to_sync_entries
to_backend_sync_entries zero_meta entries = to_sync_entries zero_meta entries

unfoldable to_node_sync_entries :
    NodeAdvert → GoMap Text (Entry NodeAdvert) → List (SyncEntry NodeAdvert)
unfolding to_sync_entries
to_node_sync_entries zero_advert entries = to_sync_entries zero_advert entries

pub from_backend_sync_entries :
    BackendMeta → List (SyncEntry BackendMeta) → GoMap Text (Entry BackendMeta)
unfolding from_sync_entries
from_backend_sync_entries zero_meta entries = from_sync_entries zero_meta entries

unfoldable from_node_sync_entries :
    NodeAdvert → List (SyncEntry NodeAdvert) → GoMap Text (Entry NodeAdvert)
unfolding from_sync_entries
from_node_sync_entries zero_advert entries = from_sync_entries zero_advert entries

module _ {Float : Type 0} (zero_meta : BackendMeta) (zero_advert : NodeAdvert) where
  -- `handleSyncStream`: the request is read, and its version vectors are not looked at
  unfoldable handle_sync_stream : Store Float → SyncRequest → SyncResponse
  handle_sync_stream s req =
      let (meta, meta_vv) = backend_snapshot s in
      let (nodes, node_vv) = node_snapshot s in
      record {
        meta_entries = to_backend_sync_entries zero_meta meta;
        node_entries = to_node_sync_entries zero_advert nodes;
        meta_vv = meta_vv;
        node_vv = node_vv;
      }

  merge_meta : Store Float → List (SyncEntry BackendMeta) → GoMap Text ℕ → Store Float
  merge_meta s [] vv = s
  merge_meta s (e ∷ es) vv = merge_backend_delta s (from_backend_sync_entries zero_meta (e ∷ es)) vv

  merge_nodes : Store Float → List (SyncEntry NodeAdvert) → GoMap Text ℕ → Store Float
  merge_nodes s [] vv = s
  merge_nodes s (e ∷ es) vv = merge_node_delta s (from_node_sync_entries zero_advert (e ∷ es)) vv

  unfoldable merge_sync_response : Store Float → SyncResponse → Store Float
  unfolding merge_meta merge_nodes
  merge_sync_response s resp =
      merge_nodes (merge_meta s resp.meta_entries resp.meta_vv) resp.node_entries resp.node_vv

  -- `syncWithPeer`, where the peer's store does not change on the way
  pub sync_with_peer : Store Float → Store Float → Store Float
  unfolding handle_sync_stream merge_sync_response
  sync_with_peer s peer = merge_sync_response s (
      handle_sync_stream peer (record {
        meta_vv = VersionVector.snapshot s.meta_vv;
        node_vv = VersionVector.snapshot s.node_vv;
      }))
