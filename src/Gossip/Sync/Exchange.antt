-- ===== src/Gossip/Sync/Exchange.antt =====
-- What an exchange leaves at each key: the join with the peer's entry. Two nodes that exchange their
-- states agree.
use p2p_gossip_lb.Prelude.{
  ℕ, ◌≡◌, refl, sym, ap, ◌∙◌, Option, none, some, List, [], ◌∷◌, arith, if◌then◌else◌,
}
use p2p_gossip_lb.Prelude.Text.{Text, dec_text}
use p2p_gossip_lb.GoMap
use p2p_gossip_lb.GoMap.{GoMap, get-put, put-IsMap}
use p2p_gossip_lb.Crdt.Clock.{Entry}
use p2p_gossip_lb.Crdt.LwwMap
use p2p_gossip_lb.Crdt.LwwMap.{LwwMap, visible}
use p2p_gossip_lb.Crdt.LwwMap.Join.{join, Agree, join_comm}
use p2p_gossip_lb.Crdt.LwwMap.Merge.{get-merge}
use p2p_gossip_lb.Registry.Models.{BackendMeta, NodeAdvert}
use p2p_gossip_lb.Registry.Store.{Store, merge_backend_delta, merge_node_delta}
use p2p_gossip_lb.Gossip.Sync.{
  SyncEntry, received, to_sync_entries, from_sync_loop, from_sync_entries, merge_meta, merge_nodes,
  to_backend_sync_entries, from_backend_sync_entries, sync_with_peer,
}

module _ {V : Type 0} (zero_value : V) where
  -- an entry after its travel: a tombstone has lost its value
  abbrev pub travelled : Option (Entry V) → Option (Entry V)
  travelled none = none
  travelled (some e) = some (record e { value = if e.tombstone then zero_value else e.value })

  abbrev over : Option (Entry V) → Option (Entry V) → Option (Entry V)
  over out none = out
  over out (some e) = some e

  from_sync_loop-get :
      (out entries : GoMap Text (Entry V)) (k : Text)
      → GoMap.IsMap dec_text entries
      → GoMap.get dec_text k (from_sync_loop zero_value out (to_sync_entries zero_value entries))
        ≡ over (GoMap.get dec_text k out) (travelled (GoMap.get dec_text k entries))
  unfolding from_sync_loop to_sync_entries GoMap.get
  from_sync_loop-get out [] k h = refl
  from_sync_loop-get out ((id, e) ∷ rest) k h =
      let came : Entry V = record e {
        value = if e.tombstone then zero_value else if e.tombstone then zero_value else e.value;
      } in
      ground (
        arith,
        from_sync_loop-get (GoMap.put dec_text id came out) rest k h.1,
        get-put dec_text id k came out,
      )

  from_sync_loop-IsMap :
      (out : GoMap Text (Entry V)) (entries : List (SyncEntry V))
      → GoMap.IsMap dec_text out
      → GoMap.IsMap dec_text (from_sync_loop zero_value out entries)
  unfolding from_sync_loop
  from_sync_loop-IsMap out [] h = h
  from_sync_loop-IsMap out (e ∷ rest) h =
      from_sync_loop-IsMap (GoMap.put dec_text e.id (received zero_value e) out) rest
        (put-IsMap dec_text e.id (received zero_value e) out h)

  -- For entries in which no key stands twice, decoding what was encoded gives back every entry, but
  -- for the value of a tombstone.
  pub sync_entries_roundtrip :
      (entries : GoMap Text (Entry V)) (k : Text)
      → GoMap.IsMap dec_text entries
      → GoMap.get dec_text k (from_sync_entries zero_value (to_sync_entries zero_value entries))
        ≡ travelled (GoMap.get dec_text k entries)
  unfolding from_sync_entries GoMap.get
  sync_entries_roundtrip entries k h = ground (arith, from_sync_loop-get [] entries k h)

  from_sync_entries-IsMap :
      (entries : List (SyncEntry V)) → GoMap.IsMap dec_text (from_sync_entries zero_value entries)
  unfolding from_sync_entries
  from_sync_entries-IsMap entries = from_sync_loop-IsMap [] entries tt

module _ {Float : Type 0} (zero_meta : BackendMeta) (zero_advert : NodeAdvert) where
  merge_nodes-meta :
      (s : Store Float) (es : List (SyncEntry NodeAdvert)) (vv : GoMap Text ℕ)
      → (merge_nodes zero_meta zero_advert s es vv).meta ≡ s.meta
  unfolding merge_nodes merge_node_delta
  merge_nodes-meta s [] vv = refl
  merge_nodes-meta s (e ∷ es) vv = refl

  merge_meta-join :
      (s : Store Float) (entries : GoMap Text (Entry BackendMeta)) (vv : GoMap Text ℕ) (k : Text)
      → GoMap.IsMap dec_text entries
      → GoMap.get dec_text k
          (merge_meta zero_meta zero_advert s
            (to_backend_sync_entries zero_meta entries)
            vv).meta.items
        ≡ join
            (GoMap.get dec_text k s.meta.items)
            (travelled zero_meta (GoMap.get dec_text k entries))
  unfolding merge_meta merge_backend_delta to_backend_sync_entries from_backend_sync_entries join
  merge_meta-join s [] vv k h = unfold GoMap.get in refl
  merge_meta-join s (e ∷ rest) vv k h =
      get-merge dec_text s.meta _ k
        (from_sync_entries-IsMap zero_meta (to_sync_entries zero_meta (e ∷ rest)))
      ∙ ap (join (GoMap.get dec_text k s.meta.items))
          (sync_entries_roundtrip zero_meta (e ∷ rest) k h)

  -- After a sync, each backend has the join of the entry before and the peer's entry.
  sync_with_peer-join :
      (s peer : Store Float) (k : Text)
      → GoMap.IsMap dec_text peer.meta.items
      → GoMap.get dec_text k (sync_with_peer zero_meta zero_advert s peer).meta.items
        ≡ join
            (GoMap.get dec_text k s.meta.items)
            (travelled zero_meta (GoMap.get dec_text k peer.meta.items))
  unfolding sync_with_peer
  sync_with_peer-join s peer k h =
      ap (λ (m : LwwMap Text BackendMeta). GoMap.get dec_text k m.items) (merge_nodes-meta _ _ _)
      ∙ merge_meta-join s peer.meta.items peer.meta_vv.vv k h

  -- Two nodes that have synced with each other's earlier state show the same backends, if no key stands
  -- twice in a store, no clock stands for two different entries of a backend, and tombstones hold the
  -- zero value.
  pub mutual_sync_converges :
      (a b : Store Float)
      → GoMap.IsMap dec_text a.meta.items
      → GoMap.IsMap dec_text b.meta.items
      → ((k : Text)
          → travelled zero_meta (GoMap.get dec_text k a.meta.items)
            ≡ GoMap.get dec_text k a.meta.items)
      → ((k : Text)
          → travelled zero_meta (GoMap.get dec_text k b.meta.items)
            ≡ GoMap.get dec_text k b.meta.items)
      → ((k : Text) → Agree (GoMap.get dec_text k a.meta.items) (GoMap.get dec_text k b.meta.items))
      → (k : Text)
      → LwwMap.get dec_text (sync_with_peer zero_meta zero_advert a b).meta k
        ≡ LwwMap.get dec_text (sync_with_peer zero_meta zero_advert b a).meta k
  unfolding LwwMap.get
  mutual_sync_converges a b ha hb clean_a clean_b agree k = ap visible (
      sync_with_peer-join a b k hb
      ∙ ap (join (GoMap.get dec_text k a.meta.items)) (clean_b k)
      ∙ join_comm _ _ (agree k)
      ∙ sym (
          sync_with_peer-join b a k ha ∙ ap (join (GoMap.get dec_text k b.meta.items)) (clean_a k)))
