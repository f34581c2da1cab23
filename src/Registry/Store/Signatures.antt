-- ===== src/Registry/Store/Signatures.antt =====
-- Which announcements reach the store: those that their owner has signed, by way of
-- `ApplyBackendMeta`; anything at all, by way of `MergeBackendDelta`.
use p2p_gossip_lb.Prelude.{
  ℕ, ◌≡◌, ◌⊎◌, inl, inr, refl, Bool, true, false, Option, none, some, arith, ite, length, ◌==◌,
  if◌then◌else◌, Bool-cases,
}
use p2p_gossip_lb.Prelude.Text.{Text, dec_text}
use p2p_gossip_lb.GoMap
use p2p_gossip_lb.GoMap.{GoMap, get-put}
use p2p_gossip_lb.Crdt.Clock.{Entry}
use p2p_gossip_lb.Crdt.LwwMap
use p2p_gossip_lb.Crdt.LwwMap.{LwwMap, upsert, accepts}
use p2p_gossip_lb.Crdt.LwwMap.Join.{join}
use p2p_gossip_lb.Crdt.LwwMap.Merge.{get-merge}
use p2p_gossip_lb.Crdt.LwwMap.Methods.{get-upsert, upsert_reports}
use p2p_gossip_lb.Registry.Models.{BackendMeta, NodeAdvert}
use p2p_gossip_lb.Registry.Encoding.{Crypto, canonical_backend_meta}
use p2p_gossip_lb.Registry.Store.{
  Store, Error, Result, encoding, invalid_signature, missing_owner_key, admit_meta, check_meta, ok,
  err, apply_backend_meta, apply_node_advert, merge_backend_delta, clock_of,
}

-- The owner's key has the length of an Ed25519 key, and the signature is one of the signed bytes.
abbrev pub IsSigned : Crypto → BackendMeta → Type 0
IsSigned crypto meta =
    (length meta.owner_pk ≡ 32)
    × ((encoded : Text) × (canonical_backend_meta crypto meta ≡ some encoded)
        × (crypto.verify meta.owner_pk encoded meta.sig ≡ true))

module _ {Float : Type 0} (crypto : Crypto) where
  -- What a step leaves: the error and the old store, or a signed announcement.
  abbrev pub Checked : Store Float → BackendMeta → Store Float × Result Bool → Type 0
  Checked s meta r =
      (((x : Error) × (r.1 ≡ err x)) × (r.0 ≡ s))
      ⊎ (((b : Bool) × (r.1 ≡ ok b)) × IsSigned crypto meta)

  admit_meta-ok :
      (s : Store Float) (meta : BackendMeta) (p : LwwMap Text BackendMeta × Bool)
      → (admit_meta s meta p).1 ≡ ok p.1
  unfolding admit_meta
  admit_meta-ok s meta (m, true) = refl
  admit_meta-ok s meta (m, false) = refl

  check_meta_cases :
      (s : Store Float) (meta : BackendMeta) (o : Option Text)
      → length meta.owner_pk ≡ 32
      → canonical_backend_meta crypto meta ≡ o
      → Checked s meta (check_meta crypto s meta o)
  unfolding check_meta
  check_meta_cases s meta none long e = inl ((encoding, refl), refl)
  check_meta_cases s meta (some encoded) long e =
      elim (Bool-cases (crypto.verify meta.owner_pk encoded meta.sig)) [
        | inl good ↦ rw good (
            inr (
              (
                _,
                admit_meta-ok s meta
                    (upsert dec_text s.meta meta.id meta (clock_of meta.clock meta.added_at)),
              ),
              (long, (encoded, e, good)),
            ))
        | inr bad ↦ rw bad (inl ((invalid_signature, refl), refl))
      ]

  -- A call that returns an error has changed nothing; one that returns none was given signed
  -- metadata.
  pub apply_backend_meta_cases :
      (s : Store Float) (meta : BackendMeta) → Checked s meta (apply_backend_meta crypto s meta)
  unfolding apply_backend_meta
  apply_backend_meta_cases s meta = elim (Bool-cases (length meta.owner_pk == 32)) [
    | inl long ↦ rw long (check_meta_cases s meta _ (ground (arith, long)) refl)
    | inr short ↦ rw short (inl ((missing_owner_key, refl), refl))
  ]

  pub signed_meta_admitted :
      (s : Store Float) (meta : BackendMeta)
      → IsSigned crypto meta
      → apply_backend_meta crypto s meta
        ≡ admit_meta s meta
            (upsert dec_text s.meta meta.id meta (clock_of meta.clock meta.added_at))
  unfolding apply_backend_meta
  signed_meta_admitted s meta (long, (encoded, e, good)) = rw (long, e, check_meta, good)

  admit_meta-meta :
      (s : Store Float) (meta : BackendMeta) (p : LwwMap Text BackendMeta × Bool)
      → (admit_meta s meta p).0.meta ≡ p.0
  unfolding admit_meta
  admit_meta-meta s meta (m, true) = refl
  admit_meta-meta s meta (m, false) = refl

  -- Whether the announcement's clock dominates the entry of its ID.
  abbrev pub takes : Store Float → BackendMeta → Bool
  takes s meta =
      accepts (clock_of meta.clock meta.added_at) (GoMap.get dec_text meta.id s.meta.items)

  -- Signed metadata is never refused. The call reports whether its clock dominates the entry of its
  -- ID, and exactly then `Get` shows it there; the other IDs are as before.
  pub signed_meta_applied :
      (s : Store Float) (meta : BackendMeta) (k : Text)
      → IsSigned crypto meta
      → ((apply_backend_meta crypto s meta).1 ≡ ok (takes s meta))
        × (LwwMap.get dec_text (apply_backend_meta crypto s meta).0.meta k ≡ (
            if takes s meta
            then ite (dec_text meta.id k) (some meta) (LwwMap.get dec_text s.meta k)
            else LwwMap.get dec_text s.meta k))
  signed_meta_applied s meta k h =
      let c = clock_of meta.clock meta.added_at in
      rw (signed_meta_admitted s meta h) (
        rw (admit_meta-ok, upsert_reports),
        rw admit_meta-meta (get-upsert dec_text s.meta meta.id k meta c),
      )

  -- Every entry that `Get` would show was signed by its owner.
  pub record Authentic (s : Store Float) : Type 0 where
    pub signed :
        (k : Text) (meta : BackendMeta)
        → LwwMap.get dec_text s.meta k ≡ some meta
        → IsSigned crypto meta

  -- `ApplyBackendMeta` keeps a store authentic, whatever announcement it is given.
  pub apply_backend_meta-Authentic :
      (s : Store Float) (meta : BackendMeta)
      → Authentic s
      → Authentic (apply_backend_meta crypto s meta).0
  apply_backend_meta-Authentic s meta h = elim (apply_backend_meta_cases s meta) [
    | inl (_, same) ↦ rw same h
    | inr (_, good) ↦ record {
      signed = λ k m shown. ground (arith, (signed_meta_applied s meta k good).1, h.signed k m);
    }
  ]

  -- A node advert does not touch the backends.
  pub apply_node_advert-meta :
      (s : Store Float) (advert : NodeAdvert) → (apply_node_advert crypto s advert).0.meta ≡ s.meta
  unfolding apply_node_advert
  apply_node_advert-meta s advert = ground arith

  -- `MergeBackendDelta` verifies nothing: an entry that is not a tombstone, for an ID that the store
  -- does not hold, is shown afterwards whether or not its owner signed it (in the delta no key stands
  -- twice).
  pub merged_meta_unverified :
      (s : Store Float) (entries : GoMap Text (Entry BackendMeta)) (vv : GoMap Text ℕ) (k : Text)
      (e : Entry BackendMeta)
      → GoMap.IsMap dec_text entries
      → GoMap.get dec_text k entries ≡ some e
      → GoMap.get dec_text k s.meta.items ≡ none
      → e.tombstone ≡ false
      → LwwMap.get dec_text (merge_backend_delta s entries vv).meta k ≡ some e.value
  unfolding merge_backend_delta LwwMap.get join
  merged_meta_unverified s entries vv k e map_of here absent live =
      ground (arith, get-merge dec_text s.meta entries k map_of)
