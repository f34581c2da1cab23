-- ===== src/Registry/Store/Versions.antt =====
-- The version vectors cover the entries: what a peer compares is never behind what the store holds.
use p2p_gossip_lb.Prelude.{
  ℕ, ◌≤◌, ◌≡◌, sym, ◌∙◌, inl, inr, refl, Bool, true, false, some, [], ◌∷◌, arith, if◌then◌else◌,
  Bool-cases,
}
use p2p_gossip_lb.Prelude.Int.{ℤ}
use p2p_gossip_lb.Prelude.Text.{Text, dec_text}
use p2p_gossip_lb.Prelude.Time.{Time}
use p2p_gossip_lb.GoMap
use p2p_gossip_lb.GoMap.{GoMap, get-put}
use p2p_gossip_lb.Crdt.Clock.{Clock, Entry}
use p2p_gossip_lb.Crdt.LwwMap.{LwwMap, upsert, accepts, merge}
use p2p_gossip_lb.Crdt.LwwMap.Join.{join}
use p2p_gossip_lb.Crdt.LwwMap.Merge.{get-merge, merge-false_unchanged}
use p2p_gossip_lb.Crdt.VersionVector.{VersionVector, bump, count_at}
use p2p_gossip_lb.Crdt.VersionVector.Order.{◌⊑◌, bump_lem}
use p2p_gossip_lb.Registry.Models.{BackendMeta}
use p2p_gossip_lb.Registry.Encoding.{Crypto}
use p2p_gossip_lb.Crdt.LwwMap.Methods.{upsert_reports, cleanup_keeps}
use p2p_gossip_lb.Registry.Store.Signatures.{apply_backend_meta_cases, signed_meta_admitted}
use p2p_gossip_lb.Registry.Store.{
  Store, bump_all, admit_meta, apply_backend_meta, merge_backend_delta, clock_of, prune,
}

-- No entry has a Lamport clock above the counter of its key.
abbrev pub Covers : {V : Type 0} → GoMap Text ℕ → GoMap Text (Entry V) → Type 0
Covers {V} vv items =
    (k : Text) (e : Entry V) → GoMap.get dec_text k items ≡ some e → e.clock.lamport ≤ count_at vv k

bump_all-⊑ : (v : VersionVector) (vv : GoMap Text ℕ) → ◌⊑◌ v.vv (bump_all v vv).vv
unfolding bump_all
bump_all-⊑ v [] = λ k. omega arith
bump_all-⊑ v ((node, counter) ∷ rest) =
    λ k. omega (arith, bump_all-⊑ (bump v node counter) rest k, (bump_lem v node counter).1 k)

⊑-bump_all : (v : VersionVector) (vv : GoMap Text ℕ) → ◌⊑◌ vv (bump_all v vv).vv
unfolding bump_all count_at GoMap.get
⊑-bump_all v [] = λ k. omega arith
⊑-bump_all v ((node, counter) ∷ rest) = λ k.
    let here = (bump_lem v node counter).0 in
    let later = bump_all-⊑ (bump v node counter) rest k in
    ground (arith, here, later, ⊑-bump_all (bump v node counter) rest k)

-- The counters after an announcement's own counter was bumped.
Covers-upsert :
    {V : Type 0} (m : LwwMap Text V) (vv : VersionVector) (id : Text) (v : V) (c : Clock)
    → Covers vv.vv m.items
    → (accepts c (GoMap.get dec_text id m.items) ≡ true
        → Covers (bump vv id c.lamport).vv (upsert dec_text m id v c).0.items)
      × (accepts c (GoMap.get dec_text id m.items) ≡ false
          → Covers vv.vv (upsert dec_text m id v c).0.items)
unfolding upsert
Covers-upsert m vv id v c h = (
  (λ took k e found. ground (
    arith,
    h k e,
    (bump_lem vv id c.lamport).0,
    (bump_lem vv id c.lamport).1 k,
    get-put dec_text id k (record { value = v; clock = c; tombstone = false }) m.items,
  )),
  (λ kept k e found. ground (arith, h k e)),
)

-- Merging a peer's entries with counters that cover them.
Covers-merge :
    {V : Type 0} (m : LwwMap Text V) (v : VersionVector) (entries : GoMap Text (Entry V))
    (vv : GoMap Text ℕ)
    → GoMap.IsMap dec_text entries
    → Covers vv entries
    → Covers v.vv m.items
    → Covers
        (if (merge dec_text m entries).1 then bump_all v vv else v).vv
        (merge dec_text m entries).0.items
Covers-merge m v entries vv map_of theirs ours = elim (Bool-cases (merge dec_text m entries).1) [
  | inr same ↦ rw (same, merge-false_unchanged dec_text m entries same) ours
  | inl changed ↦ rw changed λ k e found.
      let mine = ours k e in
      let other = theirs k e in
      unfold join in
      ground (
        arith,
        get-merge dec_text m entries k map_of,
        mine,
        other,
        bump_all-⊑ v vv k,
        ⊑-bump_all v vv k,
      )
]

module _ {Float : Type 0} where
  admit_meta-Covers :
      (s : Store Float) (meta : BackendMeta) (p : LwwMap Text BackendMeta × Bool)
      → (p.1 ≡ true → Covers (bump s.meta_vv meta.id meta.clock).vv p.0.items)
      → (p.1 ≡ false → Covers s.meta_vv.vv p.0.items)
      → Covers (admit_meta s meta p).0.meta_vv.vv (admit_meta s meta p).0.meta.items
  unfolding admit_meta
  admit_meta-Covers s meta (m, true) taken kept = taken refl
  admit_meta-Covers s meta (m, false) taken kept = kept refl

  -- `ApplyBackendMeta` keeps every counter of the version vector at or above the Lamport clock of the
  -- entry of its key, whatever it is given.
  pub apply_backend_meta-Covers :
      (crypto : Crypto) (s : Store Float) (meta : BackendMeta)
      → Covers s.meta_vv.vv s.meta.items
      → Covers
          (apply_backend_meta crypto s meta).0.meta_vv.vv
          (apply_backend_meta crypto s meta).0.meta.items
  apply_backend_meta-Covers crypto s meta h = elim (apply_backend_meta_cases crypto s meta) [
    | inl (_, same) ↦ rw same h
    | inr (_, good) ↦
        let c = clock_of meta.clock meta.added_at in
        let (taken, kept) = Covers-upsert s.meta s.meta_vv meta.id meta c h in
        let report = upsert_reports dec_text s.meta meta.id meta c in
        rw (signed_meta_admitted crypto s meta good) (
          admit_meta-Covers s meta (upsert dec_text s.meta meta.id meta c)
            (λ took. taken (sym report ∙ took)) (λ not_took. kept (sym report ∙ not_took)))
  ]

  -- `MergeBackendDelta` keeps the counters above the entries, where no key of the delta stands twice
  -- and the peer's counters are above the peer's entries.
  pub merge_backend_delta-Covers :
      (s : Store Float) (entries : GoMap Text (Entry BackendMeta)) (vv : GoMap Text ℕ)
      → GoMap.IsMap dec_text entries
      → Covers vv entries
      → Covers s.meta_vv.vv s.meta.items
      → Covers
          (merge_backend_delta s entries vv).meta_vv.vv
          (merge_backend_delta s entries vv).meta.items
  unfolding merge_backend_delta
  merge_backend_delta-Covers s entries vv map_of theirs ours =
      Covers-merge s.meta s.meta_vv entries vv map_of theirs ours

  -- And so does `Prune`, which only takes entries away.
  prune-Covers :
      (s : Store Float) (now : Time) (now_nano : ℤ)
      → GoMap.IsMap dec_text s.meta.items
      → Covers s.meta_vv.vv s.meta.items
      → Covers (prune s now now_nano).meta_vv.vv (prune s now now_nano).meta.items
  unfolding prune
  prune-Covers s now now_nano map_of h k e found =
      h k e (cleanup_keeps dec_text now_nano s.metrics_ttl s.meta k e map_of found)
