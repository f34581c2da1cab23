-- ===== src/Registry/Store/Metrics.antt =====
-- The live metrics: the last one received counts, until it is older than the TTL.
use p2p_gossip_lb.Prelude.{
  Bool, ◌≡◌, refl, ap, ◌∙◌, not, Option, none, some, [], ◌∷◌, arith, ite, map, if◌then◌else◌, keep,
}
use p2p_gossip_lb.Prelude.Int.{ℤ, leb_ℤ, ◌-ℤ◌}
use p2p_gossip_lb.Prelude.Text.{Text, dec_text}
use p2p_gossip_lb.Prelude.Time.{Time, Duration}
use p2p_gossip_lb.GoMap
use p2p_gossip_lb.GoMap.{GoMap, get-put, put-IsMap}
use p2p_gossip_lb.Registry.Models.{BackendMetrics}
use p2p_gossip_lb.Registry.Store.{
  Store, TimedMetric, is_stale, apply_backend_metrics, prune, latest_metrics,
}

-- Metrics are live while their age is at most the TTL.
abbrev pub is_live : Duration → Time → Time → Bool
is_live ttl now received = leb_ℤ (now -ℤ received) ttl

module _ {Float : Type 0} where
  abbrev pub shown : Option (TimedMetric Float) → Option (BackendMetrics Float)
  shown none = none
  shown (some m) = some m.value

  get-values :
      (items : GoMap Text (TimedMetric Float)) (k : Text)
      → GoMap.get dec_text k (map (λ (e : Text × TimedMetric Float). (e.0, e.1.value)) items)
        ≡ shown (GoMap.get dec_text k items)
  unfolding GoMap.get
  get-values [] k = refl
  get-values ((j, m) ∷ rest) k = ground (arith, get-values rest k)

  is_stale-is_live :
      (ttl : Duration) (now : Time) (m : TimedMetric Float)
      → is_stale ttl now m ≡ not (is_live ttl now m.received_at)
  is_stale-is_live ttl now m = ground arith

  abbrev pub fresh : Duration → Time → Option (TimedMetric Float) → Option (TimedMetric Float)
  fresh ttl now none = none
  fresh ttl now (some m) = if is_live ttl now m.received_at then some m else none

  get-keep :
      (ttl : Duration) (now : Time) (items : GoMap Text (TimedMetric Float)) (k : Text)
      → GoMap.IsMap dec_text items
      → GoMap.get dec_text k
          (keep (λ (e : Text × TimedMetric Float). not (is_stale ttl now e.1)) items)
        ≡ fresh ttl now (GoMap.get dec_text k items)
  unfolding GoMap.get
  get-keep ttl now [] k h = refl
  get-keep ttl now ((j, m) ∷ rest) k h =
      ground (arith, is_stale-is_live ttl now m, get-keep ttl now rest k h.1)

  -- After `ApplyBackendMetrics` and a later `Prune`, `LatestMetrics` shows the new metrics at their
  -- ID exactly while their age is at most the TTL, and at the other IDs what `Prune` alone leaves (no
  -- key of the stored metrics stands twice).
  pub metrics_live :
      (s : Store Float) (m : BackendMetrics Float) (received now : Time) (now_nano : ℤ) (k : Text)
      → GoMap.IsMap dec_text s.metrics
      → GoMap.get dec_text k
          (latest_metrics (prune (apply_backend_metrics s m received) now now_nano))
        ≡ ite
            (dec_text m.id k)
            (if is_live s.metrics_ttl now received then some m else none)
            (shown (fresh s.metrics_ttl now (GoMap.get dec_text k s.metrics)))
  unfolding latest_metrics prune apply_backend_metrics
  metrics_live s m received now now_nano k h =
      let entry : TimedMetric Float = record { value = m; received_at = received } in
      let items = GoMap.put dec_text m.id entry s.metrics in
      let left =
        keep (λ (e : Text × TimedMetric Float). not (is_stale s.metrics_ttl now e.1)) items in
      get-values left k
      ∙ ap shown (
          get-keep s.metrics_ttl now items k (put-IsMap dec_text m.id entry s.metrics h)
          ∙ ap (fresh s.metrics_ttl now) (get-put dec_text m.id k entry s.metrics))
      ∙ split (dec_text m.id k)
    where
      split :
          (d : Dec (m.id ≡ k))
          → shown (
              fresh s.metrics_ttl now (
                ite d
                  (some (record { value = m; received_at = received }))
                  (GoMap.get dec_text k s.metrics)))
            ≡ ite d
                (if is_live s.metrics_ttl now received then some m else none)
                (shown (fresh s.metrics_ttl now (GoMap.get dec_text k s.metrics)))
      split d = ground arith
