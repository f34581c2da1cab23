-- ===== src/Tests/Proxy.antt =====
-- A concrete request to pkg/proxy/proxy.go, of which every attempt fails, and its pool.
use p2p_gossip_lb.Prelude.{ℕ, false, inl, refl, In}
use p2p_gossip_lb.Prelude.Int.{pos}
use p2p_gossip_lb.GoMap
use p2p_gossip_lb.Prelude.Text.{codes, dec_text}
use p2p_gossip_lb.Registry.Store.{Store, latest_metrics}
use p2p_gossip_lb.Tests.Registry.{good, empty, measured}
use p2p_gossip_lb.Proxy.Routing.{build_candidates}
use p2p_gossip_lb.Proxy.Routing.Pool.{Offered, build_candidates-Offered}
use p2p_gossip_lb.Prelude.{◌≢◌, ◌≤◌, none, [], ◌∷◌, length}
use p2p_gossip_lb.Proxy.Routing.{panicked, handle}
use p2p_gossip_lb.Proxy.Routing.Attempts.{Fresh, handle_lem}
use p2p_gossip_lb.Prelude.Text.{Text}
use p2p_gossip_lb.Tests.Selector.{counts, ctx, env, cfg, candidate, broken}

handle_lem_example :
    ((handle counts {R = Text}
        (λ ip. ip)
        ctx
        env
        (candidate ∷ [])
        cfg
        (λ i. broken)
        (λ i c. none)).0
      ≢ panicked)
    × (length
          (handle counts {R = Text}
            (λ ip. ip)
            ctx
            env
            (candidate ∷ [])
            cfg
            (λ i. broken)
            (λ i c. none)).1
        ≤ 2)
    × Fresh counts
        (λ ip. ip)
        ctx
        env
        (candidate ∷ [])
        cfg
        []
        (handle counts {R = Text}
          (λ ip. ip)
          ctx
          env
          (candidate ∷ [])
          cfg
          (λ i. broken)
          (λ i c. none)).1
handle_lem_example =
    handle_lem counts (λ ip. ip) ctx env (candidate ∷ []) cfg (λ i. broken) (λ i c. none)

-- a store that shows one backend, with its metrics
abbrev stocked : Store ℕ
stocked = record empty {
  meta = record {
    items =
        (
          codes "x",
          record {
            value = good;
            clock = record { lamport = 3; unix_nano = pos 5 };
            tombstone = false;
          },
        )
        ∷ [];
  };
  metrics = (codes "x", record { value = measured; received_at = pos 100 }) ∷ [];
}

stocked-IsMap : GoMap.IsMap dec_text stocked.meta.items
unfolding GoMap.get
stocked-IsMap = (refl, tt)

offered : In candidate (build_candidates counts (λ m. 0) stocked (codes "c")).0
unfolding build_candidates GoMap.get dec_text
offered = inl refl

build_candidates-Offered_example :
    Offered counts
      (λ m. 0)
      (codes "c")
      (latest_metrics stocked)
      stocked.meta.items
      (build_candidates counts (λ m. 0) stocked (codes "c")).1.best_height
      candidate
build_candidates-Offered_example =
    build_candidates-Offered counts (λ m. 0) stocked (codes "c") candidate stocked-IsMap offered
