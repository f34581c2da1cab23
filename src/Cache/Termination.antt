-- ===== src/Cache/Termination.antt =====
-- The eviction ends by itself: the fuel is never used up.
use p2p_gossip_lb.Prelude.{
  ℕ, zero, suc, ◌<◌, ◌≡◌, ap, arith, length, Bool-cases, inl, inr, refl, sym, ◌∙◌,
}
use p2p_gossip_lb.Prelude.Int.{ltb_ℤ}
use p2p_gossip_lb.Prelude.Text.{Text, dec_text, text_eq_of_eq, text_eq_of_ne}
use p2p_gossip_lb.Cache.LruStore.{Lru}
use p2p_gossip_lb.Cache.Responses.{Entry}
use p2p_gossip_lb.Cache.{text_eq, true, ResponseCache, evict_loop}
use p2p_gossip_lb.Cache.Budget.{List-cases, evict_stop, evict_empty, evict_next, dropped}

module _ (lru : Lru Entry) where
  evict_loop_ends :
      (fuel : ℕ) (key : Text) (c : ResponseCache lru)
      → length (lru.entries c.store) < fuel
      → (evict_loop lru fuel key c).1 ≡ true
  evict_loop_ends zero key c h = absurd (omega arith)
  evict_loop_ends (suc fuel) key c h = elim (Bool-cases (ltb_ℤ c.max_bytes c.current_bytes)) [
    | inr within ↦ rw (evict_stop lru fuel key c within) refl
    | inl over ↦ elim (List-cases lru (lru.entries c.store)) [
      | inl e ↦ rw (evict_empty lru fuel key c over e) refl
      | inr (x, v, rest, e) ↦
          let left = lru.entries-remove_oldest c.store (x, v) rest e in
          let shorter : suc (length (lru.entries (dropped lru c v).store))
              ≡ length (lru.entries c.store) =
            rw left (sym (ap length e)) in
          rw (evict_next lru fuel key x v rest c over e) (elim (Bool-cases (text_eq x key)) [
            | inl same ↦ rw same refl
            | inr other ↦
                rw other (evict_loop_ends fuel key (dropped lru c v) (omega (arith, shorter)))
          ])
    ]
  ]

  evict_loop_same :
      (fuel more : ℕ) (key : Text) (c : ResponseCache lru)
      → length (lru.entries c.store) < fuel
      → length (lru.entries c.store) < more
      → evict_loop lru fuel key c ≡ evict_loop lru more key c
  evict_loop_same zero more key c h k = absurd (omega arith)
  evict_loop_same (suc fuel) zero key c h k = absurd (omega arith)
  evict_loop_same (suc fuel) (suc more) key c h k =
      elim (Bool-cases (ltb_ℤ c.max_bytes c.current_bytes)) [
        | inr within ↦ evict_stop lru fuel key c within ∙ sym (evict_stop lru more key c within)
        | inl over ↦ elim (List-cases lru (lru.entries c.store)) [
          | inl e ↦ evict_empty lru fuel key c over e ∙ sym (evict_empty lru more key c over e)
          | inr (x, v, rest, e) ↦
              let left = lru.entries-remove_oldest c.store (x, v) rest e in
              let shorter : suc (length (lru.entries (dropped lru c v).store))
                  ≡ length (lru.entries c.store) =
                rw left (sym (ap length e)) in
              evict_next lru fuel key x v rest c over e
              ∙ elim (dec_text x key) [
                | yes p ↦ rw (text_eq_of_eq x key p) refl
                | no p ↦ rw (text_eq_of_ne x key p) (
                    evict_loop_same fuel more key (dropped lru c v) (omega (arith, shorter))
                      (omega (arith, shorter)))
              ]
              ∙ sym (evict_next lru more key x v rest c over e)
        ]
      ]

  -- With more fuel than entries are stored, the eviction ends by itself and does not use the fuel up,
  -- and so it gives one result, whatever the fuel: the loop of the code terminates.
  pub evict_loop_enough :
      (fuel more : ℕ) (key : Text) (c : ResponseCache lru)
      → length (lru.entries c.store) < fuel
      → length (lru.entries c.store) < more
      → ((evict_loop lru fuel key c).1 ≡ true)
        × (evict_loop lru fuel key c ≡ evict_loop lru more key c)
  evict_loop_enough fuel more key c h k =
      (evict_loop_ends fuel key c h, evict_loop_same fuel more key c h k)
