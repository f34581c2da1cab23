-- ===== src/Proxy/RateLimiter/Clients.antt =====
-- `Allow` forgets the buckets of idle clients only.
use p2p_gossip_lb.Prelude.{◌≡◌, ◌≢◌, refl, true, false, none, some, [], ◌∷◌, arith, if-both, ltb}
use p2p_gossip_lb.Prelude.Int.{pos, ◌-ℤ◌, leb_ℤ}
use p2p_gossip_lb.Prelude.Text.{Text, dec_text}
use p2p_gossip_lb.Prelude.Time.{Time, before}
use p2p_gossip_lb.GoMap
use p2p_gossip_lb.GoMap.{GoMap, IsMap, get-put, put-IsMap}
use p2p_gossip_lb.Proxy.RateLimiter.{
  Rates, ClientLimiter, ClientRateLimiter, active, cleanup, limiter_of, allow,
}

module _ (rates : Rates) where
  get_none-active :
      (threshold : Time) (ip : Text) (m : GoMap Text (ClientLimiter rates))
      → GoMap.get dec_text ip m ≡ none
      → GoMap.get dec_text ip (active rates threshold m) ≡ none
  unfolding GoMap.get
  get_none-active threshold ip [] h = refl
  get_none-active threshold ip ((j, e) ∷ m) h = ground (arith, get_none-active threshold ip m)

  get_some-active :
      (threshold : Time) (ip : Text) (e : ClientLimiter rates)
      (m : GoMap Text (ClientLimiter rates))
      → GoMap.get dec_text ip m ≡ some e
      → before e.last_seen threshold ≡ false
      → GoMap.get dec_text ip (active rates threshold m) ≡ some e
  unfolding GoMap.get
  get_some-active threshold ip e [] h k = cc
  get_some-active threshold ip e ((j, x) ∷ m) h k = ground (arith, get_some-active threshold ip e m)

  IsMap-active :
      (threshold : Time) (m : GoMap Text (ClientLimiter rates))
      → IsMap dec_text m
      → IsMap dec_text (active rates threshold m)
  IsMap-active threshold [] h = tt
  IsMap-active threshold ((j, x) ∷ m) h =
      ground (arith, IsMap-active threshold m h.1, get_none-active threshold j m h.0)

  -- the time before which a client is idle
  abbrev pub threshold_of : ClientRateLimiter rates → Time → Time
  threshold_of c now = now -ℤ c.window

  allow_some :
      (c : ClientRateLimiter rates) (ip j : Text) (now : Time) (e : ClientLimiter rates)
      → GoMap.get dec_text j (
          GoMap.put dec_text ip
            (record {
              limiter = (rates.allow (limiter_of rates c (GoMap.get dec_text ip c.clients)) now).0;
              last_seen = now;
            })
            c.clients)
        ≡ some e
      → before e.last_seen (threshold_of c now) ≡ false
      → GoMap.get dec_text j (allow rates c ip now).0.clients ≡ some e
  unfolding allow cleanup
  allow_some c ip j now e h k =
      if-both (λ (x : ClientRateLimiter rates). GoMap.get dec_text j x.clients ≡ some e)
        (ltb 2048 _) _ _ (get_some-active (threshold_of c now) j e _ h k) h

  -- `Allow` of one client at a time `now` leaves another client's bucket as it is, provided that this
  -- client was seen within the window before `now`.
  pub allow_keeps_active :
      (c : ClientRateLimiter rates) (ip j : Text) (now : Time) (e : ClientLimiter rates)
      → ip ≢ j
      → GoMap.get dec_text j c.clients ≡ some e
      → before e.last_seen (threshold_of c now) ≡ false
      → GoMap.get dec_text j (allow rates c ip now).0.clients ≡ some e
  allow_keeps_active c ip j now e other h k =
      allow_some c ip j now e (rw (get-put dec_text ip j _ c.clients) (ground (arith, other, h))) k

  -- Unless the window is negative, `Allow` of a client leaves that client the bucket that it has drawn
  -- on, which is its old one, where there is one, and a new one otherwise.
  pub allow_draws :
      (c : ClientRateLimiter rates) (ip : Text) (now : Time)
      → leb_ℤ (pos 0) c.window ≡ true
      → GoMap.get dec_text ip (allow rates c ip now).0.clients
        ≡ some (record {
          limiter = (rates.allow (limiter_of rates c (GoMap.get dec_text ip c.clients)) now).0;
          last_seen = now;
        })
  unfolding ◌-ℤ◌
  allow_draws c ip now h =
      allow_some c ip ip now _ (rw (get-put dec_text ip ip _ c.clients) (ground arith))
        (ground (arith, h))

  allow-IsMap :
      (c : ClientRateLimiter rates) (ip : Text) (now : Time)
      → IsMap dec_text c.clients
      → IsMap dec_text (allow rates c ip now).0.clients
  unfolding allow cleanup
  allow-IsMap c ip now h =
      let h' = put-IsMap dec_text ip _ c.clients h in
      if-both (λ (x : ClientRateLimiter rates). IsMap dec_text x.clients) (ltb 2048 _) _ _
        (IsMap-active _ _ h') h'
