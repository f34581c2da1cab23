-- ===== src/Proxy/CacheKey/Order.antt =====
-- The key does not depend on the order in which a `range` visits the query, or on the order of the
-- values of a key.
use p2p_gossip_lb.Prelude.{◌≡◌, refl, List, [], ◌∷◌}
use p2p_gossip_lb.Prelude.Text.{Text, dec_text}
use mathlib.Core.List.{Perm}
use p2p_gossip_lb.Prelude.Sort.{sort, sort-perm}
use p2p_gossip_lb.GoMap
use p2p_gossip_lb.Proxy.Http.{Values, Request, values_of}
use p2p_gossip_lb.Proxy.CacheKey.{keys, write_keys, write_suffix, cache_key}

-- Two queries with the same keys, and with the same values of each key, in any order.
pub record SameQuery (q q' : Values) : Type 0 where
  pub same_keys : Perm (keys q) (keys q')
  pub same_values :
      (key : Text)
      → Perm (values_of (GoMap.get dec_text key q)) (values_of (GoMap.get dec_text key q'))

write_keys-same :
    (q q' : Values) (ks : List Text) (rest : Text)
    → SameQuery q q'
    → write_keys q ks rest ≡ write_keys q' ks rest
unfolding write_keys
write_keys-same q q' [] rest h = refl
write_keys-same q q' (k ∷ ks) rest h =
    rw (sort-perm (h.same_values k), write_keys-same q q' ks rest h) refl

-- Requests that differ in the order of the query only have the same keys.
pub cache_key-same :
    (r : Request) (query : Values) (suffix : Text)
    → SameQuery r.query query
    → cache_key (record r { query = query }) suffix ≡ cache_key r suffix
unfolding cache_key
cache_key-same r query suffix h =
    rw
      (
        write_keys-same r.query query (sort (keys r.query)) (write_suffix suffix) h,
        sort-perm h.same_keys,
      )
      refl
