-- ===== src/Proxy/CacheKey.antt =====
-- pkg/proxy/helpers.go: the keys under which responses are cached.
pub mod Apart
pub mod Order
use p2p_gossip_lb.Prelude.{Bool, false, not, ◌||◌, List, [], ◌∷◌, ◌++◌, if◌then◌else◌}
use p2p_gossip_lb.Prelude.Text.{Text, codes, text_eq, dec_text}
use p2p_gossip_lb.Prelude.Strings.{to_lower, contains}
use p2p_gossip_lb.Prelude.Sort.{sort}
use p2p_gossip_lb.GoMap
use p2p_gossip_lb.Proxy.Http.{Values, Request, values_of}
use p2p_gossip_lb.Proxy.Helpers.{strip_port}

abbrev pub keys : Values → List Text
keys [] = []
keys ((k, vs) ∷ m) = k ∷ keys m

-- What the loops write: for each value of each key, `|key=value`.
abbrev pub write_values : Text → List Text → Text → Text
write_values key [] rest = rest
write_values key (value ∷ values) rest =
    codes "|" ++ key ++ codes "=" ++ value ++ write_values key values rest

pub write_keys : Values → List Text → Text → Text
unfolding sort GoMap.get dec_text
write_keys query [] rest = rest
write_keys query (key ∷ ks) rest =
    write_values key (sort (values_of (GoMap.get dec_text key query))) (write_keys query ks rest)

abbrev pub write_suffix : Text → Text
write_suffix suffix = if not (text_eq suffix []) then codes "|" ++ suffix else []

unfoldable pub cache_key : Request → Text → Text
unfolding strip_port write_keys sort dec_text
cache_key r suffix =
    r.method
    ++ codes "|"
    ++ strip_port r.host
    ++ codes "|"
    ++ r.url_path
    ++ write_keys r.query (sort (keys r.query)) (write_suffix suffix)

unfoldable pub negative_cache_key : Request → Text
unfolding cache_key
negative_cache_key r = cache_key r (codes "404")

unfoldable pub should_negative_cache : Request → Bool
unfolding to_lower contains
should_negative_cache r =
    let path = to_lower r.url_path in
    if not (text_eq r.method (codes "GET"))
    then false
    else contains path (codes "/txs/")
      || contains path (codes "/tx/")
      || contains path (codes "tx_search")
