-- ===== src/Proxy/CacheKey/Apart.antt =====
-- A key ends with its suffix, so the keys of responses and the negative keys are different.
use p2p_gossip_lb.Prelude.{ℕ, ◌≡◌, ◌≢◌, refl, List, [], ◌∷◌, ◌++◌, ap, sym, ◌∙◌}
use p2p_gossip_lb.Prelude.Text.{Text, codes, dec_text}
use p2p_gossip_lb.Prelude.Sort.{sort}
use p2p_gossip_lb.Proxy.Http.{Values, Request}
use p2p_gossip_lb.Proxy.Helpers.{strip_port}
use p2p_gossip_lb.Proxy.CacheKey.{
  keys, write_values, write_keys, write_suffix, cache_key, negative_cache_key,
}

-- the last byte of a text that follows a byte
abbrev last : ℕ → Text → ℕ
last d [] = d
last d (c ∷ s) = last c s

abbrev EndsIn : ℕ → Text → Type 0
EndsIn c s = (d : ℕ) → last d s ≡ c

EndsIn-append : (c : ℕ) (s t : Text) → EndsIn c t → EndsIn c (s ++ t)
EndsIn-append c [] t h d = h d
EndsIn-append c (x ∷ s) t h d = EndsIn-append c s t h x

EndsIn-write_values :
    (c : ℕ) (key : Text) (values : List Text) (rest : Text)
    → EndsIn c rest
    → EndsIn c (write_values key values rest)
EndsIn-write_values c key [] rest h = h
EndsIn-write_values c key (v ∷ values) rest h =
    EndsIn-append c (codes "|" ++ key ++ codes "=" ++ v) (write_values key values rest)
      (EndsIn-write_values c key values rest h)

EndsIn-write_keys :
    (c : ℕ) (query : Values) (ks : List Text) (rest : Text)
    → EndsIn c rest
    → EndsIn c (write_keys query ks rest)
unfolding write_keys
EndsIn-write_keys c query [] rest h = h
EndsIn-write_keys c query (k ∷ ks) rest h =
    EndsIn-write_values c k _ (write_keys query ks rest) (EndsIn-write_keys c query ks rest h)

EndsIn-cache_key :
    (c : ℕ) (r : Request) (suffix : Text)
    → EndsIn c (write_suffix suffix)
    → EndsIn c (cache_key r suffix)
unfolding cache_key
EndsIn-cache_key c r suffix h =
    let ks = sort (keys r.query) in
    EndsIn-append c (r.method ++ codes "|" ++ strip_port r.host ++ codes "|" ++ r.url_path)
      (write_keys r.query ks (write_suffix suffix))
      (EndsIn-write_keys c r.query ks (write_suffix suffix) h)

-- No request has the key under which another, or the same, request's 404 response is cached.
pub cache_key-negative_cache_key :
    (r r' : Request) → cache_key r (codes "height") ≢ negative_cache_key r'
unfolding negative_cache_key dec_text
cache_key-negative_cache_key r r' e =
    let t = EndsIn-cache_key b't' r (codes "height") (λ d. refl) 0 in
    let f = EndsIn-cache_key b'4' r' (codes "404") (λ d. refl) 0 in
    let same : ◌≡◌ {A = ℕ} b't' b'4' = sym t ∙ ap (last 0) e ∙ f in cc
