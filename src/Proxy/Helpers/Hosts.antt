-- ===== src/Proxy/Helpers/Hosts.antt =====
-- The name of a host, with a port or without one, is what `stripPort` leaves of it.
use p2p_gossip_lb.Prelude.{
  ℕ, ◌≡◌, ◌≢◌, refl, false, ◌||◌, ◌==◌, Option, none, some, [], ◌∷◌, ◌++◌, arith,
}
use p2p_gossip_lb.Prelude.Text.{Text, dec_text}
use p2p_gossip_lb.Prelude.Strings.{has_byte, before_last, has_prefix}
use p2p_gossip_lb.Proxy.Http.{split_host_port}
use p2p_gossip_lb.Proxy.Helpers.{strip_port, host_of}

abbrev pub with_port : Text → Option Text → Text
with_port name none = name
with_port name (some port) = name ++ b':' ∷ port

-- Neither a colon nor a bracket stands in the text.
pub record Plain (s : Text) : Type 0 where
  pub no_colon : has_byte b':' s ≡ false
  pub no_open : has_byte b'[' s ≡ false
  pub no_close : has_byte b']' s ≡ false

abbrev pub PlainPort : Option Text → Type 0
PlainPort none = Unit
PlainPort (some port) = Plain port

has_byte-append : (c : ℕ) (s t : Text) → has_byte c (s ++ t) ≡ (has_byte c s || has_byte c t)
unfolding has_byte
has_byte-append c [] t = refl
has_byte-append c (x ∷ s) t = ground (arith, has_byte-append c s t)

before_last_absent : (c : ℕ) (s : Text) → has_byte c s ≡ false → before_last c s ≡ none
unfolding has_byte before_last
before_last_absent c [] h = refl
before_last_absent c (x ∷ s) h = ground (arith, before_last_absent c s)

before_last-append :
    (c : ℕ) (s t : Text) → has_byte c t ≡ false → before_last c (s ++ c ∷ t) ≡ some s
unfolding before_last
before_last-append c [] t h = rw (before_last_absent c t h) (ground arith)
before_last-append c (x ∷ s) t h = rw (before_last-append c s t h) refl

not_open : (c : ℕ) (s : Text) → has_byte b'[' (c ∷ s) ≡ false → c == b'[' ≡ false
unfolding has_byte
not_open c s h = ground (arith, h)

has_byte-colon :
    (c : ℕ) (s port : Text)
    → b':' == c ≡ false
    → has_byte c s ≡ false
    → has_byte c port ≡ false
    → has_byte c (s ++ b':' ∷ port) ≡ false
unfolding has_byte
has_byte-colon c s port other h k = rw (has_byte-append c s (b':' ∷ port), h, other, k) refl

has_byte_tail : (c x : ℕ) (s : Text) → has_byte c (x ∷ s) ≡ false → has_byte c s ≡ false
unfolding has_byte
has_byte_tail c x s h = ground (arith, h)

split_host_port_bare : (c : ℕ) (s : Text) → Plain (c ∷ s) → split_host_port (c ∷ s) ≡ none
unfolding split_host_port
split_host_port_bare c s h = rw (split_host_port, before_last_absent b':' (c ∷ s) h.no_colon) refl

split_host_port_port :
    (c : ℕ) (s port : Text)
    → Plain (c ∷ s)
    → Plain port
    → split_host_port ((c ∷ s) ++ b':' ∷ port) ≡ some (c ∷ s)
unfolding split_host_port
split_host_port_port c s port h k =
    rw
      (
        split_host_port,
        before_last-append b':' (c ∷ s) port k.no_colon,
        not_open c s h.no_open,
        h.no_colon,
        has_byte-colon b'[' s port refl (has_byte_tail b'[' c s h.no_open) k.no_open,
        has_byte-colon b']' (c ∷ s) port refl h.no_close k.no_close,
      )
      refl

host_of-with_port :
    (c : ℕ) (s : Text) (port : Option Text)
    → Plain (c ∷ s)
    → PlainPort port
    → host_of (with_port (c ∷ s) port) ≡ c ∷ s
unfolding host_of
host_of-with_port c s none h k = rw (host_of, split_host_port_bare c s h) refl
host_of-with_port c s (some port) h k = rw (host_of, split_host_port_port c s port h k) refl

strip_port-host_of : (c : ℕ) (s : Text) → c == b'[' ≡ false → strip_port (c ∷ s) ≡ host_of (c ∷ s)
unfolding strip_port has_prefix dec_text
strip_port-host_of c s h = rw h refl

-- A plain name that is not empty is what is left of it, with a plain port or without one.
pub strip_port-with_port :
    (name : Text) (port : Option Text)
    → name ≢ []
    → Plain name
    → PlainPort port
    → strip_port (with_port name port) ≡ name
strip_port-with_port [] port given h k = absurd (given refl)
strip_port-with_port (c ∷ s) none given h k =
    rw (strip_port-host_of c s (not_open c s h.no_open)) (host_of-with_port c s none h k)
strip_port-with_port (c ∷ s) (some port) given h k =
    rw (strip_port-host_of c (s ++ b':' ∷ port) (not_open c s h.no_open))
      (host_of-with_port c s (some port) h k)
