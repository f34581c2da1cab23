-- ===== src/Proxy/Http.antt =====
-- `net/http` and `net` as far as pkg/proxy uses them: requests, headers under their canonical names,
-- replies, `net.SplitHostPort` and the printing of a length.
use p2p_gossip_lb.Prelude.{
  ℕ, zero, suc, ◌+◌, ◌/◌, ◌%◌, Bool, not, ◌&&◌, ◌||◌, Option, none, some, List, [], ◌∷◌, ◌++◌,
  if◌then◌else◌, ltb, ◌==◌,
}
use p2p_gossip_lb.Prelude.Int.{pos, leb_ℤ, ℤ}
use p2p_gossip_lb.Prelude.Text.{Text, codes, dec_text}
use p2p_gossip_lb.Prelude.Strings.{has_byte, cut, before_last}
use p2p_gossip_lb.GoMap
use p2p_gossip_lb.GoMap.{GoMap}

abbrev pub Values : Type 0
Values = GoMap Text (List Text)

-- The body of a request: `nil`, one that fails to be read, or its bytes.
pub data Body : Type 0 where
  no_body : Body
  unreadable : Body
  readable : Text → Body

-- `query` is what `r.URL.Query()` returns; `tls` is whether `r.TLS` is set.
pub record Request : Type 0 where
  pub method : Text
  pub host : Text
  pub url_host : Text
  pub url_path : Text
  pub query : Values
  pub header : Values
  pub body : Body
  pub remote_addr : Text
  pub tls : Bool

pub record Reply : Type 0 where
  pub status : ℤ
  pub header : Values
  pub body : Text

abbrev pub first : Option (List Text) → Text
first none = []
first (some []) = []
first (some (v ∷ vs)) = v

abbrev pub values_of : Option (List Text) → List Text
values_of none = []
values_of (some vs) = vs

-- `Header.Get` and `Values.Get`
unfoldable pub get_first : Text → Values → Text
get_first key values = first (GoMap.get dec_text key values)

-- `Header.Add`, `Header.Set`
unfoldable pub add_value : Text → Text → Values → Values
add_value key value values =
    GoMap.put dec_text key (values_of (GoMap.get dec_text key values) ++ value ∷ []) values

unfoldable pub set_value : Text → Text → Values → Values
set_value key value values = GoMap.put dec_text key (value ∷ []) values

-- The digits of a number in front of a text, on fuel: a number has at most as many as its value,
-- and 0 has one.
digits : ℕ → ℕ → Text → Text
digits zero n rest = rest
digits (suc fuel) n rest =
    let more = digits fuel (n / 10) ((b'0' + n % 10) ∷ rest) in
    if ltb n 10 then (b'0' + n) ∷ rest else more

unfoldable pub itoa : ℕ → Text
unfolding digits
itoa n = digits (suc n) n []

-- The statuses that `WriteHeader` takes; on any other it panics.
unfoldable pub writable : ℤ → Bool
writable status = leb_ℤ (pos 100) status && leb_ℤ status (pos 999)

-- `http.Error`
unfoldable pub http_error : ℤ → Text → Reply
http_error status message = record {
  status = status;
  header =
      (codes "Content-Type", codes "text/plain; charset=utf-8" ∷ [])
      ∷ (codes "X-Content-Type-Options", codes "nosniff" ∷ [])
      ∷ [];
  body = message ++ 10 ∷ [];
}

-- After a `[`: the host goes up to the first `]`, and a colon with the port follows it.
after_bracket : Text → Text → Text → Option Text
after_bracket text host [] = none
after_bracket text host (c ∷ port) =
    if c == b':' && not (has_byte b':' port) && not (has_byte b'[' text) && not (has_byte b']' port)
    then some host
    else none

bracketed : Text → Option Text
unfolding after_bracket cut has_byte
bracketed text = elim (cut b']' text) [
  | none ↦ none
  | some (host, rest) ↦ after_bracket text host rest
]

unbracketed : Text → Text → Option Text
unfolding has_byte
unbracketed text host =
    if has_byte b':' host || has_byte b'[' text || has_byte b']' text then none else some host

-- The host of `net.SplitHostPort`, with `none` for its errors.
unfoldable pub split_host_port : Text → Option Text
unfolding bracketed unbracketed before_last
split_host_port [] = none
split_host_port (c ∷ text) = elim (before_last b':' (c ∷ text)) [
  | none ↦ none
  | some host ↦ if c == b'[' then bracketed text else unbracketed (c ∷ text) host
]
