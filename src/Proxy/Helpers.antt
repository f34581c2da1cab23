-- ===== src/Proxy/Helpers.antt =====
-- pkg/proxy/helpers.go: what is read off a request.
pub mod Hosts
use p2p_gossip_lb.Prelude.{
  ℕ, ◌^◌, ◌-◌, ◌==◌, Bool, not, ◌&&◌, ◌||◌, Option, none, some, List, [], ◌∷◌, leb, if◌then◌else◌,
}
use p2p_gossip_lb.Prelude.Int.{ℤ, pos, negsuc}
use p2p_gossip_lb.Prelude.Text.{Text, codes, text_eq}
use p2p_gossip_lb.Prelude.Strings.{
  to_lower, has_prefix, contains, trim_suffix, split, trim, trim_space, before_last, digits_value,
}
use p2p_gossip_lb.Proxy.Http.{Values, Request, get_first, split_host_port}
use p2p_gossip_lb.Selector.Request.{RequestContext}

is_bracket : ℕ → Bool
is_bracket c = c == b'[' || c == b']'

host_of : Text → Text
unfolding split_host_port
host_of host = elim (split_host_port host) [ some h ↦ h | none ↦ host ]

unfoldable pub strip_port : Text → Text
unfolding host_of before_last has_prefix trim is_bracket
strip_port host =
    if text_eq host []
    then []
    else if has_prefix host (codes "[")
    then elim (before_last b':' host) [ some front ↦ trim is_bracket front | none ↦ host_of host ]
    else host_of host

-- The chain and the service of a host, `none` where it has one label only.
from_labels : List Text → Option (Text × Text)
unfolding to_lower
from_labels [] = none
from_labels (p ∷ []) = none
from_labels (service ∷ chain ∷ parts) = some (chain, to_lower service)

request_host : Request → Text
unfolding strip_port trim_suffix
request_host r =
    let host = strip_port r.host in
    trim_suffix (if text_eq host [] then strip_port r.url_host else host) (codes ".")

-- `extractChain`: the chain and the service, or the error
unfoldable pub extract_chain : Request → Option (Text × Text)
unfolding request_host from_labels split get_first
extract_chain r = elim (from_labels (split b'.' (request_host r))) [
  | some found ↦ some found
  | none ↦
      let chain = get_first (codes "X-Mesh-Chain") r.header in
      if text_eq chain [] then none else some (chain, [])
]

abbrev head_of : List Text → Text
head_of [] = []
head_of (x ∷ xs) = x

-- the first address in `X-Forwarded-For`, empty where there is none
unfoldable pub claimed_ip : Request → Text
unfolding get_first split trim_space
claimed_ip r = trim_space (head_of (split b',' (get_first (codes "X-Forwarded-For") r.header)))

unfoldable pub client_ip_from_request : Request → Text
unfolding split_host_port
client_ip_from_request r =
    let ip = claimed_ip r in
    if not (text_eq ip [])
    then ip
    else elim (split_host_port r.remote_addr) [ some host ↦ host | none ↦ r.remote_addr ]

unfoldable pub is_websocket_request : Request → Bool
unfolding get_first to_lower contains
is_websocket_request r =
    contains (to_lower (get_first (codes "Connection") r.header)) (codes "upgrade")
    && text_eq (to_lower (get_first (codes "Upgrade") r.header)) (codes "websocket")

-- the digits after the sign of `strconv.ParseInt(raw, 10, 64)`, up to a bound
magnitude : ℕ → Text → Option ℕ
unfolding digits_value
magnitude most [] = none
magnitude most (c ∷ s) = elim (digits_value 0 (c ∷ s)) [
  | none ↦ none
  | some n ↦ if leb n most then some n else none
]

negated : ℕ → ℤ
negated n = if n == 0 then pos 0 else negsuc (n - 1)

parse_int : Text → Option ℤ
unfolding magnitude negated
parse_int [] = none
parse_int (c ∷ s) =
    let positive : Option ℤ = elim (magnitude (2 ^ 63 - 1) (if c == b'+' then s else c ∷ s)) [
      | none ↦ none
      | some n ↦ some (pos n)
    ] in
    let negative : Option ℤ = elim (magnitude (2 ^ 63) s) [
      | none ↦ none
      | some n ↦ some (negated n)
    ] in
    if c == b'-' then negative else positive

positive_only : Option ℤ → Option ℤ
positive_only none = none
positive_only (some (negsuc n)) = none
positive_only (some (pos n)) = if n == 0 then none else some (pos n)

unfoldable pub parse_height : Values → Option ℤ
unfolding positive_only parse_int get_first
parse_height values = positive_only (parse_int (get_first (codes "height") values))

-- `net.ParseIP`, the raw URL encoding of `encoding/base64`, and the field `sub` that `encoding/json`
-- reads from a claim set; `none` stands for nil and for an error.
pub record Decoders : Type 0 where
  pub parse_ip : Text → Option Text
  pub decode_base64 : Text → Option Text
  pub claims_sub : Text → Option Text

module _ (std : Decoders) where
  subject_of : List Text → Text
  subject_of (head ∷ payload ∷ sig ∷ []) = elim (std.decode_base64 payload) [
    | none ↦ []
    | some claims ↦ elim (std.claims_sub claims) [ none ↦ [] | some sub ↦ sub ]
  ]
  subject_of _ = []

  abbrev after : Text → Text → Text
  after [] s = s
  after (p ∷ prefix) [] = []
  after (p ∷ prefix) (c ∷ s) = after prefix s

  unfoldable pub extract_jwt_subject : Text → Text
  unfolding subject_of has_prefix trim_space split
  extract_jwt_subject header =
      let prefix = codes "Bearer " in
      if text_eq header [] || not (has_prefix header prefix)
      then []
      else subject_of (split b'.' (trim_space (after prefix header)))

  unfoldable pub build_request_context : Request → Text → Bool → RequestContext
  unfolding client_ip_from_request parse_height extract_jwt_subject get_first
  build_request_context r chain need_ws =
      let ip = client_ip_from_request r in
      record {
        chain_id = chain;
        method = r.method;
        path = r.url_path;
        need_ws = need_ws;
        height = parse_height r.query;
        client_ip = if text_eq ip [] then none else std.parse_ip ip;
        api_key = get_first (codes "X-Mesh-Key") r.header;
        jwt_sub = extract_jwt_subject (get_first (codes "Authorization") r.header);
      }
