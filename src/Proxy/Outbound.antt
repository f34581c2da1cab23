-- ===== src/Proxy/Outbound.antt =====
-- pkg/proxy/helpers.go: the body of a request, and the request that is sent on to a backend.
pub mod Fields
pub mod Headers
pub mod Claims
use p2p_gossip_lb.Prelude.{Bool, not, Option, none, some, List, [], ◌∷◌, ◌++◌, if◌then◌else◌}
use p2p_gossip_lb.Prelude.Text.{Text, codes, text_eq, dec_text}
use p2p_gossip_lb.GoMap
use p2p_gossip_lb.Proxy.Http.{
  Values, Body, no_body, unreadable, readable, Request, get_first, set_value,
}
use p2p_gossip_lb.Proxy.Helpers.{strip_port, client_ip_from_request}

-- The bytes of the body, `none` for an error. A nil body reads as no bytes.
unfoldable pub read_request_body : Body → Option Text
read_request_body no_body = some []
read_request_body unreadable = none
read_request_body (readable data') = some data'

unfoldable pub request_proto : Request → Text
unfolding get_first
request_proto r =
    let proto = get_first (codes "X-Forwarded-Proto") r.header in
    if r.tls then codes "https" else if not (text_eq proto []) then proto else codes "http"

unfoldable pub append_forwarded_for : Text → Text → Text
append_forwarded_for existing ip =
    if text_eq ip []
    then existing
    else if text_eq existing []
    then ip
    else existing ++ codes ", " ++ ip

abbrev pub hop_headers : List Text
hop_headers =
    codes "Connection"
    ∷ codes "Proxy-Connection"
    ∷ codes "Keep-Alive"
    ∷ codes "Proxy-Authenticate"
    ∷ codes "Proxy-Authorization"
    ∷ codes "Te"
    ∷ codes "Trailer"
    ∷ codes "Transfer-Encoding"
    ∷ codes "Upgrade"
    ∷ []

pub delete_all : List Text → Values → Values
unfolding GoMap.delete
delete_all [] header = header
delete_all (key ∷ keys) header = delete_all keys (GoMap.delete dec_text key header)

unfoldable pub sanitize_hop_headers : Values → Values
unfolding delete_all
sanitize_hop_headers header = delete_all hop_headers header

pub set_if : Text → Text → Values → Values
unfolding set_value
set_if key value header = if text_eq value [] then header else set_value key value header

-- The headers that `buildOutboundRequest` sends on. `Set` stores `X-Real-IP` under its canonical name.
unfoldable pub outbound_header : Request → Values
unfolding sanitize_hop_headers set_value set_if client_ip_from_request append_forwarded_for
    strip_port request_proto get_first
outbound_header original =
    let ip = client_ip_from_request original in
    let kept = sanitize_hop_headers original.header in
    let hosted = set_value (codes "X-Forwarded-Host") (strip_port original.host) kept in
    let typed = set_value (codes "X-Forwarded-Proto") (request_proto original) hosted in
    let existing = get_first (codes "X-Forwarded-For") original.header in
    set_if (codes "X-Real-Ip") ip
      (set_if (codes "X-Forwarded-For") (append_forwarded_for existing ip) typed)

-- The request to a backend. `valid` is whether `http.NewRequestWithContext` takes the method and the
-- address.
pub record Outbound : Type 0 where
  pub scheme : Text
  pub method : Text
  pub host : Text
  pub path : Text
  pub query : Values
  pub header : Values
  pub body : Text

unfoldable pub build_outbound_request :
    (Text → Text → Bool) → Request → Text → Text → Text → Option Outbound
unfolding outbound_header
build_outbound_request valid original body target_host scheme =
    if not (valid original.method target_host)
    then none
    else some (record {
      scheme = scheme;
      method = original.method;
      host = target_host;
      path = original.url_path;
      query = original.query;
      header = outbound_header original;
      body = body;
    })
