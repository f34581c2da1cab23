-- ===== src/Proxy/Outbound/Headers.antt =====
-- The headers of the request that is sent on: those that it has and those that it has not.
use p2p_gossip_lb.Prelude.{
  ◌≢◌, ap, not, ◌++◌, Option, if◌then◌else◌, true, Bool, refl, ◌⊎◌, All, some, false, ◌≡◌, ◌∙◌,
  List, [], ◌∷◌, inl, inr,
}
use p2p_gossip_lb.Prelude.Text.{text_eq_of_ne, codes, Text, text_eq, dec_text}
use p2p_gossip_lb.Proxy.Helpers.{client_ip_from_request, strip_port}
use p2p_gossip_lb.GoMap
use p2p_gossip_lb.Proxy.Helpers.Hosts.{with_port, Plain, PlainPort, strip_port-with_port}
use p2p_gossip_lb.Proxy.Outbound.Fields.{
  Absent, delete_all-Absent, get-set_other, get-set_same, get-set_if_other, get-set_if_same,
  All-Absent,
}
use p2p_gossip_lb.GoMap.{GoMap, get-put, get-delete}
use p2p_gossip_lb.Proxy.Http.{get_first, Request, Values, set_value}
use p2p_gossip_lb.Proxy.Outbound.{
  request_proto, hop_headers, append_forwarded_for, sanitize_hop_headers, outbound_header, set_if,
}

-- the headers that concern one connection only, which a proxy does not pass on
abbrev pub hop_by_hop : List Text
hop_by_hop =
    codes "Connection"
    ∷ codes "Proxy-Connection"
    ∷ codes "Keep-Alive"
    ∷ codes "Proxy-Authenticate"
    ∷ codes "Proxy-Authorization"
    ∷ codes "Te"
    ∷ codes "Trailer"
    ∷ codes "Transfer-Encoding"
    ∷ codes "Upgrade"
    ∷ []

hop-Absent : (r : Request) → All (Absent (outbound_header r)) hop_by_hop
unfolding sanitize_hop_headers dec_text
hop-Absent r =
    All-Absent r hop_headers refl (λ key at. delete_all-Absent hop_headers key r.header at)

append_forwarded_for-given :
    (existing ip : Text)
    → text_eq ip [] ≡ false
    → text_eq (append_forwarded_for existing ip) [] ≡ false
unfolding append_forwarded_for dec_text
append_forwarded_for-given [] ip h = rw h h
append_forwarded_for-given (c ∷ existing) ip h = rw h refl

-- A list of addresses, as `X-Forwarded-For` holds it, with one more at its end.
abbrev pub appended : Text → Text → Text
appended [] ip = ip
appended (c ∷ existing) ip = (c ∷ existing) ++ codes ", " ++ ip

append_forwarded_for-appended :
    (existing ip : Text)
    → text_eq ip [] ≡ false
    → append_forwarded_for existing ip ≡ appended existing ip
unfolding append_forwarded_for dec_text
append_forwarded_for-appended [] ip h = rw h refl
append_forwarded_for-appended (c ∷ existing) ip h = rw h refl

-- the scheme of the client's request, where the other proxies told it
abbrev pub scheme_of : Bool → Text → Text
scheme_of true told = codes "https"
scheme_of false [] = codes "http"
scheme_of false (c ∷ told) = c ∷ told

request_proto-scheme_of :
    (r : Request)
    → request_proto r ≡ scheme_of r.tls (get_first (codes "X-Forwarded-Proto") r.header)
unfolding request_proto dec_text
request_proto-scheme_of r = same r.tls (get_first (codes "X-Forwarded-Proto") r.header)
  where
    same :
        (tls : Bool) (told : Text)
        → (if tls then codes "https" else if not (text_eq told []) then told else codes "http")
          ≡ scheme_of tls told
    same true told = refl
    same false [] = refl
    same false (c ∷ told) = refl

-- the headers after each step of `outbound_header`
abbrev hosted : Request → Values
hosted r = set_value (codes "X-Forwarded-Host") (strip_port r.host) (sanitize_hop_headers r.header)

abbrev typed : Request → Values
typed r = set_value (codes "X-Forwarded-Proto") (request_proto r) (hosted r)

abbrev listed : Request → Text
listed r =
    append_forwarded_for (get_first (codes "X-Forwarded-For") r.header) (client_ip_from_request r)

abbrev passed : Request → Values
passed r = set_if (codes "X-Forwarded-For") (listed r) (typed r)

outbound_header_host :
    (r : Request)
    → GoMap.get dec_text (codes "X-Forwarded-Host") (outbound_header r)
      ≡ some (strip_port r.host ∷ [])
unfolding outbound_header dec_text
outbound_header_host r =
    let ip = client_ip_from_request r in
    get-set_if_other (codes "X-Forwarded-Host") (codes "X-Real-Ip") ip (passed r) refl
    ∙ get-set_if_other (codes "X-Forwarded-Host") (codes "X-Forwarded-For") (listed r) (typed r)
        refl
    ∙ get-set_other (codes "X-Forwarded-Host") (codes "X-Forwarded-Proto") (request_proto r)
        (hosted r) refl
    ∙ get-set_same (codes "X-Forwarded-Host") (strip_port r.host) (sanitize_hop_headers r.header)

outbound_header_proto :
    (r : Request)
    → GoMap.get dec_text (codes "X-Forwarded-Proto") (outbound_header r)
      ≡ some (request_proto r ∷ [])
unfolding outbound_header dec_text
outbound_header_proto r =
    let ip = client_ip_from_request r in
    get-set_if_other (codes "X-Forwarded-Proto") (codes "X-Real-Ip") ip (passed r) refl
    ∙ get-set_if_other (codes "X-Forwarded-Proto") (codes "X-Forwarded-For") (listed r) (typed r)
        refl
    ∙ get-set_same (codes "X-Forwarded-Proto") (request_proto r) (hosted r)

pub outbound_header_real :
    (r : Request)
    → text_eq (client_ip_from_request r) [] ≡ false
    → GoMap.get dec_text (codes "X-Real-Ip") (outbound_header r)
      ≡ some (client_ip_from_request r ∷ [])
unfolding outbound_header
outbound_header_real r given =
    get-set_if_same (codes "X-Real-Ip") (client_ip_from_request r) (passed r) given

pub outbound_header_forwarded :
    (r : Request)
    → text_eq (client_ip_from_request r) [] ≡ false
    → GoMap.get dec_text (codes "X-Forwarded-For") (outbound_header r)
      ≡ some
          (appended (get_first (codes "X-Forwarded-For") r.header) (client_ip_from_request r) ∷ [])
unfolding outbound_header dec_text
outbound_header_forwarded r given =
    let existing = get_first (codes "X-Forwarded-For") r.header in
    let ip = client_ip_from_request r in
    get-set_if_other (codes "X-Forwarded-For") (codes "X-Real-Ip") ip (passed r) refl
    ∙ get-set_if_same (codes "X-Forwarded-For") (listed r) (typed r)
        (append_forwarded_for-given existing ip given)
    ∙ ap (λ (t : Text). some (t ∷ [])) (append_forwarded_for-appended existing ip given)

-- The request to a backend carries none of the hop-by-hop headers. It names the scheme: `https` where
-- the client uses TLS, else what another proxy told, and else `http`. Where `clientIPFromRequest` finds
-- an address, that is not the empty text, it is `X-Real-Ip`, and it stands after the list that was
-- there in `X-Forwarded-For`. Where the host of the request is a name with a port or without one, both
-- without colons and brackets and the name not empty, `X-Forwarded-Host` is that name.
pub outbound_header_lem :
    (r : Request) (name : Text) (port : Option Text)
    → name ≢ []
    → Plain name
    → PlainPort port
    → All (Absent (outbound_header r)) hop_by_hop
      × (GoMap.get dec_text
            (codes "X-Forwarded-Host")
            (outbound_header (record r { host = with_port name port }))
          ≡ some (name ∷ []))
      × (GoMap.get dec_text (codes "X-Forwarded-Proto") (outbound_header r)
          ≡ some (scheme_of r.tls (get_first (codes "X-Forwarded-Proto") r.header) ∷ []))
      × ((client_ip_from_request r ≡ [])
          ⊎ ((GoMap.get dec_text (codes "X-Real-Ip") (outbound_header r)
                ≡ some (client_ip_from_request r ∷ []))
              × (GoMap.get dec_text (codes "X-Forwarded-For") (outbound_header r)
                  ≡ some (
                      appended
                        (get_first (codes "X-Forwarded-For") r.header)
                        (client_ip_from_request r)
                      ∷ []))))
outbound_header_lem r name port given plain plain_port = (
  hop-Absent r,
  outbound_header_host (record r { host = with_port name port })
      ∙ ap (λ (t : Text). some (t ∷ [])) (strip_port-with_port name port given plain plain_port),
  outbound_header_proto r ∙ ap (λ (t : Text). some (t ∷ [])) (request_proto-scheme_of r),
  elim (dec_text (client_ip_from_request r) []) [
    | yes unknown ↦ inl unknown
    | no known ↦
        let present = text_eq_of_ne (client_ip_from_request r) [] known in
        inr (outbound_header_real r present, outbound_header_forwarded r present)
  ],
)
