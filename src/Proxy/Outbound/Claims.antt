-- ===== src/Proxy/Outbound/Claims.antt =====
-- What a client claims of its address, and what becomes of the claim.
use p2p_gossip_lb.Prelude.{◌≢◌, ap, ◌++◌, refl, some, false, ◌≡◌, ◌∙◌, [], ◌∷◌}
use p2p_gossip_lb.Prelude.Text.{text_eq_of_ne, codes, Text, text_eq, dec_text}
use p2p_gossip_lb.Proxy.Helpers.{claimed_ip, client_ip_from_request}
use p2p_gossip_lb.GoMap
use p2p_gossip_lb.Prelude.Strings.{has_byte, trim_space}
use p2p_gossip_lb.Prelude.Strings.Laws.{split-append}
use p2p_gossip_lb.GoMap.{GoMap, get-put, get-delete}
use p2p_gossip_lb.Proxy.Http.{get_first, Request}
use p2p_gossip_lb.Proxy.Outbound.{request_proto, outbound_header}
use p2p_gossip_lb.Proxy.Outbound.Headers.{appended, outbound_header_real, outbound_header_forwarded}

claimed_ip-first :
    (r : Request) (ip rest : Text)
    → get_first (codes "X-Forwarded-For") r.header ≡ ip ++ b',' ∷ rest
    → has_byte b',' ip ≡ false
    → trim_space ip ≡ ip
    → claimed_ip r ≡ ip
unfolding claimed_ip
claimed_ip-first r ip rest list one bare = rw (list, split-append b',' ip rest one) bare

client_ip_from_request-claimed_ip :
    (r : Request) → text_eq (claimed_ip r) [] ≡ false → client_ip_from_request r ≡ claimed_ip r
unfolding client_ip_from_request
client_ip_from_request-claimed_ip r h = rw h refl

outbound_header_any_peer :
    (r : Request) (addr : Text)
    → text_eq (claimed_ip r) [] ≡ false
    → outbound_header (record r { remote_addr = addr }) ≡ outbound_header r
unfolding outbound_header client_ip_from_request claimed_ip request_proto
outbound_header_any_peer r addr h = rw h refl

appended-claim :
    (ip rest : Text)
    → ip ≢ []
    → appended (ip ++ b',' ∷ rest) ip ≡ (ip ++ b',' ∷ rest) ++ codes ", " ++ ip
appended-claim [] rest h = absurd (h refl)
appended-claim (c ∷ ip) rest h = refl

-- Where `X-Forwarded-For` starts with an address and a comma, the address without spaces around it,
-- that claim is what `clientIPFromRequest` finds and what is sent on as `X-Real-Ip`, and it stands once
-- more at the end of `X-Forwarded-For`, whatever address the request comes from. That address does not
-- show in the headers that are sent on.
pub outbound_header_claimed :
    (r : Request) (addr ip rest : Text)
    → get_first (codes "X-Forwarded-For") r.header ≡ ip ++ b',' ∷ rest
    → has_byte b',' ip ≡ false
    → trim_space ip ≡ ip
    → ip ≢ []
    → (client_ip_from_request (record r { remote_addr = addr }) ≡ ip)
      × (GoMap.get dec_text (codes "X-Real-Ip") (outbound_header (record r { remote_addr = addr }))
          ≡ some (ip ∷ []))
      × (GoMap.get dec_text
            (codes "X-Forwarded-For")
            (outbound_header (record r { remote_addr = addr }))
          ≡ some (((ip ++ b',' ∷ rest) ++ codes ", " ++ ip) ∷ []))
      × (outbound_header (record r { remote_addr = addr }) ≡ outbound_header r)
outbound_header_claimed r addr ip rest list one bare some_ip =
    let r' : Request = record r { remote_addr = addr } in
    let claim : claimed_ip r' ≡ ip = claimed_ip-first r' ip rest list one bare in
    let given : text_eq (claimed_ip r') [] ≡ false = rw claim (text_eq_of_ne ip [] some_ip) in
    let found : client_ip_from_request r' ≡ ip =
      client_ip_from_request-claimed_ip r' given ∙ claim in
    let known : text_eq (client_ip_from_request r') [] ≡ false =
      rw found (text_eq_of_ne ip [] some_ip) in
    let own : text_eq (claimed_ip r) [] ≡ false =
      rw (claimed_ip-first r ip rest list one bare) (text_eq_of_ne ip [] some_ip) in
    (
      found,
      outbound_header_real r' known ∙ ap (λ (t : Text). some (t ∷ [])) found,
      outbound_header_forwarded r' known
          ∙ ap (λ (t : Text). some (appended t (client_ip_from_request r') ∷ [])) list
          ∙ ap (λ (t : Text). some (appended (ip ++ b',' ∷ rest) t ∷ [])) found
          ∙ ap (λ (t : Text). some (t ∷ [])) (appended-claim ip rest some_ip),
      outbound_header_any_peer r addr own,
    )
