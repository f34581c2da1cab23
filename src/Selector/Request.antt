-- ===== src/Selector/Request.antt =====
-- pkg/selector/selector.go: the request, and the class of backends that it needs.
use p2p_gossip_lb.Prelude.{◌≡◌, refl, Bool, false, ◌||◌, Option, none, List, [], ◌∷◌, if◌then◌else◌}
use p2p_gossip_lb.Prelude.Int.{ℤ}
use p2p_gossip_lb.Prelude.Strings.{to_lower, has_prefix, contains}
use p2p_gossip_lb.Prelude.Text.{Text, codes}

-- `url.Values` is carried and not read here.
pub record RequestContext : Type 0 where
  pub chain_id : Text
  pub method : Text
  pub path : Text
  pub need_ws : Bool
  pub height : Option ℤ
  pub client_ip : Option Text
  pub api_key : Text
  pub jwt_sub : Text

unfoldable pub capability_for_request : RequestContext → Text
unfolding to_lower contains has_prefix
capability_for_request ctx =
    let path = to_lower ctx.path in
    if ctx.need_ws
    then codes "ws"
    else if contains path (codes "grpc")
    then codes "grpc"
    else if has_prefix path (codes "/cosmos") || contains path (codes "/lcd")
    then codes "lcd"
    else codes "rpc"

has_any_prefix : Text → List Text → Bool
unfolding has_prefix
has_any_prefix method [] = false
has_any_prefix method (name ∷ names) = has_prefix method name || has_any_prefix method names

unfoldable pub is_hot_method : Text → Bool
unfolding has_any_prefix
is_hot_method method =
    has_any_prefix method (codes "abci_query" ∷ codes "tx" ∷ codes "tx_search" ∷ [])

unfoldable pub is_heavy_method : Text → Bool
unfolding has_any_prefix
is_heavy_method method =
    has_any_prefix method (codes "block" ∷ codes "block_by_hash" ∷ codes "validators" ∷ [])

websocket_capability :
    capability_for_request (record {
      chain_id = codes "c";
      method = codes "GET";
      path = codes "/LCD/x";
      need_ws = false;
      height = none;
      client_ip = none;
      api_key = [];
      jwt_sub = [];
    })
    ≡ codes "lcd"
unfolding capability_for_request
websocket_capability = refl
