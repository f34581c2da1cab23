-- ===== src/Proxy/Responses/Roundtrip.antt =====
-- A response that is stored answers the next request with its key.
use p2p_gossip_lb.Prelude.{some, length, if◌then◌else◌}
use p2p_gossip_lb.Prelude.Int.{pos, ltb_ℤ}
use p2p_gossip_lb.Prelude.Text.{Text}
use p2p_gossip_lb.Prelude.Time.{Time, Duration, add}
use p2p_gossip_lb.Cache.Responses.{Entry, Response}
use p2p_gossip_lb.Proxy.Responses.{Libraries, Proxy, cleaned, values_or_none}

module _ (lib : Libraries) where
  -- The entry that `writeUpstreamResponse` makes of a response at a time.
  abbrev pub entry_of : Proxy lib → Response → Text → Time → Entry
  entry_of p resp body now =
      let ttl : Duration = if p.cache_infinite then pos 0 else p.cache_ttl in
      record {
        status = resp.status_code;
        header = some (cleaned lib (values_or_none lib resp.header));
        body = body;
        stored_at = now;
        expires_at = if ltb_ℤ (pos 0) ttl then add now ttl else pos 0;
        size = length body;
      }
