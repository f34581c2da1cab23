-- ===== src/Cache/Responses.antt =====
-- pkg/cache/cache.go: `Entry`, its `Clone`, and `BuildEntry`.
use p2p_gossip_lb.Prelude.{ℕ, Option, none, some, List, [], length, if◌then◌else◌}
use p2p_gossip_lb.Prelude.Int.{ℤ, pos, ltb_ℤ}
use p2p_gossip_lb.Prelude.Text.{Text}
use p2p_gossip_lb.Prelude.Time.{Time, Duration, zero_time, add}
use p2p_gossip_lb.GoMap.{GoMap}

-- `http.Header`, which may be nil
abbrev Header : Type 0
Header = Option (GoMap Text (List Text))

pub record Entry : Type 0 where
  pub status : ℤ
  pub header : Header
  pub body : Text
  pub stored_at : Time
  pub expires_at : Time
  pub size : ℕ  -- an int64 that `BuildEntry` sets to a length

-- Values are copied here in any case; what shows is that a nil header becomes an empty one.
abbrev clone_header : Header → Header
clone_header none = some []
clone_header (some h) = some h

unfoldable pub clone : Entry → Entry
clone e = record e { header = clone_header e.header }

-- the fields of an `http.Response` that `BuildEntry` reads
pub record Response : Type 0 where
  pub status_code : ℤ
  pub header : Header

-- `BuildEntry` at the time `now`; a nil response gives a nil entry.
unfoldable pub build_entry : Option Response → Text → Duration → Time → Option Entry
build_entry none body ttl now = none
build_entry (some resp) body ttl now = some (record {
  status = resp.status_code;
  header = clone_header resp.header;
  body = body;
  stored_at = now;
  expires_at = if ltb_ℤ (pos 0) ttl then add now ttl else zero_time;
  size = length body;
})
