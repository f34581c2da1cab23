-- ===== src/Geo.antt =====
-- pkg/geo/geo.go: locations, distances and the geo score. `float64` is the type of the selector's
-- `Floats`; the functions of Go's `math` and the decimal literals are parameters, without laws.
use p2p_gossip_lb.Prelude.{ℕ, ◌==◌, not, ◌&&◌, Option, none, some, [], if◌then◌else◌}
use p2p_gossip_lb.Prelude.Int.{ℤ, pos}
use p2p_gossip_lb.Prelude.Text.{Text, codes, text_eq, dec_text}
use p2p_gossip_lb.GoMap
use p2p_gossip_lb.GoMap.{GoMap}
use p2p_gossip_lb.Selector.Floats.{Floats}

-- `literal m d` is m / 10^d.
pub record Math (floats : Floats) : Type 0 where
  pub literal : ℤ → ℕ → floats.Float
  pub abs : floats.Float → floats.Float
  pub sin : floats.Float → floats.Float
  pub cos : floats.Float → floats.Float
  pub sqrt : floats.Float → floats.Float
  pub atan2 : floats.Float → floats.Float → floats.Float
  pub pi : floats.Float

pub record Location (floats : Floats) : Type 0 where
  pub latitude : floats.Float
  pub longitude : floats.Float
  pub country : Text
  pub region : Text
  pub city : Text
  pub asn : ℕ

module _ (floats : Floats) (math : Math floats) where
  open floats use {Float, add, sub, mul, div, lt, le, zero as zero_float, one as one_float}

  unfoldable pub distance : Float → Float → Float → Float → Float
  distance lat1 lon1 lat2 lon2 =
      let degrees = math.literal (pos 180) 0 in
      let two = math.literal (pos 2) 0 in
      let lat1_rad = div (mul lat1 math.pi) degrees in
      let lat2_rad = div (mul lat2 math.pi) degrees in
      let delta_lat = div (mul (sub lat2 lat1) math.pi) degrees in
      let delta_lon = div (mul (sub lon2 lon1) math.pi) degrees in
      let a = add (mul (math.sin (div delta_lat two)) (math.sin (div delta_lat two))) (
        mul (mul (mul (math.cos lat1_rad) (math.cos lat2_rad)) (math.sin (div delta_lon two)))
          (math.sin (div delta_lon two))) in
      let c = mul two (math.atan2 (math.sqrt a) (math.sqrt (sub one_float a))) in
      mul (math.literal (pos 6371) 0) c

  unfoldable pub distance_between : Option (Location floats) → Option (Location floats) → Float
  unfolding distance
  distance_between (some a) (some b) = distance a.latitude a.longitude b.latitude b.longitude
  distance_between _ _ = zero_float

  unfoldable pub geo_penalty : Float → Float
  geo_penalty distance_km =
      let max_distance = math.literal (pos 20000) 0 in
      if le distance_km zero_float
      then zero_float
      else if le max_distance distance_km
      then one_float
      else div distance_km max_distance

  unfoldable pub country_match : Option (Location floats) → Option (Location floats) → Float
  country_match (some a) (some b) =
      if text_eq a.country b.country
        && not (text_eq a.country [])
        && not (text_eq a.country (codes "ZZ"))
      then math.literal (pos 2) 1
      else zero_float
  country_match _ _ = zero_float

  unfoldable pub region_match : Option (Location floats) → Option (Location floats) → Float
  region_match (some a) (some b) =
      if text_eq a.country b.country
        && text_eq a.region b.region
        && not (text_eq a.region [])
        && not (text_eq a.region (codes "unknown"))
      then math.literal (pos 3) 1
      else zero_float
  region_match _ _ = zero_float

  unfoldable pub asn_match : Option (Location floats) → Option (Location floats) → Float
  asn_match (some a) (some b) =
      if a.asn == b.asn && not (a.asn == 0) then math.literal (pos 4) 1 else zero_float
  asn_match _ _ = zero_float

  unfoldable pub total_geo_score : Option (Location floats) → Option (Location floats) → Float
  unfolding distance_between geo_penalty country_match region_match asn_match
  total_geo_score client backend =
      let penalty = geo_penalty (distance_between client backend) in
      let bonus =
        add (add (country_match client backend) (region_match client backend))
          (asn_match client backend) in
      let score = sub penalty bonus in if lt score zero_float then zero_float else score

  -- `StubProvider`, with `ip.String()` as a parameter
  pub record StubProvider : Type 0 where
    pub mapping : GoMap Text (Location floats)

  abbrev unknown_location : Location floats
  unknown_location = record {
    latitude = zero_float;
    longitude = zero_float;
    country = codes "ZZ";
    region = codes "unknown";
    city = codes "unknown";
    asn = 0;
  }

  unfoldable pub lookup : (Text → Text) → StubProvider → Text → Location floats
  unfolding GoMap.get dec_text
  lookup ip_string p ip = elim (GoMap.get dec_text (ip_string ip) p.mapping) [
    | some loc ↦ loc
    | none ↦ unknown_location
  ]

  unfoldable pub add_mapping : StubProvider → Text → Location floats → StubProvider
  unfolding GoMap.put dec_text
  add_mapping p ip loc = record { mapping = GoMap.put dec_text ip loc p.mapping }
