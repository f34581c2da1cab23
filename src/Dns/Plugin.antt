-- ===== src/Dns/Plugin.antt =====
-- pkg/dnsplugin/plugin.go: `NewHandler` and `ServeDNS`, over any `ZoneView`.
pub mod Outcome
use p2p_gossip_lb.Prelude.{
  ℕ, ◌==◌, Bool, true, false, not, ◌&&◌, ◌||◌, Option, none, some, List, [], ◌∷◌, ◌++◌,
  if◌then◌else◌,
}
use p2p_gossip_lb.Prelude.Int.{ℤ, pos, leb_ℤ, ltb_ℤ, eq_ℤ}
use p2p_gossip_lb.Prelude.Text.{Text, codes, text_eq}
use p2p_gossip_lb.Prelude.Time.{Time, Duration, seconds}
use p2p_gossip_lb.Prelude.Strings.{to_lower}
use p2p_gossip_lb.Proxy.RateLimiter.{Rates}
use p2p_gossip_lb.Dns.Records.{
  Rr, DnsLibrary, Rcode, success, format_error, server_failure, name_error, not_implemented,
  refused, soa_data, type_a, type_aaaa, type_https, type_ns, type_soa,
}
use p2p_gossip_lb.Dns.Names.{match_service_name, allowed_service}
use p2p_gossip_lb.Dns.Answers.{
  Extra, Addr, filter_by_type, decorate_records, build_https_record, extract_ecs, remote_ip,
}
use p2p_gossip_lb.Dns.Limiter.{RequestLimiter, new_request_limiter, allow}

-- `ZoneView`, with a state of its own; `none` is an error, and `Bool` is whether the context has ended.
pub record ZoneView : Type 1 where
  pub State : Type 0
  pub edge_records : (ℕ → Bool) → State → Text → ℤ → Text → Option (List Rr)
  pub ns_records : Bool → State → Option (List Rr)
  pub zone_serial : State → Time → ℕ × State

pub record Question : Type 0 where
  pub name : Text
  pub qtype : ℕ

-- The parts of a query that are read.
pub record Query : Type 0 where
  pub question : List Question
  pub extra : List Extra

-- The reply that is written: `SetReply`, authoritative, with these parts.
pub record Reply : Type 0 where
  pub rcode : Rcode
  pub answer : List Rr
  pub extra : List Rr

-- What `ServeDNS` does: the reply that it writes, if it does, the code that it returns, and whether it
-- returns an error.
pub record Served : Type 0 where
  pub written : Option Reply
  pub rcode : Rcode
  pub failed : Bool

module _ (dns : DnsLibrary) (rates : Rates) (view : ZoneView) where
  pub record Config : Type 0 where
    pub zone : Text
    pub chains : List Text
    pub ns_labels : List Text
    pub ttl_service : ℕ
    pub ttl_nsa : ℕ
    pub max_answers : ℤ
    pub enable_ecs : Bool

  -- `RRLRate` by what is asked of it: its sign, `rate.Limit` of it, and `int` of its double
  pub record RrlConfig : Type 0 where
    pub rate_negative : Bool
    pub rate_positive : Bool
    pub limit : rates.Limit
    pub doubled : ℤ
    pub burst : ℤ
    pub window : Duration

  pub record Handler : Type 0 where
    pub cfg : Config
    pub rate_limit : Option (RequestLimiter rates)
    pub zone_provider : view.State

  abbrev or_default : ℕ → ℕ → ℕ
  or_default n default = if n == 0 then default else n

  limiter_for : RrlConfig → Option (RequestLimiter rates)
  unfolding new_request_limiter
  limiter_for c =
      let doubled = if ltb_ℤ c.doubled (pos 1) then pos 1 else c.doubled in
      let burst = if leb_ℤ c.burst (pos 0) then doubled else c.burst in
      let window = if eq_ℤ c.window (pos 0) then seconds 300 else c.window in
      if c.rate_positive then some (new_request_limiter rates c.limit burst window) else none

  with_defaults : Config → Config
  with_defaults cfg = record cfg {
    max_answers = if leb_ℤ cfg.max_answers (pos 0) then pos 4 else cfg.max_answers;
    ttl_service = or_default cfg.ttl_service 20;
    ttl_nsa = or_default cfg.ttl_nsa 30;
  }

  new_over : Config → RrlConfig → view.State → Option Handler
  unfolding with_defaults limiter_for
  new_over cfg rrl provider =
      if rrl.rate_negative
      then none
      else if ltb_ℤ rrl.window (pos 0)
      then none
      else some (record {
        cfg = with_defaults cfg;
        rate_limit = limiter_for rrl;
        zone_provider = provider;
      })

  -- `NewHandler`; the provider may be nil
  unfoldable pub new_handler : Config → RrlConfig → Option view.State → Option Handler
  unfolding new_over
  new_handler cfg rrl provider =
      let made : Option Handler = elim provider [ none ↦ none | some p ↦ new_over cfg rrl p ] in
      if text_eq cfg.zone [] then none else made

  ns_label : List Text → Text → Text
  ns_label [] zone = codes "ns1." ++ zone
  ns_label (label ∷ labels) zone = label

  unfoldable pub soa_record : Config → ℕ → Rr
  unfolding ns_label
  soa_record cfg serial = record {
    header = record { name = dns.fqdn cfg.zone; rrtype = type_soa; ttl = cfg.ttl_nsa };
    rdata =
        soa_data (dns.fqdn (ns_label cfg.ns_labels cfg.zone))
          (dns.fqdn (codes "hostmaster." ++ cfg.zone)) serial 600 120 604800 60;
  }

  -- What `answerService` returns: records, `errNoChainMatch`, or another error.
  pub data Answered : Type 0 where
    records : List Rr → Answered
    no_chain_match : Answered
    broken : Answered

  -- The fallback is on all records where none has the type.
  abbrev pub typed : List Rr → List Rr → List Rr
  typed all [] = all
  typed all (rr ∷ filtered) = rr ∷ filtered

  unfoldable pub answer_edges : Config → Text → ℕ → Option (List Rr) → Answered
  answer_edges cfg name qtype none = broken
  answer_edges cfg name qtype (some []) = no_chain_match
  answer_edges cfg name qtype (some (rr ∷ rrs)) =
      let edges = decorate_records (rr ∷ rrs) cfg.ttl_service name in
      if qtype == type_https
      then records (build_https_record name cfg.ttl_service edges ∷ [])
      else records (typed edges (filter_by_type edges qtype))

  unfoldable pub answer_matched :
      (ℕ → Bool) → Handler → Text → ℕ → List Extra → Option (Text × Text) → Answered
  answer_matched done h name qtype extra none = no_chain_match
  answer_matched done h name qtype extra (some (chain, prefix)) =
      let ecs = if h.cfg.enable_ecs then extract_ecs extra else [] in
      if not (allowed_service prefix)
      then no_chain_match
      else answer_edges h.cfg name qtype
          (view.edge_records done h.zone_provider chain h.cfg.max_answers ecs)

  -- `answerService`. What it appends for `HTTPS` goes to the additional records of the query, not of
  -- the reply, and nothing reads it there.
  unfoldable pub answer_service : (ℕ → Bool) → Handler → Text → ℕ → List Extra → Answered
  answer_service done h name qtype extra =
      answer_matched done h name qtype extra
        (match_service_name (dns.fqdn h.cfg.zone) h.cfg.chains name)

  abbrev pub ok : List Rr → Served
  ok answer = record {
    written = some (record { rcode = success; answer = answer; extra = [] });
    rcode = success;
    failed = false;
  }

  -- a reply without records
  abbrev pub bare : Rcode → Served
  bare code = record {
    written = some (record { rcode = code; answer = []; extra = [] });
    rcode = code;
    failed = false;
  }

  abbrev pub unwritten : Rcode → Served
  unwritten code = record { written = none; rcode = code; failed = true }

  abbrev pub serve_answered : Answered → Served
  serve_answered (records answer) = ok answer
  serve_answered no_chain_match = bare name_error
  serve_answered broken = unwritten server_failure

  abbrev pub serve_ns : Option (List Rr) → Served
  serve_ns none = unwritten server_failure
  serve_ns (some answer) = ok answer

  -- the `switch` on the type of the question
  unfoldable pub serve_question :
      (ℕ → Bool) → Time → Handler → List Extra → Question → Handler × Served
  serve_question done now h extra q =
      let name = to_lower (dns.fqdn q.name) in
      let (serial, provider) = view.zone_serial h.zone_provider now in
      if q.qtype == type_soa
      then (record h { zone_provider = provider }, ok (soa_record h.cfg serial ∷ []))
      else if q.qtype == type_ns
      then (h, serve_ns (view.ns_records (done 0) h.zone_provider))
      else if q.qtype == type_a || q.qtype == type_aaaa || q.qtype == type_https
      then (h, serve_answered (answer_service done h name q.qtype extra))
      else (h, bare not_implemented)

  unfoldable pub limit_in : Handler → Text → Time → Option (RequestLimiter rates) → Handler × Bool
  limit_in h ip now none = (h, true)
  limit_in h ip now (some limiter) =
      let (limiter', allowed) = allow rates limiter ip now in
      (record h { rate_limit = some limiter' }, allowed)

  unfoldable pub serve_first :
      (ℕ → Bool) → Time → Handler → Addr → List Extra → Question → Handler × Served
  serve_first done now h from extra q =
      let (h', allowed) = limit_in h (remote_ip from) now h.rate_limit in
      let served = serve_question done now h' extra q in
      if allowed then served else (h', bare refused)

  -- `ServeDNS` of a query from an address, at a time
  unfoldable pub serve_dns : (ℕ → Bool) → Time → Handler → Addr → Query → Handler × Served
  serve_dns done now h from r = elim r.question [
    | [] ↦ (h, unwritten format_error)
    | q ∷ questions ↦ serve_first done now h from r.extra q
  ]
