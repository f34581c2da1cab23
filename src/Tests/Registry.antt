-- ===== src/Tests/Registry.antt =====
-- A concrete store of pkg/registry/store.go, with stand-ins for the encoder and for Ed25519.
use p2p_gossip_lb.Prelude.{
  ℕ, suc, zero, ◌≡◌, refl, true, false, none, some, [], ◌∷◌, arith, ite, if◌then◌else◌,
}
use p2p_gossip_lb.Prelude.Int.{pos}
use p2p_gossip_lb.Prelude.Text.{Text, codes, dec_text, text_eq}
use p2p_gossip_lb.GoMap
use p2p_gossip_lb.GoMap.{GoMap}
use p2p_gossip_lb.Crdt.Clock.{Entry}
use p2p_gossip_lb.Crdt.LwwMap
use p2p_gossip_lb.Crdt.VersionVector.{count_at}
use p2p_gossip_lb.Registry.Models.{BackendMeta, BackendMetrics}
use p2p_gossip_lb.Registry.Encoding.{Crypto, canonical_backend_meta}
use p2p_gossip_lb.Registry.Store.{
  Store, ok, apply_backend_meta, apply_backend_metrics, latest_metrics, merge_backend_delta, prune,
}
use p2p_gossip_lb.Registry.Store.Signatures.{
  IsSigned, takes, Authentic, signed_meta_applied, merged_meta_unverified,
}
use p2p_gossip_lb.Registry.Store.Versions.{Covers, merge_backend_delta-Covers}
use p2p_gossip_lb.Registry.Store.Metrics.{is_live, metrics_live, shown, fresh}

abbrev repeat : ℕ → ℕ → Text
repeat zero c = []
repeat (suc n) c = c ∷ repeat n c

-- The encoder keeps the ID alone; a signature is the key followed by what is signed.
abbrev pub toy_crypto : Crypto
toy_crypto = record {
  marshal_meta = λ m. some m.id;
  marshal_advert = λ a. some a.id;
  verify = λ key message sig. text_eq sig (message);
}

abbrev key32 : Text
key32 = repeat 32 7

abbrev pub backend : Text → Text → ℕ → BackendMeta
backend id sig clock = record {
  id = id;
  host = codes "h";
  ips = [];
  country = codes "DE";
  region = codes "eu";
  chain_id = codes "c";
  caps = (codes "rpc", true) ∷ [];
  archival = false;
  owner_pk = key32;
  added_at = pos 5;
  sig = sig;
  clock = clock;
}

abbrev pub good : BackendMeta
good = backend (codes "x") (codes "x") 3

abbrev pub forged : BackendMeta
forged = backend (codes "x") (codes "forged") 4

abbrev pub empty : Store ℕ
empty = record {
  meta = record { items = [] };
  meta_vv = record { vv = [] };
  nodes = record { items = [] };
  node_vv = record { vv = [] };
  metrics = [];
  metrics_ttl = pos 10;
}

good-IsSigned : IsSigned toy_crypto good
unfolding canonical_backend_meta dec_text
good-IsSigned = (refl, (codes "x", refl, refl))

pub empty-Authentic : Authentic toy_crypto empty
unfolding GoMap.get LwwMap.get
empty-Authentic = record { signed = λ k meta shown_here. cc }

signed_meta_applied_example :
    ((apply_backend_meta toy_crypto empty good).1 ≡ ok (takes toy_crypto empty good))
    × (LwwMap.get dec_text (apply_backend_meta toy_crypto empty good).0.meta (codes "x") ≡ (
        if takes toy_crypto empty good
        then ite
            (dec_text (codes "x") (codes "x"))
            (some good)
            (LwwMap.get dec_text empty.meta (codes "x"))
        else LwwMap.get dec_text empty.meta (codes "x")))
signed_meta_applied_example = signed_meta_applied toy_crypto empty good (codes "x") good-IsSigned

abbrev forged_entry : Entry BackendMeta
forged_entry = record {
  value = forged;
  clock = record { lamport = 4; unix_nano = pos 5 };
  tombstone = false;
}

abbrev delta : GoMap Text (Entry BackendMeta)
delta = (codes "x", forged_entry) ∷ []

abbrev counters : GoMap Text ℕ
counters = (codes "x", 4) ∷ []

delta-IsMap : GoMap.IsMap dec_text delta
unfolding GoMap.get
delta-IsMap = (refl, tt)

delta_here : GoMap.get dec_text (codes "x") delta ≡ some forged_entry
unfolding GoMap.get dec_text
delta_here = refl

none_here : GoMap.get dec_text (codes "x") empty.meta.items ≡ none
unfolding GoMap.get
none_here = refl

merged_meta_unverified_example :
    LwwMap.get dec_text (merge_backend_delta empty delta counters).meta (codes "x") ≡ some forged
merged_meta_unverified_example =
    merged_meta_unverified toy_crypto empty delta counters (codes "x") forged_entry delta-IsMap
      delta_here none_here refl

empty-Covers : Covers empty.meta_vv.vv empty.meta.items
unfolding GoMap.get
empty-Covers k e found = cc

delta-Covers : Covers counters delta
unfolding GoMap.get count_at
delta-Covers k e found = ground arith

merge_backend_delta-Covers_example :
    Covers
      (merge_backend_delta empty delta counters).meta_vv.vv
      (merge_backend_delta empty delta counters).meta.items
merge_backend_delta-Covers_example =
    merge_backend_delta-Covers empty delta counters delta-IsMap delta-Covers empty-Covers

abbrev pub measured : BackendMetrics ℕ
measured = record {
  id = codes "x";
  at_unix = pos 1;
  height = pos 7;
  catching_up = false;
  cpu = 1;
  p95_ms = 2;
  rps = 3;
  fail_rate = 0;
  rtt_ms = 4;
  health = codes "ok";
  sig = [];
}

metrics_live_example :
    GoMap.get dec_text
      (codes "x")
      (latest_metrics (prune (apply_backend_metrics empty measured (pos 100)) (pos 105) (pos 105)))
    ≡ ite
        (dec_text (codes "x") (codes "x"))
        (if is_live (pos 10) (pos 105) (pos 100) then some measured else none)
        (shown (fresh (pos 10) (pos 105) (GoMap.get dec_text (codes "x") empty.metrics)))
metrics_live_example = metrics_live empty measured (pos 100) (pos 105) (pos 105) (codes "x") tt
