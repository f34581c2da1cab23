-- ===== src/Proxy/Outbound/Fields.antt =====
-- What setting and deleting headers leaves of the other ones.
use p2p_gossip_lb.Prelude.{
  if◌then◌else◌, true, Bool, refl, All, some, false, ◌≡◌, ◌∙◌, none, List, [], ◌∷◌, arith, In,
  Bool-cases, inl, inr,
}
use p2p_gossip_lb.Prelude.Text.{codes, Text, text_eq, dec_text}
use p2p_gossip_lb.GoMap
use p2p_gossip_lb.GoMap.{GoMap, get-put, get-delete}
use p2p_gossip_lb.Proxy.Http.{Request, Values, set_value}
use p2p_gossip_lb.Proxy.Outbound.{sanitize_hop_headers, outbound_header, delete_all, set_if}

abbrev pub Absent : Values → Text → Type 0
Absent header key = GoMap.get dec_text key header ≡ none

Absent-delete_all :
    (keys : List Text) (key : Text) (header : Values)
    → Absent header key
    → Absent (delete_all keys header) key
unfolding delete_all
Absent-delete_all [] key header h = h
Absent-delete_all (k ∷ keys) key header h =
    Absent-delete_all keys key (GoMap.delete dec_text k header)
      (rw (get-delete dec_text k key header) (ground (arith, h)))

pub delete_all-Absent :
    (keys : List Text) (key : Text) (header : Values)
    → In key keys
    → Absent (delete_all keys header) key
unfolding delete_all
delete_all-Absent [] key header h = absurd (h tt)
delete_all-Absent (k ∷ keys) key header (inl same) =
    Absent-delete_all keys key _ (rw (get-delete dec_text k key header) (ground (arith, same)))
delete_all-Absent (k ∷ keys) key header (inr more) = delete_all-Absent keys key _ more

pub get-set_other :
    (key k v : Text) (header : Values)
    → text_eq k key ≡ false
    → GoMap.get dec_text key (set_value k v header) ≡ GoMap.get dec_text key header
unfolding set_value
get-set_other key k v header other =
    rw (get-put dec_text k key (v ∷ []) header) (ground (arith, other))

pub get-set_same :
    (key v : Text) (header : Values)
    → GoMap.get dec_text key (set_value key v header) ≡ some (v ∷ [])
unfolding set_value
get-set_same key v header = rw (get-put dec_text key key (v ∷ []) header) (ground arith)

pub get-set_if_other :
    (key k v : Text) (header : Values)
    → text_eq k key ≡ false
    → GoMap.get dec_text key (set_if k v header) ≡ GoMap.get dec_text key header
unfolding set_if
get-set_if_other key k v header other = elim (Bool-cases (text_eq v [])) [
  | inl empty ↦ rw empty refl
  | inr given ↦ rw given (get-set_other key k v header other)
]

pub get-set_if_same :
    (key v : Text) (header : Values)
    → text_eq v [] ≡ false
    → GoMap.get dec_text key (set_if key v header) ≡ some (v ∷ [])
unfolding set_if
get-set_if_same key v header given = rw given (get-set_same key v header)

-- the names that `buildOutboundRequest` sets
abbrev set_names : List Text
set_names =
    codes "X-Real-Ip"
    ∷ codes "X-Forwarded-For"
    ∷ codes "X-Forwarded-Proto"
    ∷ codes "X-Forwarded-Host"
    ∷ []

abbrev lacks : Text → List Text → Bool
lacks key [] = true
lacks key (k ∷ names) = if text_eq k key then false else lacks key names

abbrev none_of : List Text → List Text → Bool
none_of [] names = true
none_of (key ∷ keys) names = if lacks key names then none_of keys names else false

lacks-cons :
    (key k : Text) (names : List Text)
    → lacks key (k ∷ names) ≡ true
    → (text_eq k key ≡ false) × (lacks key names ≡ true)
lacks-cons key k names h = ground arith

-- No other name is touched once the hop-by-hop headers are gone.
get-outbound_header :
    (r : Request) (key : Text)
    → lacks key set_names ≡ true
    → GoMap.get dec_text key (outbound_header r)
      ≡ GoMap.get dec_text key (sanitize_hop_headers r.header)
unfolding outbound_header
get-outbound_header r key h =
    let (real, h1) =
      lacks-cons key (codes "X-Real-Ip")
        (codes "X-Forwarded-For" ∷ codes "X-Forwarded-Proto" ∷ codes "X-Forwarded-Host" ∷ []) h in
    let (for, h2) =
      lacks-cons key (codes "X-Forwarded-For")
        (codes "X-Forwarded-Proto" ∷ codes "X-Forwarded-Host" ∷ []) h1 in
    let (proto, h3) =
      lacks-cons key (codes "X-Forwarded-Proto") (codes "X-Forwarded-Host" ∷ []) h2 in
    let (host, h4) = lacks-cons key (codes "X-Forwarded-Host") [] h3 in
    get-set_if_other key (codes "X-Real-Ip") _ _ real
    ∙ get-set_if_other key (codes "X-Forwarded-For") _ _ for
    ∙ get-set_other key (codes "X-Forwarded-Proto") _ _ proto
    ∙ get-set_other key (codes "X-Forwarded-Host") _ _ host

pub All-Absent :
    (r : Request) (keys : List Text)
    → none_of keys set_names ≡ true
    → ((key : Text) → In key keys → Absent (sanitize_hop_headers r.header) key)
    → All (Absent (outbound_header r)) keys
All-Absent r [] h gone = tt
All-Absent r (key ∷ keys) h gone = elim (Bool-cases (lacks key set_names)) [
  | inl apart ↦ (
    get-outbound_header r key apart ∙ gone key (inl refl),
    All-Absent r keys (ground (arith, apart)) (λ k at. gone k (inr at)),
  )
  | inr meets ↦ ground (arith, meets)
]
