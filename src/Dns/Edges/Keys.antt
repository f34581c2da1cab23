-- ===== src/Dns/Edges/Keys.antt =====
-- Lists of keys: that none stands twice, and what a loop that skips the keys it has seen collects.
use p2p_gossip_lb.Prelude.{◌≡◌, refl, ◌∙◌, true, false, ◌||◌, List, [], ◌∷◌, ◌++◌, arith, All}
use mathlib.Core.Path.{subst}
use mathlib.Core.List.{Permᴰ}
use p2p_gossip_lb.Prelude.Text.{Text}
use p2p_gossip_lb.Dns.Edges.{has_key}

pub has_key-append :
    (k : Text) (xs ys : List Text) → has_key k (xs ++ ys) ≡ (has_key k xs || has_key k ys)
unfolding has_key
has_key-append k [] ys = refl
has_key-append k (x ∷ xs) ys = ground (arith, has_key-append k xs ys)

-- No key stands twice.
abbrev pub Distinct : List Text → Type 0
Distinct [] = Unit
Distinct (k ∷ ks) = (has_key k ks ≡ false) × Distinct ks

pub has_key-perm : (k : Text) {xs ys : List Text} → Permᴰ xs ys → has_key k xs ≡ has_key k ys
unfolding has_key
has_key-perm k Permᴰ.nil = refl
has_key-perm k (Permᴰ.cons e p) = ground (arith, e, has_key-perm k p)
has_key-perm k (Permᴰ.swap e f) = ground (arith, e, f)
has_key-perm k (Permᴰ.trans p q) = has_key-perm k p ∙ has_key-perm k q

pub Distinct-perm : {xs ys : List Text} → Permᴰ xs ys → Distinct xs → Distinct ys
unfolding has_key
Distinct-perm Permᴰ.nil h = tt
Distinct-perm (Permᴰ.cons {b = b} e p) h =
    (ground (arith, e, h.0, has_key-perm b p), Distinct-perm p h.1)
Distinct-perm (Permᴰ.swap e f) h = ground (arith, e, f)
Distinct-perm (Permᴰ.trans p q) h = Distinct-perm q (Distinct-perm p h)

pub All-perm {ℓ} :
    {A : Type ℓ} (P : A → Type 0) {xs ys : List A} → Permᴰ xs ys → All P xs → All P ys
All-perm P Permᴰ.nil h = tt
All-perm P (Permᴰ.cons e p) h = (subst P e h.0, All-perm P p h.1)
All-perm P (Permᴰ.swap e f) h = (subst P f h.1.0, (subst P e h.0, h.1.1))
All-perm P (Permᴰ.trans p q) h = All-perm P q (All-perm P p h)

pub All-append {ℓ} :
    {A : Type ℓ} (P : A → Type 0) (xs ys : List A) → All P xs → All P ys → All P (xs ++ ys)
All-append P [] ys h k = k
All-append P (x ∷ xs) ys h k = (h.0, All-append P xs ys h.1 k)

-- `keys` are new to `seen`, no two are the same, and `seen'` is `seen` with them.
pub record Collects (seen keys seen' : List Text) : Type 0 where
  pub fresh : (k : Text) → has_key k keys ≡ true → has_key k seen ≡ false
  pub distinct : Distinct keys
  pub after : (k : Text) → has_key k seen' ≡ (has_key k seen || has_key k keys)

pub Collects-none : (seen : List Text) → Collects seen [] seen
unfolding has_key
Collects-none seen = record { fresh = λ k h. cc; distinct = tt; after = λ k. ground arith }

pub Collects-cons :
    (key : Text) (seen keys seen' : List Text)
    → has_key key seen ≡ false
    → Collects (key ∷ seen) keys seen'
    → Collects seen (key ∷ keys) seen'
unfolding has_key
Collects-cons key seen keys seen' new h = record {
  fresh = λ k there. ground (arith, h.fresh k, new);
  distinct = (ground (arith, h.fresh key), h.distinct);
  after = λ k. ground (arith, h.after k);
}

Distinct-append :
    (xs ys : List Text)
    → Distinct xs
    → Distinct ys
    → ((k : Text) → has_key k ys ≡ true → has_key k xs ≡ false)
    → Distinct (xs ++ ys)
unfolding has_key
Distinct-append [] ys h k apart = k
Distinct-append (x ∷ xs) ys h k apart = (
  ground (arith, has_key-append x xs ys, h.0, apart x),
  Distinct-append xs ys h.1 k (λ j there. ground (arith, apart j there)),
)

pub Collects-append :
    (seen xs mid ys seen' : List Text)
    → Collects seen xs mid
    → Collects mid ys seen'
    → Collects seen (xs ++ ys) seen'
Collects-append seen xs mid ys seen' h k = record {
  fresh = λ j there. ground (arith, has_key-append j xs ys, h.fresh j, k.fresh j, h.after j);
  distinct =
      Distinct-append xs ys h.distinct k.distinct
        (λ j there. ground (arith, k.fresh j there, h.after j));
  after = λ j. ground (arith, has_key-append j xs ys, h.after j, k.after j);
}
