-- ===== src/Crdt/VersionVector/Order.antt =====
-- `Compare` decides the pointwise order of the counters, and `Bump` moves up in it.
use p2p_gossip_lb.Prelude.{
  ℕ, ◌≤◌, ◌<◌, ◌≡◌, ◌≢◌, ◌⊎◌, inl, inr, refl, ◌∙◌, sym, Bool, true, false, ◌&&◌, ◌↔◌, List, [], ◌∷◌,
  ◌++◌, arith, ltb, if◌then◌else◌, In, if_neg, Bool-cases,
}
use p2p_gossip_lb.Prelude.Text.{Text, dec_text}
use p2p_gossip_lb.GoMap
use p2p_gossip_lb.GoMap.{GoMap, get-put}
use p2p_gossip_lb.Crdt.VersionVector.{
  VersionVector, bump, count_at, Comparison, concurrent, descendant, ancestor, equal, keys,
  compare_loop, compare, conclude,
}

-- every counter of `a` is at most that of `b`
abbrev pub ◌⊑◌ : GoMap Text ℕ → GoMap Text ℕ → Type 0
◌⊑◌ a b = (k : Text) → count_at a k ≤ count_at b k

-- What each outcome of the comparison of `self` with `other` says.
abbrev pub Means : Comparison → GoMap Text ℕ → GoMap Text ℕ → Type 0
Means equal self other = (k : Text) → count_at self k ≡ count_at other k
Means descendant self other = ◌⊑◌ other self × ((k : Text) × (count_at other k < count_at self k))
Means ancestor self other = ◌⊑◌ self other × ((k : Text) × (count_at self k < count_at other k))
Means concurrent self other =
    ((k : Text) × (count_at other k < count_at self k))
    × ((k : Text) × (count_at self k < count_at other k))

-- What a flag of the loop says, with the keys `ks` still to come: `low` is below `high` somewhere,
-- or nowhere outside of `ks`.
abbrev Flag : Bool → List Text → GoMap Text ℕ → GoMap Text ℕ → Type 0
Flag true ks low high = (k : Text) × (count_at low k < count_at high k)
Flag false ks low high = (k : Text) → In k ks ⊎ (count_at high k ≤ count_at low k)

Flag-drop :
    (b : Bool) (k : Text) (ks : List Text) (low high : GoMap Text ℕ)
    → count_at high k ≤ count_at low k
    → Flag b (k ∷ ks) low high
    → Flag b ks low high
Flag-drop true k ks low high h f = f
Flag-drop false k ks low high h f =
    λ j. elim (f j) [ inl (inl e) ↦ inr (rw e h) | inl (inr i) ↦ inl i | inr le ↦ inr le ]

conclude-Means :
    (self_greater other_greater : Bool) (self other : GoMap Text ℕ)
    → self_greater && other_greater ≡ false
    → Flag self_greater [] other self
    → Flag other_greater [] self other
    → Means (conclude self_greater other_greater) self other
conclude-Means true true self other no_both f g = cc
conclude-Means true false self other no_both f g =
    (λ k. elim (g k) [ inl e ↦ absurd (e tt) | inr h ↦ h ], f)
conclude-Means false true self other no_both f g =
    ((λ k. elim (f k) [ inl e ↦ absurd (e tt) | inr h ↦ h ]), g)
conclude-Means false false self other no_both f g = λ k. elim (f k) [
  | inl e ↦ absurd (e tt)
  | inr h ↦ elim (g k) [ inl e ↦ absurd (e tt) | inr h' ↦ omega arith ]
]

stop-Means :
    (self_greater other_greater : Bool) (ks : List Text) (self other : GoMap Text ℕ)
    (rest : Comparison)
    → Flag self_greater ks other self
    → Flag other_greater ks self other
    → (self_greater && other_greater ≡ false → Means rest self other)
    → Means (if self_greater && other_greater then concurrent else rest) self other
stop-Means true true ks self other rest f g go_on = (f, g)
stop-Means true false ks self other rest f g go_on = go_on refl
stop-Means false og ks self other rest f g go_on = go_on refl

compare_loop-Means :
    (self other : GoMap Text ℕ) (ks : List Text) (self_greater other_greater : Bool)
    → self_greater && other_greater ≡ false
    → Flag self_greater ks other self
    → Flag other_greater ks self other
    → Means (compare_loop self other ks self_greater other_greater) self other
unfolding compare_loop
compare_loop-Means self other [] sg og not_both f g = conclude-Means sg og self other not_both f g
compare_loop-Means self other (k ∷ ks) sg og not_both f g =
    elim (Bool-cases (ltb (count_at other k) (count_at self k))) [
      | inl above ↦
          let lt : count_at other k < count_at self k = ground arith in
          let g' = Flag-drop og k ks self other (omega arith) g in
          rw above (
            stop-Means true og ks self other _ (k, lt) g'
              (λ e. compare_loop-Means self other ks true og e (k, lt) g'))
      | inr not_above ↦
          let f' = Flag-drop sg k ks other self (ground arith) f in
          elim (Bool-cases (ltb (count_at self k) (count_at other k))) [
            | inl below ↦
                let lt : count_at self k < count_at other k = ground arith in
                rw (not_above, below)
                  (stop-Means sg true ks self other _ f' (k, lt)
                    (λ e. compare_loop-Means self other ks sg true e f' (k, lt)))
            | inr not_below ↦
                let g' = Flag-drop og k ks self other (ground arith) g in
                rw (not_above, not_below)
                  (stop-Means sg og ks self other _ f' g'
                    (λ e. compare_loop-Means self other ks sg og e f' g'))
          ]
    ]

-- A key that neither map holds counts 0 in both.
count_at-absent : (m : GoMap Text ℕ) (k : Text) → ¬ In k (keys m) → count_at m k ≡ 0
unfolding count_at GoMap.get
count_at-absent [] k h = refl
count_at-absent ((j, n) ∷ m) k h = elim (dec_text j k) [
  | yes p ↦ absurd (h (inl (sym p)))
  | no p ↦ rw (if_neg _ p) (count_at-absent m k (λ i. h (inr i)))
]

In-append : (k : Text) (xs ys : List Text) → ¬ In k (xs ++ ys) → (¬ In k xs) × (¬ In k ys)
In-append k [] ys h = ((λ e. e tt), h)
In-append k (x ∷ xs) ys h =
    let (left, right) = In-append k xs ys (λ i. h (inr i)) in
    ((λ i. elim i [ inl e ↦ h (inl e) | inr i' ↦ left i' ]), right)

dec_in : (k : Text) (ks : List Text) → Dec (In k ks)
dec_in k [] = no (λ e. e tt)
dec_in k (j ∷ ks) = elim (dec_text k j) [
  | yes p ↦ yes (inl p)
  | no p ↦ elim (dec_in k ks) [
    | yes i ↦ yes (inr i)
    | no n ↦ no (λ i. elim i [ inl e ↦ p e | inr i' ↦ n i' ])
  ]
]

-- Before the loop: a key that is not to come counts 0 in both.
none_yet :
    (self other : GoMap Text ℕ) (k : Text)
    → In k (keys self ++ keys other) ⊎ (count_at self k ≡ count_at other k)
none_yet self other k = elim (dec_in k (keys self ++ keys other)) [
  | yes i ↦ inl i
  | no n ↦
      let (left, right) = In-append k (keys self) (keys other) n in
      inr (count_at-absent self k left ∙ sym (count_at-absent other k right))
]

-- The outcome of `Compare` is true of the counters: equal, above and somewhere strictly, below and
-- somewhere strictly, or strictly above at one key and below at another. A missing key counts 0.
compare-Means : (v : VersionVector) (other : GoMap Text ℕ) → Means (compare v other) v.vv other
unfolding compare
compare-Means v other =
    compare_loop-Means v.vv other _ false false refl
      (λ k. elim (none_yet v.vv other k) [ inl i ↦ inl i | inr e ↦ inr (omega arith) ])
      (λ k. elim (none_yet v.vv other k) [ inl i ↦ inl i | inr e ↦ inr (omega arith) ])

-- The meanings exclude one another.
Means-unique :
    (c d : Comparison) (self other : GoMap Text ℕ) → Means c self other → Means d self other → c ≡ d
Means-unique equal equal a b m n = refl
Means-unique equal descendant a b m (le, (k, lt)) = absurd (omega (arith, m k))
Means-unique equal ancestor a b m (le, (k, lt)) = absurd (omega (arith, m k))
Means-unique equal concurrent a b m ((k, lt), _) = absurd (omega (arith, m k))
Means-unique descendant equal a b (le, (k, lt)) m = absurd (omega (arith, m k))
Means-unique descendant descendant a b m n = refl
Means-unique descendant ancestor a b (le, (k, lt)) (ge, _) = absurd (omega (arith, ge k))
Means-unique descendant concurrent a b (le, _) (_, (k, lt)) = absurd (omega (arith, le k))
Means-unique ancestor equal a b (le, (k, lt)) m = absurd (omega (arith, m k))
Means-unique ancestor descendant a b (ge, _) (le, (k, lt)) = absurd (omega (arith, ge k))
Means-unique ancestor ancestor a b m n = refl
Means-unique ancestor concurrent a b (le, _) ((k, lt), _) = absurd (omega (arith, le k))
Means-unique concurrent equal a b ((k, lt), _) m = absurd (omega (arith, m k))
Means-unique concurrent descendant a b (_, (k, lt)) (le, _) = absurd (omega (arith, le k))
Means-unique concurrent ancestor a b ((k, lt), _) (le, _) = absurd (omega (arith, le k))
Means-unique concurrent concurrent a b m n = refl

-- `Compare` answers equal exactly if all counters are equal, descendant if the own ones are nowhere
-- below and somewhere above the other's, ancestor for the converse, and concurrent if they are above
-- at one key and below at another; a missing key counts 0.
pub compare_iff :
    (v : VersionVector) (other : GoMap Text ℕ) (c : Comparison)
    → (compare v other ≡ c) ↔ Means c v.vv other
compare_iff v other c =
    ((λ e. rw e at (compare-Means v other)), Means-unique _ c v.vv other (compare-Means v other))

-- the outcome that the other side sees
abbrev flip : Comparison → Comparison
flip concurrent = concurrent
flip descendant = ancestor
flip ancestor = descendant
flip equal = equal

Means-flip : (c : Comparison) (a b : GoMap Text ℕ) → Means c a b → Means (flip c) b a
Means-flip equal a b m = λ k. sym (m k)
Means-flip descendant a b m = m
Means-flip ancestor a b m = m
Means-flip concurrent a b (x, y) = (y, x)

-- The two sides of an exchange see opposite outcomes.
compare-flip : (v w : VersionVector) → compare w v.vv ≡ flip (compare v w.vv)
compare-flip v w =
    Means-unique _ _ w.vv v.vv (compare-Means w v.vv)
      (Means-flip (compare v w.vv) v.vv w.vv (compare-Means v w.vv))

-- `Bump` raises the counter of its node to at least `counter`, lowers none, and leaves the others.
pub bump_lem :
    (v : VersionVector) (node_id : Text) (counter : ℕ)
    → (counter ≤ count_at (bump v node_id counter).vv node_id)
      × ((k : Text) → count_at v.vv k ≤ count_at (bump v node_id counter).vv k)
      × ((k : Text) → k ≢ node_id → count_at (bump v node_id counter).vv k ≡ count_at v.vv k)
unfolding bump count_at
bump_lem v node_id counter = (
  ground (arith, get-put dec_text node_id node_id counter v.vv),
  (λ k. ground (arith, get-put dec_text node_id k counter v.vv)),
  (λ k ne. ground (arith, get-put dec_text node_id k counter v.vv)),
)
