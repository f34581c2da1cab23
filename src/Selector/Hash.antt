-- ===== src/Selector/Hash.antt =====
-- pkg/selector/selector.go: `sipHash24` and `doSipRound`, on 64-bit words.
use p2p_gossip_lb.Prelude.{ℕ, zero, suc, ◌+◌, ◌-◌, ◌*◌, ◌/◌, ◌%◌, ◌^◌, ◌<◌, [], ◌∷◌, length, arith}
use p2p_gossip_lb.Prelude.Int.{u64}
use p2p_gossip_lb.Prelude.Text.{Text, codes}

-- `^` on the lowest `bits` bits of two words; the bits above are 0.
unfoldable pub xor_bits : ℕ → ℕ → ℕ → ℕ
xor_bits zero a b = 0
xor_bits (suc bits) a b = (a + b) % 2 + 2 * xor_bits bits (a / 2) (b / 2)

abbrev xor : ℕ → ℕ → ℕ
xor a b = xor_bits 64 a b

-- `x << k | x >> (64 - k)`: the two parts have no bit in common, so `|` adds them.
abbrev rotate_left : ℕ → ℕ → ℕ
rotate_left x k = u64 (x * 2 ^ k) + x / 2 ^ (64 - k)

pub record Words : Type 0 where
  pub v0 : ℕ
  pub v1 : ℕ
  pub v2 : ℕ
  pub v3 : ℕ

-- `doSipRound`; a name with a prime is the variable after its last assignment.
unfoldable do_sip_round : Words → Words
unfolding xor_bits
do_sip_round w =
    let a0 = u64 (w.v0 + w.v1) in
    let a1 = xor (rotate_left w.v1 13) a0 in
    let b0 = rotate_left a0 32 in
    let a2 = u64 (w.v2 + w.v3) in
    let a3 = xor (rotate_left w.v3 16) a2 in
    let c0 = u64 (b0 + a3) in
    let b3 = xor (rotate_left a3 21) c0 in
    let b2 = u64 (a2 + a1) in
    let b1 = xor (rotate_left a1 17) b2 in
    record { v0 = c0; v1 = b1; v2 = rotate_left b2 32; v3 = b3 }

abbrev rounds : ℕ → Words → Words
rounds zero w = w
rounds (suc n) w = rounds n (do_sip_round w)

-- `binary.LittleEndian.Uint64` on eight bytes, and the bytes `b[i] | b[i+1] << 8 | ...` of a tail.
abbrev little_endian : Text → ℕ
little_endian [] = 0
little_endian (b ∷ bs) = b + 256 * little_endian bs

-- `v3 ^= m`, two rounds, `v0 ^= m`
unfoldable absorb : ℕ → Words → Words
unfolding xor_bits do_sip_round
absorb m w =
    let r = rounds 2 (record { v0 = w.v0; v1 = w.v1; v2 = w.v2; v3 = xor w.v3 m }) in
    record { v0 = xor r.v0 m; v1 = r.v1; v2 = r.v2; v3 = r.v3 }

-- The loop over blocks of eight bytes, then the last word: the bytes that are left, and the length
-- modulo 256 in the top byte.
unfoldable absorb_all : ℕ → Words → Text → Words
unfolding absorb
absorb_all n w (a ∷ b ∷ c ∷ d ∷ e ∷ f ∷ g ∷ h ∷ rest) =
    absorb_all n (absorb (little_endian (a ∷ b ∷ c ∷ d ∷ e ∷ f ∷ g ∷ h ∷ [])) w) rest
absorb_all n w rest = absorb (u64 (n * 2 ^ 56) + little_endian rest) w

abbrev k0 : ℕ
k0 = little_endian (codes "selector")

abbrev k1 : ℕ
k1 = little_endian (codes "stickeys")

abbrev initial : Words
initial = record {
  v0 = xor 8317987319222330741 k0;
  v1 = xor 7237128888997146477 k1;
  v2 = xor 7816392313619706465 k0;
  v3 = xor 8387220255154660723 k1;
}

pub sip_hash24 : Text → ℕ
unfolding xor_bits do_sip_round absorb_all
sip_hash24 key =
    let w = absorb_all (length key) initial key in
    let r = rounds 4 (record { v0 = w.v0; v1 = w.v1; v2 = xor w.v2 255; v3 = w.v3 }) in
    xor (xor (xor r.v0 r.v1) r.v2) r.v3

xor_bits-lt : (bits a b : ℕ) → xor_bits bits a b < 2 ^ bits
unfolding xor_bits
xor_bits-lt zero a b = omega arith
xor_bits-lt (suc bits) a b = ground (arith, xor_bits-lt bits (a / 2) (b / 2))

-- The hash is a 64-bit word.
sip_hash24-lt : (key : Text) → sip_hash24 key < 2 ^ 64
unfolding sip_hash24
sip_hash24-lt key = xor_bits-lt 64 _ _
