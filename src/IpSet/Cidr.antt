-- ===== src/IpSet/Cidr.antt =====
-- A CIDR range holds the addresses that share the network's prefix, and no others.
use npm.Common.{
  ℕ, zero, suc, ◌+◌, ◌-◌, ◌*◌, ◌/◌, ◌%◌, ◌^◌, ◌≤◌, ◌<◌, ◌≡◌, ◌↔◌, refl, sym, ◌∙◌, arith, true,
  false, ◌==◌, leb, ◌&&◌,
}
use mathlib.Core.Path.{subst}
use npm.Common.Bits.{bit_and_high, bit_or_disjoint}
use Prim.Native.Nat.{bit_and}
use npm.IpSet.Range.{Range, contains, mask, complement, from_cidr, in_cidr}
use native.Mathlib.Decide.{dec_lt}
use native.Mathlib.Nat.{
  pow-zero, pow-suc, one-le-pow, mod-eq_of_lt, mul-add-mod_self_right, add-zero, add-suc,
  div-eq_of_lt, div-eq_of_lt-le, div-mul-le_self, lt-div-mul-add, div-lt_iff_lt-mul,
  mul-le-mul_right,
}

two_pow_add : (j k : ℕ) → 2 ^ (j + k) ≡ 2 ^ j * 2 ^ k
two_pow_add j zero = rw (add-zero, pow-zero) (omega arith)
two_pow_add j (suc k) = rw (add-suc, pow-suc 2 (j + k), two_pow_add j k, pow-suc 2 k) (omega arith)

shifted : (n p : ℕ) → p ≤ n → n * suc p ≡ p * suc n + (n - p)
shifted n p h = grind arith

-- `!0 << k` is a block of ones over `k` zeros.
shift_mod : (a p : ℕ) → 0 < a → 0 < p → (a * p - 1) * p % (a * p) ≡ (a - 1) * p
shift_mod (suc a) (suc p) ha hp =
    let n : ℕ = a * suc p + p in
    let e : suc a * suc p ≡ suc n = omega arith in
    let e' : suc n - 1 ≡ n = omega arith in
    let f : suc a - 1 ≡ a = omega arith in
    let d : n - p ≡ a * suc p = omega arith in
    rw
      (
        e,
        e',
        shifted n p (omega arith),
        mul-add-mod_self_right p (suc n) (n - p),
        mod-eq_of_lt {n = n - p} {m = suc n} (omega arith),
        d,
        f,
      )
      refl
shift_mod zero p ha hp = elim ha [ ]
shift_mod (suc a) zero ha hp = elim hp [ ]

mask_lem : (j k : ℕ) → mask (j + k) k ≡ (2 ^ j - 1) * 2 ^ k
unfolding mask
mask_lem j k =
    rw two_pow_add
      (shift_mod (2 ^ j) (2 ^ k) (one-le-pow j 2 (omega arith)) (one-le-pow k 2 (omega arith)))

complement_mod : (a p : ℕ) → 0 < a → a * p - 1 - (a - 1) * p ≡ p - 1
complement_mod zero p h = elim h [ ]
complement_mod (suc a) p h = let e : suc a - 1 ≡ a = omega arith in rw e (omega arith)

complement_lem : (j k : ℕ) → complement (j + k) (mask (j + k) k) ≡ 2 ^ k - 1
unfolding complement
complement_lem j k =
    rw (mask_lem j k, two_pow_add j k)
      (complement_mod (2 ^ j) (2 ^ k) (one-le-pow j 2 (omega arith)))

-- The range between the lowest and the highest address with the prefix.
pub from_cidr_ends :
    (j k ip : ℕ)
    → 0 < j
    → 0 < k
    → ip < 2 ^ (j + k)
    → ((from_cidr (j + k) ip j).start ≡ ip / 2 ^ k * 2 ^ k)
      × ((from_cidr (j + k) ip j).end ≡ ip / 2 ^ k * 2 ^ k + (2 ^ k - 1))
unfolding from_cidr
from_cidr_ends j k ip hj hk h =
    let some_prefix : (j == 0) ≡ false = ground arith in
    let inside : leb (j + k) j ≡ false = ground arith in
    let left : j + k - j ≡ k = omega arith in
    let start : bit_and ip (mask (j + k) k) ≡ ip / 2 ^ k * 2 ^ k =
      rw (mask_lem j k) (bit_and_high k j ip h) in
    let pos : 1 ≤ 2 ^ k = one-le-pow k 2 (omega arith) in
    rw (some_prefix, inside, left, start, complement_lem j k)
      (refl, bit_or_disjoint k (ip / 2 ^ k) (2 ^ k - 1) (omega arith))

-- The block of `p` numbers that `q * p` begins.
block_iff : (q p v : ℕ) → 0 < p → ((leb (q * p) v && leb v (q * p + (p - 1))) ≡ true) ↔ (v / p ≡ q)
block_iff q p v h = (
  λ e.
      let lo : q * p ≤ v = ground arith in
      let hi : v ≤ q * p + (p - 1) = ground arith in div-eq_of_lt-le p lo (omega arith),
  λ e.
      let lo : v / p * p ≤ v = div-mul-le_self v p in
      let hi : v < v / p * p + p = lt-div-mul-add h in
      let lo' : q * p ≤ v = rw e at lo in let hi' : v < q * p + p = rw e at hi in ground arith,
)

-- The three cases of `from_cidr`.
in_cidr_all : (bits net addr : ℕ) → addr < 2 ^ bits → in_cidr bits net 0 addr ≡ true
unfolding in_cidr
in_cidr_all bits net addr h = ground arith

in_cidr_one :
    (bits net prefix addr : ℕ)
    → 0 < prefix
    → bits ≤ prefix
    → (in_cidr bits net prefix addr ≡ true) ↔ (addr ≡ net)
unfolding in_cidr
in_cidr_one bits net prefix addr hp h = (λ e. ground arith, λ e. ground arith)

in_cidr_block :
    (j k net addr : ℕ)
    → 0 < j
    → 0 < k
    → net < 2 ^ (j + k)
    → (in_cidr (j + k) net j addr ≡ true) ↔ (addr / 2 ^ k ≡ net / 2 ^ k)
in_cidr_block j k net addr hj hk h =
    let (s, e) = from_cidr_ends j k net hj hk h in
    unfold in_cidr contains in
    rw (s, e) (block_iff (net / 2 ^ k) (2 ^ k) addr (one-le-pow k 2 (omega arith)))

-- An address is in the range of `net/prefix` exactly when it agrees with `net` on the bits above
-- the last `bits - prefix` ones: on none for a prefix of 0, on all of them for a prefix of `bits`
-- and more.
pub in_cidr_iff :
    (bits net prefix addr : ℕ)
    → net < 2 ^ bits
    → addr < 2 ^ bits
    → (in_cidr bits net prefix addr ≡ true)
      ↔ (addr / 2 ^ (bits - prefix) ≡ net / 2 ^ (bits - prefix))
in_cidr_iff bits net zero addr hn ha =
    let e : bits - 0 ≡ bits = omega arith in
    rw e (λ _. div-eq_of_lt ha ∙ sym (div-eq_of_lt hn), λ _. in_cidr_all bits net addr ha)
in_cidr_iff bits net (suc p) addr hn ha = elim (dec_lt (suc p) bits) [
  | yes inside ↦
      let k : ℕ = bits - suc p in
      let e : bits ≡ suc p + k = omega arith in
      subst (λ b. (in_cidr b net (suc p) addr ≡ true) ↔ (addr / 2 ^ k ≡ net / 2 ^ k)) (sym e)
        (in_cidr_block (suc p) k net addr (omega arith) (omega arith)
          (subst (λ b. net < 2 ^ b) e hn))
  | no beyond ↦
      let e : bits - suc p ≡ 0 = omega arith in
      let (to, from) = in_cidr_one bits net (suc p) addr (omega arith) (omega arith) in
      rw (e, pow-zero) (λ x. omega (arith, to x), λ x. from (omega arith))
]

abbrev IsAround : ℕ → ℕ → Range → Type 0
IsAround bits net r = (r.start ≤ net) × (net ≤ r.end) × (r.end < 2 ^ bits)

block-IsAround :
    (j k net : ℕ)
    → 0 < j
    → 0 < k
    → net < 2 ^ (j + k)
    → IsAround (j + k) net (from_cidr (j + k) net j)
block-IsAround j k net hj hk h =
    let p : ℕ = 2 ^ k in
    let q : ℕ = net / p in
    let (s, e) = from_cidr_ends j k net hj hk h in
    let pos : 1 ≤ p = one-le-pow k 2 (omega arith) in
    let whole : 2 ^ (j + k) ≡ 2 ^ j * p = two_pow_add j k in
    let lo : q * p ≤ net = div-mul-le_self net p in
    let hi : net < q * p + p = lt-div-mul-add pos in
    let few : q < 2 ^ j = (div-lt_iff_lt-mul pos).1 (omega arith) in
    let top : suc q * p ≤ 2 ^ j * p = mul-le-mul_right p few in
    (omega arith, omega arith, omega arith)

-- The ends are addresses, in order, and the network's own address lies between them.
pub from_cidr_bounds :
    (bits net prefix : ℕ)
    → net < 2 ^ bits
    → ((from_cidr bits net prefix).start ≤ net)
      × (net ≤ (from_cidr bits net prefix).end)
      × ((from_cidr bits net prefix).end < 2 ^ bits)
from_cidr_bounds bits net zero h = unfold from_cidr in omega arith
from_cidr_bounds bits net (suc p) h = elim (dec_lt (suc p) bits) [
  | yes inside ↦
      let k : ℕ = bits - suc p in
      let e : bits ≡ suc p + k = omega arith in
      subst (λ b. IsAround b net (from_cidr b net (suc p))) (sym e)
        (block-IsAround (suc p) k net (omega arith) (omega arith) (subst (λ b. net < 2 ^ b) e h))
  | no beyond ↦
      let e : leb bits (suc p) ≡ true = ground arith in
      let some_prefix : (suc p == 0) ≡ false = ground arith in
      unfold from_cidr in rw (some_prefix, e) (omega arith)
]
