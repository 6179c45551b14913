-- ===== src/Base/Bits.antt =====
-- The bit operations at variables: one equation for the lowest digit, and the laws that follow.
use Prim.Native.Nat.{
  ℕ, zero, suc, ◌+◌, ◌-◌, ◌*◌, ◌/◌, ◌%◌, ◌^◌, ◌≤◌, ◌<◌, min, max, bit_and, bit_or, bit_xor, digits,
  bitwise, differ, bit_and-bitwise, bit_or-bitwise, bit_xor-bitwise,
}
use mathlib.Core.Path.{◌≡◌, refl, ap, ◌∙◌}
use mathlib.Core.WellFounded.{Acc, WellFounded}
use native.Mathlib.Omega.{arith}
use native.Mathlib.Nat.{
  pow-suc, mod-add-div, mod-lt, mod-eq_of_lt, add-mul-mod_self_left, div-div-eq-div-mul,
}

Acc-below : (k n : ℕ) → n < k → Acc ◌<◌ n
Acc-below zero n h = elim h [ ]
Acc-below (suc k) n h = Acc.intro n (λ m hm. Acc-below k m (omega arith))

unfoldable pub lt_wf : WellFounded ◌<◌
unfolding Acc-below
lt_wf = record { apply = λ n. Acc-below (suc n) n (omega arith) }

-- More fuel than the first number has digits changes nothing; so the digits come off one at a time.
module _ (low : ℕ → ℕ) (op : ℕ → ℕ → ℕ) where
  digits_enough : (b a k l : ℕ) → a ≤ k → a ≤ l → digits low op k a b ≡ digits low op l a b
  digits_enough b (suc a) (suc k) (suc l) h i =
      let half : suc a / 2 ≤ k = omega arith in
      let half' : suc a / 2 ≤ l = omega arith in
      rw (digits_enough (b / 2) (suc a / 2) k l half half') refl
  digits_enough b (suc a) zero l h i = absurd (omega arith)
  digits_enough b (suc a) (suc k) zero h i = absurd (omega arith)
  digits_enough b zero zero zero h i = refl
  digits_enough b zero (suc k) zero h i = refl
  digits_enough b zero zero (suc l) h i = refl
  digits_enough b zero (suc k) (suc l) h i = refl

  bitwise_digit :
      (b a : ℕ)
      → bitwise low op (suc a) b ≡ op (suc a % 2) (b % 2) + 2 * bitwise low op (suc a / 2) (b / 2)
  bitwise_digit b a =
      let same = digits_enough (b / 2) (suc a / 2) a (suc a / 2) (omega arith) (omega arith) in
      omega (arith, same)

pub bit_and_step : (a b : ℕ) → bit_and a b ≡ bit_and (a / 2) (b / 2) * 2 + min (a % 2) (b % 2)
bit_and_step (suc a) b = simp bit_and-bitwise (omega (arith, bitwise_digit (λ d. 0) min b a))
bit_and_step zero b = simp bit_and-bitwise (omega arith)

differ_mod : (a b : ℕ) → a < 2 → b < 2 → differ a b ≡ (a + b) % 2
differ_mod zero zero ha hb = refl
differ_mod zero (suc zero) ha hb = refl
differ_mod (suc zero) zero ha hb = refl
differ_mod (suc zero) (suc zero) ha hb = refl
differ_mod zero (suc (suc b)) ha hb = absurd (omega arith)
differ_mod (suc zero) (suc (suc b)) ha hb = absurd (omega arith)
differ_mod (suc (suc a)) b ha hb = absurd (omega arith)

bit_xor_digit : (a b : ℕ) → bit_xor a b ≡ bit_xor (a / 2) (b / 2) * 2 + differ (a % 2) (b % 2)
bit_xor_digit zero b = simp bit_xor-bitwise (omega arith)
bit_xor_digit (suc a) b = simp bit_xor-bitwise (omega (arith, bitwise_digit (λ d. d) differ b a))

pub bit_or_step : (a b : ℕ) → bit_or a b ≡ bit_or (a / 2) (b / 2) * 2 + max (a % 2) (b % 2)
bit_or_step (suc a) b = simp bit_or-bitwise (omega (arith, bitwise_digit (λ d. d) max b a))
bit_or_step zero b = simp bit_or-bitwise (omega arith)

pub bit_xor_step : (a b : ℕ) → bit_xor a b ≡ bit_xor (a / 2) (b / 2) * 2 + (a + b) % 2
bit_xor_step a b =
    omega (arith, bit_xor_digit a b, differ_mod (a % 2) (b % 2) (omega arith) (omega arith))

-- `^` with the same number twice.
bit_xor_self_fuel : (n a b : ℕ) → a ≤ n → b ≤ n → bit_xor a (bit_xor a b) ≡ b
bit_xor_self_fuel zero zero zero p q = refl
bit_xor_self_fuel zero zero (suc b) p q = absurd (omega arith)
bit_xor_self_fuel zero (suc a) b p q = absurd (omega arith)
bit_xor_self_fuel (suc n) a b p q = ground (
  arith,
  bit_xor_step a b,
  bit_xor_step a (bit_xor a b),
  bit_xor_self_fuel n (a / 2) (b / 2) (omega arith) (omega arith),
)

pub bit_xor_self : (a b : ℕ) → bit_xor a (bit_xor a b) ≡ b
bit_xor_self a b = bit_xor_self_fuel (a + b) a b (omega arith) (omega arith)

bit_xor_comm_fuel : (n a b : ℕ) → a ≤ n → b ≤ n → bit_xor a b ≡ bit_xor b a
bit_xor_comm_fuel zero zero zero p q = refl
bit_xor_comm_fuel zero zero (suc b) p q = absurd (omega arith)
bit_xor_comm_fuel zero (suc a) b p q = absurd (omega arith)
bit_xor_comm_fuel (suc n) a b p q = omega (
  arith,
  bit_xor_step a b,
  bit_xor_step b a,
  bit_xor_comm_fuel n (a / 2) (b / 2) (omega arith) (omega arith),
)

pub bit_xor_comm : (a b : ℕ) → bit_xor a b ≡ bit_xor b a
bit_xor_comm a b = bit_xor_comm_fuel (a + b) a b (omega arith) (omega arith)

pub bit_xor-lt : (k a b : ℕ) → a < 2 ^ k → b < 2 ^ k → bit_xor a b < 2 ^ k
bit_xor-lt zero zero zero p q = p
bit_xor-lt zero (suc a) b p q = absurd (omega arith)
bit_xor-lt zero zero (suc b) p q = absurd (omega arith)
bit_xor-lt (suc k) a b p q = omega (
  arith,
  pow-suc 2 k,
  bit_xor_step a b,
  bit_xor-lt k (a / 2) (b / 2) (omega (arith, pow-suc 2 k)) (omega (arith, pow-suc 2 k)),
)

-- Bit `k` of a number, 0 or 1.
abbrev pub bit : ℕ → ℕ → ℕ
bit a zero = a % 2
bit a (suc k) = bit (a / 2) k

pub bit-lt-two : (a k : ℕ) → bit a k < 2
bit-lt-two a zero = omega arith
bit-lt-two a (suc k) = bit-lt-two (a / 2) k

pub bit-and : (a b k : ℕ) → bit (bit_and a b) k ≡ min (bit a k) (bit b k)
bit-and a b zero = omega (arith, bit_and_step a b)
bit-and a b (suc k) =
    let e : bit_and a b / 2 ≡ bit_and (a / 2) (b / 2) = omega (arith, bit_and_step a b) in
    rw e (bit-and (a / 2) (b / 2) k)

pub bit-or : (a b k : ℕ) → bit (bit_or a b) k ≡ max (bit a k) (bit b k)
bit-or a b zero = omega (arith, bit_or_step a b)
bit-or a b (suc k) =
    let e : bit_or a b / 2 ≡ bit_or (a / 2) (b / 2) = omega (arith, bit_or_step a b) in
    rw e (bit-or (a / 2) (b / 2) k)

pub bit-xor : (a b k : ℕ) → bit (bit_xor a b) k ≡ (bit a k + bit b k) % 2
bit-xor a b zero = omega (arith, bit_xor_step a b)
bit-xor a b (suc k) =
    let e : bit_xor a b / 2 ≡ bit_xor (a / 2) (b / 2) = omega (arith, bit_xor_step a b) in
    rw e (bit-xor (a / 2) (b / 2) k)

-- Two numbers with the same bits are equal.
eq_of_bits_fuel : (n a b : ℕ) → a ≤ n → b ≤ n → ((k : ℕ) → bit a k ≡ bit b k) → a ≡ b
eq_of_bits_fuel zero a b p q h = omega arith
eq_of_bits_fuel (suc n) a b p q h =
    omega
      (arith, h 0, eq_of_bits_fuel n (a / 2) (b / 2) (omega arith) (omega arith) (λ k. h (suc k)))

pub eq_of_bits : (a b : ℕ) → ((k : ℕ) → bit a k ≡ bit b k) → a ≡ b
eq_of_bits a b h = eq_of_bits_fuel (a + b) a b (omega arith) (omega arith) h

-- Go's `a &^ b`: the bits of `a` that `b` lacks.
unfoldable pub and_not : ℕ → ℕ → ℕ
and_not a b = bit_xor a (bit_and a b)

pub bit-and_not : (a b k : ℕ) → bit (and_not a b) k ≡ bit a k - bit b k
unfolding and_not
bit-and_not a b k =
    omega (arith, bit-xor a (bit_and a b) k, bit-and a b k, bit-lt-two a k, bit-lt-two b k)

pub bit_or-lt : (k a b : ℕ) → a < 2 ^ k → b < 2 ^ k → bit_or a b < 2 ^ k
bit_or-lt zero zero zero p q = p
bit_or-lt zero (suc a) b p q = absurd (omega arith)
bit_or-lt zero zero (suc b) p q = absurd (omega arith)
bit_or-lt (suc k) a b p q = omega (
  arith,
  pow-suc 2 k,
  bit_or_step a b,
  bit_or-lt k (a / 2) (b / 2) (omega (arith, pow-suc 2 k)) (omega (arith, pow-suc 2 k)),
)

bit_and-le_fuel : (n a b : ℕ) → a ≤ n → bit_and a b ≤ b
bit_and-le_fuel zero zero b p = let e : bit_and 0 b ≡ 0 = bit_and-bitwise 0 b in omega arith
bit_and-le_fuel zero (suc a) b p = absurd (omega arith)
bit_and-le_fuel (suc n) a b p =
    omega (arith, bit_and_step a b, bit_and-le_fuel n (a / 2) (b / 2) (omega arith))

pub bit_and-le : (a b : ℕ) → bit_and a b ≤ b
bit_and-le a b = bit_and-le_fuel a a b (omega arith)

pub zero-bit_and : (b : ℕ) → bit_and 0 b ≡ 0
zero-bit_and b = bit_and-bitwise 0 b

pub bit-zero : (k : ℕ) → bit 0 k ≡ 0
bit-zero zero = refl
bit-zero (suc k) = bit-zero k

pub bit_and-or : (a b c : ℕ) → bit_and (bit_or a b) c ≡ bit_or (bit_and a c) (bit_and b c)
bit_and-or a b c = eq_of_bits (bit_and (bit_or a b) c) (bit_or (bit_and a c) (bit_and b c)) (λ k.
    omega (
      arith,
      bit-and (bit_or a b) c k,
      bit-or a b k,
      bit-or (bit_and a c) (bit_and b c) k,
      bit-and a c k,
      bit-and b c k,
    ))

pub bit_or_zero : (a : ℕ) → bit_or a 0 ≡ a
bit_or_zero a = eq_of_bits (bit_or a 0) a (λ k. omega (arith, bit-or a 0 k, bit-zero k))

-- A field that is set makes the union differ from 0.
pub bit_or-pos : (a b k : ℕ) → bit b k ≡ 1 → 0 < bit_or a b
bit_or-pos a b k h =
    let contradiction : ¬ (bit_or a b ≡ 0) =
      λ e. omega (arith, bit-or a b k, bit-zero k, ap (λ x. bit x k) e) in
    omega (arith, contradiction)

pub bit_and_self : (a : ℕ) → bit_and a a ≡ a
bit_and_self a = eq_of_bits (bit_and a a) a (λ k. omega (arith, bit-and a a k))

pow_pos : (k : ℕ) → 0 < 2 ^ k
pow_pos zero = omega arith
pow_pos (suc k) = omega (arith, pow-suc 2 k, pow_pos k)

half_mask : (k : ℕ) → (2 ^ suc k - 1) / 2 ≡ 2 ^ k - 1
half_mask k = omega (arith, pow-suc 2 k, pow_pos k)

half_mod : (a k : ℕ) → a % 2 ^ suc k ≡ a / 2 % 2 ^ k * 2 + a % 2
half_mod a k =
    let d = 2 ^ k in
    let q = a / 2 / d in
    let x = a / 2 % d * 2 + a % 2 in
    let double : 2 ^ suc k ≡ d * 2 = omega (arith, pow-suc 2 k) in
    let twice : d * 2 * q ≡ 2 * (d * q) = grind arith in
    let whole : a ≡ x + 2 ^ suc k * q = rw double (omega (arith, mod-add-div (a / 2) d, twice)) in
    let small : x < 2 ^ suc k = omega (arith, double, mod-lt (a / 2) (pow_pos k)) in
    ap (λ y. y % 2 ^ suc k) whole ∙ (add-mul-mod_self_left x (2 ^ suc k) q ∙ mod-eq_of_lt small)

-- The low bits, by the masks 1, 3, 7 and so on.
pub bit_and_mask : (k a : ℕ) → bit_and a (2 ^ k - 1) ≡ a % 2 ^ k
bit_and_mask zero a = omega (arith, bit_and-le a 0)
bit_and_mask (suc k) a = omega (
  arith,
  pow-suc 2 k,
  bit_and_step a (2 ^ suc k - 1),
  bit_and_mask k (a / 2),
  pow_pos k,
  ap (bit_and (a / 2)) (half_mask k),
  half_mod a k,
)

pub bit_or_comm : (a b : ℕ) → bit_or a b ≡ bit_or b a
bit_or_comm a b =
    eq_of_bits (bit_or a b) (bit_or b a) (λ k. omega (arith, bit-or a b k, bit-or b a k))

mul-pow-suc : (b k : ℕ) → b * 2 ^ suc k ≡ b * 2 ^ k * 2
mul-pow-suc b k = ap (λ (p : ℕ). b * p) (pow-suc 2 k) ∙ grind arith

-- Digits above the others are added by `|`.
pub bit_or_above : (k a b : ℕ) → a < 2 ^ k → bit_or a (b * 2 ^ k) ≡ a + b * 2 ^ k
bit_or_above zero zero b h = omega (arith, bit_or_comm 0 (b * 2 ^ 0), bit_or_zero (b * 2 ^ 0))
bit_or_above zero (suc a) b h = absurd (omega arith)
bit_or_above (suc k) a b h =
    let q = b * 2 ^ k in
    let twice = mul-pow-suc b k in
    let ih = bit_or_above k (a / 2) b (omega (arith, pow-suc 2 k)) in
    let half : b * 2 ^ suc k / 2 ≡ q = omega (arith, twice) in
    let step : bit_or (a / 2) (b * 2 ^ suc k / 2) ≡ a / 2 + q = rw half ih in
    omega (arith, twice, bit_or_step a (b * 2 ^ suc k), step)

-- A mask that leaves the lowest digits out.
pub bit_and_above : (k a b : ℕ) → bit_and a (b * 2 ^ k) ≡ bit_and (a / 2 ^ k) b * 2 ^ k
bit_and_above zero a b =
    let one : b * 2 ^ 0 ≡ b = omega arith in
    let whole : a / 2 ^ 0 ≡ a = omega arith in rw (one, whole) (omega arith)
bit_and_above (suc k) a b =
    let twice = mul-pow-suc b k in
    let half : b * 2 ^ suc k / 2 ≡ b * 2 ^ k = omega (arith, twice) in
    let shift : a / 2 / 2 ^ k ≡ a / 2 ^ suc k =
      div-div-eq-div-mul a 2 (2 ^ k) ∙ ap (λ (p : ℕ). a / p) (omega (arith, pow-suc 2 k)) in
    let r = bit_and (a / 2 ^ suc k) b in
    let inner : bit_and (a / 2) (b * 2 ^ suc k / 2) ≡ r * 2 ^ k =
      rw half (bit_and_above k (a / 2) b ∙ rw shift) in
    omega (arith, twice, bit_and_step a (b * 2 ^ suc k), inner, mul-pow-suc r k)

le-bit_or_fuel : (n a b : ℕ) → b ≤ n → b ≤ bit_or a b
le-bit_or_fuel zero a b h = omega arith
le-bit_or_fuel (suc n) a b h =
    omega (arith, bit_or_step a b, le-bit_or_fuel n (a / 2) (b / 2) (omega arith))

pub le-bit_or : (a b : ℕ) → b ≤ bit_or a b
le-bit_or a b = le-bit_or_fuel b a b (omega arith)
