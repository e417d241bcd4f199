-- ===== src/Base/Words.antt =====
-- Unsigned machine words, and the mask that rounds an offset down to its page.
use Prim.Native.Nat.{
  ℕ, zero, suc, ◌+◌, ◌-◌, ◌*◌, ◌/◌, ◌%◌, ◌^◌, ◌≤◌, ◌<◌, min, bit_and, digits, bit_and-bitwise,
}
use mathlib.Core.Path.{◌≡◌, ◌∙◌, refl}
use native.Mathlib.Nat.{pow-suc}
use native.Mathlib.Omega.{arith}

abbrev pub u32_mod : ℕ
u32_mod = 2 ^ 32

abbrev pub u64_mod : ℕ
u64_mod = 2 ^ 64

unfoldable pub add32 : ℕ → ℕ → ℕ
add32 a b = (a + b) % u32_mod

unfoldable pub add64 : ℕ → ℕ → ℕ
add64 a b = (a + b) % u64_mod

pub add64_small : (a b : ℕ) → a + b < u64_mod → add64 a b ≡ a + b
unfolding add64
add64_small a b h = omega arith

pub add32_small : (a b : ℕ) → a + b < u32_mod → add32 a b ≡ a + b
unfolding add32
add32_small a b h = omega arith

pow_pos : (n : ℕ) → 0 < 2 ^ n
pow_pos zero = omega arith
pow_pos (suc n) = omega (arith, pow-suc 2 n, pow_pos n)

-- `x & mask`, one binary digit a round.
abbrev masked : ℕ → ℕ → ℕ → ℕ
masked rounds x mask = digits (λ rest. zero) min rounds x mask

masked_nothing : (rounds mask : ℕ) → masked rounds 0 mask ≡ 0
masked_nothing zero mask = refl
masked_nothing (suc rounds) mask = refl

masked_empty : (rounds x : ℕ) → masked rounds x 0 ≡ 0
masked_empty zero x = refl
masked_empty (suc rounds) zero = refl
masked_empty (suc rounds) (suc x) = omega (arith, masked_empty rounds (suc x / 2))

-- A mask of n ones keeps what lies below it.
masked_ones : (n rounds x : ℕ) → x < 2 ^ n → x ≤ rounds → masked rounds x (2 ^ n - 1) ≡ x
masked_ones n rounds zero low enough = masked_nothing rounds (2 ^ n - 1)
masked_ones n zero (suc x) low enough = absurd (omega arith)
masked_ones zero (suc rounds) (suc x) low enough = absurd (omega arith)
masked_ones (suc n) (suc rounds) (suc x) low enough =
    let twice : 2 ^ suc n ≡ 2 ^ n * 2 = pow-suc 2 n in
    let shifted : (2 ^ suc n - 1) / 2 ≡ 2 ^ n - 1 = omega arith in
    let upper : masked rounds (suc x / 2) ((2 ^ suc n - 1) / 2) ≡ suc x / 2 =
      rw shifted (masked_ones n rounds (suc x / 2) (omega arith) (omega arith)) in
    omega (arith, upper, pow_pos n)

mod_double : (m x : ℕ) → 0 < m → x % (m * 2) ≡ (x / 2) % m * 2 + x % 2
mod_double m x h = grind arith

pred_mul : (a b : ℕ) → 0 < a → (a - 1) * b ≡ a * b - b
pred_mul zero b h = absurd (omega arith)
pred_mul (suc a) b h = let e : suc a - 1 ≡ a = omega arith in rw e (omega arith)

mask_half : (o m : ℕ) → o * (m * 2) / 2 ≡ o * m
mask_half o m = omega arith

-- A mask of n ones above k zeros clears the k lowest bits.
masked_high :
    (k n rounds x : ℕ)
    → x < 2 ^ n * 2 ^ k
    → x ≤ rounds
    → masked rounds x ((2 ^ n - 1) * 2 ^ k) ≡ x - x % 2 ^ k
masked_high zero n rounds x low enough =
    let whole : (2 ^ n - 1) * 2 ^ 0 ≡ 2 ^ n - 1 = omega arith in
    rw (whole, masked_ones n rounds x (omega arith) enough) (omega arith)
masked_high (suc k) n rounds zero low enough =
    omega (arith, masked_nothing rounds ((2 ^ n - 1) * 2 ^ suc k))
masked_high (suc k) n zero (suc x) low enough = absurd (omega arith)
masked_high (suc k) n (suc rounds) (suc x) low enough =
    let twice : 2 ^ suc k ≡ 2 ^ k * 2 = pow-suc 2 k in
    let bound : suc x < 2 ^ n * (2 ^ k * 2) = rw twice at low in
    let upper : masked rounds (suc x / 2) ((2 ^ n - 1) * 2 ^ suc k / 2)
        ≡ suc x / 2 - (suc x / 2) % 2 ^ k =
      rw (twice, mask_half (2 ^ n - 1) (2 ^ k))
        (masked_high k n rounds (suc x / 2) (omega (arith, bound)) (omega arith)) in
    let even : (2 ^ n - 1) * 2 ^ suc k ≡ (2 ^ n - 1) * 2 ^ k * 2 = rw twice (omega arith) in
    let split : suc x % 2 ^ suc k ≡ (suc x / 2) % 2 ^ k * 2 + suc x % 2 =
      rw twice (mod_double (2 ^ k) (suc x) (pow_pos k)) in
    omega (arith, upper, even, split)

-- `off & ~(uint64_t)(page_bytes - 1)`: the complement of page_bytes - 1 is 2^64 - page_bytes.
unfoldable pub page_floor : ℕ → ℕ → ℕ
page_floor page_bytes off = bit_and off (u64_mod - page_bytes)

-- A power of two up to 2^64.
pub record IsPageSize (page_bytes : ℕ) : Type 0 where
  pub shift : ℕ
  pub high : ℕ
  pub is_pow : page_bytes ≡ 2 ^ shift
  pub fits : 2 ^ high * 2 ^ shift ≡ u64_mod

pub IsPageSize-pos : {page_bytes : ℕ} → IsPageSize page_bytes → 0 < page_bytes
IsPageSize-pos h = omega (arith, pow_pos h.shift, h.is_pow)

pub kpage_IsPageSize : IsPageSize 4096
kpage_IsPageSize = record { shift = 12; high = 52; is_pow = refl; fits = refl }

-- For such a page size the mask rounds down to the page.
pub page_floor-mod :
    {page_bytes : ℕ} (off : ℕ)
    → IsPageSize page_bytes
    → off < u64_mod
    → page_floor page_bytes off ≡ off - off % page_bytes
unfolding page_floor
page_floor-mod {page_bytes} off h lt =
    let complement : u64_mod - page_bytes ≡ (2 ^ h.high - 1) * 2 ^ h.shift =
      omega (arith, h.is_pow, h.fits, pred_mul (2 ^ h.high) (2 ^ h.shift) (pow_pos h.high)) in
    let cleared = masked_high h.shift h.high off off (rw h.fits lt) (omega arith) in
    rw (complement, h.is_pow) (bit_and-bitwise off _ ∙ cleared)
