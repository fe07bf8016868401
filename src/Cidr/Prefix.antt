-- ===== src/Cidr/Prefix.antt =====
-- src/config.rs: what `ip_in_cidr` compares are the leading digits of the two addresses.
use Prim.Native.Nat.{min, bit_and, digits, bit_and-bitwise}
use didicafe.Base.{
  ℕ, zero, suc, ◌+◌, ◌-◌, ◌*◌, ◌/◌, ◌%◌, ◌^◌, ◌≤◌, ◌<◌, ◌≡◌, ◌↔◌, refl, sym, ap, subst, ◌∙◌, inl,
  inr, Bool-cases, leb, leb→le, true, Option, some, eqb, eqb_iff, Str, arith,
}
use native.Mathlib.Nat.{
  div-one, mul-one, one-mul, zero-add, suc-add, mul_assoc, mul-div_cancel, div-eq_of_lt,
  div-lt_iff_lt-mul, pow-succ', add-mul-mod_self_right, mod-eq_of_lt, div-div-eq-div-mul,
}
use native.Mathlib.Numerals.{unary_clauses}
use didicafe.RateLimit.{IpAddr, v4, v6}
use didicafe.Cidr.{width, mask, same_network, ip_matches, parse_cidr, ip_in_cidr}

-- What `bit_and` stands for, with a count of the digits to go.
abbrev masked_digits : ℕ → ℕ → ℕ → ℕ
masked_digits count ip mask = digits (λ rest. 0) min count ip mask

-- One count more than enough changes nothing.
spare :
    (count ip mask : ℕ)
    → ip ≤ count
    → masked_digits (suc count) ip mask ≡ masked_digits count ip mask
spare zero zero mask few = refl
spare (suc count) zero mask few = refl
spare zero (suc ip) mask few = absurd (omega arith)
spare (suc count) (suc ip) mask few =
    ap (λ upper. upper * 2 + min (suc ip % 2) (mask % 2))
      (spare count (suc ip / 2) (mask / 2) (omega arith))

enough : (count ip mask : ℕ) → ip ≤ count → masked_digits count ip mask ≡ masked_digits ip ip mask
enough zero zero mask few = refl
enough zero (suc ip) mask few = absurd (omega arith)
enough (suc count) ip mask few = elim (Bool-cases (leb ip count)) [
  | inl fewer ↦
      spare count ip mask (leb→le ip count fewer) ∙ enough count ip mask (leb→le ip count fewer)
  | inr all ↦
      let same : ip ≡ suc count = ground (arith, all) in
      ap (λ c. masked_digits c ip mask) (sym same)
]

-- The lowest digit of a masked address, and the rest.
lowest_digit : (a b : ℕ) → bit_and a b ≡ bit_and (a / 2) (b / 2) * 2 + min (a % 2) (b % 2)
lowest_digit zero b = omega (arith, bit_and-bitwise 0 b, bit_and-bitwise 0 (b / 2))
lowest_digit (suc a) b =
    let upper =
      enough a (suc a / 2) (b / 2) (omega arith) ∙ sym (bit_and-bitwise (suc a / 2) (b / 2)) in
    bit_and-bitwise (suc a) b ∙ ap (λ d. d * 2 + min (suc a % 2) (b % 2)) upper

no_mask : (count ip : ℕ) → ip ≤ count → bit_and ip 0 ≡ 0
no_mask count zero few = bit_and-bitwise 0 0
no_mask zero (suc ip) few = absurd (omega arith)
no_mask (suc count) (suc ip) few =
    omega (arith, no_mask count (suc ip / 2) (omega arith), lowest_digit (suc ip) 0)

positive : (k : ℕ) → 1 ≤ 2 ^ k
positive zero = omega arith
positive (suc k) = omega (arith, positive k)

-- A mask of ones keeps a number that it is long enough for.
ones : (n a : ℕ) → a < 2 ^ n → bit_and a (2 ^ n - 1) ≡ a
ones zero a h = omega (arith, no_mask a a (omega arith))
ones (suc n) a h =
    let half : (2 ^ suc n - 1) / 2 ≡ 2 ^ n - 1 = omega (arith, positive n) in
    lowest_digit a (2 ^ suc n - 1)
    ∙ omega (arith, positive n, ap (bit_and (a / 2)) half, ones n (a / 2) (omega arith))

double : (m k : ℕ) → m * 2 ^ suc k ≡ m * 2 ^ k * 2
double m k = simp unary_clauses (omega arith)

-- A shifted mask is a mask of the shifted number.
shifted : (k m a : ℕ) → bit_and a (m * 2 ^ k) ≡ bit_and (a / 2 ^ k) m * 2 ^ k
shifted zero m a = omega (arith, ap (λ b. bit_and b m) (div-one a), ap (bit_and a) (mul-one m))
shifted (suc k) m a =
    let masked = bit_and (a / 2 ^ suc k) m in
    let halved : a / 2 / 2 ^ k ≡ a / 2 ^ suc k =
      div-div-eq-div-mul a 2 (2 ^ k) ∙ ap (λ n. a / n) (sym (pow-succ' 2 k)) in
    let half : m * 2 ^ suc k / 2 ≡ m * 2 ^ k = omega (arith, double m k) in
    lowest_digit a (m * 2 ^ suc k)
    ∙ omega (
      arith,
      double m k,
      double masked k,
      ap (bit_and (a / 2)) half,
      shifted k m (a / 2),
      ap (λ b. bit_and b m * 2 ^ k) halved,
    )

expand : (q j : ℕ) → (q * (j + 1) + j) * (j + 1) ≡ q * (j + 1) + j * ((q + 1) * (j + 1))
expand q j = omega arith

below : (q j : ℕ) → q * (j + 1) < (q + 1) * (j + 1)
below q j = omega arith

-- The shift's wrap-around takes off what it pushes out.
wrapped : (q j : ℕ) → ((q + 1) * (j + 1) - 1) * (j + 1) % ((q + 1) * (j + 1)) ≡ q * (j + 1)
wrapped q j =
    let less : (q + 1) * (j + 1) - 1 ≡ q * (j + 1) + j = omega arith in
    rw less rw (expand q j)
      (add-mul-mod_self_right (q * (j + 1)) j ((q + 1) * (j + 1)) ∙ mod-eq_of_lt (below q j))

wrapped_eq : (q j a b : ℕ) → q + 1 ≡ a → j + 1 ≡ b → (a * b - 1) * b % (a * b) ≡ q * b
wrapped_eq q j a b p r = rw (sym p) rw (sym r) (wrapped q j)

wrapped_at : (a b : ℕ) → 1 ≤ a → 1 ≤ b → (a * b - 1) * b % (a * b) ≡ (a - 1) * b
wrapped_at a b h g = wrapped_eq (a - 1) (b - 1) a b (omega arith) (omega arith)

split_power : (p k : ℕ) → 2 ^ (p + k) ≡ 2 ^ p * 2 ^ k
split_power zero k = ap (λ n. 2 ^ n) (zero-add k) ∙ sym (one-mul (2 ^ k))
split_power (suc p) k =
    ap (λ n. 2 ^ n) (suc-add p k)
    ∙ (pow-succ' 2 (p + k)
        ∙ (ap (λ n. 2 * n) (split_power p k)
            ∙ (sym (mul_assoc 2 (2 ^ p) (2 ^ k)) ∙ ap (λ n. n * 2 ^ k) (sym (pow-succ' 2 p)))))

mask_digits : (p k : ℕ) → mask (p + k) p ≡ (2 ^ p - 1) * 2 ^ k
mask_digits p k =
    let rest : p + k - p ≡ k = omega arith in
    rw rest rw (split_power p k) (wrapped_at (2 ^ p) (2 ^ k) (positive p) (positive k))

div-lt_power : (p k a : ℕ) → a < 2 ^ (p + k) → a / 2 ^ k < 2 ^ p
div-lt_power p k a h = (div-lt_iff_lt-mul (positive k)).1 (subst (λ n. a < n) (split_power p k) h)

-- The masked address is its leading digits.
leading : (p k a : ℕ) → a < 2 ^ (p + k) → bit_and a (mask (p + k) p) ≡ a / 2 ^ k * 2 ^ k
leading p k a h =
    rw (mask_digits p k)
      (shifted k (2 ^ p - 1) a ∙ ap (λ n. n * 2 ^ k) (ones p (a / 2 ^ k) (div-lt_power p k a h)))

cancel : (k a b : ℕ) → a * 2 ^ k ≡ b * 2 ^ k → a ≡ b
cancel k a b h =
    sym (mul-div_cancel a (positive k)) ∙ (ap (λ n. n / 2 ^ k) h ∙ mul-div_cancel b (positive k))

masked :
    (w p a b : ℕ)
    → same_network w (suc p) a b ≡ eqb (bit_and a (mask w (suc p))) (bit_and b (mask w (suc p)))
unfolding same_network
masked w p a b = ground arith

-- In a width of `p + k` binary digits a prefix of `p` compares what stands above the lowest `k`.
pub same_network-leading :
    (p k a b : ℕ)
    → a < 2 ^ (p + k)
    → b < 2 ^ (p + k)
    → (same_network (p + k) p a b ≡ true) ↔ (a / 2 ^ k ≡ b / 2 ^ k)
unfolding same_network
same_network-leading zero k a b ha hb =
    let whole : 0 + k ≡ k = zero-add k in
    let nil : (c : ℕ) → c < 2 ^ (0 + k) → c / 2 ^ k ≡ 0 =
      λ c hc. div-eq_of_lt (subst (λ n. c < 2 ^ n) whole hc) in
    (λ h. nil a ha ∙ sym (nil b hb), λ h. refl)
same_network-leading (suc p) k a b ha hb =
    let la = leading (suc p) k a ha in
    let lb = leading (suc p) k b hb in
    rw (masked (suc p + k) p a b) (
      λ h. cancel k (a / 2 ^ k) (b / 2 ^ k) (sym la ∙ ((eqb_iff _ _).0 h ∙ lb)),
      λ h. (eqb_iff _ _).1 (la ∙ (ap (λ n. n * 2 ^ k) h ∙ sym lb)),
    )

-- The bits of an address.
abbrev pub bits : IpAddr → ℕ
bits (v4 a) = a
bits (v6 a) = a

same_network-width :
    (w p a b : ℕ)
    → p ≤ w
    → a < 2 ^ w
    → b < 2 ^ w
    → (same_network w p a b ≡ true) ↔ (a / 2 ^ (w - p) ≡ b / 2 ^ (w - p))
same_network-width w p a b h ha hb =
    let split : w ≡ p + (w - p) = omega arith in
    let at : ℕ → Type 0 =
      λ n. (same_network n p a b ≡ true) ↔ (a / 2 ^ (w - p) ≡ b / 2 ^ (w - p)) in
    subst at (sym split) (
      same_network-leading p (w - p) a b (subst (λ n. a < 2 ^ n) split ha)
        (subst (λ n. b < 2 ^ n) split hb))

module _ (parse_ip : Str → Option IpAddr) where
  parsed_prefix :
      (cidr : Str) (net : IpAddr) (prefix_len : ℕ)
      → parse_cidr parse_ip cidr ≡ some (net, prefix_len)
      → prefix_len ≤ width net
  unfolding parse_cidr
  parsed_prefix cidr net prefix_len h = ground arith

  compared :
      (ip net : IpAddr) (cidr : Str) (prefix_len : ℕ)
      → parse_cidr parse_ip cidr ≡ some (net, prefix_len)
      → ip_in_cidr parse_ip ip cidr ≡ ip_matches ip (net, prefix_len)
  unfolding ip_in_cidr
  compared ip net cidr prefix_len h = rw (h, ip_in_cidr) refl

  -- An address lies in a network that parses exactly when both are of the same family and agree on
  -- the leading digits that the prefix counts; in particular a prefix of 0 takes every address of the
  -- family, and no shift is as long as the width.
  pub ip_in_cidr-leading :
      (ip net : IpAddr) (cidr : Str) (prefix_len : ℕ)
      → bits ip < 2 ^ width ip
      → bits net < 2 ^ width net
      → parse_cidr parse_ip cidr ≡ some (net, prefix_len)
      → (ip_in_cidr parse_ip ip cidr ≡ true) ↔ (
          (width ip ≡ width net)
          × (bits ip / 2 ^ (width net - prefix_len) ≡ bits net / 2 ^ (width net - prefix_len)))
  unfolding ip_matches
  ip_in_cidr-leading (v4 a) (v4 b) cidr p ha hb h =
      let iff = same_network-width 32 p a b (parsed_prefix cidr (v4 b) p h) ha hb in
      rw (compared (v4 a) (v4 b) cidr p h) (λ e. (refl, iff.0 e), λ e. iff.1 e.1)
  ip_in_cidr-leading (v6 a) (v6 b) cidr p ha hb h =
      let iff = same_network-width 128 p a b (parsed_prefix cidr (v6 b) p h) ha hb in
      rw (compared (v6 a) (v6 b) cidr p h) (λ e. (refl, iff.0 e), λ e. iff.1 e.1)
  ip_in_cidr-leading (v4 a) (v6 b) cidr p ha hb h =
      rw (compared (v4 a) (v6 b) cidr p h) (ground arith)
  ip_in_cidr-leading (v6 a) (v4 b) cidr p ha hb h =
      rw (compared (v6 a) (v4 b) cidr p h) (ground arith)
