-- ===== src/SecureChannel/Compare.antt =====
-- The constant-time comparison of src/osdp_sc.c (osdp_ct_compare) decides equality.
use Prim.Native.Nat.{bit_or, bit_xor, digits, differ, max, two, bit_or-bitwise, bit_xor-bitwise}
use libosdp.Common.{
  ℕ, zero, suc, ◌+◌, ◌/◌, ◌%◌, ◌≡◌, ◌≤◌, ◌<◌, ◌↔◌, refl, sym, ap, ap₂, ◌∙◌, List, arith,
}
use libosdp.Bytes.{byte_at}
use libosdp.SecureChannel.{ct_compare, ct_compare_from}

right_of_max : (b : ℕ) → max 0 b ≡ 0 → (zero ≡ 0) × (b ≡ 0)
right_of_max zero h = (refl, refl)
right_of_max (suc b) h = absurd (omega (arith, h))

max-zero : (a b : ℕ) → max a b ≡ 0 → (a ≡ 0) × (b ≡ 0)
max-zero zero b h = right_of_max b h
max-zero (suc a) zero h = absurd (omega (arith, h))
max-zero (suc a) (suc b) h = absurd (omega (arith, h))

differ-zero : (a b : ℕ) → differ a b ≡ 0 → a ≡ b
differ-zero zero b h = sym h
differ-zero (suc a) zero h = h
differ-zero (suc a) (suc b) h = ap suc (differ-zero a b h)

differ-same : (a : ℕ) → differ a a ≡ 0
differ-same zero = refl
differ-same (suc a) = differ-same a

or_digits-zero : (n a b : ℕ) → a ≤ n → digits (λ x. x) max n a b ≡ 0 → (a ≡ 0) × (b ≡ 0)
or_digits-zero zero a b h e = (omega (arith, h), e)
or_digits-zero (suc n) zero b h e = (refl, e)
or_digits-zero (suc n) (suc a) b h e =
    let (x, y) = or_digits-zero n (suc a / two) (b / two) (omega arith) (omega (arith, e)) in
    let (u, v) = max-zero (suc a % two) (b % two) (omega (arith, e)) in
    (omega (arith, x, u), omega (arith, y, v))

xor_digits-zero : (n a b : ℕ) → a ≤ n → digits (λ x. x) differ n a b ≡ 0 → a ≡ b
xor_digits-zero zero a b h e = omega (arith, h, e)
xor_digits-zero (suc n) zero b h e = sym e
xor_digits-zero (suc n) (suc a) b h e =
    let x = xor_digits-zero n (suc a / two) (b / two) (omega arith) (omega (arith, e)) in
    let u = differ-zero (suc a % two) (b % two) (omega (arith, e)) in omega (arith, x, u)

xor_digits-same : (n a : ℕ) → a ≤ n → digits (λ x. x) differ n a a ≡ 0
xor_digits-same zero a h = omega (arith, h)
xor_digits-same (suc n) zero h = refl
xor_digits-same (suc n) (suc a) h =
    let x = xor_digits-same n (suc a / two) (omega arith) in
    let u = differ-same (suc a % two) in omega (arith, x, u)

or-zero : (a b : ℕ) → (bit_or a b ≡ 0) ↔ ((a ≡ 0) × (b ≡ 0))
or-zero a b = (
  λ e. or_digits-zero a a b (omega arith) (sym (bit_or-bitwise a b) ∙ e),
  λ (x, y). ap₂ bit_or x y,
)

xor-zero : (a b : ℕ) → (bit_xor a b ≡ 0) ↔ (a ≡ b)
xor-zero a b = (
  λ e. xor_digits-zero a a b (omega arith) (sym (bit_xor-bitwise a b) ∙ e),
  λ e. ap (bit_xor a) (sym e) ∙ (bit_xor-bitwise a a ∙ xor_digits-same a a (omega arith)),
)

-- Equality of the `n` bytes from index `i` on.
Agree : List ℕ → List ℕ → ℕ → ℕ → Type 0
Agree s1 s2 n i = (k : ℕ) → k < n → byte_at s1 (i + k) ≡ byte_at s2 (i + k)

Agree-cons :
    (s1 s2 : List ℕ) (n i : ℕ)
    → byte_at s1 i ≡ byte_at s2 i
    → Agree s1 s2 n (i + 1)
    → Agree s1 s2 (suc n) i
unfolding Agree
Agree-cons s1 s2 n i e g zero h =
    ap (byte_at s1) (omega arith) ∙ (e ∙ ap (byte_at s2) (omega arith))
Agree-cons s1 s2 n i e g (suc k) h =
    ap (byte_at s1) (omega arith) ∙ (g k (omega (arith, h)) ∙ ap (byte_at s2) (omega arith))

ct_compare_from-zero :
    (s1 s2 : List ℕ) (n i ret : ℕ)
    → (ct_compare_from s1 s2 n i ret ≡ 0) ↔ ((ret ≡ 0) × Agree s1 s2 n i)
unfolding ct_compare_from Agree
ct_compare_from-zero s1 s2 zero i ret = (λ e. (e, λ k h. absurd (omega (arith, h))), λ (e, g). e)
ct_compare_from-zero s1 s2 (suc n) i ret =
    let here = bit_xor (byte_at s1 i) (byte_at s2 i) in
    let (there, back) = ct_compare_from-zero s1 s2 n (i + 1) (bit_or ret here) in
    let ored = or-zero ret here in
    let xored = xor-zero (byte_at s1 i) (byte_at s2 i) in
    (
      λ e. let (o, g) = there e in let (r, x) = ored.0 o in (r, Agree-cons s1 s2 n i (xored.0 x) g),
      λ (r, g). back (
        ored.1 (
          r,
          xored.1 (
              ap (byte_at s1) (omega arith)
              ∙ (g zero (omega arith) ∙ ap (byte_at s2) (omega arith))),
        ),
        λ k h.
            ap (byte_at s1) (omega arith)
            ∙ (g (suc k) (omega (arith, h)) ∙ ap (byte_at s2) (omega arith)),
      ),
    )

-- Comparing two byte strings gives 0 exactly when their first `len` bytes agree.
pub ct_compare_lem :
    (s1 s2 : List ℕ) (len : ℕ)
    → (ct_compare s1 s2 len ≡ 0) ↔ ((k : ℕ) → k < len → byte_at s1 k ≡ byte_at s2 k)
unfolding ct_compare Agree
ct_compare_lem s1 s2 len =
    let (there, back) = ct_compare_from-zero s1 s2 len 0 0 in
    (
      λ e k h. ap (byte_at s1) (omega arith) ∙ ((there e).1 k h ∙ ap (byte_at s2) (omega arith)),
      λ g.
          back
            (refl, λ k h. ap (byte_at s1) (omega arith) ∙ (g k h ∙ ap (byte_at s2) (omega arith))),
    )
