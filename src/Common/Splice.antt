-- ===== src/Common/Splice.antt =====
-- `memcpy` between arrays: `splice xs i ys` overwrites `xs` from index `i` on with `ys`, and
-- `slice xs i n` is the `n` elements of `xs` from index `i` on.
use Prim.Native.Nat.{ℕ, zero, suc, ◌+◌, ◌-◌, ◌≤◌, ◌<◌}
use mathlib.Core.Path.{◌≡◌, refl, sym, ap, ◌∙◌}
use mathlib.Core.List.{List, [], ◌∷◌, ◌++◌}
use native.Mathlib.Omega.{arith}
use libosdp.Common.Lists.{length, get_or, set, take, drop, length-take, length-drop, take-set_ge}

module _ {ℓ} {A : Type ℓ} where
  -- What would be written past the end is lost.
  abbrev pub splice : List A → ℕ → List A → List A
  splice [] i ys = []
  splice (x ∷ xs) zero [] = x ∷ xs
  splice (x ∷ xs) zero (y ∷ ys) = y ∷ splice xs zero ys
  splice (x ∷ xs) (suc i) ys = x ∷ splice xs i ys

  abbrev pub slice : List A → ℕ → ℕ → List A
  slice xs i n = take n (drop i xs)

  pub length-splice : (xs : List A) (i : ℕ) (ys : List A) → length (splice xs i ys) ≡ length xs
  length-splice [] i ys = refl
  length-splice (x ∷ xs) zero [] = refl
  length-splice (x ∷ xs) zero (y ∷ ys) = ap suc (length-splice xs zero ys)
  length-splice (x ∷ xs) (suc i) ys = ap suc (length-splice xs i ys)

  pub length-slice : (xs : List A) (i n : ℕ) → i + n ≤ length xs → length (slice xs i n) ≡ n
  length-slice xs i n h = omega (arith, length-take n (drop i xs), length-drop i xs)

  -- What is written is read back.
  pub slice-splice :
      (xs : List A) (i : ℕ) (ys : List A)
      → i + length ys ≤ length xs
      → slice (splice xs i ys) i (length ys) ≡ ys
  slice-splice [] zero [] h = refl
  slice-splice [] (suc i) [] h = refl
  slice-splice [] i (y ∷ ys) h = absurd (omega arith)
  slice-splice (x ∷ xs) zero [] h = refl
  slice-splice (x ∷ xs) zero (y ∷ ys) h = ap (◌∷◌ y) (slice-splice xs zero ys (omega arith))
  slice-splice (x ∷ xs) (suc i) ys h = slice-splice xs i ys (omega arith)

  -- What stands before the written part stays.
  pub take-splice :
      (k : ℕ) (xs : List A) (i : ℕ) (ys : List A) → k ≤ i → take k (splice xs i ys) ≡ take k xs
  take-splice zero xs i ys h = refl
  take-splice (suc k) [] i ys h = refl
  take-splice (suc k) (x ∷ xs) zero ys h = absurd (omega arith)
  take-splice (suc k) (x ∷ xs) (suc i) ys h = ap (◌∷◌ x) (take-splice k xs i ys (omega arith))

  take-nil : (n : ℕ) → take {A = A} n [] ≡ []
  take-nil zero = refl
  take-nil (suc n) = refl

  pub take-add : (i n : ℕ) (xs : List A) → take (i + n) xs ≡ take i xs ++ slice xs i n
  take-add zero n xs = ap (λ (k : ℕ). take k xs) (omega arith)
  take-add (suc i) n [] = rw (take-nil (suc i + n), take-nil n)
  take-add (suc i) n (x ∷ xs) =
      ap (λ (k : ℕ). take k (x ∷ xs)) (shift i n) ∙ ap (◌∷◌ x) (take-add i n xs)
    where
      shift : (i n : ℕ) → suc i + n ≡ suc (i + n)
      shift i n = omega arith

  -- A write that stays past a part does not change the part.
  pub slice-set_ge :
      (xs : List A) (i n j : ℕ) (v : A) → i + n ≤ j → slice (set xs j v) i n ≡ slice xs i n
  slice-set_ge xs zero n j v h = take-set_ge n j xs v (omega arith)
  slice-set_ge [] (suc i) n j v h = refl
  slice-set_ge (x ∷ xs) (suc i) n zero v h = absurd (omega arith)
  slice-set_ge (x ∷ xs) (suc i) n (suc j) v h = slice-set_ge xs i n j v (omega arith)

  pub get_or-splice_lt :
      (xs : List A) (i j : ℕ) (ys : List A) (d : A)
      → j < i
      → get_or (splice xs i ys) j d ≡ get_or xs j d
  get_or-splice_lt [] i j ys d h = refl
  get_or-splice_lt (x ∷ xs) zero j ys d h = absurd (omega arith)
  get_or-splice_lt (x ∷ xs) (suc i) zero ys d h = refl
  get_or-splice_lt (x ∷ xs) (suc i) (suc j) ys d h = get_or-splice_lt xs i j ys d (omega arith)

  pub splice-nil : (xs : List A) → splice xs 0 [] ≡ xs
  splice-nil [] = refl
  splice-nil (x ∷ xs) = refl

  pub splice-prefix :
      (xs ys : List A) → length ys ≤ length xs → splice xs 0 ys ≡ ys ++ drop (length ys) xs
  splice-prefix [] [] h = refl
  splice-prefix [] (y ∷ ys) h = absurd (omega arith)
  splice-prefix (x ∷ xs) [] h = refl
  splice-prefix (x ∷ xs) (y ∷ ys) h = ap (◌∷◌ y) (splice-prefix xs ys (omega arith))

  -- Two writes side by side are one.
  pub splice-splice :
      (xs : List A) (i j : ℕ) (ys zs : List A)
      → j ≡ i + length ys
      → splice (splice xs j zs) i ys ≡ splice xs i (ys ++ zs)
  splice-splice [] i j ys zs e = refl
  splice-splice (x ∷ xs) zero zero [] zs e = splice-nil (splice (x ∷ xs) 0 zs)
  splice-splice (x ∷ xs) zero zero (y ∷ ys) zs e = absurd (omega arith)
  splice-splice (x ∷ xs) zero (suc j) [] zs e = absurd (omega arith)
  splice-splice (x ∷ xs) zero (suc j) (y ∷ ys) zs e =
      ap (◌∷◌ y) (splice-splice xs zero j ys zs (omega arith))
  splice-splice (x ∷ xs) (suc i) zero ys zs e = absurd (omega arith)
  splice-splice (x ∷ xs) (suc i) (suc j) ys zs e =
      ap (◌∷◌ x) (splice-splice xs i j ys zs (omega arith))

  pub slice-append :
      (xs ys zs : List A) (i n : ℕ)
      → i ≡ length xs
      → n ≡ length ys
      → slice (xs ++ (ys ++ zs)) i n ≡ ys
  slice-append [] [] zs zero zero e f = refl
  slice-append [] [] zs zero (suc n) e f = absurd (omega arith)
  slice-append [] (y ∷ ys) zs zero zero e f = absurd (omega arith)
  slice-append [] (y ∷ ys) zs zero (suc n) e f =
      ap (◌∷◌ y) (slice-append [] ys zs zero n refl (omega arith))
  slice-append [] ys zs (suc i) n e f = absurd (omega arith)
  slice-append (x ∷ xs) ys zs zero n e f = absurd (omega arith)
  slice-append (x ∷ xs) ys zs (suc i) n e f = slice-append xs ys zs i n (omega arith) f

  pub get_or-splice_in :
      (xs : List A) (i : ℕ) (ys : List A) (j : ℕ) (d : A)
      → i ≤ j
      → j < i + length ys
      → j < length xs
      → get_or (splice xs i ys) j d ≡ get_or ys (j - i) d
  get_or-splice_in [] i ys j d h k l = absurd (omega arith)
  get_or-splice_in (x ∷ xs) zero [] j d h k l = absurd (omega arith)
  get_or-splice_in (x ∷ xs) zero (y ∷ ys) zero d h k l = refl
  get_or-splice_in (x ∷ xs) zero (y ∷ ys) (suc j) d h k l =
      get_or-splice_in xs zero ys j d (omega arith) (omega arith) (omega arith)
      ∙ sym (ap (λ (n : ℕ). get_or (y ∷ ys) n d) (shift j))
    where
      shift : (j : ℕ) → suc j - 0 ≡ suc (j - 0)
      shift j = omega arith
  get_or-splice_in (x ∷ xs) (suc i) ys zero d h k l = absurd (omega arith)
  get_or-splice_in (x ∷ xs) (suc i) ys (suc j) d h k l =
      get_or-splice_in xs i ys j d (omega arith) (omega arith) (omega arith)
      ∙ ap (λ (n : ℕ). get_or ys n d) (omega arith)

  -- Writing a part's old bytes back over it restores the whole.
  pub splice-slice_back :
      (xs : List A) (i : ℕ) (ys : List A) (n : ℕ)
      → n ≡ length ys
      → i + n ≤ length xs
      → splice (splice xs i ys) i (slice xs i n) ≡ xs
  splice-slice_back [] i ys n e h = refl
  splice-slice_back (x ∷ xs) zero [] zero e h = refl
  splice-slice_back (x ∷ xs) zero [] (suc n) e h = absurd (omega arith)
  splice-slice_back (x ∷ xs) zero (y ∷ ys) zero e h = absurd (omega arith)
  splice-slice_back (x ∷ xs) zero (y ∷ ys) (suc n) e h =
      ap (◌∷◌ x) (splice-slice_back xs zero ys n (omega arith) (omega arith))
  splice-slice_back (x ∷ xs) (suc i) ys n e h =
      ap (◌∷◌ x) (splice-slice_back xs i ys n e (omega arith))

  -- A part before a write is left as it was.
  pub slice-splice_lt :
      (xs : List A) (i n j : ℕ) (ys : List A)
      → i + n ≤ j
      → slice (splice xs j ys) i n ≡ slice xs i n
  slice-splice_lt xs zero n j ys h = take-splice n xs j ys (omega arith)
  slice-splice_lt [] (suc i) n j ys h = refl
  slice-splice_lt (x ∷ xs) (suc i) n zero ys h = absurd (omega arith)
  slice-splice_lt (x ∷ xs) (suc i) n (suc j) ys h = slice-splice_lt xs i n j ys (omega arith)
