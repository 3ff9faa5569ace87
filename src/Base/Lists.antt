-- ===== src/Base/Lists.antt =====
-- Lists measured and indexed by native numbers, under the library's names.
use Prim.Native.Nat.{ℕ, zero, suc, ◌+◌, ◌-◌, ◌≤◌}
use mathlib.Core.Path.{◌≡◌, refl, sym, ap, ◌∙◌}
use mathlib.Core.List.{List, [], ◌∷◌, ◌++◌}
use mathlib.Core.Option.{Option, none, some}
use native.Mathlib.Omega.{arith}

module _ {ℓ} {A : Type ℓ} where
  abbrev pub length : List A → ℕ
  length [] = 0
  length (x ∷ xs) = suc (length xs)

  abbrev pub get_elem? : List A → ℕ → Option A
  get_elem? [] i = none
  get_elem? (x ∷ xs) zero = some x
  get_elem? (x ∷ xs) (suc i) = get_elem? xs i

  abbrev pub take : ℕ → List A → List A
  take zero xs = []
  take (suc n) [] = []
  take (suc n) (x ∷ xs) = x ∷ take n xs

  abbrev pub drop : ℕ → List A → List A
  drop zero xs = xs
  drop (suc n) [] = []
  drop (suc n) (x ∷ xs) = drop n xs

  pub length-append : (xs ys : List A) → length (xs ++ ys) ≡ length xs + length ys
  length-append [] ys = omega arith
  length-append (x ∷ xs) ys = omega (arith, length-append xs ys)

  pub length-take : (n : ℕ) (xs : List A) → n ≤ length xs → length (take n xs) ≡ n
  length-take zero xs h = refl
  length-take (suc n) [] h = absurd (omega arith)
  length-take (suc n) (x ∷ xs) h = ap suc (length-take n xs (omega arith))

  pub length-drop : (n : ℕ) (xs : List A) → length (drop n xs) ≡ length xs - n
  length-drop zero xs = omega arith
  length-drop (suc n) [] = omega arith
  length-drop (suc n) (x ∷ xs) = omega (arith, length-drop n xs)

  pub take-length-append : (xs ys : List A) → take (length xs) (xs ++ ys) ≡ xs
  take-length-append [] ys = refl
  take-length-append (x ∷ xs) ys = ap (λ l. x ∷ l) (take-length-append xs ys)

  pub take_all : (xs : List A) → take (length xs) xs ≡ xs
  take_all [] = refl
  take_all (x ∷ xs) = ap (λ l. x ∷ l) (take_all xs)

  pub drop_all : (n : ℕ) (xs : List A) → length xs ≤ n → drop n xs ≡ []
  drop_all zero [] h = refl
  drop_all zero (x ∷ xs) h = absurd (omega arith)
  drop_all (suc n) [] h = refl
  drop_all (suc n) (x ∷ xs) h = drop_all n xs (omega arith)

  -- A list behind the first `k` of another, read from `a` on.
  pub drop-take-append :
      (k a : ℕ) (xs ys : List A)
      → k ≤ a
      → k ≤ length xs
      → drop a (take k xs ++ ys) ≡ drop (a - k) ys
  drop-take-append zero a xs ys h r = ap (λ n. drop n ys) (omega arith)
  drop-take-append (suc k) zero xs ys h r = absurd (omega arith)
  drop-take-append (suc k) (suc a) [] ys h r = absurd (omega arith)
  drop-take-append (suc k) (suc a) (x ∷ xs) ys h r =
      drop-take-append k a xs ys (omega arith) (omega arith) ∙ ap (λ n. drop n ys) (omega arith)

  pub drop-append :
      (n : ℕ) (xs ys : List A) → length xs ≤ n → drop n (xs ++ ys) ≡ drop (n - length xs) ys
  drop-append n [] ys h = ap (λ k. drop k ys) (omega arith)
  drop-append zero (x ∷ xs) ys h = absurd (omega arith)
  drop-append (suc n) (x ∷ xs) ys h =
      drop-append n xs ys (omega arith) ∙ ap (λ k. drop k ys) (omega arith)

  drop-nil : (n : ℕ) → drop n [] ≡ []
  drop-nil zero = refl
  drop-nil (suc n) = refl

  pub drop-drop : (a b : ℕ) (xs : List A) → drop a (drop b xs) ≡ drop (b + a) xs
  drop-drop a zero xs = ap (λ n. drop n xs) (omega arith)
  drop-drop a (suc b) [] = drop-nil a ∙ sym (drop-nil (suc b + a))
  drop-drop a (suc b) (x ∷ xs) =
      drop-drop a b xs ∙ ap (λ n. drop n (x ∷ xs)) {x = suc (b + a)} {y = suc b + a} (omega arith)

  -- Reading `n` items from `a` on, before the place `k` where something else begins.
  pub take-drop-take-append :
      (n a k : ℕ) (xs ys : List A)
      → a + n ≤ k
      → k ≤ length xs
      → take n (drop a (take k xs ++ ys)) ≡ take n (drop a xs)
  take-drop-take-append zero zero k xs ys h r = refl
  take-drop-take-append (suc n) zero zero xs ys h r = absurd (omega arith)
  take-drop-take-append (suc n) zero (suc k) [] ys h r = absurd (omega arith)
  take-drop-take-append (suc n) zero (suc k) (x ∷ xs) ys h r =
      ap (λ l. x ∷ l) (take-drop-take-append n zero k xs ys (omega arith) (omega arith))
  take-drop-take-append n (suc a) zero xs ys h r = absurd (omega arith)
  take-drop-take-append n (suc a) (suc k) [] ys h r = absurd (omega arith)
  take-drop-take-append n (suc a) (suc k) (x ∷ xs) ys h r =
      take-drop-take-append n a k xs ys (omega arith) (omega arith)

  pub drop-split : (n k : ℕ) (xs : List A) → n ≤ k → drop n (take k xs) ++ drop k xs ≡ drop n xs
  drop-split zero zero xs h = refl
  drop-split zero (suc k) [] h = refl
  drop-split zero (suc k) (x ∷ xs) h = ap (λ l. x ∷ l) (drop-split zero k xs (omega arith))
  drop-split (suc n) zero xs h = absurd (omega arith)
  drop-split (suc n) (suc k) [] h = refl
  drop-split (suc n) (suc k) (x ∷ xs) h = drop-split n k xs (omega arith)
