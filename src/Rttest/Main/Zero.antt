-- ===== src/Rttest/Main/Zero.antt =====
-- An argument "0" of `main` of src/rtplf/x64-linux/src/rttestmain.c.
use rtsys.Base.{
  ℕ, suc, ◌-◌, ◌%◌, ◌^◌, ◌<◌, ◌≡◌, refl, false, Option, some, List, ◌∷◌, length, arith, done, panic,
  lt→ltb,
}
use rtsys.Rtplf.Convert.{base_auto, string_to_u32}
use rtsys.Rtplf.Convert.Guess.{string_to_u32-guess}
use rtsys.Rttest.{Group}
use rtsys.Rttest.Main.{parse_argument, parse_arguments, selection, main}
use rtsys.Rttest.Main.Select.{argument}

module _ {W : Type 0} (write : ℕ → W → W) (calloc : ℕ → Option (List ℕ)) where
  selection-zero :
      (behind name slots : List ℕ) (more : List (List ℕ)) (y : ℕ)
      → suc (length more) < 2 ^ 16
      → calloc (suc (length more)) ≡ some (y ∷ slots)
      → selection write calloc (name ∷ argument 0 behind ∷ more) ≡ panic
  unfolding selection parse_arguments parse_argument
  selection-zero behind name slots more y few allocated =
      simp (lt→ltb 1 (suc (suc (length more))) (omega arith), count, allocated, parsed) refl
    where
      count : (suc (suc (length more)) - 1) % 2 ^ 16 ≡ suc (length more)
      count = omega (arith, few)

      parsed : string_to_u32 (some (argument 0 behind)) base_auto (some y) ≡ done (false, some y)
      parsed = (string_to_u32-guess 0 behind y (omega arith)).1

  -- The program panics if its first argument is the text 0, whatever follows, with fewer than 2
  -- ^ 16 arguments and an array from `calloc`.
  pub main-zero :
      (first : List (Group W)) (behind name slots : List ℕ) (more : List (List ℕ)) (y : ℕ) (w : W)
      → suc (length more) < 2 ^ 16
      → calloc (suc (length more)) ≡ some (y ∷ slots)
      → main write calloc first (name ∷ argument 0 behind ∷ more) w ≡ panic
  unfolding main
  main-zero first behind name slots more y w few allocated =
      simp (selection-zero behind name slots more y few allocated) refl
