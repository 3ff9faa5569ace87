-- ===== src/Rtfifo/Slots.antt =====
-- Items in a buffer of bytes: slot `i` is the `n` bytes from `i * n` on.
use rtsys.Base.{
  ℕ, ◌+◌, ◌-◌, ◌*◌, ◌≤◌, ◌≡◌, sym, ap, ap₂, ◌∙◌, ◌≢◌, List, ◌++◌, arith, length, take, drop,
  take-length-append, drop-take-append, take-drop-take-append, drop-append, drop-drop,
}
use native.Mathlib.Decide.{dec_lt}

abbrev pub slot : List ℕ → ℕ → ℕ → List ℕ
slot buffer n i = take n (drop (i * n) buffer)

-- The buffer with the bytes `new` at slot `h`.
abbrev pub splice : List ℕ → ℕ → ℕ → List ℕ → List ℕ
splice buffer n h new = take (h * n) buffer ++ (new ++ drop (h * n + n) buffer)

module _ (buffer : List ℕ) (n h : ℕ) (new : List ℕ) (e : length new ≡ n)
    (r : h * n + n ≤ length buffer) where
  pub slot-splice_self : slot (splice buffer n h new) n h ≡ new
  slot-splice_self =
      ap (take n) (
        drop-take-append (h * n) (h * n) buffer (new ++ drop (h * n + n) buffer) (omega arith)
          (omega arith))
      ∙ ap₂ (λ k l. take k (drop l (new ++ drop (h * n + n) buffer))) {v = 0} (sym e) (omega arith)
      ∙ take-length-append new (drop (h * n + n) buffer)

  pub slot-splice_ne : (i : ℕ) → i ≢ h → slot (splice buffer n h new) n i ≡ slot buffer n i
  slot-splice_ne i ne = elim (dec_lt i h) [
    | yes p ↦
        take-drop-take-append n (i * n) (h * n) buffer (new ++ drop (h * n + n) buffer)
          (grind arith) (omega arith)
    | no p ↦ ap (take n) (after (grind arith))
  ]
    where
      after : h * n + n ≤ i * n → drop (i * n) (splice buffer n h new) ≡ drop (i * n) buffer
      after q =
          drop-take-append (h * n) (i * n) buffer (new ++ drop (h * n + n) buffer) (omega arith)
            (omega arith)
          ∙ drop-append (i * n - h * n) new (drop (h * n + n) buffer) (omega arith)
          ∙ drop-drop (i * n - h * n - length new) (h * n + n) buffer
          ∙ ap (λ k. drop k buffer) (omega arith)
