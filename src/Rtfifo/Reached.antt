-- ===== src/Rtfifo/Reached.antt =====
-- The FIFOs that a program can come to, whatever it asks for.
use rtsys.Base.{
  ℕ, ◌+◌, ◌-◌, ◌≤◌, ◌<◌, ◌≡◌, sym, ap, ◌∙◌, Bool, false, Option, some, List, arith, ltb, leb, drop,
  done, assert, non_null, >>=-eq-done, done-injective, if◌then◌else◌, lt→ltb, le→ltb_false,
}
use mathlib.Core.Path.{subst}
use native.Mathlib.Decide.{dec_lt}
use native.Mathlib.Nat.{mod-eq_of_lt, mod-eq-sub-mod, mod-lt}
use rtsys.Rtplf.Memory.{mem_copy}
use rtsys.Rtfifo.{Fifo, int_product, advance, init, static_init, push_item, push, pop_item, pop}

-- A FIFO that was initialised with numbers of the type of its fields, and then given to any calls
-- that return, with any arguments.
pub data Reached (modulus : ℕ) : Fifo → Type 0 where
  initialised :
      {f : Fifo} (raw : Option Fifo) (count n : ℕ) (buffer : Option (List ℕ))
      → count < modulus
      → n < modulus
      → init raw count n buffer ≡ done f
      → Reached modulus f
  declared : (count n : ℕ) (array : List ℕ) → Reached modulus (static_init modulus count n array)
  pushes :
      {f f' : Fifo} (item : Option (List ℕ)) (n : ℕ) (accepted : Bool)
      → Reached modulus f
      → push modulus (some f) item n ≡ done (accepted, f')
      → Reached modulus f'
  pops :
      {f f' : Fifo} (item left : Option (List ℕ)) (n : ℕ) (taken : Bool)
      → Reached modulus f
      → pop modulus (some f) item n ≡ done (taken, left, f')
      → Reached modulus f'

-- The fields are numbers of their type, and stand within the capacity.
pub record InRange (modulus : ℕ) (f : Fifo) : Type 0 where
  pub capacity_word : f.capacity < modulus
  pub item_word : f.item_size < modulus
  pub size_in : f.size ≤ f.capacity
  pub head_word : f.head < modulus
  pub head_in : 0 < f.capacity → f.head < f.capacity
  pub tail_word : f.tail < modulus
  pub tail_in : 0 < f.capacity → f.tail < f.capacity

advance-lt : (modulus cap i : ℕ) → 0 < cap → advance modulus cap i < cap
unfolding advance
advance-lt modulus cap i p = ground arith

push_item-InRange :
    (modulus : ℕ) (f : Fifo) (buffer item : List ℕ) (n : ℕ) {accepted : Bool} {f' : Fifo}
    → InRange modulus f
    → f.size < f.capacity
    → push_item modulus f buffer item n ≡ done (accepted, f')
    → InRange modulus f'
unfolding push_item
push_item-InRange modulus f buffer item n {f'} r l e =
    let (offset, e₀, r₁) = >>=-eq-done (int_product f.head f.item_size) _ e in
    let (copied, e₁, r₂) =
      >>=-eq-done (mem_copy (some (drop offset buffer)) f.item_size (some item) n) _ r₁ in
    let ahead = advance-lt modulus f.capacity f.head (omega (arith, l)) in
    subst (λ (x : Bool × Fifo). InRange modulus (x.1)) (done-injective r₂)
      (record {
        capacity_word = r.capacity_word;
        item_word = r.item_word;
        size_in = omega (
          arith,
          l,
          mod-eq_of_lt {n = f.size + 1} {m = modulus} (omega (arith, l, r.capacity_word)),
        );
        head_word = omega (arith, ahead, r.capacity_word);
        head_in = λ p. ahead;
        tail_word = r.tail_word;
        tail_in = r.tail_in;
      })

pop_item-InRange :
    (modulus : ℕ) (f : Fifo) (buffer item : List ℕ) (n : ℕ) {taken : Bool} {left : Option (List ℕ)}
    {f' : Fifo}
    → InRange modulus f
    → 0 < f.size
    → pop_item modulus f buffer item n ≡ done (taken, left, f')
    → InRange modulus f'
unfolding pop_item
pop_item-InRange modulus f buffer item n {f'} r l e =
    let (offset, e₀, r₁) = >>=-eq-done (int_product f.tail f.item_size) _ e in
    let (copied, e₁, r₂) =
      >>=-eq-done (mem_copy (some item) n (some (drop offset buffer)) f.item_size) _ r₁ in
    let ahead = advance-lt modulus f.capacity f.tail (omega (arith, l, r.size_in)) in
    subst (λ (x : Bool × Option (List ℕ) × Fifo). InRange modulus (x.2)) (done-injective r₂)
      (record {
        capacity_word = r.capacity_word;
        item_word = r.item_word;
        size_in = omega (
          arith,
          l,
          r.size_in,
          mod-eq-sub-mod {n = f.size + modulus - 1} {m = modulus} (omega (arith, l)),
          mod-eq_of_lt {n = f.size + modulus - 1 - modulus} {m = modulus}
              (omega (arith, l, r.size_in, r.capacity_word)),
        );
        head_word = r.head_word;
        head_in = r.head_in;
        tail_word = omega (arith, ahead, r.capacity_word);
        tail_in = λ p. ahead;
      })

push-InRange :
    (modulus : ℕ) (f : Fifo) (item : Option (List ℕ)) (n : ℕ) {accepted : Bool} {f' : Fifo}
    → InRange modulus f
    → push modulus (some f) item n ≡ done (accepted, f')
    → InRange modulus f'
unfolding push
push-InRange modulus f item n {f'} r e =
    let (buffer, e₀, r₁) = >>=-eq-done (non_null f.buffer) _ e in
    let (bytes, e₁, r₂) = >>=-eq-done (non_null item) _ r₁ in
    let (u, e₂, r₃) = >>=-eq-done (assert (ltb 0 n)) _ r₂ in
    let (u', e₃, r₄) = >>=-eq-done (assert (leb n f.item_size)) _ r₃ in
    elim (dec_lt f.size f.capacity) [
      | yes l ↦ push_item-InRange modulus f buffer bytes n r l (
          sym (
            ap (λ (b : Bool). if b then push_item modulus f buffer bytes n else done (false, f))
              (lt→ltb f.size f.capacity l))
          ∙ r₄)
      | no g ↦
          subst (λ (x : Bool × Fifo). InRange modulus (x.1))
            (done-injective (
              sym (
                ap (λ (b : Bool). if b then push_item modulus f buffer bytes n else done (false, f))
                  (le→ltb_false f.size f.capacity (omega (arith, g))))
              ∙ r₄))
            r
    ]

pop-InRange :
    (modulus : ℕ) (f : Fifo) (item : Option (List ℕ)) (n : ℕ) {taken : Bool}
    {left : Option (List ℕ)} {f' : Fifo}
    → InRange modulus f
    → pop modulus (some f) item n ≡ done (taken, left, f')
    → InRange modulus f'
unfolding pop
pop-InRange modulus f item n {f'} r e =
    let (buffer, e₀, r₁) = >>=-eq-done (non_null f.buffer) _ e in
    let (out, e₁, r₂) = >>=-eq-done (non_null item) _ r₁ in
    let (u, e₂, r₃) = >>=-eq-done (assert (ltb 0 n)) _ r₂ in
    let (u', e₃, r₄) = >>=-eq-done (assert (leb f.item_size n)) _ r₃ in
    elim (dec_lt 0 f.size) [
      | yes l ↦ pop_item-InRange modulus f buffer out n r l (
          sym (
            ap
              (λ (b : Bool).
                if b then pop_item modulus f buffer out n else done (false, some out, f))
              (lt→ltb 0 f.size l))
          ∙ r₄)
      | no g ↦
          subst (λ (x : Bool × Option (List ℕ) × Fifo). InRange modulus (x.2))
            (done-injective (
              sym (
                ap
                  (λ (b : Bool).
                    if b then pop_item modulus f buffer out n else done (false, some out, f))
                  (le→ltb_false 0 f.size (omega (arith, g))))
              ∙ r₄))
            r
    ]

init-InRange :
    (modulus : ℕ) (raw : Option Fifo) (count n : ℕ) (buffer : Option (List ℕ)) {f : Fifo}
    → count < modulus
    → n < modulus
    → init raw count n buffer ≡ done f
    → InRange modulus f
unfolding init
init-InRange modulus raw count n buffer l k e =
    let (f₀, e₀, r₁) = >>=-eq-done (non_null raw) _ e in
    let (u, e₁, r₂) = >>=-eq-done (assert (ltb 0 count)) _ r₁ in
    let (u', e₂, r₃) = >>=-eq-done (assert (ltb 0 n)) _ r₂ in
    let (storage, e₃, r₄) = >>=-eq-done (non_null buffer) _ r₃ in
    subst (InRange modulus) (done-injective r₄) (record {
      capacity_word = l;
      item_word = k;
      size_in = omega arith;
      head_word = omega (arith, l);
      head_in = λ p. p;
      tail_word = omega (arith, l);
      tail_in = λ p. p;
    })

static_init-InRange :
    (modulus count n : ℕ) (array : List ℕ)
    → 0 < modulus
    → InRange modulus (static_init modulus count n array)
unfolding static_init
static_init-InRange modulus count n array p = record {
  capacity_word = mod-lt count p;
  item_word = mod-lt n p;
  size_in = omega arith;
  head_word = p;
  head_in = λ q. q;
  tail_word = p;
  tail_in = λ q. q;
}

-- Whatever calls a program makes, with any items, sizes and buffers, on a FIFO that it
-- initialised with numbers of the type of the fields or declared with the macro: after every
-- call that returns, the capacity, the item size, the head and the tail are numbers of that
-- type, the size is at most the capacity, and the head and the tail are below the capacity
-- unless it is 0.
pub Reached-InRange : (modulus : ℕ) {f : Fifo} → 0 < modulus → Reached modulus f → InRange modulus f
Reached-InRange modulus p (initialised raw count n buffer l k e) =
    init-InRange modulus raw count n buffer l k e
Reached-InRange modulus p (declared count n array) = static_init-InRange modulus count n array p
Reached-InRange modulus p (pushes {f} item n accepted r e) =
    push-InRange modulus f item n (Reached-InRange modulus p r) e
Reached-InRange modulus p (pops {f} item left n taken r e) =
    pop-InRange modulus f item n (Reached-InRange modulus p r) e
