-- ===== src/Rtfifo/Refine.antt =====
-- `push` and `pop` against the bounded queue of the items in the slots.
use rtsys.Base.{
  ℕ, ◌≤◌, ◌<◌, ◌≡◌, refl, ap, ◌∙◌, sym, Bool, true, false, Option, none, some, List, ◌++◌, arith,
  length, drop, done, lt→ltb, le→ltb_false,
}
use native.Mathlib.Decide.{dec_lt}
use rtsys.Rtfifo.{Fifo, push, pop}
use rtsys.Rtfifo.Slots.{slot}
use rtsys.Rtfifo.Inv.{
  IsValid, filled, written, pushed, popped, push_item-eq, pop_item-eq, length-slot,
}
use rtsys.Rtfifo.Queue
use rtsys.Rtfifo.Queue.{Item}
use rtsys.Rtfifo.Contents.{
  contents, length-contents, pushed-IsValid, contents-pushed, popped-IsValid, contents-popped,
  contents-empty, push-room, push-full, pop-some, pop-empty,
}

-- How a push of `n` bytes ends, for a queue that holds `x` in the end if it takes it.
pub record Pushed (modulus : ℕ) (f : Fifo) (buffer : List ℕ) (x : Item) (accepted : Bool)
    (f' : Fifo) (buffer' : List ℕ) : Type 0 where
  pub valid : IsValid modulus f' buffer'
  pub queued : (accepted, contents f' buffer') ≡ Queue.push f.capacity (contents f buffer) x
  pub same_capacity : f'.capacity ≡ f.capacity
  pub same_item_size : f'.item_size ≡ f.item_size

-- A push of 1 to `item_size` bytes on a valid FIFO returns; it leaves a valid FIFO of the same
-- sizes, and does to the items in it what a push of the bytes, completed by those that the slot
-- held, does to the bounded queue.
pub push_refines :
    {modulus : ℕ} {f : Fifo} {buffer : List ℕ} (item : List ℕ) (n : ℕ)
    → IsValid modulus f buffer
    → 0 < n
    → n ≤ f.item_size
    → n ≤ length item
    → (accepted : Bool) × (f' : Fifo) × (buffer' : List ℕ) × (push modulus (some f) (some item) n
        ≡ done (accepted, f'))
      × Pushed modulus f buffer (filled f buffer item n) accepted f' buffer'
unfolding pushed
push_refines {modulus} {f} {buffer} item n v p q r = elim (dec_lt f.size f.capacity) [
  | yes h ↦ (
    true,
    pushed f buffer item n,
    written f buffer item n,
    push-room v item n p q h ∙ push_item-eq v item n h p q r,
    record {
      valid = pushed-IsValid v item n h q r;
      queued =
          rw (length-contents f buffer, lt→ltb f.size f.capacity h)
            (ap (λ c. (true, c)) (contents-pushed v item n h q r));
      same_capacity = refl;
      same_item_size = refl;
    },
  )
  | no h ↦ (
    false,
    f,
    buffer,
    push-full v item n p q (omega arith),
    record {
      valid = v;
      queued = rw (length-contents f buffer, le→ltb_false f.size f.capacity (omega arith));
      same_capacity = refl;
      same_item_size = refl;
    },
  )
]

-- What the bytes `item` have become once the item `x` has been copied over their beginning.
abbrev pub received : Option Item → List ℕ → List ℕ
received none item = item
received (some x) item = x ++ drop (length x) item

abbrev pub IsWhole : ℕ → Option Item → Type 0
IsWhole n none = Unit
IsWhole n (some x) = length x ≡ n

-- How a pop into the `n` bytes `item` ends.
pub record Popped (modulus : ℕ) (f : Fifo) (buffer item : List ℕ) (taken : Bool) (x : Option Item)
    (item' : List ℕ) (f' : Fifo) : Type 0 where
  pub valid : IsValid modulus f' buffer
  pub same_capacity : f'.capacity ≡ f.capacity
  pub same_item_size : f'.item_size ≡ f.item_size
  pub queued : (taken, x, contents f' buffer) ≡ Queue.pop (contents f buffer)
  pub whole : IsWhole f.item_size x
  pub copied : item' ≡ received x item
  pub refused : taken ≡ false → f' ≡ f

-- A pop from a valid FIFO into at least `item_size` bytes returns; it leaves a valid FIFO of
-- the same sizes, does to its items what a pop does to the bounded queue, copies the oldest
-- item over the beginning of the bytes, and changes nothing where it is refused.
pub pop_refines :
    {modulus : ℕ} {f : Fifo} {buffer : List ℕ} (item : List ℕ) (n : ℕ)
    → IsValid modulus f buffer
    → f.item_size ≤ n
    → n ≤ length item
    → (taken : Bool) × (x : Option Item) × (item' : List ℕ) × (f' : Fifo) × (pop modulus
          (some f)
          (some item)
          n
        ≡ done (taken, some item', f'))
      × Popped modulus f buffer item taken x item' f'
unfolding popped
pop_refines {modulus} {f} {buffer} item n v q r = elim (dec_lt 0 f.size) [
  | yes h ↦ (
    true,
    some (slot buffer f.item_size f.tail),
    slot buffer f.item_size f.tail ++ drop f.item_size item,
    popped f,
    pop-some v item n (omega (arith, v.positive)) q h ∙ pop_item-eq v item n h q r,
    record {
      valid = popped-IsValid v h;
      same_capacity = refl;
      same_item_size = refl;
      queued = rw (contents-popped v h);
      whole = length-slot v f.tail v.tail_in;
      copied =
          ap (λ k. slot buffer f.item_size f.tail ++ drop k item)
            (sym (length-slot v f.tail v.tail_in));
      refused = λ h. absurd (cc);
    },
  )
  | no h ↦ (
    false,
    none,
    item,
    f,
    pop-empty v item n (omega (arith, v.positive)) q (omega arith),
    record {
      valid = v;
      same_capacity = refl;
      same_item_size = refl;
      queued = rw (contents-empty v (omega arith));
      whole = tt;
      copied = refl;
      refused = λ h. refl;
    },
  )
]
