-- ===== src/Rtfifo/Contents.antt =====
-- The items in the slots of a FIFO, and what `push` and `pop` do to them.
use rtsys.Base.{
  ℕ, zero, suc, ◌+◌, ◌-◌, ◌≤◌, ◌<◌, ◌≡◌, refl, ap, ap₂, ◌∙◌, sym, ◌≢◌, false, some, List, [], ◌∷◌,
  ◌++◌, arith, length, take, drop, done, lt→ltb, le→leb, le→ltb_false, length-append, length-take,
  length-drop, ◌*◌,
}
use rtsys.Rtfifo.{Fifo, push, pop, push_item, pop_item}
use rtsys.Rtfifo.Slots.{slot, slot-splice_self, slot-splice_ne}
use rtsys.Rtfifo.Inv.{
  IsValid, place, filled, written, pushed, popped, slot_in, length-slot, head_always,
}
use rtsys.Rtfifo.Queue.{Item}

-- The `n` slots from index `t` on, going round at `cap`.
abbrev pub window : (ℕ → Item) → ℕ → ℕ → ℕ → List Item
window slots cap t zero = []
window slots cap t (suc n) = slots t ∷ window slots cap (place cap t 1) n

-- The items of a FIFO, oldest first.
abbrev pub contents : Fifo → List ℕ → List Item
contents f buffer = window (slot buffer f.item_size) f.capacity f.tail f.size

length-window : (slots : ℕ → Item) (cap t n : ℕ) → length (window slots cap t n) ≡ n
length-window slots cap t zero = refl
length-window slots cap t (suc n) = ap suc (length-window slots cap (place cap t 1) n)

pub length-contents : (f : Fifo) (buffer : List ℕ) → length (contents f buffer) ≡ f.size
length-contents f buffer = length-window (slot buffer f.item_size) f.capacity f.tail f.size

place_step : (cap t n : ℕ) → t < cap → n < cap → place cap (place cap t 1) n ≡ place cap t (suc n)
place_step cap t n h k = ground arith

place_zero : (cap t : ℕ) → t < cap → place cap t 0 ≡ t
place_zero cap t h = ground arith

place-ne : (cap t n : ℕ) → t < cap → suc n < cap → t ≢ place cap t (suc n)
place-ne cap t n h k = ground arith

place-lt : (cap t n : ℕ) → t < cap → n ≤ cap → place cap t n < cap
place-lt cap t n h k = ground arith

module _ (old new : ℕ → Item) (cap h : ℕ) (x : Item)
    (same : (i : ℕ) → i < cap → i ≢ h → new i ≡ old i) (put : new h ≡ x) where
  -- Writing the slot just past a window extends the window by that slot.
  window-write :
      (n t : ℕ)
      → t < cap
      → n < cap
      → h ≡ place cap t n
      → window new cap t (suc n) ≡ window old cap t n ++ (x ∷ [])
  window-write zero t p q e = ap (λ y. y ∷ []) (ap new (sym (e ∙ place_zero cap t p)) ∙ put)
  window-write (suc n) t p q e = ap₂ ◌∷◌ (same t p (λ k. place-ne cap t n p q (k ∙ e))) (
      window-write n (place cap t 1) (place-lt cap t 1 p (omega arith)) (omega arith)
        (e ∙ sym (place_step cap t n p (omega arith))))

module _ {modulus : ℕ} {f : Fifo} {buffer : List ℕ} (v : IsValid modulus f buffer) where
  open f use {head, tail, size, capacity, item_size}

  length-filled :
      (item : List ℕ) (n : ℕ)
      → size < capacity
      → n ≤ item_size
      → n ≤ length item
      → length (filled f buffer item n) ≡ item_size
  length-filled item n h q r = omega (
    arith,
    length-append {0} (take n item) (drop n (slot buffer item_size head)),
    length-take {0} n item r,
    length-drop {0} n (slot buffer item_size head),
    length-slot v head (head_always v),
  )

  length-written :
      (item : List ℕ) (n : ℕ)
      → size < capacity
      → n ≤ item_size
      → n ≤ length item
      → length (written f buffer item n) ≡ length buffer
  length-written item n h q r = omega (
    arith,
    length-append {0} (take (head * item_size) buffer)
        (filled f buffer item n ++ drop (head * item_size + item_size) buffer),
    length-append {0} (filled f buffer item n) (drop (head * item_size + item_size) buffer),
    length-take {0} (head * item_size) buffer (omega (arith, slot_in v head (head_always v))),
    length-drop {0} (head * item_size + item_size) buffer,
    slot_in v head (head_always v),
    length-filled item n h q r,
  )

  pub pushed-IsValid :
      (item : List ℕ) (n : ℕ)
      → size < capacity
      → n ≤ item_size
      → n ≤ length item
      → IsValid modulus (pushed f buffer item n) (written f buffer item n)
  unfolding pushed
  pushed-IsValid item n h q r = record {
    storage = refl;
    room = omega (arith, length-written item n h q r, v.room);
    word = v.word;
    indexed = v.indexed;
    positive = v.positive;
    tail_in = v.tail_in;
    fits = omega arith;
    head_at = ground (arith, v.head_at, v.tail_in);
  }

  pub contents-pushed :
      (item : List ℕ) (n : ℕ)
      → size < capacity
      → n ≤ item_size
      → n ≤ length item
      → contents (pushed f buffer item n) (written f buffer item n)
        ≡ contents f buffer ++ (filled f buffer item n ∷ [])
  unfolding pushed
  contents-pushed item n h q r =
      ap (window (slot (written f buffer item n) item_size) capacity tail) {x = size + 1}
        {y = suc size} (omega arith)
      ∙ window-write (slot buffer item_size) (slot (written f buffer item n) item_size) capacity
          head (filled f buffer item n)
          (λ i p ne.
            slot-splice_ne buffer item_size head (filled f buffer item n)
              (length-filled item n h q r) (slot_in v head (head_always v)) i ne)
          (slot-splice_self buffer item_size head (filled f buffer item n)
            (length-filled item n h q r) (slot_in v head (head_always v)))
          size tail v.tail_in h v.head_at

  pub popped-IsValid : 0 < size → IsValid modulus (popped f) buffer
  unfolding popped
  popped-IsValid h = record {
    storage = v.storage;
    room = v.room;
    word = v.word;
    indexed = v.indexed;
    positive = v.positive;
    tail_in = ground (arith, v.tail_in);
    fits = omega (arith, v.fits);
    head_at = ground (arith, v.head_at, v.tail_in, v.fits);
  }

  pub contents-popped :
      0 < size → contents f buffer ≡ slot buffer item_size tail ∷ contents (popped f) buffer
  unfolding popped
  contents-popped h =
      ap (window (slot buffer item_size) capacity tail) {x = size} {y = suc (size - 1)}
        (omega arith)

  pub contents-empty : size ≤ 0 → contents f buffer ≡ []
  contents-empty h =
      ap (window (slot buffer item_size) capacity tail) {x = size} {y = 0} (omega arith)

  pub push-room :
      (item : List ℕ) (n : ℕ)
      → 0 < n
      → n ≤ item_size
      → size < capacity
      → push modulus (some f) (some item) n ≡ push_item modulus f buffer item n
  unfolding push
  push-room item n p q h =
      simp (v.storage, lt→ltb 0 n p, le→leb n item_size q, lt→ltb size capacity h)

  pub push-full :
      (item : List ℕ) (n : ℕ)
      → 0 < n
      → n ≤ item_size
      → capacity ≤ size
      → push modulus (some f) (some item) n ≡ done (false, f)
  unfolding push
  push-full item n p q h =
      simp (v.storage, lt→ltb 0 n p, le→leb n item_size q, le→ltb_false size capacity h)

  pub pop-some :
      (item : List ℕ) (n : ℕ)
      → 0 < n
      → item_size ≤ n
      → 0 < size
      → pop modulus (some f) (some item) n ≡ pop_item modulus f buffer item n
  unfolding pop
  pop-some item n p q h = simp (v.storage, lt→ltb 0 n p, le→leb item_size n q, lt→ltb 0 size h)

  pub pop-empty :
      (item : List ℕ) (n : ℕ)
      → 0 < n
      → item_size ≤ n
      → size ≤ 0
      → pop modulus (some f) (some item) n ≡ done (false, some item, f)
  unfolding pop
  pop-empty item n p q h =
      simp (v.storage, lt→ltb 0 n p, le→leb item_size n q, le→ltb_false 0 size h)
