-- ===== src/Rtfifo/Run.antt =====
-- A client's calls in order, on a FIFO and on the bounded queue that it stands for.
use rtsys.Base.{
  ℕ, zero, suc, ◌≡◌, refl, ap, ap₂, ◌∙◌, sym, Bool, true, false, Option, none, some, List, [], ◌∷◌,
  arith, length, Outcome, done, ◌>>=◌, take_all, drop_all,
}
use mathlib.Core.List.{append-nil}
use rtsys.Rtfifo.{Fifo, push, pop}
use rtsys.Rtfifo.Slots.{slot}
use rtsys.Rtfifo.Inv.{IsValid, filled, length-slot, head_always}
use rtsys.Rtfifo.Contents.{contents}
use rtsys.Rtfifo.Refine.{received, IsWhole, push_refines, pop_refines}
use rtsys.Rtfifo.Queue
use rtsys.Rtfifo.Queue.{Item}

-- A call of a client whose items all have the size that the FIFO was made for.
pub data Op : Type 0 where
  put : Item → Op
  get : Op

-- What it sees: the result, and the item that a pop delivers.
abbrev pub Reply : Type 0
Reply = Bool × Option Item

abbrev pub blank : ℕ → List ℕ
blank zero = []
blank (suc n) = 0 ∷ blank n

abbrev pub delivered : Bool → Option (List ℕ) → Option Item
delivered true item = item
delivered false item = none

unfoldable pub run : ℕ → Fifo → List Op → Outcome (List Reply)
run modulus f [] = done []
run modulus f (put x ∷ ops) = do
  (accepted, f') ← push modulus (some f) (some x) (length x)
  rest ← run modulus f' ops
  done ((accepted, none) ∷ rest)
run modulus f (get ∷ ops) = do
  (taken, item, f') ← pop modulus (some f) (some (blank f.item_size)) f.item_size
  rest ← run modulus f' ops
  done ((taken, delivered taken item) ∷ rest)

unfoldable pub run_queue : ℕ → List Item → List Op → List Reply
run_queue cap q [] = []
run_queue cap q (put x ∷ ops) =
    let (accepted, q') = Queue.push cap q x in (accepted, none) ∷ run_queue cap q' ops
run_queue cap q (get ∷ ops) = let (taken, x, q') = Queue.pop q in (taken, x) ∷ run_queue cap q' ops

-- Every item that is put has `n` bytes.
abbrev pub AllOfSize : ℕ → List Op → Type 0
AllOfSize n [] = Unit
AllOfSize n (put x ∷ ops) = (length x ≡ n) × AllOfSize n ops
AllOfSize n (get ∷ ops) = AllOfSize n ops

length-blank : (n : ℕ) → length (blank n) ≡ n
length-blank zero = refl
length-blank (suc n) = ap suc (length-blank n)

pub filled_whole :
    (f : Fifo) (buffer x : List ℕ)
    → length x ≡ length (slot buffer f.item_size f.head)
    → filled f buffer x (length x) ≡ x
filled_whole f buffer x e =
    rw (take_all x, drop_all (length x) (slot buffer f.item_size f.head) (omega arith), append-nil)

delivered_whole :
    (taken : Bool) (n : ℕ) (x : Option Item) (q q' : List Item)
    → (taken, x, q') ≡ Queue.pop q
    → IsWhole n x
    → delivered taken (some (received x (blank n))) ≡ x
delivered_whole true n none [] q' e w = absurd (cc)
delivered_whole true n none (y ∷ q) q' e w = absurd (cc)
delivered_whole false n none q q' e w = refl
delivered_whole true n (some x) q q' e w =
    rw (drop_all (length x) (blank n) (omega (arith, length-blank n)), append-nil)
delivered_whole false n (some x) [] q' e w = absurd (cc)
delivered_whole false n (some x) (y ∷ q) q' e w = absurd (cc)

-- On a valid FIFO, any sequence of pushes and pops of whole items returns, and gives the client
-- the same replies as the bounded queue of the FIFO's items.
pub run_refines :
    (ops : List Op) {modulus : ℕ} {f : Fifo} {buffer : List ℕ}
    → IsValid modulus f buffer
    → AllOfSize f.item_size ops
    → run modulus f ops ≡ done (run_queue f.capacity (contents f buffer) ops)
unfolding run run_queue
run_refines [] v a = refl
run_refines (put x ∷ ops) {f} {buffer} v (e, a) =
    let (accepted, f', buffer', eq, p) =
      push_refines x (length x) v (omega (arith, v.positive)) (omega arith) (omega arith) in
    rw (eq, run_refines ops {f = f'} p.valid (rw p.same_item_size a))
      (ap₂ (λ (c : ℕ) (r : Bool × List Item). done ((r.0, none) ∷ run_queue c r.1 ops))
        p.same_capacity
        (p.queued
          ∙ ap (Queue.push f.capacity (contents f buffer))
              (filled_whole f buffer x (e ∙ sym (length-slot v f.head (head_always v))))))
run_refines (get ∷ ops) {f} {buffer} v a =
    let (taken, x, item', f', eq, p) =
      pop_refines (blank f.item_size) f.item_size v (omega arith)
        (omega (arith, length-blank f.item_size)) in
    rw
      (
        eq,
        run_refines ops {f = f'} p.valid (rw p.same_item_size a),
        p.copied,
        delivered_whole taken f.item_size x (contents f buffer) (contents f' buffer) p.queued
            p.whole,
      )
      (ap₂ (λ (c : ℕ) (r : Bool × Option Item × List Item). done ((r.0, r.1) ∷ run_queue c r.2 ops))
        p.same_capacity p.queued)
