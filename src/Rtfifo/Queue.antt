-- ===== src/Rtfifo/Queue.antt =====
-- What a FIFO promises: a queue of at most `cap` items, oldest first.
use rtsys.Base.{
  ℕ, Bool, true, false, Option, none, some, List, [], ◌∷◌, ◌++◌, ltb, if◌then◌else◌, length,
}

abbrev pub Item : Type 0
Item = List ℕ

-- A push is refused by a full queue.
abbrev pub push : ℕ → List Item → Item → Bool × List Item
push cap q x = if ltb (length q) cap then (true, q ++ (x ∷ [])) else (false, q)

-- A pop is refused by an empty queue.
abbrev pub pop : List Item → Bool × Option Item × List Item
pop [] = (false, none, [])
pop (x ∷ q) = (true, some x, q)
