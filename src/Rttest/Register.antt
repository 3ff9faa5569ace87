-- ===== src/Rttest/Register.antt =====
-- `RTPrivTestRegisterGroup` and `rttestIsIn`.
use rtsys.Base.{
  ℕ, zero, suc, ◌+◌, ◌<◌, ◌≡◌, refl, ap, sym, ◌∙◌, Bool, true, false, ◌||◌, none, some, List, [],
  ◌∷◌, ◌++◌, ◌==◌, get_elem?, if◌then◌else◌, length, arith, done, panic, drop, drop-drop, lt→ltb,
}
use rtsys.Rttest.{Group, append_group, register_group, is_in, is_in_from}

module _ {W : Type 0} where
  -- Whether one of the groups has the id.
  unfoldable pub uses_id : ℕ → List (Group W) → Bool
  uses_id id [] = false
  uses_id id (g ∷ gs) = g.id == id || uses_id id gs

  append_group-last :
      (gs : List (Group W)) (last g : Group W)
      → append_group g (gs ++ (last ∷ []))
        ≡ (if uses_id g.id gs then panic else done (gs ++ (last ∷ g ∷ [])))
  unfolding append_group uses_id
  append_group-last [] last g = refl
  append_group-last (i ∷ []) last g = ground arith
  append_group-last (i ∷ next ∷ gs) last g = ground (arith, append_group-last (next ∷ gs) last g)

  -- The first group is always taken. Later, a group is refused by a panic if a registered group
  -- other than the last one has its id, and is put at the end of the chain otherwise, also if
  -- the last group has its id.
  pub register_group-eq :
      (gs : List (Group W)) (last g : Group W)
      → (register_group [] (some g) ≡ done (g ∷ []))
        × (register_group (gs ++ (last ∷ [])) (some g)
            ≡ (if uses_id g.id gs then panic else done (gs ++ (last ∷ g ∷ []))))
  unfolding register_group append_group
  register_group-eq gs last g = (refl, append_group-last gs last g)

-- Whether the set has the number.
unfoldable pub occurs : ℕ → List ℕ → Bool
occurs x [] = false
occurs x (y ∷ ys) = if x == y then true else occurs x ys

get_elem?-drop :
    (set : List ℕ) (i y : ℕ) (ys : List ℕ) → drop i set ≡ y ∷ ys → get_elem? set i ≡ some y
get_elem?-drop [] zero y ys e = absurd (cc)
get_elem?-drop [] (suc i) y ys e = absurd (cc)
get_elem?-drop (x ∷ set) zero y ys e = cc
get_elem?-drop (x ∷ set) (suc i) y ys e = get_elem?-drop set i y ys e

is_in_from-occurs :
    (x : ℕ) (ys set : List ℕ) (i : ℕ)
    → drop i set ≡ ys
    → is_in_from x set (length ys) i ≡ done (occurs x ys)
unfolding is_in_from occurs
is_in_from-occurs x [] set i e = refl
is_in_from-occurs x (y ∷ ys) set i e =
    rw
      (
        get_elem?-drop set i y ys e,
        is_in_from,
        get_elem?,
        is_in_from-occurs x ys set (i + 1) (sym (drop-drop 1 i set) ∙ ap (drop 1) e),
      )
      (found (x == y))
  where
    found :
        (b : Bool)
        → (if b then done true else done (occurs x ys)) ≡ done (if b then true else occurs x ys)
    found true = refl
    found false = refl

-- `rttestIsIn` finds every number in the set NULL and in a set of size 0, and in another set,
-- of the size that is given, exactly the numbers that occur in it.
pub is_in-occurs :
    (x size : ℕ) (set : List ℕ)
    → (is_in x none size ≡ done true)
      × (is_in x (some set) 0 ≡ done true)
      × (0 < length set → is_in x (some set) (length set) ≡ done (occurs x set))
unfolding is_in
is_in-occurs x size set =
    (refl, refl, λ h. simp (lt→ltb 0 (length set) h) (is_in_from-occurs x set set 0 refl))
