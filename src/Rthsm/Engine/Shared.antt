-- ===== src/Rthsm/Engine/Shared.antt =====
-- The part that two branches of the hierarchy share, seen from either of them.
use rtsys.Base.{
  ◌≤◌, ◌≡◌, refl, sym, ap, ◌∙◌, inl, inr, true, false, List, [], ◌∷◌, arith, length, ==_refl,
  ne→==_false, eq-cases, Bool-cases,
}
use mathlib.Core.Bool.{false≢true}
use mathlib.Core.Path.{subst}
use rtsys.Rthsm.Types.{Ptr, State}
use rtsys.Rthsm.Tree.{PathTo, top, up, PathTo-unique, has}
use rtsys.Rthsm.Engine.Ways.{until, until_shared, first_shared, any_shared}

pub first_shared-has :
    (cs ds : List Ptr) → any_shared cs ds ≡ true → has (first_shared cs ds) cs ≡ true
first_shared-has cs [] h = absurd (cc)
first_shared-has cs (d ∷ ds) h = elim (Bool-cases (has d cs)) [
  | inl e ↦ rw e e
  | inr e ↦
      let later : any_shared cs ds ≡ true = ground arith in rw e (first_shared-has cs ds later)
]

first_shared-has_right :
    (cs ds : List Ptr) → any_shared cs ds ≡ true → has (first_shared cs ds) ds ≡ true
first_shared-has_right cs [] h = absurd (cc)
first_shared-has_right cs (d ∷ ds) h = elim (Bool-cases (has d cs)) [
  | inl e ↦ rw (e, ==_refl d)
  | inr e ↦
      let later : any_shared cs ds ≡ true = ground arith in
      let next : has (first_shared cs ds) (d ∷ ds) ≡ true =
        ground (arith, first_shared-has_right cs ds later) in
      subst (λ x. has x (d ∷ ds) ≡ true)
        (let same : first_shared cs ds ≡ first_shared cs (d ∷ ds) = rw e in same) next
]

first_shared_skip :
    (p : Ptr) (ps ds : List Ptr) → has p ds ≡ false → first_shared (p ∷ ps) ds ≡ first_shared ps ds
first_shared_skip p ps [] h = refl
first_shared_skip p ps (d ∷ ds) h = ground (arith, first_shared_skip p ps ds)

any_shared_of_has :
    (cs : List Ptr) (p : Ptr) (ds : List Ptr)
    → has p cs ≡ true
    → has p ds ≡ true
    → any_shared cs ds ≡ true
any_shared_of_has cs p [] h k = absurd (cc)
any_shared_of_has cs p (d ∷ ds) h k = elim (eq-cases p d) [
  | inl e ↦ let here : has d cs ≡ true = rw (← e) h in rw here
  | inr n ↦
      let later : has p ds ≡ true = ground arith in
      ground (arith, any_shared_of_has cs p ds h later)
]

module _ {W : Type 0} {states : List (State W)} {global : Ptr} where
  PathTo-has : {p : Ptr} {ps : List Ptr} → PathTo states global p ps → has global ps ≡ true
  PathTo-has (top {p} e) = ground arith
  PathTo-has (up s n d u r) = ground (arith, PathTo-has r)

  -- Two branches share at least the global state.
  pub paths_share :
      {p q : Ptr} {ps qs : List Ptr}
      → PathTo states global p ps
      → PathTo states global q qs
      → any_shared ps qs ≡ true
  paths_share {ps} {qs} r t = any_shared_of_has ps global qs (PathTo-has r) (PathTo-has t)

  -- The way up from a state on a path is the rest of that path.
  shorter :
      {p : Ptr} {ps : List Ptr} (q : Ptr)
      → PathTo states global p ps
      → has q ps ≡ true
      → (qs : List Ptr) × PathTo states global q qs × (length qs ≤ length ps)
  shorter q (top {p} e) h = let same : q ≡ p = ground arith in (q ∷ [], top (same ∙ e), omega arith)
  shorter q (up {p} {ps} s n d u r) h = elim (eq-cases q p) [
    | inl e ↦ (p ∷ ps, rw e (up s n d u r), omega arith)
    | inr k ↦
        let later : has q ps ≡ true = ground arith in
        let (qs, t, l) = shorter q r later in (qs, t, omega arith)
  ]

  -- No state is both below and above another one.
  no_cycle :
      {p q d e : Ptr} {ps ds : List Ptr}
      → PathTo states global p (p ∷ ps)
      → PathTo states global q ps
      → PathTo states global d (d ∷ ds)
      → PathTo states global e ds
      → has d ps ≡ true
      → has p ds ≡ true
      → ⊥
  no_cycle {p} {d} path above path' above' h k =
      let (qs, t, l) = shorter d above h in
      let (qs', t', l') = shorter p above' k in
      omega (arith, ap length (PathTo-unique t path' refl), ap length (PathTo-unique t' path refl))

  not_in_top :
      {p d : Ptr} {ps : List Ptr} → p ≡ global → PathTo states global p ps → has d ps ≡ true → d ≡ p
  not_in_top e (top f) h = ground arith
  not_in_top e (up s n d u r) h = absurd (n e)

  -- Where a state stands on both branches, the branches meet there or further down.
  first_shared-eq :
      {p q d : Ptr} {ps ds : List Ptr}
      → PathTo states global p (p ∷ ps)
      → PathTo states global q ps
      → PathTo states global d ds
      → has p ds ≡ true
      → first_shared (p ∷ ps) ds ≡ p
  first_shared-eq {p} {ps} path above (top {p = d} e) h =
      let same : p ≡ d = ground arith in rw (← same, ==_refl p)
  first_shared-eq {p} {ps} path above (up {p = d} {ps = ds} s n at u r) h = elim (eq-cases d p) [
    | inl e ↦ rw (e, ==_refl p)
    | inr k ↦
        let later : has p ds ≡ true = ground arith in
        elim (Bool-cases (has d ps)) [
          | inl below ↦ absurd (no_cycle path above (up {p = d} s n at u r) r below later)
          | inr fresh ↦ rw (ne→==_false d p k, fresh) (first_shared-eq path above r later)
        ]
  ]

  -- Before it meets the other branch, a branch has met no state of it.
  pub until-first_shared :
      {p d : Ptr} {ps ds : List Ptr}
      → PathTo states global p ps
      → PathTo states global d ds
      → until (first_shared ps ds) ps ≡ until_shared ds ps
  until-first_shared {ds} (top {p} e) path =
      let inside : has p ds ≡ true = rw e (PathTo-has path) in
      let self : has p (p ∷ []) ≡ true = ground arith in
      let meets = first_shared-has (p ∷ []) ds (any_shared_of_has (p ∷ []) p ds self inside) in
      ground arith
  until-first_shared {ds} (up {p} {ps} s n d u r) path = elim (Bool-cases (has p ds)) [
    | inl e ↦ rw (e, first_shared-eq (up s n d u r) r path e, ==_refl p)
    | inr e ↦
        ap (λ x. until x (p ∷ ps)) (first_shared_skip p ps ds e)
        ∙ rw
            (
              e,
              ne→==_false p (first_shared ps ds) (λ k.
                  false≢true (sym e ∙ rw k (first_shared-has_right ps ds (paths_share r path)))),
            )
            (ap (λ l. p ∷ l) (until-first_shared r path))
  ]
