-- ===== src/Rthsm/Setup/Accepts.antt =====
-- `RTHsmInit` accepts the arrays that describe a hierarchy, and no others.
use rtsys.Base.{
  ◌≤◌, ◌≡◌, ◌≢◌, refl, sym, ap, ◌∙◌, inl, inr, not, List, map, ◌==◌, arith, length, done, ◌>>=◌,
  ◌>>◌, assert, done-injective, eq-cases, ne→==_false,
}
use mathlib.Core.Path.{subst}
use rtsys.Rthsm.Types.{Ptr, null, State, Hsm, deref}
use rtsys.Rthsm.Tree.{All}
use rtsys.Rthsm.Setup.{link_states, check_hierarchy, link_all}
use rtsys.Rthsm.Setup.Decides.{
  Decides, accepts, rejects, Decides-bind, Decides-done, Decides-ne, Decides-eq,
}
use rtsys.Rthsm.Setup.Hierarchy.{Distinct}
use rtsys.Rthsm.Setup.Linking.{root_from, AllLinkUp, link_states-Decides}
use rtsys.Rthsm.Setup.Links.{AllLinked, Links, stops, links, link_states-Links}
use rtsys.Rthsm.Setup.Places.{linked_array}
use rtsys.Rthsm.Setup.Returns.{deref-Linked, passes, last_passes}
use rtsys.Rthsm.Setup.Checking.{AllFit, hierarchy-Decides, Leads, finished_state, link_all-Decides}

module _ {W : Type 0} where
  -- The machine that the passes make of an array whose pointers are filled in.
  abbrev pub finished : List (State W) → Ptr → Hsm W
  finished states global = record {
    states = map (finished_state states global) states;
    global = global;
    current = null;
  }

  -- What is asserted behind the first loop.
  pub record Passed (states : List (State W)) (global : Ptr) : Type 0 where
    pub some_global : global ≢ null
    pub top : State W
    pub top_at : deref states global ≡ done top
    pub starts : top.initial ≢ null
    pub quiet : length top.transitions ≡ 0
    pub fit : AllFit states global 0 states
    pub lead : All (λ (s : State W). All (Leads states global) s.transitions) states

  passes-Decides :
      (states : List (State W)) (global : Ptr)
      → AllLinked (length states) global 0 states
      → global ≤ length states
      → Decides (Passed states global) (passes states global) (finished states global)
  passes-Decides states global a h = elim (eq-cases global null) [
    | inl z ↦ rejects (λ p. p.some_global z) (simp z refl)
    | inr n ↦
        let (top, e, l) = deref-Linked states global a global n h in
        elim (top-Decides top) [
          | accepts (s, (q, (f, l'))) e' ↦
              accepts
                (record {
                  some_global = n;
                  top = top;
                  top_at = e;
                  starts = s;
                  quiet = q;
                  fit = f;
                  lead = l';
                })
                (simp (ne→==_false global null n, e) e')
          | rejects refused e' ↦
              rejects
                (λ p.
                  let same : p.top ≡ top = done-injective (sym p.top_at ∙ e) in
                  refused (
                    (λ z. p.starts (ap (λ (x : State W). x.initial) same ∙ z)),
                    (
                      sym (ap (λ (x : State W). length x.transitions) same) ∙ p.quiet,
                      (p.fit, p.lead),
                    ),
                  ))
                (simp (ne→==_false global null n, e) e')
        ]
  ]
    where
      top-Decides :
          (top : State W)
          → Decides
              ((top.initial ≢ null)
                × ((length top.transitions ≡ 0)
                    × (AllFit states global 0 states
                        × All (λ (s : State W). All (Leads states global) s.transitions) states)))
              (assert (not (top.initial == null))
                >> (assert (length top.transitions == 0) >> last_passes states global))
              (finished states global)
      top-Decides top =
          Decides-bind (assert (not (top.initial == null))) _ tt (finished states global)
            (Decides-ne top.initial null)
            (λ s.
              Decides-bind (assert (length top.transitions == 0)) _ tt (finished states global)
                (Decides-eq (length top.transitions) 0)
                (λ q.
                  Decides-bind (check_hierarchy states global 0 states) _ tt
                    (finished states global) (hierarchy-Decides states global a)
                    (λ f.
                      Decides-done (link_all states global states)
                        (λ final. record { states = final; global = global; current = null })
                        (map (finished_state states global) states)
                        (link_all-Decides states global states))))

  module _ (given : List (State W)) where
    abbrev pub root_pointer : Ptr
    root_pointer = root_from given null 0 given

    -- The machine that `RTHsmInit` makes of a hierarchy.
    abbrev pub built : Hsm W
    built = finished (linked_array given) root_pointer

    abbrev pub Asserted : Type 0
    Asserted =
        (Distinct given × AllLinkUp given null 0 given) × Passed (linked_array given) root_pointer

    pub loops-Decides :
        Decides Asserted
          (link_states given null 0 given >>= λ (p : List (State W) × Ptr). passes p.0 p.1)
          built
    loops-Decides = elim (link_states-Decides given null 0 given) [
      | rejects n e ↦ rejects (λ x. n (x.0)) (ap (λ o. o >>= λ p. passes p.0 p.1) e)
      | accepts c e ↦
          by_links c e (link_states-Links given null 0 given (omega arith) (omega arith))
    ]
      where
        behind :
            Distinct given × AllLinkUp given null 0 given
            → link_states given null 0 given ≡ done (linked_array given, root_pointer)
            → Decides
                (Passed (linked_array given) root_pointer)
                (passes (linked_array given) root_pointer)
                built
            → Decides Asserted
                (link_states given null 0 given >>= λ (p : List (State W) × Ptr). passes p.0 p.1)
                built
        behind c e (accepts d e') = accepts (c, d) (ap (λ o. o >>= λ p. passes p.0 p.1) e ∙ e')
        behind c e (rejects n e') =
            rejects (λ x. n (x.1)) (ap (λ o. o >>= λ p. passes p.0 p.1) e ∙ e')

        by_links :
            Distinct given × AllLinkUp given null 0 given
            → link_states given null 0 given ≡ done (linked_array given, root_pointer)
            → Links given null 0 given
            → Decides Asserted
                (link_states given null 0 given >>= λ (p : List (State W) × Ptr). passes p.0 p.1)
                built
        by_links c e (stops e') = absurd (cc)
        by_links c e (links linked found e' all size inside same) =
            let pair : (linked, found) ≡ (linked_array given, root_pointer) =
              done-injective (sym e' ∙ e) in
            let size' : length given ≡ length (linked_array given) =
              sym size ∙ ap (λ p. length p.0) pair in
            behind c e (
              passes-Decides (linked_array given) root_pointer
                (subst (λ n. AllLinked n root_pointer 0 (linked_array given)) size'
                  (subst (λ p. AllLinked (length given) p.1 0 p.0) pair all))
                (subst (λ n. root_pointer ≤ n) size' (subst (λ p. p.1 ≤ length given) pair inside)))
