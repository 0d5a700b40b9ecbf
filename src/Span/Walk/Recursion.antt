-- ===== src/Span/Walk/Recursion.antt =====
-- The walk of src/span.rs with its stack does what a recursive traversal does.
use pg_otel.Prelude.{
  ℕ, zero, suc, ◌+◌, ◌<◌, ◌≡◌, refl, ap, ◌∙◌, Option, none, some, List, [], ◌∷◌, All, All-mono,
  returns, arith,
}
use pg_otel.Span.Walk.{
  ChildEdge, PlanChild, WalkSummary, no_summary, or, visit_node, push_children, walk_loop,
  walk_plan,
}

module _ {N L S : Type 0} (children_of : N → S → List (PlanChild N) × S)
    (visit : N → Option ChildEdge → Option L → S → Option L × S) (max_spans : ℕ) where
  -- The subtrees of siblings, one after the other.
  abbrev pub each :
      (N → Option ChildEdge → Option L → WalkSummary × S → WalkSummary × S)
      → List (PlanChild N)
      → Option L
      → WalkSummary × S
      → WalkSummary × S
  each f [] parent w = w
  each f (c ∷ cs) parent w = each f cs parent (f c.node (some c.edge) parent w)

  -- A node, and then its children from the first to the last. A node without a span passes its
  -- parent's link on.
  unfoldable pub traverse :
      (height : ℕ) → N → Option ChildEdge → Option L → WalkSummary × S → WalkSummary × S
  traverse zero node edge parent w = w
  traverse (suc height) node edge parent w =
      let (link, (summary, s)) = visit_node children_of visit max_spans node edge parent w in
      let (children, s') = children_of node s in
      each (traverse height) children (or link parent) (summary, s')

  -- The height of a node bounds the depth of the plan below it.
  abbrev pub IsHeight : (N → ℕ) → Type 0
  IsHeight height = (n : N) (s : S) → All (λ c. height c.node < height n) (children_of n s).0

  -- The steps in which the loop takes one entry off the stack with all that hangs off it.
  abbrev Steps : N → Option ChildEdge → Option L → WalkSummary × S → WalkSummary × S → Type 0
  Steps node edge parent w w' =
      (steps : ℕ) × ((k : ℕ) (stack : List (N × Option ChildEdge × Option L))
        → walk_loop children_of visit max_spans (steps + k) ((node, edge, parent) ∷ stack) w
          ≡ walk_loop children_of visit max_spans k stack w')

  each_lem :
      (f : N → Option ChildEdge → Option L → WalkSummary × S → WalkSummary × S)
      (cs : List (PlanChild N)) (parent : Option L) (w : WalkSummary × S)
      → All
          (λ c.
            (w : WalkSummary × S)
            → Steps c.node (some c.edge) parent w (f c.node (some c.edge) parent w))
          cs
      → (steps : ℕ) × ((k : ℕ) (stack : List (N × Option ChildEdge × Option L))
          → walk_loop children_of visit max_spans (steps + k) (push_children cs parent stack) w
            ≡ walk_loop children_of visit max_spans k stack (each f cs parent w))
  each_lem f [] parent w a =
      (0, λ k stack. ap (λ x. walk_loop children_of visit max_spans x stack w) (omega arith))
  each_lem f (c ∷ cs) parent w a =
      let (n, e) = a.0 w in
      let (m, e') = each_lem f cs parent (f c.node (some c.edge) parent w) a.1 in
      (
        n + m,
        λ k stack.
            ap
              (λ x.
                walk_loop children_of visit max_spans x
                  ((c.node, some c.edge, parent) ∷ push_children cs parent stack) w)
              (omega arith)
            ∙ e (m + k) (push_children cs parent stack)
            ∙ e' k stack,
      )

  module _ (rank : N → ℕ) (ranked : IsHeight rank) where
    traverse-Steps :
        (height : ℕ) (node : N) (edge : Option ChildEdge) (parent : Option L) (w : WalkSummary × S)
        → rank node < height
        → Steps node edge parent w (traverse height node edge parent w)
    unfolding traverse walk_loop
    traverse-Steps zero node edge parent w h = absurd (omega arith)
    traverse-Steps (suc height) node edge parent w h =
        let (link, (summary, s)) = visit_node children_of visit max_spans node edge parent w in
        let (children, s') = children_of node s in
        let (n, e) =
          each_lem (traverse height) children (or link parent) (summary, s')
            (All-mono (λ c. rank c.node < rank node)
              (λ c.
                (w : WalkSummary × S)
                → Steps c.node (some c.edge) (or link parent) w
                    (traverse height c.node (some c.edge) (or link parent) w))
              children
              (λ c lower w.
                traverse-Steps height c.node (some c.edge) (or link parent) w (omega arith))
              (ranked node s)) in
        (
          suc n,
          λ k stack.
              let first : suc n + k ≡ suc (n + k) = omega arith in
              ap (λ x. walk_loop children_of visit max_spans x ((node, edge, parent) ∷ stack) w)
                first
              ∙ e k stack,
        )

    -- The walk ends, with enough fuel, and its result is that of the recursive traversal, on any
    -- plan of finite height.
    pub walk_plan-traverse :
        (root : N) (s : S)
        → (steps : ℕ) × ((more : ℕ)
            → walk_plan children_of visit max_spans (steps + more) root s
              ≡ returns (traverse (suc (rank root)) root none none (no_summary, s)))
    unfolding walk_plan
    walk_plan-traverse root s =
        let (n, e) =
          traverse-Steps (suc (rank root)) root none none (no_summary, s) (omega arith) in
        (
          n + 1,
          λ more.
              ap
                (λ x.
                  walk_loop children_of visit max_spans x ((root, none, none) ∷ []) (no_summary, s))
                (omega arith)
              ∙ e (suc more) []
              ∙ unfold walk_loop in refl,
        )
