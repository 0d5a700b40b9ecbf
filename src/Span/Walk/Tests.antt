-- ===== src/Span/Walk/Tests.antt =====
-- The walk of src/span.rs over the three nodes 2, 1 and 0, of which each is the child of the one
-- before it.
use pg_otel.Prelude.{ℕ, zero, suc, ◌+◌, ◌≡◌, Option, none, some, List, [], ◌∷◌, returns, arith}
use pg_otel.Span.Walk.{ChildEdge, outer, child_edge_new, PlanChild, no_summary, walk_plan}
use pg_otel.Span.Walk.Recursion.{traverse, IsHeight, walk_plan-traverse}

abbrev chain : ℕ → ℕ → List (PlanChild ℕ) × ℕ
chain zero s = ([], s)
chain (suc n) s = (record { node = n; edge = child_edge_new outer } ∷ [], s)

abbrev count_visits : ℕ → Option ChildEdge → Option ℕ → ℕ → Option ℕ × ℕ
count_visits node edge parent s = (some node, suc s)

chain-IsHeight : IsHeight chain count_visits 2 (λ n. n)
chain-IsHeight zero s = tt
chain-IsHeight (suc n) s = (omega arith, tt)

walk_plan-traverse_example :
    (steps : ℕ) × ((more : ℕ)
      → walk_plan chain count_visits 2 (steps + more) 2 0
        ≡ returns (traverse chain count_visits 2 3 2 none none (no_summary, 0)))
walk_plan-traverse_example = walk_plan-traverse chain count_visits 2 (λ n. n) chain-IsHeight 2 0
