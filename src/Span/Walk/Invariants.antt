-- ===== src/Span/Walk/Invariants.antt =====
-- Invariants of the walk of src/span.rs: what every visit keeps, the whole walk keeps.
use pg_otel.Prelude.{ℕ, zero, suc, Option, none, some, List, [], ◌∷◌}
use pg_otel.Span.Walk.{ChildEdge, PlanChild, WalkSummary, or, visit_node}
use pg_otel.Span.Walk.Recursion.{each, traverse}

-- A property of a link that is there.
abbrev pub OnSome {ℓ} : {L : Type 0} → (L → Type ℓ) → Option L → Type ℓ
OnSome P none = Unit
OnSome P (some l) = P l

OnSome-or :
    {L : Type 0} (P Q : L → Type 0) (link parent : Option L)
    → ((l : L) → P l → Q l)
    → OnSome Q link
    → OnSome P parent
    → OnSome Q (or link parent)
OnSome-or P Q (some l) parent f h k = h
OnSome-or P Q none (some p) f h k = f p k
OnSome-or P Q none none f h k = tt

module _ {N L S : Type 0} (children_of : N → S → List (PlanChild N) × S)
    (visit : N → Option ChildEdge → Option L → S → Option L × S) (max_spans : ℕ)
    (Inv : WalkSummary × S → Type 0) (Known : L → WalkSummary × S → Type 0) where
  -- What holds before holds after, and no known link is forgotten.
  pub record Keeps (w w' : WalkSummary × S) : Type 0 where
    pub inv : Inv w → Inv w'
    pub known : (p : L) → Known p w → Known p w'

  -- A visit keeps the invariant, and makes the link that it returns known.
  pub record Preserved : Type 0 where
    pub visits :
        (node : N) (edge : Option ChildEdge) (parent : Option L) (w : WalkSummary × S)
        → Inv w
        → OnSome (λ p. Known p w) parent
        → let (link, w') = visit_node children_of visit max_spans node edge parent w in
          Keeps w w' × OnSome (λ p. Known p w') link
    pub enumerates :
        (node : N) (summary : WalkSummary) (s : S)
        → Keeps (summary, s) (summary, (children_of node s).1)

  Keeps-refl : (w : WalkSummary × S) → Keeps w w
  Keeps-refl w = record { inv = λ i. i; known = λ p k. k }

  Keeps-trans : {a b c : WalkSummary × S} → Keeps a b → Keeps b c → Keeps a c
  Keeps-trans f g = record { inv = λ i. g.inv (f.inv i); known = λ p k. g.known p (f.known p k) }

  OnSome-Keeps :
      {a b : WalkSummary × S}
      → Keeps a b
      → (p : Option L) → OnSome (λ l. Known l a) p
      → OnSome (λ l. Known l b) p
  OnSome-Keeps f none k = tt
  OnSome-Keeps f (some l) k = f.known l k

  each-Keeps :
      (f : N → Option ChildEdge → Option L → WalkSummary × S → WalkSummary × S)
      (cs : List (PlanChild N)) (parent : Option L) (w : WalkSummary × S)
      → ((node : N) (edge : Option ChildEdge) (w : WalkSummary × S)
          → Inv w
          → OnSome (λ p. Known p w) parent
          → Keeps w (f node edge parent w))
      → Inv w
      → OnSome (λ p. Known p w) parent
      → Keeps w (each children_of visit max_spans f cs parent w)
  each-Keeps f [] parent w h i k = Keeps-refl w
  each-Keeps f (c ∷ cs) parent w h i k =
      let first = h c.node (some c.edge) w i k in
      Keeps-trans first (
        each-Keeps f cs parent (f c.node (some c.edge) parent w) h (first.inv i)
          (OnSome-Keeps first parent k))

  module _ (v : Preserved) where
    pub traverse-Keeps :
        (height : ℕ) (node : N) (edge : Option ChildEdge) (parent : Option L) (w : WalkSummary × S)
        → Inv w
        → OnSome (λ p. Known p w) parent
        → Keeps w (traverse children_of visit max_spans height node edge parent w)
    unfolding traverse
    traverse-Keeps zero node edge parent w i k = Keeps-refl w
    traverse-Keeps (suc height) node edge parent w i k =
        let (link, (summary, s)) = visit_node children_of visit max_spans node edge parent w in
        let (children, s') = children_of node s in
        let (first, new) = v.visits node edge parent w i k in
        let second = Keeps-trans first (v.enumerates node summary s) in
        let link_known = OnSome-Keeps (v.enumerates node summary s) link new in
        Keeps-trans second (
          each-Keeps (traverse children_of visit max_spans height) children (or link parent)
            (summary, s') (λ n e w i k. traverse-Keeps height n e (or link parent) w i k)
            (second.inv i)
            (OnSome-or (λ p. Known p w) (λ p. Known p (summary, s')) link parent second.known
              link_known k))
