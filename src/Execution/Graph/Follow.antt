-- ===== src/Execution/Graph/Follow.antt =====
-- The edges of an execution graph and the nodes that they lead to (core/contracts/execution_graph.py).
use general_ai_core.Prelude.{
  ◌≡◌, refl, inl, inr, String, List, [], ◌∷◌, Bool, true, Bool-cases, false≢true, member, string_eq,
  ◌==◌, keep, ok, All, All-map,
}
use general_ai_core.Execution.Graph.{
  GraphNodeSpec, ExecutionGraphSpec, construct, find_node, node, edges_from,
}
use general_ai_core.Execution.Graph.Valid.{ids, construct_iff}

-- The lookup of an id gives a node that has it.
abbrev pub Leads : {B : Type 0} → ExecutionGraphSpec B → String → Type 0
Leads {B = B} g i = (n : GraphNodeSpec B) × (node i g ≡ ok n) × (n.id ≡ i)

module _ {B : Type 0} where
  found :
      (nodes : List (GraphNodeSpec B)) (i : String)
      → member i (ids nodes) ≡ true
      → (n : GraphNodeSpec B) × (find_node i nodes ≡ ok n) × (n.id ≡ i)
  found [] i h = absurd (false≢true h)
  found (n ∷ nodes) i h = elim (Bool-cases (n.id == i)) [
    | inl same ↦ (n, rw same refl, (string_eq.beq_iff n.id i).0 same)
    | inr other ↦ let (m, e, named) = found nodes i (rw other at h) in (m, rw other e, named)
  ]

All-keep :
    {A : Type 0} (P : A → Type 0) (f : A → Bool) (xs : List A)
    → All P xs
    → All (λ x. (f x ≡ true) × P x) (keep f xs)
All-keep P f [] h = tt
All-keep P f (x ∷ xs) h = elim (Bool-cases (f x)) [
  | inl kept ↦ rw kept ((kept, h.0), All-keep P f xs h.1)
  | inr dropped ↦ rw dropped (All-keep P f xs h.1)
]

-- When a graph is accepted, each of the edges that the graph lists for an id starts at that id, and the lookup
-- of its other end gives a node with the id named by the edge: no edge that is followed ends in an error.
pub edges_lead :
    {B : Type 0} (g : ExecutionGraphSpec B) (i : String)
    → construct g ≡ ok g
    → All (λ e. (e.from_node ≡ i) × Leads g e.to_node) (edges_from i g)
unfolding node edges_from
edges_lead g i h =
    All-map (λ e r. ((string_eq.beq_iff e.from_node i).0 r.0, found g.nodes e.to_node r.1.1))
      (keep (λ e. e.from_node == i) g.edges)
      (All-keep
        (λ e. (member e.from_node (ids g.nodes) ≡ true) × (member e.to_node (ids g.nodes) ≡ true))
        (λ e. e.from_node == i) g.edges ((construct_iff g).0 h).1)
