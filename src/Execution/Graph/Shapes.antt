-- ===== src/Execution/Graph/Shapes.antt =====
-- Graphs whose edges lead from each node to the next or from all nodes to the last one, which the planner of
-- core/execution/graph_planner.py builds.
use general_ai_core.Prelude.{
  ℕ, suc, ◌<◌, ◌≡◌, refl, sym, ◌∙◌, subst, arith, inl, inr, String, List, [], ◌∷◌, ◌++◌, Bool, true,
  false, Bool-cases, false≢true, member, string_eq, beq_self, ◌==◌, if◌then◌else◌, All, All-map,
}
use general_ai_core.Execution.Graph.{success, GraphNodeSpec, GraphEdgeSpec, chain, fan_in}
use general_ai_core.Execution.Graph.Valid.{ids, IsDistinct, Resolves}

-- Where an id stands among the nodes.
abbrev pub position : String → List String → ℕ
position i [] = 0
position i (j ∷ is) = if j == i then 0 else suc (position i is)

-- Every edge leads from a node to one that stands after it, on success.
abbrev pub IsForward : List String → List GraphEdgeSpec → Type 0
IsForward is =
    All (λ e. (position e.from_node is < position e.to_node is) × (e.condition ≡ success))

differs :
    (a x : String) (is : List String) → member a is ≡ false → member x is ≡ true → (a == x) ≡ false
differs a x is away here = elim (Bool-cases (a == x)) [
  | inl same ↦ absurd (
      false≢true
        (sym away ∙ subst (λ i. member i is ≡ true) (sym ((string_eq.beq_iff a x).0 same)) here))
  | inr other ↦ other
]

first_before :
    (a x : String) (is : List String)
    → member a is ≡ false
    → member x is ≡ true
    → position a (a ∷ is) < position x (a ∷ is)
first_before a x is away here = rw (beq_self a) (rw (differs a x is away here) (omega arith))

-- A node in front of a graph whose edges lead forward.
IsForward-cons :
    (a : String) (is : List String) (edges : List GraphEdgeSpec)
    → member a is ≡ false
    → Resolves is edges
    → IsForward is edges
    → IsForward (a ∷ is) edges
IsForward-cons a is [] away r f = tt
IsForward-cons a is (e ∷ edges) away r f = (
  let from = differs a e.from_node is away r.0.0 in
      let to = differs a e.to_node is away r.0.1 in (rw from (rw to (omega (arith, f.0.0))), f.0.1),
  IsForward-cons a is edges away r.1 f.1,
)

Resolves-cons :
    (a : String) (is : List String) (edges : List GraphEdgeSpec)
    → Resolves is edges
    → Resolves (a ∷ is) edges
Resolves-cons a is edges r =
    All-map (λ e h. (either (a == e.from_node) h.0, either (a == e.to_node) h.1)) edges r
  where
    either : (b : Bool) {c : Bool} → c ≡ true → (if b then true else c) ≡ true
    either true k = refl
    either false k = k

module _ {B : Type 0} where
  pub chain-Resolves : (stages : List (GraphNodeSpec B)) → Resolves (ids stages) (chain stages)
  chain-Resolves [] = tt
  chain-Resolves (a ∷ []) = tt
  chain-Resolves (a ∷ b ∷ stages) = (
    (rw (beq_self a.id) refl, rw (beq_self b.id) (either (a.id == b.id))),
    Resolves-cons a.id (ids (b ∷ stages)) (chain (b ∷ stages)) (chain-Resolves (b ∷ stages)),
  )
    where
      either : (t : Bool) → (if t then true else true) ≡ true
      either true = refl
      either false = refl

  pub chain-IsForward :
      (stages : List (GraphNodeSpec B))
      → IsDistinct (ids stages)
      → IsForward (ids stages) (chain stages)
  chain-IsForward [] d = tt
  chain-IsForward (a ∷ []) d = tt
  chain-IsForward (a ∷ b ∷ stages) d = (
    (first_before a.id b.id (ids (b ∷ stages)) d.0 (rw (beq_self b.id) refl), refl),
    IsForward-cons a.id (ids (b ∷ stages)) (chain (b ∷ stages)) d.0 (chain-Resolves (b ∷ stages))
        (chain-IsForward (b ∷ stages) d.1),
  )

  ends_in :
      (nodes : List (GraphNodeSpec B)) (c : GraphNodeSpec B)
      → member c.id (ids (nodes ++ c ∷ [])) ≡ true
  ends_in [] c = rw (beq_self c.id) refl
  ends_in (n ∷ nodes) c = elim (Bool-cases (n.id == c.id)) [
    | inl same ↦ rw same refl
    | inr other ↦ rw other (ends_in nodes c)
  ]

  pub fan_in-Resolves :
      (nodes : List (GraphNodeSpec B)) (c : GraphNodeSpec B)
      → Resolves (ids (nodes ++ c ∷ [])) (fan_in nodes c.id)
  fan_in-Resolves [] c = tt
  fan_in-Resolves (n ∷ nodes) c = (
    (rw (beq_self n.id) refl, ends_in (n ∷ nodes) c),
    Resolves-cons n.id (ids (nodes ++ c ∷ [])) (fan_in nodes c.id) (fan_in-Resolves nodes c),
  )

  pub fan_in-IsForward :
      (nodes : List (GraphNodeSpec B)) (c : GraphNodeSpec B)
      → IsDistinct (ids (nodes ++ c ∷ []))
      → IsForward (ids (nodes ++ c ∷ [])) (fan_in nodes c.id)
  fan_in-IsForward [] c d = tt
  fan_in-IsForward (n ∷ nodes) c d = (
    (first_before n.id c.id (ids (nodes ++ c ∷ [])) d.0 (ends_in nodes c), refl),
    IsForward-cons n.id (ids (nodes ++ c ∷ [])) (fan_in nodes c.id) d.0 (fan_in-Resolves nodes c)
        (fan_in-IsForward nodes c d.1),
  )
