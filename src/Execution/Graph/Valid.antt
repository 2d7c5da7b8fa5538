-- ===== src/Execution/Graph/Valid.antt =====
-- The validator of execution graphs of core/contracts/execution_graph.py against its specification.
use general_ai_core.Prelude.{
  ◌≡◌, ◌↔◌, refl, sym, ap, ◌∙◌, arith, inl, inr, String, List, [], ◌∷◌, Bool, true, false, ◌||◌,
  Bool-cases, false≢true, member, string_eq, ◌==◌, if◌then◌else◌, Result, ok, err, Result-cases,
  All,
}
use general_ai_core.Execution.Graph.{
  GraphNodeSpec, GraphEdgeSpec, ExecutionGraphSpec, GraphError, check_nodes, check_edges, construct,
}

abbrev pub ids : {B : Type 0} → List (GraphNodeSpec B) → List String
ids [] = []
ids (n ∷ nodes) = n.id ∷ ids nodes

-- No id stands twice.
abbrev pub IsDistinct : List String → Type 0
IsDistinct [] = Unit
IsDistinct (i ∷ is) = (member i is ≡ false) × IsDistinct is

-- Both ends of every edge are among the ids.
abbrev pub Resolves : List String → List GraphEdgeSpec → Type 0
Resolves is = All (λ e. (member e.from_node is ≡ true) × (member e.to_node is ≡ true))

-- The ids are none of those that were seen before.
abbrev AreNew : List String → List String → Type 0
AreNew seen = All (λ i. member i seen ≡ false)

AreNew-split :
    (i : String) (seen is : List String)
    → AreNew (i ∷ seen) is
    → (member i is ≡ false) × AreNew seen is
AreNew-split i seen [] h = (refl, tt)
AreNew-split i seen (x ∷ is) h =
    let r = AreNew-split i seen is h.1 in
    elim (Bool-cases (i == x)) [
      | inl same ↦ absurd (false≢true (sym (rw same at h.0)))
      | inr other ↦ (rw (swapped i x other) r.0, (rw other at h.0, r.1))
    ]
  where
    swapped : (a b : String) → (a == b) ≡ false → (b == a) ≡ false
    swapped a b h = ground (arith, h, string_eq.beq_iff a b, string_eq.beq_iff b a)

AreNew-join :
    (i : String) (seen is : List String)
    → member i is ≡ false
    → AreNew seen is
    → AreNew (i ∷ seen) is
AreNew-join i seen [] h k = tt
AreNew-join i seen (x ∷ is) h k = elim (Bool-cases (x == i)) [
  | inl same ↦ absurd (false≢true (sym (rw same at h)))
  | inr other ↦ (rw (swapped x i other) k.0, AreNew-join i seen is (rw other at h) k.1)
]
  where
    swapped : (a b : String) → (a == b) ≡ false → (b == a) ≡ false
    swapped a b h = ground (arith, h, string_eq.beq_iff a b, string_eq.beq_iff b a)

AreNew-nil : (is : List String) → AreNew [] is
AreNew-nil [] = tt
AreNew-nil (i ∷ is) = (refl, AreNew-nil is)

-- What the first loop has seen when it ends.
abbrev Sees : List String → List String → List String → Type 0
Sees s is seen = (i : String) → member i s ≡ (member i is || member i seen)

module _ {B : Type 0} where
  nodes_accepted :
      (nodes : List (GraphNodeSpec B)) (seen : List String)
      → IsDistinct (ids nodes)
      → AreNew seen (ids nodes)
      → (s : List String) × (check_nodes nodes seen ≡ ok s) × Sees s (ids nodes) seen
  nodes_accepted [] seen d f = (seen, refl, (λ i. refl))
  nodes_accepted (n ∷ nodes) seen d f =
      let (s, e, sees) =
        nodes_accepted nodes (n.id ∷ seen) d.1 (AreNew-join n.id seen (ids nodes) d.0 f.1) in
      (s, rw f.0 e, λ i. sees i ∙ reorder (n.id == i) (member i (ids nodes)) (member i seen))
    where
      reorder : (b c d : Bool) → (c || (if b then true else d)) ≡ ((if b then true else c) || d)
      reorder true true d = refl
      reorder true false d = refl
      reorder false c d = refl

  accepted_nodes :
      (nodes : List (GraphNodeSpec B)) (seen s : List String)
      → check_nodes nodes seen ≡ ok s
      → IsDistinct (ids nodes) × AreNew seen (ids nodes)
  accepted_nodes [] seen s e = (tt, tt)
  accepted_nodes (n ∷ nodes) seen s e = elim (Bool-cases (member n.id seen)) [
    | inl twice ↦ absurd (no_error (rw twice at e))
    | inr fresh ↦
        let (d, f) = accepted_nodes nodes (n.id ∷ seen) s (rw fresh at e) in
        let (new, rest) = AreNew-split n.id seen (ids nodes) f in ((new, d), (fresh, rest))
  ]
    where
      no_error :
          {x : GraphError} {s : List String}
          → ◌≡◌ {A = Result GraphError (List String)} (err x) (ok s)
          → ⊥
      no_error e = cc

pub edges_accepted :
    (edges : List GraphEdgeSpec) (s : List String) → Resolves s edges → check_edges edges s ≡ ok tt
edges_accepted [] s h = refl
edges_accepted (e ∷ edges) s h = rw h.0.0 (rw h.0.1 (edges_accepted edges s h.1))

accepted_edges :
    (edges : List GraphEdgeSpec) (s : List String) → check_edges edges s ≡ ok tt → Resolves s edges
accepted_edges [] s h = tt
accepted_edges (e ∷ edges) s h = elim (Bool-cases (member e.from_node s)) [
  | inr away ↦ absurd (no_error (rw away at h))
  | inl from ↦ elim (Bool-cases (member e.to_node s)) [
    | inr away ↦ absurd (no_error (rw (from, away) at h))
    | inl to ↦ ((from, to), accepted_edges edges s (rw (from, to) at h))
  ]
]
  where
    no_error : {x : GraphError} → ◌≡◌ {A = Result GraphError (Unit {0})} (err x) (ok tt) → ⊥
    no_error e = cc

Resolves-seen :
    (s is : List String) (edges : List GraphEdgeSpec)
    → ((i : String) → member i s ≡ member i is)
    → Resolves is edges
    → Resolves s edges
Resolves-seen s is [] same h = tt
Resolves-seen s is (e ∷ edges) same h =
    ((same e.from_node ∙ h.0.0, same e.to_node ∙ h.0.1), Resolves-seen s is edges same h.1)

-- The construction of a graph returns it exactly when no two of its nodes have one id and every edge goes
-- from one of its nodes to one of its nodes.
pub construct_iff :
    {B : Type 0} (g : ExecutionGraphSpec B)
    → (construct g ≡ ok g) ↔ (IsDistinct (ids g.nodes) × Resolves (ids g.nodes) g.edges)
unfolding construct
construct_iff {B = B} g = (forth, back)
  where
    no_error :
        {x : GraphError} → ◌≡◌ {A = Result GraphError (ExecutionGraphSpec B)} (err x) (ok g) → ⊥
    no_error e = cc

    or_nil : (b : Bool) → (b || false) ≡ b
    or_nil true = refl
    or_nil false = refl

    nodes_seen :
        (s : List String)
        → Sees s (ids g.nodes) []
        → (i : String) → member i s ≡ member i (ids g.nodes)
    nodes_seen s sees i = sees i ∙ or_nil (member i (ids g.nodes))

    back : IsDistinct (ids g.nodes) × Resolves (ids g.nodes) g.edges → construct g ≡ ok g
    back h =
        let (s, e, sees) = nodes_accepted g.nodes [] h.0 (AreNew-nil (ids g.nodes)) in
        rw e (
          rw
            (edges_accepted g.edges s
              (Resolves-seen s (ids g.nodes) g.edges (nodes_seen s sees) h.1))
            refl)

    same_seen :
        {a b : List String} → ◌≡◌ {A = Result GraphError (List String)} (ok a) (ok b) → a ≡ b
    same_seen e = cc

    forth : construct g ≡ ok g → IsDistinct (ids g.nodes) × Resolves (ids g.nodes) g.edges
    forth h = elim (Result-cases (check_nodes g.nodes [])) [
      | inr (x, failed) ↦ absurd (no_error (rw failed at h))
      | inl (s, e) ↦
          let (d, f) = accepted_nodes g.nodes [] s e in
          let (s', e', sees) = nodes_accepted g.nodes [] d f in
          let same : (i : String) → member i (ids g.nodes) ≡ member i s =
            λ i. sym (nodes_seen s' sees i) ∙ ap (member i) (same_seen (sym e' ∙ e)) in
          elim (Result-cases (check_edges g.edges s)) [
            | inr (x, failed) ↦ absurd (no_error (rw (e, failed) at h))
            | inl (u, passed) ↦
                (d, Resolves-seen (ids g.nodes) s g.edges same (accepted_edges g.edges s passed))
          ]
    ]
