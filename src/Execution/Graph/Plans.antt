-- ===== src/Execution/Graph/Plans.antt =====
-- The graphs that the planner of core/execution/graph_planner.py builds.
use general_ai_core.Prelude.{
  ℕ, ◌≤◌, ◌≡◌, ◌↔◌, ◌⊎◌, inl, inr, refl, sym, ap, subst, false≢true, arith, String, List, [], ◌∷◌,
  ◌++◌, Bool, true, false, not, length, ltb, string_eq, Result, ok, err, ◌>>◌, raise_if,
}
use general_ai_core.Execution.Graph.{
  GraphNodeType, aggregator, finalizer, success, GraphEdgeSpec, success_edge, model_call,
  GraphNodeSpec, ExecutionGraphSpec, GraphError, single, pipeline, parallel, debate, construct,
  too_few_stages, too_few_branches, too_few_debaters, not_a_combiner, not_a_judge, chain, fan_in,
  is_finalizer, is_combiner, plan_single, plan_pipeline, plan_parallel, plan_debate,
}
use general_ai_core.Execution.Graph.Valid.{ids, IsDistinct, Resolves, construct_iff}
use general_ai_core.Execution.Graph.Shapes.{
  IsForward, chain-Resolves, chain-IsForward, fan_in-Resolves, fan_in-IsForward,
}

-- A call of the planner.
pub data Plan (B : Type 0) : Type 0 where
  singles : String → String → B → Plan B
  pipelines : String → List (GraphNodeSpec B) → Plan B
  parallels : String → List (GraphNodeSpec B) → GraphNodeSpec B → Plan B
  debates : String → List (GraphNodeSpec B) → GraphNodeSpec B → Plan B

module _ {B : Type 0} where
  abbrev pub plan : Plan B → Result GraphError (ExecutionGraphSpec B)
  plan (singles id node body) = plan_single id node body
  plan (pipelines id stages) = plan_pipeline id stages
  plan (parallels id branches combiner) = plan_parallel id branches combiner
  plan (debates id debaters judge) = plan_debate id debaters judge

  -- The graphs with the edges as the code makes them.
  abbrev made_of : Plan B → ExecutionGraphSpec B
  made_of (singles id node body) = record {
    id = id;
    strategy = single;
    nodes = record { id = node; node_type = model_call; body = body } ∷ [];
    edges = [];
  }
  made_of (pipelines id stages) = record {
    id = id;
    strategy = pipeline;
    nodes = stages;
    edges = chain stages;
  }
  made_of (parallels id branches combiner) = record {
    id = id;
    strategy = parallel;
    nodes = branches ++ combiner ∷ [];
    edges = fan_in branches combiner.id;
  }
  made_of (debates id debaters judge) = record {
    id = id;
    strategy = debate;
    nodes = debaters ++ judge ∷ [];
    edges = fan_in debaters judge.id;
  }

  -- The code's guards.
  abbrev IsMade : Plan B → Type 0
  IsMade (singles id node body) = Unit
  IsMade (pipelines id stages) = 2 ≤ length stages
  IsMade (parallels id branches combiner) =
      (2 ≤ length branches) × (is_combiner combiner.node_type ≡ true)
  IsMade (debates id debaters judge) = (2 ≤ length debaters) × (is_finalizer judge.node_type ≡ true)

-- A guard that raises in front of a step.
guarded :
    {A : Type 0} (b : Bool) (e : GraphError) (r : Result GraphError A) (g : A)
    → (raise_if b e >> r) ≡ ok g
    → (b ≡ false) × (r ≡ ok g)
guarded {A = A} true e r g h = absurd (no_error h)
  where
    no_error : ◌≡◌ {A = Result GraphError A} (err e) (ok g) → ⊥
    no_error e = cc
guarded false e r g h = (refl, h)

enough : (n : ℕ) → ltb n 2 ≡ false → 2 ≤ n
enough n h = ground (arith, h)

not_few : (n : ℕ) → 2 ≤ n → ltb n 2 ≡ false
not_few n h = ground (arith, h)

accepts : (b : Bool) → not b ≡ false → b ≡ true
accepts true h = refl
accepts false h = sym h

module _ {B : Type 0} where
  graph-Resolves : (p : Plan B) → Resolves (ids (made_of p).nodes) (made_of p).edges
  graph-Resolves (singles id node body) = tt
  graph-Resolves (pipelines id stages) = chain-Resolves stages
  graph-Resolves (parallels id branches combiner) = fan_in-Resolves branches combiner
  graph-Resolves (debates id debaters judge) = fan_in-Resolves debaters judge

  -- The graph of a plan is constructed as soon as its nodes are distinct.
  distinct_enough :
      (p : Plan B) → IsDistinct (ids (made_of p).nodes) → construct (made_of p) ≡ ok (made_of p)
  distinct_enough p d = (construct_iff (made_of p)).1 (d, graph-Resolves p)

  forth : (p : Plan B) → plan p ≡ ok (made_of p) → IsMade p × IsDistinct (ids (made_of p).nodes)
  unfolding plan_single plan_pipeline plan_parallel plan_debate
  forth (singles id node body) h = (tt, ((construct_iff (made_of (singles id node body))).0 h).0)
  forth (pipelines id stages) h =
      let p = pipelines id stages in
      let (few, made) =
        guarded (ltb (length stages) 2) too_few_stages (construct (made_of p)) (made_of p) h in
      (enough (length stages) few, ((construct_iff (made_of p)).0 made).0)
  forth (parallels id branches combiner) h =
      let p = parallels id branches combiner in
      let bad = not (is_combiner combiner.node_type) in
      let (few, rest) =
        guarded (ltb (length branches) 2) too_few_branches
          (raise_if bad not_a_combiner >> construct (made_of p)) (made_of p) h in
      let (kind, made) = guarded bad not_a_combiner (construct (made_of p)) (made_of p) rest in
      (
        (enough (length branches) few, accepts (is_combiner combiner.node_type) kind),
        ((construct_iff (made_of p)).0 made).0,
      )
  forth (debates id debaters judge) h =
      let p = debates id debaters judge in
      let bad = not (is_finalizer judge.node_type) in
      let (few, rest) =
        guarded (ltb (length debaters) 2) too_few_debaters
          (raise_if bad not_a_judge >> construct (made_of p)) (made_of p) h in
      let (kind, made) = guarded bad not_a_judge (construct (made_of p)) (made_of p) rest in
      (
        (enough (length debaters) few, accepts (is_finalizer judge.node_type) kind),
        ((construct_iff (made_of p)).0 made).0,
      )

  back : (p : Plan B) → IsMade p → IsDistinct (ids (made_of p).nodes) → plan p ≡ ok (made_of p)
  unfolding plan_single plan_pipeline plan_parallel plan_debate
  back (singles id node body) w d = distinct_enough (singles id node body) d
  back (pipelines id stages) w d =
      rw (not_few (length stages) w) (distinct_enough (pipelines id stages) d)
  back (parallels id branches combiner) w d =
      rw (not_few (length branches) w.0, w.1) (distinct_enough (parallels id branches combiner) d)
  back (debates id debaters judge) w d =
      rw (not_few (length debaters) w.0, w.1) (distinct_enough (debates id debaters judge) d)

  graph-IsForward :
      (p : Plan B)
      → IsDistinct (ids (made_of p).nodes)
      → IsForward (ids (made_of p).nodes) (made_of p).edges
  graph-IsForward (singles id node body) d = tt
  graph-IsForward (pipelines id stages) d = chain-IsForward stages d
  graph-IsForward (parallels id branches combiner) d = fan_in-IsForward branches combiner d
  graph-IsForward (debates id debaters judge) d = fan_in-IsForward debaters judge d

finalizer_iff : (t : GraphNodeType) → (is_finalizer t ≡ true) ↔ (t ≡ finalizer)
finalizer_iff finalizer = ((λ h. refl), λ h. refl)
finalizer_iff _ = ((λ h. absurd (false≢true h)), λ h. ap is_finalizer h)

combiner_iff : (t : GraphNodeType) → (is_combiner t ≡ true) ↔ ((t ≡ aggregator) ⊎ (t ≡ finalizer))
combiner_iff aggregator = ((λ h. inl refl), λ h. refl)
combiner_iff finalizer = ((λ h. inr refl), λ h. refl)
combiner_iff t = (
  (λ h. absurd (false≢true h)),
  λ h. elim h [ inl a ↦ ap is_combiner a | inr f ↦ ap is_combiner f ],
)

-- From every id to the next one, on success.
abbrev pairs : List String → List String → List GraphEdgeSpec
pairs (i ∷ is) (j ∷ js) = record { from_node = i; to_node = j; condition = success } ∷ pairs is js
pairs [] js = []
pairs (i ∷ is) [] = []

abbrev behind : List String → List String
behind [] = []
behind (i ∷ is) = is

-- From every id to one target, on success.
abbrev to_one : String → List String → List GraphEdgeSpec
to_one target [] = []
to_one target (i ∷ is) =
    record { from_node = i; to_node = target; condition = success } ∷ to_one target is

module _ {B : Type 0} where
  -- The documented topologies: one node; the stages in a line; the branches, or the debaters, that all lead to
  -- the last node.
  abbrev pub graph_of : Plan B → ExecutionGraphSpec B
  graph_of (singles id node body) = record {
    id = id;
    strategy = single;
    nodes = record { id = node; node_type = model_call; body = body } ∷ [];
    edges = [];
  }
  graph_of (pipelines id stages) = record {
    id = id;
    strategy = pipeline;
    nodes = stages;
    edges = pairs (ids stages) (behind (ids stages));
  }
  graph_of (parallels id branches combiner) = record {
    id = id;
    strategy = parallel;
    nodes = branches ++ combiner ∷ [];
    edges = to_one combiner.id (ids branches);
  }
  graph_of (debates id debaters judge) = record {
    id = id;
    strategy = debate;
    nodes = debaters ++ judge ∷ [];
    edges = to_one judge.id (ids debaters);
  }

  -- Two stages, branches or debaters at least; branches meet in an aggregator or a finalizer, debaters in a
  -- finalizer.
  abbrev pub IsWellMade : Plan B → Type 0
  IsWellMade (singles id node body) = Unit
  IsWellMade (pipelines id stages) = 2 ≤ length stages
  IsWellMade (parallels id branches combiner) =
      (2 ≤ length branches) × ((combiner.node_type ≡ aggregator) ⊎ (combiner.node_type ≡ finalizer))
  IsWellMade (debates id debaters judge) = (2 ≤ length debaters) × (judge.node_type ≡ finalizer)

  chain-pairs :
      (stages : List (GraphNodeSpec B)) → pairs (ids stages) (behind (ids stages)) ≡ chain stages
  chain-pairs [] = refl
  chain-pairs (a ∷ []) = refl
  chain-pairs (a ∷ b ∷ stages) = ap (◌∷◌ (success_edge a.id b.id)) (chain-pairs (b ∷ stages))

  fan_in-to_one :
      (nodes : List (GraphNodeSpec B)) (target : String)
      → to_one target (ids nodes) ≡ fan_in nodes target
  fan_in-to_one [] target = refl
  fan_in-to_one (n ∷ nodes) target =
      ap (◌∷◌ (success_edge n.id target)) (fan_in-to_one nodes target)

  made_same : (p : Plan B) → graph_of p ≡ made_of p
  made_same (singles id node body) = refl
  made_same (pipelines id stages) = rw (chain-pairs stages) refl
  made_same (parallels id branches combiner) = rw (fan_in-to_one branches combiner.id) refl
  made_same (debates id debaters judge) = rw (fan_in-to_one debaters judge.id) refl

  IsMade-iff : (p : Plan B) → IsMade p ↔ IsWellMade p
  IsMade-iff (singles id node body) = ((λ h. h), λ h. h)
  IsMade-iff (pipelines id stages) = ((λ h. h), λ h. h)
  IsMade-iff (parallels id branches combiner) =
      let t = combiner_iff combiner.node_type in ((λ h. (h.0, t.0 h.1)), λ h. (h.0, t.1 h.1))
  IsMade-iff (debates id debaters judge) =
      let t = finalizer_iff judge.node_type in ((λ h. (h.0, t.0 h.1)), λ h. (h.0, t.1 h.1))

-- The planner returns the documented graph of a plan exactly when the plan is well made (two stages, branches
-- or debaters at least; branches that meet in an aggregator or a finalizer, debaters in a finalizer) and its
-- nodes have different ids. Then every edge leads on success from a node to one that stands after it, so that
-- the graph has no cycle.
pub plan_exactly :
    {B : Type 0} (p : Plan B)
    → ((plan p ≡ ok (graph_of p)) ↔ (IsWellMade p × IsDistinct (ids (graph_of p).nodes)))
      × (plan p ≡ ok (graph_of p) → IsForward (ids (graph_of p).nodes) (graph_of p).edges)
plan_exactly {B = B} p =
    subst
      (λ (g : ExecutionGraphSpec B).
        ((plan p ≡ ok g) ↔ (IsWellMade p × IsDistinct (ids g.nodes)))
        × (plan p ≡ ok g → IsForward (ids g.nodes) g.edges))
      (sym (made_same p))
      (
        (
          (λ h. let (w, d) = forth p h in ((IsMade-iff p).0 w, d)),
          λ h. back p ((IsMade-iff p).1 h.0) h.1,
        ),
        λ h. graph-IsForward p (forth p h).1,
      )
