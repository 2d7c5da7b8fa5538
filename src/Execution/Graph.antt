-- ===== src/Execution/Graph.antt =====
-- The execution graph of core/contracts/execution_graph.py and the planner of
-- core/execution/graph_planner.py. What of a node is only passed on (models, skills, tools, limits) is one
-- value of a type `B`; the status and the policies of a graph, which this code never reads, are left out.
-- Ids are texts that are within the contract's bounds already.
pub mod Valid
pub mod Shapes
pub mod Plans
pub mod Follow
mod Examples
use general_ai_core.Prelude.{
  ℕ, String, List, [], ◌∷◌, ◌++◌, Bool, true, false, ◌||◌, not, Option, none, some, member, length,
  ltb, string_eq, ◌==◌, if◌then◌else◌, keep, Result, ok, err, ◌>>=◌, ◌>>◌, raise_if,
}

pub data GraphNodeType : Type 0 where
  planner : GraphNodeType
  model_call : GraphNodeType
  tool_call : GraphNodeType
  aggregator : GraphNodeType
  reviewer : GraphNodeType
  tester : GraphNodeType
  validator : GraphNodeType
  approval_gate : GraphNodeType
  human_input : GraphNodeType
  finalizer : GraphNodeType
  provider_agent_call : GraphNodeType

pub data EdgeCondition : Type 0 where
  success : EdgeCondition
  failure : EdgeCondition
  always : EdgeCondition
  score_below_threshold : EdgeCondition
  approval_granted : EdgeCondition
  approval_denied : EdgeCondition

-- `ExecutionStrategy` of core/contracts/execution.py.
pub data Strategy : Type 0 where
  single : Strategy
  pipeline : Strategy
  parallel : Strategy
  debate : Strategy
  review_judge : Strategy
  map_reduce : Strategy
  agent : Strategy
  hybrid : Strategy

pub record GraphNodeSpec (B : Type 0) : Type 0 where
  pub id : String
  pub node_type : GraphNodeType
  pub body : B

pub record GraphEdgeSpec : Type 0 where
  pub from_node : String
  pub to_node : String
  pub condition : EdgeCondition

pub record ExecutionGraphSpec (B : Type 0) : Type 0 where
  pub id : String
  pub strategy : Strategy
  pub nodes : List (GraphNodeSpec B)
  pub edges : List GraphEdgeSpec

pub data GraphError : Type 0 where
  duplicate_node : String → GraphError
  unknown_node : String → GraphError
  missing_node : String → GraphError
  too_few_stages : GraphError
  too_few_branches : GraphError
  not_a_combiner : GraphError
  too_few_debaters : GraphError
  not_a_judge : GraphError

module _ {B : Type 0} where
  -- The first loop of the validator: the ids that were seen.
  abbrev pub check_nodes : List (GraphNodeSpec B) → List String → Result GraphError (List String)
  check_nodes [] seen = ok seen
  check_nodes (n ∷ nodes) seen = do
    raise_if (member n.id seen) (duplicate_node n.id)
    check_nodes nodes (n.id ∷ seen)

-- The second loop.
abbrev pub check_edges : List GraphEdgeSpec → List String → Result GraphError (Unit {0})
check_edges [] seen = ok tt
check_edges (e ∷ edges) seen = do
  raise_if (not (member e.from_node seen)) (unknown_node e.from_node)
  raise_if (not (member e.to_node seen)) (unknown_node e.to_node)
  check_edges edges seen

abbrev pub success_edge : String → String → GraphEdgeSpec
success_edge a b = record { from_node = a; to_node = b; condition = success }

abbrev pub is_finalizer : GraphNodeType → Bool
is_finalizer finalizer = true
is_finalizer other = false

abbrev pub is_combiner : GraphNodeType → Bool
is_combiner aggregator = true
is_combiner other = is_finalizer other

module _ {B : Type 0} where
  -- The construction of a graph, which runs `_nodes_unique_and_edges_resolve`.
  unfoldable pub construct : ExecutionGraphSpec B → Result GraphError (ExecutionGraphSpec B)
  construct g = do seen ← check_nodes g.nodes []; check_edges g.edges seen; ok g

  abbrev pub find_node : String → List (GraphNodeSpec B) → Result GraphError (GraphNodeSpec B)
  find_node id [] = err (missing_node id)
  find_node id (n ∷ nodes) = if n.id == id then ok n else find_node id nodes

  unfoldable pub node : String → ExecutionGraphSpec B → Result GraphError (GraphNodeSpec B)
  node id g = find_node id g.nodes

  unfoldable pub edges_from : String → ExecutionGraphSpec B → List GraphEdgeSpec
  edges_from id g = keep (λ e. e.from_node == id) g.edges

  unfoldable pub plan_single : String → String → B → Result GraphError (ExecutionGraphSpec B)
  unfolding construct
  plan_single graph_id node_id body = construct (record {
    id = graph_id;
    strategy = single;
    nodes = record { id = node_id; node_type = model_call; body = body } ∷ [];
    edges = [];
  })

  -- The edges from each stage to the next.
  abbrev pub chain : List (GraphNodeSpec B) → List GraphEdgeSpec
  chain [] = []
  chain (a ∷ []) = []
  chain (a ∷ b ∷ stages) = success_edge a.id b.id ∷ chain (b ∷ stages)

  unfoldable pub plan_pipeline :
      String → List (GraphNodeSpec B) → Result GraphError (ExecutionGraphSpec B)
  unfolding construct
  plan_pipeline graph_id stages = do
    raise_if (ltb (length stages) 2) too_few_stages
    construct (record { id = graph_id; strategy = pipeline; nodes = stages; edges = chain stages })

  -- An edge from each of the nodes to one.
  abbrev pub fan_in : List (GraphNodeSpec B) → String → List GraphEdgeSpec
  fan_in [] target = []
  fan_in (n ∷ nodes) target = success_edge n.id target ∷ fan_in nodes target

  unfoldable pub plan_parallel :
      String → List (GraphNodeSpec B) → GraphNodeSpec B → Result GraphError (ExecutionGraphSpec B)
  unfolding construct
  plan_parallel graph_id branches combiner = do
    raise_if (ltb (length branches) 2) too_few_branches
    raise_if (not (is_combiner combiner.node_type)) not_a_combiner
    construct (record {
      id = graph_id;
      strategy = parallel;
      nodes = branches ++ combiner ∷ [];
      edges = fan_in branches combiner.id;
    })

  unfoldable pub plan_debate :
      String → List (GraphNodeSpec B) → GraphNodeSpec B → Result GraphError (ExecutionGraphSpec B)
  unfolding construct
  plan_debate graph_id debaters judge = do
    raise_if (ltb (length debaters) 2) too_few_debaters
    raise_if (not (is_finalizer judge.node_type)) not_a_judge
    construct (record {
      id = graph_id;
      strategy = debate;
      nodes = debaters ++ judge ∷ [];
      edges = fan_in debaters judge.id;
    })
