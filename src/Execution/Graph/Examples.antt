-- ===== src/Execution/Graph/Examples.antt =====
-- Graphs of two and three nodes.
use general_ai_core.Prelude.{String, [], ◌∷◌, ◌≡◌, ◌↔◌, refl, All, string_eq, ok}
use general_ai_core.Execution.Graph.{model_call, aggregator, GraphNodeSpec, construct, edges_from}
use general_ai_core.Execution.Graph.Valid.{ids, IsDistinct, Resolves, construct_iff}
use general_ai_core.Execution.Graph.Follow.{Leads, edges_lead}
use general_ai_core.Execution.Graph.Shapes.{IsForward}
use general_ai_core.Execution.Graph.Plans.{
  Plan, parallels, plan, graph_of, IsWellMade, plan_exactly,
}

abbrev caller : String → GraphNodeSpec (Unit {0})
caller i = record { id = i; node_type = model_call; body = tt }

abbrev joiner : GraphNodeSpec (Unit {0})
joiner = record { id = "join"; node_type = aggregator; body = tt }

abbrev fork : Plan (Unit {0})
fork = parallels "fork" (caller "left" ∷ caller "right" ∷ []) joiner

construct_iff_example : (construct (graph_of fork) ≡ ok (graph_of fork)) ↔ (
    IsDistinct (ids (graph_of fork).nodes)
    × Resolves (ids (graph_of fork).nodes) (graph_of fork).edges)
construct_iff_example = construct_iff (graph_of fork)

plan_exactly_example :
    ((plan fork ≡ ok (graph_of fork)) ↔ (IsWellMade fork × IsDistinct (ids (graph_of fork).nodes)))
    × (plan fork ≡ ok (graph_of fork) → IsForward (ids (graph_of fork).nodes) (graph_of fork).edges)
plan_exactly_example = plan_exactly fork

edges_lead_example :
    All
      (λ e. (e.from_node ≡ "left") × Leads (graph_of fork) e.to_node)
      (edges_from "left" (graph_of fork))
unfolding construct
edges_lead_example = edges_lead (graph_of fork) "left" refl
