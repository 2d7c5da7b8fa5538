-- ===== src/Execution.antt =====
-- core/execution: the execution graph (core/contracts/execution_graph.py) and its planner
-- (core/execution/graph_planner.py).
pub mod Graph
