-- ===== src/Lib.antt =====
-- Verification of the integer core of pydefi: tick math, pool quotes, route search, multi-edge
-- paths, Curve pricing, the route builder, the planner, the compiler of quoting programs, V2 formulas,
-- Morpho markets, the ranking of bridges, OKX router paths and the indexer.
--
-- The program's parts, and the files that model them:
--   * pydefi/pathfinder/v3_tick_math.py, in Tick: `TickLadder` and its `crossings` (Tick/Ladder),
--     `get_sqrt_ratio_at_tick` (Tick/Ratio), `compute_swap_step` and the four formulas that it calls
--     (Tick/Step), and `walk_v3_swap` with its loop (Tick/Walk).
--   * pydefi/pathfinder/graph.py, in Pool and Graph: `ReserveOverlay` (Pool/Overlay), `PoolEdge`
--     (Pool/Constant), `V3PoolEdge` and `V4PoolEdge` (Pool/Concentrated), which quote by the walk of
--     Tick when the edge has a ladder; `PoolGraph` (Graph), `add_bidirectional_pool` (Graph/Pools)
--     and `find_best_route_gas_aware` (Graph/Search). `CurveStableEdge` stands in Curve/Edge.
--   * pydefi/pathfinder/multipath.py, in Multipath: `_distribute_int` (Multipath/Distribute),
--     `MultiEdgePath` and `PathWeights` (Multipath/Path), `merge_and_expand` (Multipath/Merge), over
--     the edges of Graph.
--   * pydefi/amm/curve_math.py, in Curve: `stable_get_D` (Curve/Invariant), `stable_get_y` and
--     `stable_get_y_D` (Curve/Solve), `stable_dynamic_fee`, `stable_get_dy` and `stable_get_dx`
--     (Curve/Exchange), `_geometric_mean`, `newton_y` and `crypto_fee` (Curve/Crypto).
--   * pydefi/pathfinder/dag.py, in Dag: the actions (Dag/Action), the state and the errors
--     (Dag/State), the methods of `RouteDAG` (Dag/Branch, Dag/Splits), `to_dict` (Dag/Freeze), and
--     sequences of calls (Dag/Run).
--   * pydefi/pathfinder/router.py, in Router: the keys and the steps of edges (Router/Steps), the search
--     by the output (Router/Search), `find_best_route` with its two searches (Router/Best),
--     `find_all_routes` (Router/AllRoutes), `simulate` and the builder of a route (Router/Simulate).
--     The planner walks the graph of Graph and fills the builder of Dag.
--   * pydefi/vm, in Vm: the instructions that context.py emits (Vm/Program), the hops of swap.py
--     (Vm/Hops), and `build_quote_program_for_dag` of dag.py (Vm/Quote), which compiles the routes
--     of Dag; Vm/Machine is the meaning of the instructions.
--   * pydefi/amm/uniswap_v2.py, in Amm/Product: `v2_get_amount_out` and `v2_get_amount_in`.
--   * pydefi/lending/morpho.py, in Lending/Morpho: `accrue_interest`, `liquidation_incentive_factor`,
--     `max_liquidation`, `_resolve_assets_shares`.
--   * pydefi/bridge/router.py, in Bridge/Ranking: `rank_bridge_quotes` and `BridgeRouter`.
--   * pydefi/aggregator/okx_router_encoder.py, in Okx: `encode_edge_raw_data` and `_walk_actions` with
--     the nodes it builds, over the routes of Dag.
--   * pydefi/indexer/indexer.py, in Indexer: the loop of `backfill`, and `_to_signed`; in Indexer/Polling
--     the checkpoints, `_poll_once` and `run`; in Indexer/Events `_process_logs` with its handlers. The
--     first two take the processing of a range as a parameter.
--   * pydefi/types.py and pydefi/_math.py, in Types: `Token`, `SwapStep`, `SwapRoute`,
--     `apply_slippage`.
-- Common holds the tests, lists, integers, results and division lemmas that all of them share.
--
-- How the code is represented:
--   * Prices, liquidity, amounts, reserves and fees are natural numbers; a guard `x <= 0` reads
--     `x == 0`. Tick indices, `liquidity_net` and the deltas of the overlay are signed. Fees are at
--     most their denominator, and a Curve pool has `a_precision ≤ amp * n`, since a subtraction of
--     natural numbers stops at 0; elsewhere the code's own guards keep differences positive.
--   * An exception is a value of `Result`. A method of `RouteDAG` returns its result and the state it
--     leaves, also when it raises. `_split_stack` is a list with its last entry first, and the
--     active leg, which the code reaches as `legs[-1]`, is kept apart from the legs before it.
--   * A dict is a list of pairs in the order in which the keys came.
--   * Floats are parameters: the weights of the search, and the scaled weights of a split. An edge
--     of the graph is what its class shows: its tokens, `amount_out` and `pool_uid`.
--   * A program is the list of its instructions, a variable the place of one. The machine that runs
--     it computes with words modulo 2 ^ 256; what the contracts answer is a parameter.
--   * The float prices of a search with gas are the Booleans that the code asks of them.
--   * The loops run over lists, or for the 255 rounds that the code itself allows, after which it
--     raises; the route search runs for `max_hops` rounds. The loop of `backfill`
--     runs on fuel, and one round for each block of the range is enough.
--
-- Not modelled: the queries of the indexer and OKX's table of adapters, which are parameters; prices
-- and impacts in Decimal, log weights, `newton_D` and `crypto_get_dy`, the meta-pool helpers,
-- `find_optimal_split` and its optimisers, the execution programs of pydefi/vm and the memory layout
-- of its calls, and the RPC and HTTP clients, which read and send data.
pub mod Common
pub mod Types
pub mod Tick
pub mod Pool
pub mod Graph
pub mod Multipath
pub mod Curve
pub mod Dag
pub mod Router
pub mod Amm
pub mod Vm
pub mod Lending
pub mod Bridge
pub mod Okx
pub mod Indexer
