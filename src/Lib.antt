-- ===== src/Lib.antt =====
-- Verification of the driving stack of this workspace: the Frenet planner, the controller and the
-- behavior planner.
-- Paths are from the repository's root, without the leading src/.
--
-- The program. behavior_planner (src/behavior_planner) reads the scene, applies hard rules, scores
-- the behaviors and selects one. frenet_planner (src/frenet_planner) projects the vehicle on a
-- reference line, keeps tracks of the obstacles and three contexts from cycle to cycle (AVOID,
-- FOLLOWING, MERGE), builds a command, generates candidates, filters and scores them, and publishes
-- the best one as a path in x and y; its loop resends the last path or stops the vehicle when there is
-- none. mpc_controller (src/mpc_controller) resamples the path, finds controls for it by projected
-- gradient descent on a linearised model, and sends pedals and steering. The processes share no code;
-- they exchange messages.
--
-- Which file models what (below src/frenet_planner/src/frenet_planner, src/behavior_planner/src and
-- src/mpc_controller/src):
--   Prelude, Double: lists, Boolean tests, integers; `double` as a record of operations.
--   Planner/Types, Planner/Config: global/global.hpp, global/data_logger.hpp.
--   Planner/RefLine: frenet/ref_line.cpp (NormalizeAngle, Interpolate, FindClosestS).
--   Planner/Converter: math/frenet_converter.cpp.
--   Planner/Collision: frenet/collision_checker.cpp. Planner/Cost: frenet/cost.cpp.
--   Planner/Leader: frenet/leader_selector.cpp. Planner/Avoidance: frenet/avoidance_selector.cpp.
--   Planner/Gap: frenet/merge_selector.cpp (the roundabout; Gap/Highway: the highway ramp).
--   Planner/Contexts, Tracks, AvoidPhases, Follow, Locked, Merge, Merge/Commit, Command: the blocks
--   of FrenetPlanner::Plan in frenet_planner.cpp, each a function from the state that it reads to the
--   state that it leaves; an early return is a value of a result type (LockedOutcome, CycleEnd).
--   Planner/Polynomial: math/polynomial.cpp. Planner/Generator, Planner/Maneuver:
--   frenet/path_generator.cpp (the candidates of a manoeuvre; the filters and ResolveManeuver).
--   Planner/Settings, Fallback, Generate, Plan: Init, PlanLowSpeedFallback, the generation for AVOID and
--   the composition of the blocks in frenet_planner.cpp. `plan` is FrenetPlanner::Plan: from the members
--   of the class (PlannerState), the vehicle and the obstacles to the path, if any, and the members.
--   Planner/Node: the loop of src/frenet_planner/src/main.cpp, a cycle for each frame of the network.
--   Controller/Types, Model, Cost, Solver, Loop: global/global.hpp, model/vehicle_model.cpp,
--   cost/cost_function.cpp, constraints/constraints.cpp with solver/mpc_solver.cpp, and main.cpp of
--   mpc_controller. A line search or a loop that breaks off is a recursion on the rounds that are left.
--   Controller/Packet: src/frenet_planner/src/udp_network/sender/planned_path_sender.cpp and
--   udp_network/receiver/planned_path_receiver.cpp of mpc_controller.
--   Behavior/Types: context/behavior_types.hpp, behavior_context.hpp, feature/urban_feature.hpp.
--   Behavior/Decision: rule/hard_rule_filter.cpp, decision/behavior_scorer.cpp, decision/fsm.cpp,
--   decision/behavior_decision.cpp.
--   Behavior/Map (Reach, StopLines, Nearest): the searches of map/mgeo_loader.cpp. A priority queue is
--   a sorted list, a map from identifiers an association list.
--   Behavior/Feature: feature/feature_builder.cpp, feature/object_projector.cpp. What the builder asks of
--   RouteManager and of the traffic lights is a record of functions.
--   Tests: concrete inputs.
--
-- Numbers. A `double` is an element of any type R with the operations of Double; comparisons are
-- Boolean and NaN is not excluded. What a theorem needs of IEEE arithmetic is a named hypothesis:
-- IsOrdered (the comparisons, with NaN), IsExact (integers up to 2^53), IsMonotone (rounding keeps the
-- order of differences with a common term), IsSymmetric (sums and sizes do not depend on the order),
-- IsSearch (signs of squares, halves and products), IsFloat (the conversion to float keeps the order),
-- IsMemory (what is copied to bytes is read back).
-- Whole millionths (Double/Micro) meet them and run the definitions. `int` identifiers are integers
-- without a bound, counters are natural numbers: an overflow of them is not modelled.
--
-- Fuel. The loops of the source that run over a `double` (angles, times) take `fuel`, a bound on
-- their rounds, and so do the loops over the priority queue of the map, whose theorems are about what
-- a search returns. Double/Steps.steps_stable shows that once the loop's own test has failed within the
-- fuel, more fuel changes nothing. The binary search takes the width of its interval as fuel.
--
-- Not modelled: the building of the reference line and the loading of the map and of the parameters,
-- which run once at the start; the route of behavior_planner; ROS, UDP, parameter
-- files, logging and visualisation, which are input and output. Of Plan and of the loops, the printed
-- lines and the debug writer are left out.
pub mod Prelude
pub mod Double
pub mod Planner
pub mod Controller
pub mod Behavior
pub mod Tests
