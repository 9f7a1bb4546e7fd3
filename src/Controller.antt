-- ===== src/Controller.antt =====
-- mpc_controller: the controller's data, the vehicle model, the cost, the solver and the control loop.
pub mod Types
pub mod Model
pub mod Cost
pub mod Solver
pub mod Loop
pub mod Packet
