-- ===== src/Planner/Polynomial.antt =====
-- frenet_planner/src/frenet_planner/math/polynomial.cpp, over abstract numbers: the polynomials of
-- a manoeuvre, fifth degree with a given end and fourth degree with a free end position.
pub mod Quintic
pub mod Quartic
