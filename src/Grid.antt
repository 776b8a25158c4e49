-- ===== src/Grid.antt =====
-- backend/engine/grid: the states of a grid and of its levels, and the plan of orders for a price.
mod Tests
pub mod Models
pub mod State
pub mod Planner
pub mod Breaker
pub mod Calculator
pub mod Engine
