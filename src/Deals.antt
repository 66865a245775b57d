-- ===== src/Deals.antt =====
-- Deals: the rows and queries of a stage move, the move with the rules that it sets off, and its
-- properties.
pub mod Table
pub mod Stages
pub mod Hops
pub mod Moves
pub mod Service
pub mod Guards
pub mod Examples
