-- ===== src/Gate.antt =====
-- gateserver/: the gate between players' connections and the game servers. `Gate.State` holds what
-- the singletons keep; each method is a function from a gate to a gate.
pub mod State
pub mod Session
pub mod Games
pub mod Users
pub mod Handlers
