-- ===== src/P2p.antt =====
-- uniconn-py/uniconn/p2p: nodes that reach one another through a relay.
pub mod Envelope
pub mod Hex
pub mod Operations
pub mod Session
pub mod Node
pub mod Handlers
pub mod Control
pub mod Connect
