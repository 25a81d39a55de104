-- ===== src/Secure.antt =====
-- uniconn-py/uniconn/secure: the end-to-end encrypted channel USCP v1.
pub mod Message
pub mod Frame
pub mod Crypto
pub mod Data
pub mod Channel
pub mod Identity
pub mod Handshake
pub mod Store
