-- ===== src/Tests.antt =====
-- Runs at concrete inputs, with small stand-ins for the packages that are not in the repository.
mod Toys
mod Secure
mod Handshake
mod Once
mod Store
mod Transports
mod Adapters
mod Listener
mod Datagrams
mod Sessions
mod Relay
mod Streams
mod Queues
mod Dialing
mod Meeting
mod Handlers
mod Connect
mod Negotiated
mod Connecting
mod Echoes
mod Taking
