-- ===== src/Multi.antt =====
-- uniconn-py/uniconn/multi/__init__.py: several protocols behind one dialer and one listener.
pub mod Dialer
pub mod Listener
pub mod Negotiate
