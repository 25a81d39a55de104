-- ===== src/Lib.antt =====
-- Verification of uniconn, a library of connections with one interface over several transports
-- and an encrypted channel on top of any of them: the Python implementation under
-- uniconn-py/uniconn.
--
-- A connection (`Conn`) reads, writes and closes. The transports implement it; a secure
-- channel is made by a handshake over a connection, and is a connection itself; the
-- multi-protocol dialer asks a server what it offers and connects by the best protocol that
-- both sides have. A peer-to-peer node keeps a session with a relay and makes secure channels
-- to other nodes inside its channel to the relay. The model keeps these lines: `Conn` is a
-- record of operations on a state, its contract is in Conn/Stream (what a read delivers, what
-- a write accepts), and the theorems on the transports and on the secure channel are stated in
-- terms of it.
--
-- The files and the code, whose paths are under uniconn-py/uniconn where they do not start so:
--
-- - Prelude, Prelude/Lists, Prelude/Tests: numbers, lists and Boolean tests, and their lemmas.
-- - Outcome, Action: what a call comes back with (a value, an exception, or an await that does
--   not end), and a method as a function from a state to an outcome and a state. Outcome has the
--   classes of errors.py.
-- - Struct: Python's struct module and slices of bytes. Asyncio: the stream reader and writer of
--   asyncio.
-- - Conn: uniconn-py/uniconn/conn.py, whose Listener and Dialer are in Conn/Listening.
--   Conn/Buffer and Conn/Serve are the serving of buffered bytes, which the adapters write out
--   in the same way.
-- - Secure/Message and Secure/Frame: secure/message.py and secure/constants.py; `fill` is the
--   loop that read_frame_from_conn has twice.
-- - Secure/Crypto: the packages Crypto.Cipher.ChaCha20_Poly1305, dilithium_py, pqcrypto and
--   blake3 as records of functions, with the documented laws as further records.
-- - Secure/Data and Secure/Channel: secure/conn.py. Data has the part of _handle_data and _write
--   that depends on no state, Channel the class SecureConn with read, write, close and bind.
-- - Secure/Identity: secure/identity.py. Secure/Handshake: secure/handshake.py, where the
--   randomness that a call draws is an argument.
-- - Secure/Store: secure/store.py; the file system is a function from paths to contents,
--   Argon2id is an argument.
-- - Tcp: tcp/conn.py. WebSocket: websocket/conn.py, over the connection object of the websockets
--   package.
-- - Kcp, Kcp/Listener and Kcp/Dialer: KcpConn, KcpListener and KcpDialer of kcp/__init__.py,
--   over the kcp package. Quic: quic/conn.py, which shares what it does with Tcp. WebTransport:
--   webtransport/conn.py, over aioquic's protocol object.
-- - Accepting: the queue of connections and the close that tcp/listener.py,
--   websocket/listener.py, quic/listener.py and webtransport/listener.py have in common.
--   Address: the splitting of addresses. Tcp/Listener: tcp/listener.py and tcp/dialer.py.
--   WebSocket/Listener: websocket/listener.py and websocket/dialer.py. Quic/Listener:
--   quic/listener.py. Quic/Dialer: quic/dialer.py. Quic/Setup: what these and the WebTransport
--   dialer and listener give to aioquic and to the socket module. Accepting/Promise: each
--   listener as a Listener of conn.py. Tcp/Ended: a connection whose peer has ended the stream.
-- - WebTransport/H3: the events and calls of aioquic's HTTP/3 connection. WebTransport/Server
--   and WebTransport/Client: the event handlers of webtransport/listener.py and
--   webtransport/dialer.py. WebTransport/Client/Connecting: WebTransportDialer of
--   webtransport/dialer.py, and WebTransport/Client/Dialing its dial from the connected protocol
--   on. WebTransport/Listener: WebTransportListener of webtransport/listener.py.
-- - Json and Json/Access: the values of Python's json module and what is done with them; loads
--   and dumps are a parameter. Multi/Negotiate: to_json and from_json of NegotiateResponse in
--   multi/__init__.py.
-- - P2p/Envelope: p2p/protocol.py, and read_envelope and write_envelope of p2p/node.py, whose
--   other parts are P2p/Operations (what connect_relay, _accept_relay_proxy and dial_peer do on
--   a new connection), P2p/Session (_Session, _setup, _stop_session, and the ends of dial_peer
--   and accept) and P2p/Node (Node). P2p/Operations/Meeting: two nodes at one relay, for which
--   Secure/Channel/Link has a channel as a connection that another protocol runs over.
--   P2p/Handlers: _setup, dial_peer and _accept_relay_proxy as wholes on one session,
--   P2p/Handlers/Accepting: accept, P2p/Connect: connect_relay as a whole, and P2p/Control:
--   _read_control_loop. P2p/Hex: bytes.hex and bytes.fromhex. P2p/Session/Life and
--   P2p/Node/Lifecycle: the relations of their steps.
-- - Multi/Dialer: MultiDialer.dial of multi/__init__.py, the choice of a protocol.
--   Multi/Dialer/Whole: dial as a whole, from the HTTP request on. Multi/Listener:
--   MultiListener, in the pieces between its awaits, of which close is put together;
--   Multi/Listener/Ledger and Balance: sequences of such events.
-- - Tools/Echo: the handler and the accept loop of uniconn-tests/tools_py/echo_server.py and
--   uniconn-tests/tools_py/py_wt_echo_server.py.
-- - Tests: the runs at concrete inputs, with stand-ins for the packages.
--
-- Bounds and fuel: a byte is a number below 256 where it is packed, and the packing of a
-- number that does not fit raises struct.error as in Python. Counters are Python integers,
-- without a bound; packing them into eight bytes is what bounds them. `fill` takes one unit of
-- fuel for each read and is given one more than the bytes it is to read, which is enough
-- because a read that returns 0 ends the loop. The loop of read_envelope runs on the number of
-- bytes that may still come, which is 64 KiB at first, as its condition says. The loop of
-- _read_control_loop has one unit for each message, and that of echo_handler one for each
-- read, for which one more than the bytes to come are enough, since each read returns at least
-- one. The other loops are structural recursion on lists.
--
-- A call runs from its start to its end: SecureConn holds a lock for each direction, and a
-- read and a write that overlap share no field but the flag `closed` and the connection below.
-- What awaits for good is the outcome `pending`. In P2p/Session and P2p/Node a function is
-- what runs between two awaits, a connection is known by a number, and the tasks, their
-- cancellation and their timeouts are steps that may come in any order; of the calls of accept
-- each has what its own task has got from the queue. P2p/Handlers and P2p/Connect put these
-- pieces together: what a handler awaits is a parameter that acts on the session or the node
-- as well, as other tasks run meanwhile.
--
-- Not modelled: the packages, which are parameters, and with them the sockets, threads and
-- timers; the set of tasks of a session, whose cancellation is an exception that an await may
-- raise; the tests and the runners of the interoperability tests, but for the echo servers;
-- and the implementations in Go and JavaScript.
pub mod Prelude
pub mod Json
pub mod Outcome
pub mod Action
pub mod Struct
pub mod Conn
pub mod Secure
pub mod Asyncio
pub mod Accepting
pub mod Address
pub mod Tcp
pub mod WebSocket
pub mod Kcp
pub mod Quic
pub mod WebTransport
pub mod Multi
pub mod P2p
pub mod Tools
pub mod Tests
