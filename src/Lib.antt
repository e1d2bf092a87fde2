-- ===== src/Lib.antt =====
-- The tunnel of tunnel/src: an HTTP proxy on one machine (the consumer) and an HTTP server behind
-- another (the provider) talk over one WebRTC data channel. The consumer gives each request a stream
-- id and sends it as frames; the provider puts the frames of each stream together, forwards the
-- request to its upstream, and sends the response back as frames, which the consumer routes to the
-- request that waits for them. To find each other the two sides join a room of the signaling server of
-- signal-server/src, through which they exchange an offer, an answer and ICE candidates.
--
-- Which file models what:
--   Protocol             tunnel/src/protocol.rs: constants, messages, and JSON as a parameter (Serde)
--     Frame              TunnelMessage::encode and decode, MessageType::from_u8
--     Build              Hello::new, TunnelMessage::hello to TunnelMessage::pong
--     Negotiate          Agree::from_hello
--     RoundTrip, Wire    the codec both ways, and the messages and the frames as two types
--     Tests (Pass, Negotiation)   the tests at the end of protocol.rs
--   Channel              RTCDataChannel::send with its failures, the wait of both handshakes
--     Emits, Writes, Total   what a computation sends when some call may fail, what it sends when
--                        none does, and whether it comes to an end
--     Keepalive          the keepalive tasks of run_serve and run_proxy
--   Http                 header maps, hop-by-hop tests and slices, shared by both sides
--   Serve                tunnel/src/serve.rs
--     Url, UrlLaws, UrlTests   build_upstream_url, and the tests at the end of serve.rs
--     Respond, Stream    handle_request
--     Run                run_serve: the handshake, and the loop with one function per kind of frame
--     Keyed, Assembly, Requests   the loop seen from one stream
--   Proxy                tunnel/src/proxy.rs
--     Utf8               String::from_utf8_lossy
--     Handshake          run_proxy up to its tasks
--     Router, Delivery, Streams   the response reader of run_proxy, and the same seen from one stream
--     Request, Upload, StreamIds  handle_proxy_request up to the wait for the response
--     Answer, Client     the rest of handle_proxy_request, the forwarding task, StreamingBody
--     Truncated          the frames of a request when one of its body is refused
--     Begun              a request taken up while others are under way
--     Listen             the listener of run_proxy and its accept loop
--   Tunnel               both sides together, over the frames that travel between them
--     Handshake, Request, Response   each leg of one exchange
--     Shuffle, Requests, Together   the frames of several requests, or of several responses,
--                        interleaved in any order
--     Refusals           the answers to requests that the upstream refuses
--     Exchange           a request and its response, over the whole tunnel
--     Truncation         a request whose body was sent in part
--     Tasks, Session     the stream ids of the tasks that the provider starts, and a session from the
--                        handshake on
--     Keepalive, Termination   pings beside the requests, and the ends of the loops that send
--   Retry                tunnel/src/main.rs: run_with_retry, with the pauses it makes
--   Signaling            tunnel/src/signaling.rs: the messages and the reader task
--     Client, Writer     SignalingClient: connect, send, recv, drop, and the writer task
--   Rtc                  tunnel/src/rtc.rs: errors and the peer connection as a parameter
--     Role               the loop of connect that settles the role
--     Establish, Candidates, Rounds   create_peer_connection, establish_as_offerer and
--                        establish_as_answerer
--     Callbacks          the closures that both register
--     Waits (Rounds, Kept, Lost)   the loops of both establish functions, with the queue of
--                        signals and the notifications that end a wait
--     Connect, Exchange  connect, and two peers that meet
--   Main                 tunnel/src/main.rs: main, and Command of tunnel/src/cli.rs
--     Ends, Up           how the program ends, and an attempt that comes to its side and stays
--   SignalServer         signal-server/src/index.ts: rooms, peers and the handlers of a connection
--     Rooms, Pairs       the size of the rooms, and two peers in one room
--     Logs, Known, Throws   the peers through each handler, and whether it throws
--   Meeting              signal-server and rtc together
--     Talk, Through      what two peers and the server say to each other, and the connection it makes
--     Room               a room with two peers in it
--     Programs           two programs from their command lines on, and the server between them
--   Examples             data, tests and witnesses
--
-- How the code is read. Bytes are numbers, a byte string or a text is a list of them. A HashMap is an
-- association list with one entry per key, a sender is the number of its channel. Code that sends is
-- a computation on the state of the data channel: the frames taken so far, and a function that says
-- which calls succeed, so that every pattern of failures is covered. What the environment does, such
-- as the arm of select!, the end of a wait, or the order in which the tasks of the consumer touch
-- the shared map, is an argument: a list of inputs, events or actions.
--
-- A channel of the crate tokio is a queue. A notification by notify_waiters is for those who wait at
-- that moment and is not kept, as the crate documents: in Rtc/Establish each arm of a select! is an
-- event of its own, and Rtc/Waits says which arms the queue and the notifications lead to.
--
-- Integers wrap around as in a release build: the stream counter and the number of attempts at 2^32.
-- Stream ids on the wire are four bytes, and the round trip asks for an id that fits.
--
-- Fuel: the two loops send_pieces run on the length of the body. Each round goes on by a byte at
-- least, since the size of a piece is positive, so the fuel is enough. The error that would mark the
-- want of fuel is never met in the descriptions of what is sent.
--
-- Parameters, since their code is not in the repository: JSON of the messages (Serde), the upstream
-- HTTP client (Client), the status and header tests of the crate http (HttpLibrary), the peer
-- connection of the crate webrtc (PeerConnection), and JSON of the signals. The reads and writes of a
-- u32 by the crate bytes are written out as documented, the most significant byte first.
--
-- The signaling server's connections are numbers; which of them are open, and the UUID of a join, are
-- arguments of the event. A handler that throws yields no state.
--
-- Not modelled: the wait for ICE gathering, which keeps no state; the HTTP/1 connections of hyper;
-- the attributes of the argument parser and those of the signaling server's process; logging; the end of
-- the reader task of SignalingClient when its receiver is gone. The body of an upstream's response is
-- a list of chunks, so that one without an end is seen by its beginnings only.
-- Lowercase is taken at ASCII letters.
pub mod Prelude
pub mod Protocol
pub mod Channel
pub mod Http
pub mod Serve
pub mod Proxy
pub mod Tunnel
pub mod Retry
pub mod Signaling
pub mod Rtc
pub mod Main
pub mod SignalServer
pub mod Meeting
pub mod Examples
