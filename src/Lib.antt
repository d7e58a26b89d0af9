-- ===== src/Lib.antt =====
-- mlist: cluster membership by gossip (SWIM), in Go.
--
-- A node keeps a table of the nodes that it knows of. Datagrams bring alive, suspect and dead messages;
-- a suspicion whose timer runs out turns a suspected node into a dead one; `reap` removes nodes that
-- have been dead for long; a push/pull exchange merges the whole table of another node. News is queued
-- for gossip by the broadcast queue, put together into compound messages, compressed, checksummed and
-- encrypted with the keys of the keyring.
--
-- Files and code:
-- - Awareness: awareness.go, the health score.
-- - Suspicion: suspicion.go, the timer of a suspicion; Timing and Confirms are its laws.
-- - Members: state.go. Types holds the table, Handlers the functions `aliveNode` (alive_node),
--   `suspectNode` (suspect_node), `refute`, `deadNode` (dead_node) and `timeoutFn` (timeout_fn), with
--   `randIntN` and `minSuspicionTimeout` of util.go and `IPAllowed` of net_transport.go. Valid says
--   what a well-formed table is; AddNode, Replace, Changes and Sound show that the handlers keep it;
--   Refute, Grows and Timeouts are about single handlers. Announce has the two parts of `aliveNode`.
-- - Maintenance: maintenance.go. Types has `reap` and `swapExpiredToEnd`, Choose `nextProbeNode` and
--   `pickRandomNodes`, Probe `probeNode`, Schedule `scheduleFunc` and `scheduleFuncWithScale`, with
--   `pushPullScale` of pushpull.go; Sweep, Reap, ChooseLaws and ProbeLaws are laws. Run is the table
--   under any sequence of inputs.
-- - PushPull: pushpull.go. Merge has `localState` and `mergeState`, Encoding `encodePushPullMsg` and
--   `readRemoteState`, Exchange the two sides of an exchange, with `handlePushPull` of net_handlers.go,
--   and Limit the counter of pending exchanges. MergeLaws, EncodingLaws and ExchangeLaws are their
--   laws.
-- - Broadcast: broadcast.go, the queue of messages that are sent a limited number of times (Queue).
--   Picking is about their sizes; Named, with Named/Push, Queue, Take and Run, about their names and
--   IDs; Limits, LimitTakes and LimitRuns, about how often they are sent.
-- - Wire: util.go (Compound), encrypt.go (Encrypt), `packUdp` and `unpackPacket` (Packet), and
--   `packTcp` and `unpackStream` (Stream) of net_transport.go.
-- - Inbox: net_handlers.go, the queues of waiting messages (LongRun), `handleUdpMsg` (Dispatch), the
--   handlers that answer at once with `handlePacket` (Replies), `runLongRunMsgHandler` (Drain), and
--   `handleTcpConn` with `TcpPing` of ping.go (Streams); the files on Laws are about each.
-- - Keyring: keyring.go.
-- - Interface: memberlist.go, `setAlive`, `Leave`, `UpdateTags`, the lists of nodes and `GetNodeState`
--   (Operations), and `Join`.
-- - Ping: ping.go, the tables of handlers that wait for replies (Manager), and `Ping` and
--   `IndirectPing` (Probes).
-- - Gossip: `getBroadcasts` of broadcast.go, `gossip` of maintenance.go, `sendUdp`, `SendUserMsg` and
--   `sendMsgPiggyback` of net_transport.go (Send); Parts, Sizes and Delivery are about
--   the datagrams.
-- - Refinement: Entry says, without the table, what becomes of one remote node; Handlers and Runs
--   relate the table to it, Precedence orders its states, and Races is about the two halves of
--   `timeoutFn`.
-- - Transport: net_transport.go, `Start`, `Shutdown` and `ZeroBindPortTransport` (Sockets),
--   `setUDPSocketBuf` (Buffers), `tcpListen` and `udpListen` (Listen); AddrLaws, StartLaws, RetryLaws
--   and ListenLaws are about them.
-- - Events: node_events.go. Sending has `EventManager`; Alternation and Runs are about the order of the
--   events of a node when one call comes after another.
-- - Process: the table, the waiting messages and the tables of pings of one node together, with the
--   steps of `receivePacket`, `runLongRunMsgHandler`, the functions of `schedule` and the calls of the
--   user; Inboxes, Health and Tables are about single steps, Invariant and Progress about any sequence.
-- - Startup: config.go (Options), `finalizeAdvertiseAddr` and its like (Addresses),
--   `MemberlistBuilder`, `Build`, `start` and `schedule` (Build); TransportLaws, SecretLaws, FirstTable
--   and BuildLaws are about them, Absent and Blocked about a node whose own address is not allowed.
-- - Addresses: `hasPort` (Ports), `ResolveAddr` and `tcpLookupIP` (Resolve), `ParseCIDRs` and
--   `combineErrors` (Cidrs).
-- - Tests: runs on small inputs.
--
-- How the program is represented: the `*nodeState` that `nodes` and `nodeMap` share is an address
-- in `store`, so a write through one is seen through the other. A function of the model is one call
-- with nothing in between. `suspectNode`, `deadNode` and `reap` hold `nodeL` from start to end;
-- `aliveNode` broadcasts and notifies after it released `nodeL`, so Members/Announce has its two
-- parts, and the steps of Process let other steps come between them; `timeoutFn` takes `nodeL`
-- twice, and Races lets other calls come between. The clock, the random draws, the nonce and the
-- replies that a caller waits for are arguments; `reap` reads the clock once for all nodes.
-- Broadcasts and events are appended to `effects`. Logging is left out. `int`, `time.Duration` and
-- counts are unbounded; `uint32` life numbers, the bytes and lengths of a compound message and the
-- sizes on the wire wrap as in the source. Code of other packages is a parameter: float64
-- arithmetic (Floats, node_scale and ceil_log10), `net.IPNet.Contains`, AES-GCM (Aead), LZW,
-- msgpack and CRC-32 (Codec, StateCodec and MsgCodec), the heap of github.com/mbver/heap (HeapOps),
-- the answers of the system to a transport that starts (Os), package net and the DNS client (Net
-- and Resolver), the largest lengths that `make` allocates (`max_states` and `max_user` of
-- StateCodec), and whether the reader of the user's channel takes what `handleUser` sends, which
-- otherwise blocks. The laws assumed of them are the records IsAead, IsCodec, IsStateCodec,
-- IsMsgCodec, IsSized, IsHeap, GivesPorts and SplitsPorts. A connection is what it does (Conn):
-- whether it is made, whether a write succeeds, and the bytes that arrive.
--
-- Fuel: `refute_loop` gets one round more than the life number to pass, and `none` stands for a loop
-- that does not end; `split_rounds`, `pick` and `shrink_to` get the number of items, of which each
-- round takes at least one; `handle_fueled` gets the length of the datagram, since a message inside a
-- compound message is shorter than it; `drain` gets one round more than there are messages; `halve` gets
-- a round for each size from 2 MB to 1 and one more. The loops that run over an index recur on the
-- number of rounds that are left.
--
-- Not modelled: the channels of the user, but for what their readers take, and the hooks of the
-- user, with the one that measures round trips (ping.go); the goroutines as such, of which the
-- order of the steps is modelled; and the addresses of the tests (testaddr), which only the tests
-- use.
pub mod Prelude
pub mod Awareness
pub mod Suspicion
pub mod Members
pub mod Maintenance
pub mod PushPull
pub mod Broadcast
pub mod Wire
pub mod Inbox
pub mod Keyring
pub mod Interface
pub mod Ping
pub mod Gossip
pub mod Refinement
pub mod Transport
pub mod Events
pub mod Process
pub mod Startup
pub mod Addresses
pub mod Tests
