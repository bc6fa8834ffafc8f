-- ===== src/Lib.antt =====
-- Mercury (extras/Merc), a layer that routes publications to subscriptions. Nodes form a ring for each
-- attribute (a hub). A publication (Event) and a subscription (Interest) are routed to the nodes whose
-- ranges of values they meet, stored there and matched.
--
-- The parts, and the files that model them (mercury/X stands for extras/Merc/mercury/X):
--   Packet, Packet/*         mercury/Packet.h, Packet.cpp: the byte buffer that messages travel in. A
--                            method is a state transformer M that fails where an ASSERT does.
--                            Packet/Codec states the contract of Serializable (Serialize, the
--                            constructor from a packet, GetLength) that all data on the wire fulfils.
--   Value, Value/*           mercury/MercuryID.h, MercuryID.cpp: attribute values, their raw bytes, and
--                            the tests on the ring.
--   Int32                    a C int that travels as a 32-bit word.
--   Address, Address/Wire    mercury/IPEndPoint.*, ID.cpp, ID_common.h: addresses and GUIDs.
--   Constraint, Constraint/* mercury/Constraint.h, Constraint.cpp: ranges; routing directions, overlap,
--                            span, and lists with one constraint for an attribute.
--   AutoSerializer           mercury/AutoSerializer.h: CreateObject on the registered types.
--   Event, Event/*           mercury/Event.h, Event.cpp: Event, MercuryEvent and PointEvent.
--   Interest, Interest/*     mercury/Interest.h, Interest.cpp: subscriptions and what they match.
--   Message, Message/*       mercury/Message.h, Message.cpp: the header (Message/Wire), heartbeats, pings
--                            and predecessors (Message/Ring), successor lists, join requests and
--                            responses, publications and subscriptions (Message/Routing), and what a
--                            leaving node hands over (Message/Transfer).
--                            Message/Protocol has RegisterMessageTypes and the messages of
--                            these classes; Arrival what becomes of them on the wire, and
--                            JoinResponse/Codec a join response that assigns a range.
--   TimeVal                  util/TimeVal.*: points in time, their sum and difference in milliseconds.
--   Peer, Peer/*             mercury/Peer.h, Peer.cpp: what a node keeps of another: types, times of the
--                            last messages, pings without a pong, round-trip samples.
--   Cache, Cache/*           mercury/Cache.h, Cache.cpp: the cache of far nodes that ComputeNextHop asks;
--                            its map (Entries), insertion and eviction (Replacement), all its uses
--                            (Reachable) and the lookup (Lookup).
--   Hub, Hub/Nearest,        mercury/Hub.cpp: the sorted peers of a node and the nearest one to a value.
--   Hub/Sorted
--   Hub/Table, Hub/Table/*   mercury/Hub.cpp: PList and the map of peers that the four lists share.
--   Hub/Member, Hub/Member/* mercury/Hub.cpp: MemberHub's operations on its lists; their order (Ordered)
--                            and MergeSuccessorList (Merge).
--   Hub/Liveness             mercury/Hub.cpp, LinkMaintainer.cpp: pings, pongs, CheckLiveness, RemovePeer,
--                            ForcePeerRefresh, PrepareLeave, OnPeerDeath. Sound and Sweeping have what
--                            these keep, Alive and Skipping the check, Repairs RemovePeer and
--                            ForcePeerRefresh, Steps all operations together.
--   PubsubStore/*            mercury/PubsubRouter.cpp: MercPubsubStore and ExpiryTimer.
--   PubsubRouter/*           mercury/PubsubRouter.cpp: IsCloser and ComputeNextHop (NextHop), the
--                            decision of RouteRangeData (RangeData), and a message on its way from
--                            node to successor, each hop counted (Walk).
--   PubsubRouter/Handover,   mercury/PubsubRouter.cpp: what is handed over and taken over when ranges
--   PubsubRouter/Handover/*  change; what is kept and sent (Kept) and how long it lives (Expiring).
--   PubsubRouter/Rendezvous, mercury/PubsubRouter.cpp: a publication or a subscription that has reached its
--   PubsubRouter/            range: HandlePubAtRendezvous, DeliverPubToSubscribers (Hearing),
--     Rendezvous/*           HandleSubAtRendezvous, and one after the other (Orders).
--   LinkMaintainer,          mercury/LinkMaintainer.h, LinkMaintainer.cpp: the handlers of a node (Node)
--   LinkMaintainer/*         that joins or answers one (Arriving, Joining), keeps its neighbours
--                            (Neighbors) or leaves (Leaving). They use MemberHub's operations, the store
--                            and its handover. Split is about the cut of a range, Delivered about the
--                            items after it, Handshake and Early about both sides of a join, Heads about
--                            the first successor, Duplicates and Attempts about requests that are
--                            repeated, Rounds about questions to the successor, Departing about
--                            leaving. Dispatch is ProcessMessage; Ready and Kept have what all of
--                            these keep, Kept/Runs a node after any run.
--   Base, Base/*             what the modules share; Tests/*, Value/Tests, Event/Tests: the theorems
--                            at concrete inputs.
--
-- State and operations: an object is a record with the source's fields, and a method that changes it
-- returns the new record. The three functions of a type on the wire are serialize, construct and
-- get_length, with the type's name where a file has several. An ASSERT that fails and a null pointer that
-- is read are none. A std::map of
-- peers is a list in the order of its keys. A reference to a peer of the shared map is its address. Where
-- the process may end or the behaviour is undefined, the result is an Outcome. list::sort is a stable
-- insertion sort.
--
-- Bounds: bytes and machine words are numbers, and the theorems on the wire assume that the fields are
-- in their ranges (HasWords, IsWire). Values have any size; on the wire they fit the static buffer of
-- 10240 bytes. Measurement nonces and the fields of LOADBAL_TEST are sent, as the build defines both;
-- RECORD_ROUTE is not. The only loop on fuel is that of mpz_sizeinbase2: each round takes a limb off, and
-- the magnitude itself is enough.
--
-- Not modelled: GMP, zlib and name lookup, which are not part of the repository; transports, timers,
-- threads, the RPC layer and the simulator, which are I/O; the application's callbacks; logging and
-- printing; the requests for long neighbours and their repair, load balancing, sampling, the bootstrap
-- server and the histograms; the Go code of demo/ and lib/.
pub mod Base
pub mod Packet
pub mod Int32
pub mod Value
pub mod TimeVal
pub mod Address
pub mod Constraint
pub mod AutoSerializer
pub mod Event
pub mod Interest
pub mod Message
pub mod Peer
pub mod Hub
pub mod Cache
pub mod PubsubStore
pub mod PubsubRouter
pub mod Tests
pub mod LinkMaintainer
