-- ===== src/Lib.antt =====
-- A model of the robots' middleware. On each machine a master process, src/Master, connects the
-- nodes of that machine with each other, by queues in shared memory, and with the nodes of the other
-- machines, by TCP or by an ultra-wideband (UWB) radio. The nodes use the client library, src/Node;
-- the positioning node of src/Dgps and the local planner of src/LocalPlanner are two of them.
--
-- The parts and how they interact. A node registers itself, its publishers and its subscribers with
-- its master by requests on a local socket (Client, Shm). What a publisher sends goes through its
-- queue to the master, which copies it into the queue of each local subscriber of the topic and hands
-- it on to the hosts that listen to it (Shm/Transfer). A master reads a configuration of hosts and
-- links into a map and computes its routes from it (Routing). What the other hosts announce about
-- their nodes and topics is kept in a registry (Registry). A request to another host leaves through
-- an interface: a TCP connection (Tcp), or the radio (Uwb), where the payload is an escaped HTTP
-- request in a frame with a checksum, sent in a time slot of its node, acknowledged, retransmitted,
-- and handed to the same router on the other side. A master also starts other programs and starts
-- them again when they end (Processes).
--
-- Files and the code they model:
--   Prelude: shared names, tests, lists, machine words, keys and maps of the C++ library.
--   Http: boost::beast::http as an interface of operations and laws, a parameter of all that uses
--     it; Http/Sample fills it with functions that can be evaluated.
--   Uwb/Hex, Uwb/Frame: FrameCodec and TimeSlotFrame, src/Master/src/uwb/UwbFramecodec.cpp;
--     Uwb/Frame/RoundTrip, Corruption, Checksum and Lines are their theorems.
--   Uwb/Slots: SimpleTimeSlotManager, src/Master/src/uwb/UwbTimeslotmanager.cpp; its theorems are in
--     Uwb/Slots/Exclusion and Monitor.
--   Uwb/Http: serialize_http_request and parse_http_request of src/Master/src/uwb/UwbHandle.cpp;
--     Uwb/Http/Escaping.
--   Uwb/Link: the class Handle of UwbHandle.cpp: its state, stop, slots, heartbeats and timeouts;
--     Uwb/Link/Messages: sending and receiving; Uwb/Link/Events: executions as lists of events;
--     Ledger, Callbacks, Receive, Repeats, Exchange, Pending, Timeouts, Invariant: theorems.
--     Handle::stop is `stop_link`, the loops of the two worker threads are `timeout_round` and
--     `heartbeat_round`.
--   Uwb/Interface: UwbInterface.cpp and UwbHostInterface.cpp.
--   Routing: Map of src/Master/src/interface/Map.cpp, its configuration and weights;
--     Routing/Route: Map::getRoute; Routing/Search, Walk, Ends, Weights: theorems.
--   Registry: Host of src/Master/src/interface/Host.cpp; Registry/Manager: InterfaceManager of
--     src/Master/src/InterfaceManager.cpp, and Registry/Setup its init;
--     Registry/Controllers: InterfaceRouter.cpp and the controllers of
--     src/Master/src/interface/controller; Registry/Topics, Requests, Delivery: theorems.
--   Tcp: TcpHostInterface of src/Master/src/tcp/TcpHostInterface.cpp; Tcp/Order: its theorem.
--   Shm: Node, Publish and Subscribe of src/Master/src/shm and the state of MiddlewareManager,
--     src/Master/src/MiddlewareManager.hpp; Shm/Library: the queue and the eventfd they stand on, a
--     parameter that Shm/Sample fills; Shm/Transfer: Publish::onEventfdRead, Subscribe::publish2Node,
--     transferMessage and transferInnerMessage; Shm/Controllers, Answers and Router: the controllers
--     of src/Master/src/shm/controller and UdsRouter::handle; Shm/Events: executions as lists of
--     events; Tables, Agreement, WellFormed, Paths, Invariant, Answering, Delivery, Deletion: theorems.
--   Client: Node, NodeImpl, Publisher and Subscriber of src/Node; Client/Fifo: a queue under its two
--     processes as a step relation, and Client/Calls: the operations as runs of its steps;
--     Client/Requests: theorems on its requests and the master's controllers.
--   Processes: ProcessManager of src/Master/src/ProcessManager.cpp; Processes/Signals: theorems.
--   Dgps: DGpsHmw of src/Dgps/src/dgps_hmw_node.cpp; Dgps/Sentences: getNmea and appendNMEA of
--     src/Dgps/src/ntripclient.cpp and the expressions searched; Dgps/Lines: theorems.
--   Planner: BaseDwaPlanner and CarDwaPlanner of src/LocalPlanner, their callbacks, timer and rounds of
--     the loop; Planner/Events: executions as lists of events; Planner/Watchdog, Waypoints: theorems.
--   The modules called Tests evaluate the model on concrete inputs.
--
-- State and time. An operation is a function from the state to the state; what it does outside
-- (calls of callbacks, writes to the serial port, requests handed on) is appended to a field of the
-- state. Each handler is one step, so an execution is a list of events; the queues in shared memory are
-- the exception, whose writer and reader interleave call by call. A reading of a clock is an argument,
-- one for each reading in the code. A step that dereferences a null pointer, and a search in which an int
-- overflows, has its own outcome.
--
-- Bounds and fuel. A uint8_t, uint16_t or uint32_t is a number whose wrap-around is written out. The
-- search for routes runs on fuel: one turn more than there are vertices, since each turn visits one.
-- The walk from a vertex to the first hop runs on one more than its distance, since each link on
-- the way has a positive weight. A publisher's handler pops as many messages as the
-- eventfd's counter says, which is recursion on that number.
--
-- Not modelled: sockets, the serial device, timers and threads of boost::asio, system calls (their
-- results are arguments), the JSON reader and writer, std::stoi, floating-point numbers and protobuf
-- (parameters), logging; what is only input and output: the local socket's server
-- (src/Master/src/shm/Server.cpp, Acceptor.cpp), the TCP listener, main.cpp, the timers of the client
-- library, the configuration of the positioning node and of the planner, and the command line
-- (src/Util); the search for a trajectory (raycast, BaseGeneratePath and BaseScore of
-- src/LocalPlanner), the local map and the simulation's plugins (src/LocalMap, src/Gazebo), whose work
-- is floating-point arithmetic; the rest of the Ntrip client, which is a program of another project;
-- and the copy of the middleware for HarmonyOS under entry, with its bindings.
pub mod Prelude
pub mod Http
pub mod Uwb
pub mod Routing
pub mod Registry
pub mod Tcp
pub mod Shm
pub mod Client
pub mod Processes
pub mod Dgps
pub mod Planner
