-- ===== src/Lib.antt =====
-- An emulator of MCTP (Management Component Transport Protocol, DMTF DSP0236): a library of the packet
-- formats, mctp-base-lib, and networks that carry the packets over SMBus frames in UDP datagrams.
--
-- The parts, from the bytes up, and the files that model them:
--   * Base.Wire: the conversions of a struct to and from bytes that mctp-emu-derive/src/lib.rs derives.
--     A `Wire` is a struct's traversal by serde: its fields in order. Base.TransportHeader is the packet
--     header of mctp-base-lib/src/base/models.rs, its bit fields written out as arithmetic on one byte.
--   * Control: the control protocol of mctp-base-lib/src/control. Control.CommandCode and the other
--     modules of enums are enums.rs (discriminants, and the reading of a byte that is no discriminant);
--     Control.Header and Control.Empty are models.rs; Control.SetEid, GetEid, AllocateEids and
--     GetRoutingTable are the files of these names; Control.Payload is control.rs, a packet parsed to its
--     two headers and its bytes.
--   * Endpoint.Responder: `handle_request` of examples/basic_bus_owner_loop.rs, which parses a request,
--     changes the endpoint's context and builds the response. The result is the context with the answer,
--     an error, or a panic (`todo!()`).
--   * Endpoint.BusOwner: the loop of the bus owner in the same file, round by round. A step takes the
--     owner (its context, the variable `next_eid`, and the bus) and returns it with a result. The bus is
--     any function with a state that gives a reply to a packet. Requests has the requests that are sent;
--     Serves is the interface of a bus with an endpoint behind it, and Tasks the bus of two socket tasks;
--     Bridge is the interface of a bus with a bridge behind it, which asks for a pool of EIDs. Sent is
--     any bus with a log of the packets that are put on it.
--   * Endpoint.Transport: the task in `main` of the same file that owns the socket. It sends the bus
--     owner's messages in SMBus frames, hands a response to the channel of its request, and answers the
--     other packets with `handle_request`.
--   * Endpoint.Program: `main` of the same file as a whole. The task that reads the socket and the
--     bus owner put commands into a channel, the task that owns the socket takes them out, and it
--     shares the context with the bus owner. A run is any order of the steps of these tasks. Served
--     is the bus of two such programs, and Main the loop that `main` ends in. The modules named
--     Assigned are about the EID that an endpoint has.
--   * Endpoint.Flow: the pending requests, and the match of a received packet with one of them, as
--     src/network/simple_network.rs and examples/basic_bus_owner_loop.rs do it.
--   * Phys.Smbus: src/phys, the frame around a packet and the checks of the addresses.
--   * Network: src/network. Network.Types has addresses, clients and routes, with the types that
--     nothing uses yet in its Kernel, Network.Clients the sockets, Network.Simple the network over
--     one binding and Network.Virtual the one with routes; Interface is the trait that both
--     implement. Of the first, the state `poisoned` is that of a handler that died with the lock of
--     the flows in its hands. Runs of either network are step relations over every operation that
--     changes it, a packet that comes in being one for the first. Network.Simple.OverSmbus puts the
--     SMBus binding and the task of an endpoint behind the network, OverProgram a whole program and the
--     task that polls the socket. The binding's `transmit` there gives the datagrams that it hands to
--     the socket. Lock has calls of `sendto` that are under way at once.
--   * Network.Example: examples/example_simple_network.rs, over the SMBus binding and with the endpoint of
--     the other example at the far end of the wire.
--   * Emu: the error types of src/lib.rs and of each part.
--
-- A request goes from `sendto` of a network, which adds a flow, through `transmit` of the binding to
-- `handle_request` of an endpoint; the response comes through the callback handler of the network, which
-- takes the flow out and hands the response to its channel. State is passed explicitly: an operation
-- takes the state and returns the new one with its result. Concurrency is the order in which operations
-- are applied; each takes its locks for its whole effect on the state modelled here, but for `sendto`,
-- which keeps the lock of the binding while it waits for its response. Network.Simple.sendto is a call
-- that finds that lock free; Network.Simple.Lock has the queue of the calls that wait for it, and when
-- each of them transmits, in the order in which they asked, which the documentation of tokio's lock gives.
--
-- Crates.Crates holds the code of other crates as a parameter: bincode's bytes, c2rust-bitfields' fields
-- of a byte and num_enum's reading of a byte, each with the laws that its documentation gives and that
-- the code relies on. Crates.Reference instantiates it with concrete functions. The checksum of
-- smbus_pec and the answers of a UDP socket are arguments of the operations that use them. Crates.Mpsc is
-- tokio's bounded channel, an interface of operations with the laws of its documentation, which a list
-- fulfils.
--
-- Bytes are natural numbers, and a theorem that needs a value below 256 says so; what a cast or a shift
-- wraps is written out as a remainder. Sockets are integers with the wrap of an i32, binding ids wrap at
-- 2 ^ 64. The channel of commands holds 32, as in the source. The loops run over lists, that of the bus
-- owner over the changes that other tasks make between its rounds; the search through the pending flows,
-- an index loop in the source, is on fuel, of which one more than there are flows is enough, and equals
-- the function by clauses that the other modules use.
--
-- Not modelled: the prints and traces, and the spawning and joining of tasks. A loop that waits for input
-- is modelled for one input, or over the list of its inputs. examples/example_virtual_network.rs is left
-- out, as it calls an older interface of the network, and so is src/hex_dump.rs, which prints a buffer.
pub mod Prelude
pub mod Crates
pub mod Base
pub mod Control
pub mod Endpoint
pub mod Emu
pub mod Phys
pub mod Network
