-- ===== src/Lib.antt =====
-- AntNet: the ant routing agents of this repository for ns-2, their routing tables, packets and
-- queues, as a library of definitions translated from the C++ sources and theorems about them.
--
-- The program and its model:
--   antnet_math.h          Math     the pheromone update and the selection probability of one link
--   antnet_rtable.{h,cc}   Rtable   `antnet_rtable`: rows of pheromones, destination, next hop, update
--   ant_pkt.h, common/packet.h  Packet  the headers of an ant and the fields that the code uses
--                          Packet.Types  `p_info`: the names and classes of packet types
--                          Packet.Alloc  allocation, the list of free packets, reference counts
--                          Packet.Data  the user data of a packet
--   antnet.{h,cc}          Agent    `Antnet`: State (the object, the simulator as the agent sees it),
--                                   Memorize (the ant's memory), Hops (next hops, table update),
--                                   Receive (`recv`), Send (`send_ant_pkt`, the timer), Init (the
--                                   constructor, `initialize_rtable`), Traffic (`update_traffic`),
--                                   Command (`command`)
--   queue/                 Queue    `DropTail` and `PriQueue` over an interface for `PacketQueue` of ns-2;
--                                   Command is what Tcl can tell each
--   trace/cmu-trace.{h,cc}  Trace  `CMUTrace`: Object (constructor, command), Printf (`sprintf`), Headers
--                          (what it reads), Format (the text of a line), Nam (the lines for nam),
--                          and `recv`
--   the links of ns-2      Network  agents that hand packets to one another: Journey and Roundtrip (the
--                                   way of one ant), Runs (starts, timers, deliveries and
--                                   losses in any order; Carried and Handled say what an ant on a
--                                   link is and what a node does with it)
-- Common holds lists, maps and tests, Double the operations on `double`, Fixture the data of tests.
--
-- How the code is read. An object is a record, and a method that changes it returns the new record.
-- What happens to a packet (`target_->recv`, `Packet::free`, `drop`) is an `Event` in a list, in
-- order. A result `none` is undefined behaviour, a failed assertion, or a loop that has no fuel
-- left. The simulator is the record `Env`: the clock, the neighbour lists, the queue lengths that
-- Tcl looks up, the generator of ns-2, and a fresh packet. The generator has a state and functions
-- that draw from it; where a theorem uses the range of a draw, it says so (`InRange`).
--
-- Numbers. `double` is a parameter with the operations of `Double`. What depends on the laws of
-- exact arithmetic takes `IsExact` as a hypothesis, which Double.Ratio proves of the rationals; the
-- doubles follow it up to rounding. `int` is not bounded, since the code counts nodes and hops with
-- it; the sequence number is a byte and wraps at 256. Addresses are natural numbers.
--
-- Fuel. `calc_destination` draws until it has another node: any fuel above the number of draws is
-- enough. `travel` needs one unit for each node of the path, `shrink_queue`, `terminate` and `filter`
-- more units than there are packets, `classify_from` more than there
-- are classifiers in the chain. All other loops are structural. A run of the network is a
-- derivation of any length, and has no fuel but that of `calc_destination`.
--
-- Not modelled: the output of DEBUG, the files that `print_rtable` and `initialize_rtable` open (the
-- lines that `print` writes are), the bindings of Tcl, the scripts under tcl/, the tests under
-- tests/, and of common/packet.h the header classes of Tcl, `dump_header`, which prints, and the fields
-- that the agent does not touch.
pub mod Common
pub mod Double
pub mod Math
pub mod Rtable
pub mod Packet
pub mod Agent
pub mod Network
pub mod Queue
pub mod Trace
pub mod Fixture
