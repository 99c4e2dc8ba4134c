-- ===== src/Lib.antt =====
-- RabbitControl's objects for Pure Data and Max: a verification library.
--
-- The program is a set of flext externals that speak the RabbitControl protocol (RCP). `rcp.server`
-- and `rcp.client` show parameters as messages and change them by messages; `rcp.format` and
-- `rcp.parse` build and read single packets; `slipencoder`, `slipdecoder`, `sizeprefix` and `sppp` put
-- packets into byte streams; a websocket server and a client to a "rabbithole" carry them.
--
-- Files, and the code they are about:
--   Prelude         numbers, lists and texts that the other files share; `none` of the monad of
--                   Prelude/Tests is undefined behaviour, an index out of bounds
--   Flext           flext and the platform, as parameters (Layer), a concrete instance (Plain), and
--                   the vectors of atoms that the handlers fill by index (Buffer)
--   Bytes           the loops that turn atoms into bytes and back, which several objects share:
--                   sources/SlipEncoder.cpp m_list, sources/RcpParse.cpp m_list,
--                   sources/ParameterServerClientBase.cpp raw_data_list and dataOut
--   Slip            sources/SlipEncoder.cpp and sources/SlipDecoder.cpp
--   Sppp            sources/SPPParser.cpp and sources/SizePrefixer.cpp
--   Rcp             the types and encodings of the rcp library, as parameters
--   Format          sources/RcpFormat.cpp: packets and handlers (Defs), settings (Settings), the form
--                   of the packets (Packets), the table of the handlers (Dispatch), the invariant of
--                   the object (Invariant), and the packets as rcp.parse reads them (Trip)
--   Manager         the parameters of the rcp library, as parameters
--   Base            sources/ParameterServerClientBase.cpp: paths (Lookup, Paths), messages that set
--                   a value (Input, Safety), questions and updates (Query, Output), a value that is set
--                   and asked for (Store, Setting), and all messages of the class (Messages), with what
--                   they leave (Closed, Within, Readable, Handled)
--   WsServer        sources/websocketServer.h: the queue (Defs, Order, Fifo, Drain), the service
--                   thread (Service) and the set of connections (Sets, Members); the sending of
--                   sources/WebsocketServerTransporter.cpp (Send)
--   WsClient        sources/websocketClient.cpp: the two connections and the handlers (Defs, Single), the
--                   destructor (Destroyed), and the check of a certificate (Verify)
--   Server          sources/ParameterServer.cpp: the port and the clients (Port, Clients, Race), `expose`
--                   (Options, Expose) and what it leaves (Library, Keeping, Groups, Exposed), removal and
--                   limits (Limits), the object with its transporters, also that of
--                   sources/PdServerTransporter.cpp (Object, Registry), two of them joined (RawLink,
--                   SlipLink, PrefixLink), all messages of sources/ParameterServer.h (Messages,
--                   Within, Handled, Faults); and
--                   sources/RabbitholeServerTransporter.cpp (Rabbithole, Reconnect), on its websocket
--                   client (Tunnel, Flapping, Triggers, Pause)
--   Client          sources/ParameterClient.cpp: what is sent when a parameter comes or goes (Defs,
--                   Reports), and the object with sources/WebsocketClientTransporter.cpp or
--                   sources/PdClientTransporter.cpp (Object, Late), and all messages of
--                   sources/ParameterClient.h (Messages, Handled), with the manager that a lost
--                   connection leaves behind (Stale)
--   Ws              sources/PdWebsocketServer.cpp (Server), sources/PdWebsocketClient.cpp (Client), and
--                   the two together (Echo)
--   Parse           sources/RcpParse.cpp: the loop over packets and what is sent of each
--   Tests           concrete data, and the theorems at work on it
--
-- A handler is a function of the state and the message to the state and the list of what it sends, in
-- order; constructors that throw give `threw`. The rcp library, flext and websocketpp are git
-- submodules, whose text is not in the repository: what the code calls of them is a parameter, and what
-- the theorems need of them is a record of laws (IsFlext, IsProtocol, IsSlip, IsStream, IsTree, IsNamed,
-- IsTyped, IsFloats, IsParser, IsServer, IsStore, IsSppp), or a property of its states
-- that its calls keep (Managed, Exposing, Sound).
--
-- Bounds: the handlers of RcpFormat.cpp call one another, and `receive` has a bound on the depth, of
-- which 2 is always enough; the loop of `getParents` has a bound on the rounds, of which one more than
-- the depth of the parameter is enough; the loop of rcp.parse over packets has one, of which one more
-- than the atoms is enough. The loops over atoms are structural.
--
-- A connection of websocketpp is a number. What websocketpp answers to a call, which connections are open
-- and whether a connection can be made or a port be bound, is an argument of that call (`is_open`, Setup,
-- World, `bound`, `lock`); theorems hold for every answer unless they say which they assume. What it
-- reports later, and when, is the sequence of reports that a theorem ranges over. The call of
-- websocketServer.h's server that sends without an error code throws for a connection that is not open;
-- Sending says who was sent to before that. Whether the rcp library re-creates the manager of a client
-- that lost its connection, as comments in sources/WebsocketClientTransporter.cpp say, is an argument too
-- (`recreates`). An empty SLIP packet may be dropped: nothing is asked of its frame.
--
-- Not modelled: the text of console lines, and so sources/RcpBase.cpp and sources/RcpDebug.cpp; the
-- inlets and outlets that constructors register, and sources/FlextBase.cpp; the threads and locks of
-- websocketServer.h, other than as an order of events and rounds and as the steps of Service; the TLS
-- context; the threads that the destructors join, other than as reports that come meanwhile; the
-- subprotocol, which no caller gives; when the rcp library calls back for a parameter, and in which
-- state, other than as one more thing that can come to an object.
mod Prelude
pub mod Flext
pub mod Bytes
pub mod Slip
pub mod Sppp
pub mod Rcp
pub mod Format
pub mod Manager
pub mod Base
pub mod WsServer
pub mod WsClient
pub mod Server
pub mod Ws
pub mod Client
pub mod Parse
pub mod Tests
