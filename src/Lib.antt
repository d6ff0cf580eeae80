-- ===== src/Lib.antt =====
-- A game backend for Windows of a control server, lobby servers and an auth server, around I/O
-- completion ports. A lobby server (Server_Lobby) connects to the control server
-- (Server_Controll) and announces itself; the control server keeps the lobbies in Redis and names
-- the best one to a client that asks; clients then connect to that lobby. The network manager
-- (Common/Src/Network) completes socket operations and calls the hub's ProcessIocp, which queues
-- packets and jobs; the hub's receive and job threads work these queues off.
--
-- The files, and the code they are about:
--   Base          outcomes of code that can fault, byte strings, std::map, and lemmas on them
--   CircleQueue   Common/Include/Utility/LockFreeCircleQueue.h: push, pop and the others on a record
--                 of its four fields; CircleQueue/Fifo is the list it promises to be, and
--                 CircleQueue/Threads has push and pop one atomic access at a time, under any schedule
--   Wire          Common/Include/Network/BasicData.h, the header that NetworkManager::SendRequest
--                 writes and the packet that ProcessIocp of both hubs reads
--   Overlapped    Common/Src/Network/BasicData.cpp: CustomOverlapped and its buffers; Overlapped/Copies
--                 has its copy constructor and destructor
--   Network       Common/Src/Network/NetworkManager.cpp: the pool of overlapped records, the sockets and
--                 the map of connections; Network/Completions has the completion loop and its
--                 handlers, Network/Calls what a manager and a hub can come to by any calls and
--                 completions, and Network/Ownership where each record is
--   Redis         Common/Src/Database/RedisWorker.cpp: UpdateData, ScanMultipleResult, DeleteTable
--   Json          Common/Include/Json/JsonData.h
--   LobbyManager  Server_Controll/Src/LobbyManager.cpp: saving, updating and searching lobbies
--   LobbyMonitor  Server_Lobby/Src/LobbyMonitor.cpp: the counters of a lobby
--   Protocol      Common/Include/Protocol/SERVER_PROTOCOL_generated.h: the tables that are sent
--   LobbyJobs     Common/Src/Protocol/LobbyServerProtocol.cpp
--   ControlJobs   Common/Src/Protocol/ControlServerProtocol.cpp
--   LobbyHub      Server_Lobby/Src/LobbyHub.cpp: its reactions to the network, and its threads' rounds;
--                 LobbyHub/Setup is about it on its network manager, and LobbyHub/Main has
--                 Server_Lobby/main.cpp
--   Hubs          what the hubs do alike: Construct on the network manager, RequestSendMessage;
--                 Hubs/Listening is about when a hub comes up
--   JobThreads    JobThread of the hubs: threads over a mutex and a condition variable
--   AuthHub       Server_Auth/Src/AuthHub.cpp, likewise
--   ControlHub    Server_Controll/Src/Hub.cpp: likewise, with the dispatch of packets; ControlHub/Failing
--                 is about an announcement and a request, one after the other
--   Announcement  a lobby's notice on its way: both hubs, their jobs and the network manager together
--   LobbyStart    a lobby server from its command line to the control server's queue
--   Answering     the answer to a client's request for a lobby, likewise
--   Settings      Common/Include/Utility/ConfigCreator.h and Server_Controll/main.cpp: the settings file,
--                 written and read, and the start of the servers by it
--   Startup       LobbyServerStart of Server_Controll/Src/Hub.cpp, and the reading of command lines in
--                 Server_Lobby/main.cpp and Server_Auth/main.cpp; Startup/Decimal has std::to_string
--                 and std::stoi
--   Tests         concrete inputs
--
-- A function's name is the method's in snake case, and an operation that changes an object takes it
-- and returns it. An `int` is a number: an index, or the pattern of 32 bits where it can wrap. A null
-- dereference, an access out of bounds and an exception that nobody catches are faults, values of
-- `Outcome`. Log lines are left out.
--
-- The objects behind pointers lie in two maps from addresses, one of overlapped records and one of
-- SOCKETs; `new` takes the next address, none is used twice, and a deleted object is gone, so that a
-- pointer to it faults. An operation of the network manager runs from its start to its end before the
-- next; what the system answers it, and what it writes into the buffers of a receive, are arguments.
-- The members of OVERLAPPED itself, which neither the constructor of CustomOverlapped nor Clear sets,
-- are those of the memory a record is made in; what the system writes to them is left out.
--
-- A count from a command line or a settings file is an `int`, and may be negative: bring_up in Hubs has
-- what Construct makes of it. construct_network and the other operations take counts that are not.
--
-- Winsock's htonl and ntohl, the Redis server behind hiredis, nlohmann::json, `float`, the C runtime's
-- splitting of a command line and the flatbuffers calls are parameters, with what is documented of
-- them as records of laws where a theorem uses it.
--
-- Job threads take their steps in any order, with the rounds of the threads that queue jobs; a call of
-- the queue is one step there, and CircleQueue/Threads shows why it can be.
--
-- The scans of a table run on fuel, one unit for each reply of SCAN; as many units as the iteration
-- has pages are enough. std::to_string has the number and one more as fuel for its digits,
-- which is enough. All other loops go over a list or a count.
--
-- Not modelled: two operations of the network manager at once, writes past a buffer that a second call
-- of SetupListenSocket has made smaller (the program makes one call), calls of Winsock that leave its state
-- alone (bind, listen, shutdown, the completion port), the opening of the connection to Redis, the
-- verifiers of the generated tables and the table SERVER_PROTOCOL, which nothing sends, and the
-- libraries under Common/Library.
pub mod Announcement
pub mod Answering
pub mod AuthHub
pub mod Base
pub mod CircleQueue
pub mod ControlHub
pub mod ControlJobs
pub mod Hubs
pub mod JobThreads
pub mod Json
pub mod LobbyHub
pub mod LobbyJobs
pub mod LobbyManager
pub mod LobbyMonitor
pub mod LobbyStart
pub mod Network
pub mod Overlapped
pub mod Protocol
pub mod Redis
pub mod Settings
pub mod Startup
pub mod Tests
pub mod Wire
