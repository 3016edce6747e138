-- ===== src/Lib.antt =====
-- xibridge: the bridge between a client program and motion controllers that hang on serial ports
-- of a server. A client sends packets of one of three protocols over an encrypted network
-- connection (the library bindy); the server opens serial devices, passes the commands on and
-- answers.
--
-- Which file models which part:
--   Wire.antt: the numbers of common/utils.h and common/utils.cpp (AHex, Hex8, Hex16, Hex24,
--     Hex32). A number is the record Hex; put_stream1_4 and get_stream1_4 give the bytes that the
--     functions of that name move.
--   MBuf.antt: the packet buffer MBuf of the same files. The pointers origin_data and pdata are a
--     list of bytes and a position; operator << is ◌<<◌ (put8 for one byte), operator >> is
--     get32, get24, get16 and get8, and the other methods have their names. Each returns the new
--     buffer. A read or a store outside the buffer is undefined in the source; here it takes what
--     is there, and MBuf.Valid says when it does not happen. MBuf.Copies has the writing of one
--     MBuf to another and of two bytes in front. MBuf.Reader and MBuf.Writer describe a buffer by
--     the bytes before and behind the position.
--   DevId.antt: the class DevId of common/protocols.h, HexIDev3 and the functions that append
--     numbers to a byte vector, of common/utils.cpp.
--   Protocol.antt and its children: common/protocols.h and common/protocols.cpp. Protocol.State
--     has the packet types, error codes and the fields of AProtocol; Protocol.V1, V2 and V3 are
--     the classes Protocol1 to Protocol3, whose get_spec_data is split into one function for each
--     end and for each longer case; Protocol.Dispatch is AProtocol, a virtual function being a
--     function of the kind of protocol. Frame, Short, Requests2, V3.Packets, V3.Requests and
--     Answers are about the packets that these functions write and read.
--   Protocol.Schema: cmd_schema_t of the same files, the tables of packet layouts. A null pointer
--     is none, a character is a Symbol, and gen_plain_command and is_match get their arguments as
--     the record Fields. Protocol.Schema.Plain and Protocol.Schema.Tables are about the packets
--     that the schemas describe.
--   RwLock.antt: the class ReadWriteLock of server/rw_lock.h. A method is one atomic step of a
--     thread up to a wait, and each return from wait is a further step; run is an interleaving of
--     such steps. RwLock.Exclusion counts the threads. RwLock.Notices adds the notifications: a
--     thread in wait sleeps or is awake, and the state is the lock with the number of threads at
--     each place.
--   DeviceMap.antt: the class MapDevIdPHandle of server/mapdevidphnd.h and
--     server/mapdevidphnd.cpp. Its map and its list of connections are lists; a handle is a
--     number and a null handle none; the handles closed are listed in the field destroyed. A
--     search finds the entry that operator < of DevId puts neither below nor above the key, as a
--     std::map does where operator < orders its keys; DeviceMap.Keys says when it does, and the
--     theorems that hold in that scope alone have it as a hypothesis. The serial library is given
--     by functions. There each method runs alone, from its start to its end. DeviceMap.Overlap
--     has the methods in steps, as several threads run them at once: a thread is a Place, work is
--     its next step behind the mutex of a device, Act a step among the other threads, Reach a
--     sequence of such steps. Its record Shared is the table, the pool of mutexes and the mutexes
--     that are locked; DeviceMap.Overlap.Mutex, Counting and Exclusion are about them, Handle and
--     Steady about the handle that a request uses, Nothing about a device that is closed and
--     opened around a request.
--   Server.antt: callback_data and callback_disc of server/xibridge_server_lib.cpp. A step takes
--     the table of devices and a packet to the new table and the packets sent back; none is the
--     exception. World is the serial library and the search for devices. Server.Handling and
--     Server.Exchange follow a packet of a client through the server and back.
--   Client.antt and its children: the class Xibridge_client of client/xibridge_client.h and
--     client/xibridge_client.cpp, with the functions of client/bindy_helper.cpp that it calls.
--     The library bindy is the record Network; a Session is a client, the connections that
--     Bindy_helper knows of it, and the network. Client.Calls has the requests; Client.Interface
--     has the functions of client/xibridge.cpp that open a device, list the devices and ask for
--     the version, whose loop is rounds. Client.Line is a network that loses nothing,
--     Client.Rounds and Client.Negotiation follow the loop, and Client.Whole puts the server of
--     Server.antt at the other end. Client.Reading has the raw reading and writing of a
--     connection. Client.Handles has the clients behind the connection numbers of the library's
--     interface: Bindy_helper::_map is a list of clients, an entry none is a pointer to a deleted
--     client, and a result none is a use of it. Client.Handles.Calls runs sequences of calls,
--     Live, Kept, Closed and Gone are about the map.
--   Serial.antt and its children: server/xib-serial/devserial.c and server/xib-serial/xib_com.c.
--     The library libserialport and the clock are the record SerialPort. Serial.Crc is the check
--     sum, Serial.Request the request with an identifier; Serial.Reliable and Serial.Answered are
--     about a port that moves every byte, Serial.Silence about one at which nothing answers,
--     Serial.Opening about the opening and closing of a port. A function that returns 0 or 1
--     there returns a Bool here.
--   System.antt: the parts put together. System.Command takes a command from the client through
--     the server and the serial library to the device and back; IsSerial says that the serial
--     calls of the World of a server are those of Serial.Request.
--   Uri.antt and its children: common/xibridge_uri_parse.h and xi_net_dev_uris of
--     common/utils.cpp. Uri.Scan is what they use of sscanf and snprintf.
--   Ports.antt: server/devid2usb.h and server/devid2usb.cpp, over the record PortLibrary.
--   Ports.Location: get_id_from_usb_location of server/platform-linux.cpp, the link that readlink
--     gives being a parameter.
--   Start.antt: the command line of server/xibridge_server.cpp and the choices of server_main in
--     server/xibridge_server_lib.cpp. The configurator is the kind DevId2Usb of Ports.antt.
--   Supervisor.antt and its children: server/supervisor.cpp and server/supervisor.hpp.
--     Supervisor.Holders has the steps of SupervisorLock, Supervisor.Reload a round of the
--     thread. The int counters are natural numbers, and the theorem on many calls bounds them.
--   Tests.antt: runs of the code and the theorems at concrete inputs.
--
-- Conventions: numbers are natural numbers, cut to their width where the source cuts them; int is
-- the type ℤ with the conversion to_int. A loop over a count recurs on the rounds left, a loop
-- over a vector on the list. The loops of Serial that wait for bytes or for the clock have fuel,
-- and none is a call that has not returned: Serial.Answered and System.Command say how much they
-- give. How long receive loops at a port whose reads fail depends on the clock of the port, about
-- which nothing is said. The out-parameters and the object of a method are fields of its result.
-- Sizes of vectors are taken to fit an int where the source casts them to one; the theorems state
-- the bound.
--
-- Not modelled: logging, the condition variables of the client, the network and serial libraries,
-- two threads that use one client at once, the code for Windows, and the parts listed as such in
-- the manifest.
pub mod Prelude
pub mod Wire
pub mod MBuf
pub mod DevId
pub mod Protocol
pub mod Client
pub mod DeviceMap
pub mod Ports
pub mod RwLock
pub mod Serial
pub mod Server
pub mod Start
pub mod Supervisor
pub mod System
pub mod Uri
pub mod Tests
