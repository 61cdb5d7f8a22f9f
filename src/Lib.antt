-- ===== src/Lib.antt =====
-- sensor-lib: sensing, link discovery and sockets over Wi-Fi and Bluetooth, in C and C++.
--
-- The program has two halves. The sensing half (src/) finds devices: instrument_api.c takes the
-- user's actions to the host's interfaces, the GPS daemon and the scanners; comms_runtime.cpp keeps
-- one runtime per process, which the handles of the API count, and which scans, greets its peers
-- over UDP and L2CAP, owns the sockets of the links that answered, and calls the user's callbacks;
-- both ask the Bluetooth scanner that the build selects. The socket half (bratislava-socket/src/)
-- opens connections on links: a registry holds what is known of each device and socket, and an
-- adapter per instrument connects, sends and receives.
--
-- The files and what they model:
-- Types           the structs and enums of interfaces/c, and copy_string
-- Os              system calls: an oracle that answers from the trace of the calls before
-- Registry        bratislava-socket/src/BratislavaSocketRegistry.cc. State has the record, the heap
--                 of configs and the monad; Config, Port, LinkTable and Socket have one function
--                 per method, named after it (GetLocalPort is get_local_port; an overload on a
--                 socket or a device ends in _of_socket or _of_device). The other modules have the
--                 theorems.
-- Adapter         bratislava-socket/src/adapters: wifi/WifiAdapter.cc and
--                 bluetooth/BluetoothAdapter.cc. Attempt and Io have what the two share; Wifi and
--                 Bluetooth have a module each for the fields and sockets (State), the connection
--                 request (Request), ConnectToPeer and ListenForPeer (Peer) and conn() (Conn).
--                 Wifi/Manager has the queries of NetworkManager and the constructor.
-- Comms           src/comms_runtime.cpp. Strings, Candidates (the ARP table), Runtime (state and
--                 callbacks), Handshake, Scan, Servers, Lifecycle (start, stop, the reference
--                 count); World names what the runtime is given. The other modules have the theorems.
-- Api             bratislava-socket/src/BratislavaSocket.cc: Interface (BaseAdapter and the state),
--                 Calls, Destroy (with the registry's Cleanup) and Links. It takes an adapter as a
--                 record of operations (Interface) and laws (Laws), which WifiOps and
--                 BluetoothOps fill, the former where NetworkManager answers. The other modules
--                 have the theorems.
-- Scanner         src/wifi_scanner_bridge.cpp. Elements (find_ssid_ie), Results (MAC addresses and the
--                 handler of a message), Discover (the netlink exchange and the output array).
-- Instrument      src/instrument_api.c. State has what it is given and how it uses a descriptor; Wifi
--                 and Hci have the queries and switches, Json and Gps the reports and the receive
--                 loop of the GPS daemon, Action the entry points (instrument_action is
--                 instrument_action_impl), Sessions whole uses of the library. Descriptors, Switches,
--                 Reports, Handles, Returning and the children of Json, Gps and Sessions have
--                 the theorems.
-- Bluez           src/bluez_scanner.c (Line, Output, Info, Discover) and src/hci_scanner.c (Inquiry).
--                 The other modules have the theorems.
-- CText           the functions of the C library on strings that these two use
-- Examples        concrete inputs and tests
--
-- Representation. A string is the list of its bytes; a C int is a signed integer over the native
-- numbers; a 16-bit number keeps its modulus. A pointer is a number, 0 the null pointer. The
-- registry's configs live on a heap, where a load or store through a freed address is `none`. A
-- system call adds an event to the trace and is answered by a function of the trace, so nothing is
-- assumed of the kernel, the network or the clock beyond the named hypotheses: socket() and accept()
-- return no descriptor that is open already (FreshSockets, FreshClients). The close() of an open
-- descriptor leaves errno as it was. A long double is its bit pattern. What gpsd sends is a list of
-- pieces, after which recv fails or, for an endless stream, nothing of use comes for ever; recv hands
-- out a part of a piece where the buffer is short.
--
-- Bounds and fuel. The retry loops recurse on the passes that are left of MAX_RETRIES = 5. The
-- server loops recurse on the number of times that `running_` is read as true, and the theorem on
-- them is for every such number. find_ssid_ie recurses on the length of the array, which is enough
-- as a round moves on by two bytes. The GPS loop has one round more than there are bytes to come, as
-- each round reads one at least. Cleanup runs for as many rounds as there are sockets. All other
-- loops are structural. Threads of the comms runtime are steps of a relation, one step per critical
-- section or handshake; a registry method is one step, and so is a call of the socket API.
--
-- Not modelled: the locks of BratislavaSocket.cc and its SIM_BUILD, whose adapters are elsewhere;
-- libnl, libnm, the HCI library, BlueZ and OpenSSL, which are parameters, as are bluetoothctl,
-- strtold and strptime; the failure of strdup in the BlueZ scanner; logging and telemetry, which no
-- state depends on; examples and tests. Nor are the descriptors that the scanners, libnl and popen
-- open for themselves: the theorems on descriptors count those of socket() and accept(). The
-- exception of directory_iterator where /sys/class/net cannot be listed is left out, and the
-- Bluetooth scanner that an action calls is taken to return.
pub mod Prelude
pub mod Types
pub mod Os
pub mod Adapter
pub mod Comms
pub mod Registry
pub mod Scanner
pub mod Api
pub mod CText
pub mod Bluez
pub mod Instrument
pub mod Examples
