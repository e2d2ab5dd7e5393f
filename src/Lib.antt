-- ===== src/Lib.antt =====
-- An indoor navigation system: battery-driven nodes send the signal strengths of the access points around
-- them to a server, which computes where each node is. This library models the server and the
-- programs of a node.
--
-- The parts, in the order in which a request passes them:
--   * Service (server/src/ins_service.cpp): the routes and the request handlers. `set_rssi` stores
--     readings and registers the device, `resolve_pos` computes a position, the rest reads or clears.
--     Pistache is a parameter: a request is a lookup of its parameters and the conversion of a text to
--     `int32_t`; a handler is a function from a server to a server and the responses that it sent.
--     Service.Main (server/src/main.cpp, server/src/lib_wrapper.cpp) is the program around it, from its
--     arguments to its end, as a run over events: requests, signals, and looks at the flag.
--     Service.Reachable is the relation of the states that requests lead to, Service.Upload the interface
--     of what Pistache makes of a request of the wireless module.
--     Service.Site is what the handlers promise: a site of devices with a multiset of readings and
--     perhaps a position each, and one step for each way in which a request can end.
--     Service.Site.Refinement relates the handlers to these steps, Service.Site.Ends says when they
--     end, Service.Site.History a run of the server to the requests and responses alone.
--   * DataStore (server/src/data_store.cpp, server/include/types.hpp): the SQL statements, as the very
--     texts that the code builds, and the reading of rows. SQLite is a parameter; DataStore.Table states what
--     it documents of the queries on a table, without an order of the rows. DataStore.Contents is what the tables
--     hold, with the readings of a device as a quotient of lists by their order, and
--     DataStore.Contents.Contract what is assumed of SQLite, by the text of each statement: what it does to
--     the contents if it succeeds, nothing if it fails, and what the queries then answer.
--   * Localization (server/src/localization.cpp): it copies the readings of a device from the database
--     into the device's node and asks for its position. Localization.Nearest follows this from the readings
--     to the position of the circles around the nearest access points.
--   * WifiNode (server/src/WifiNode.c, server/include/WifiNode.h): the list of nodes (Registry), the
--     Kalman filter (Kalman), the path-loss model (PathLoss), the sort by distance (Ordering), the
--     trilateration (Trilateration), the stages through the function pointers (Positioning), and the
--     parameters of the access points (Config). Registry.Race is the registration of a device once more, in
--     small steps of two threads on the shared list.
--   * LocalConfig (server/src/WifiAccessPointLocalConfig.c): the XML file with those parameters, over
--     the calls of libxml2, which are a parameter.
--   * PowerController (ins-node/src/power_controller/power_controller.ino): the microcontroller of a node
--     that switches its wireless module on and off, as a step relation with interrupts.
--     PowerController.Handshake puts it together with the wireless module.
--   * WifiModule (ins-node/src/wifi_module): the datapoints of a scan and the requests with them; in
--     WifiModule.Power the connection of its `setup` and its `goToSleep`, as lists of the calls made.
-- Machine is the `float` and `double` arithmetic, a parameter of the server's parts; Machine.Laws holds
-- what some theorems assume of it, which is documented of IEEE 754: the order of the numbers, and what
-- becomes of values that are not numbers. Machine.Integers and, with a value that is not a number,
-- Machine.Nan are arithmetics that meet it. Base holds the lists, integers and texts. The theorems
-- on concrete inputs are in Tests.
--
-- Functions have the names of the C functions in snake_case: `create_ins_node_list_device` is
-- `createInsNodeListDevice`, `lcfg_initialize` is `lcfg_initialize`. A struct is a record, an array a list, a
-- pointer to a node of the list its place in it, a function pointer a value of Callback. A result `none`
-- is an undefined behaviour or an exception: the call of a null pointer, a write past an array, a null
-- text handed to a string function. One undefined read is not `none`: the text in `leaves` that has no
-- zero at its end is read as it lies in memory (`leaf` in WifiNode.Config, with WifiNode.Config.Unterminated). A device number wraps at 2^32.
--
-- Loops over arrays recur on the list or on the rounds that are left. The walk of `findNode` has no bound
-- in the code; it runs on fuel, one round for each node that can still be reached, since each round goes
-- on to a node with fewer nodes behind and below it.
--
-- A request is clean if its texts can stand in the statements; the code does not escape them. The position that
-- the service computes depends on the whole list of nodes, so a step of a site says only that some
-- well-formed list with the devices of the site gives it.
--
-- The wait of the wireless module for its connection recurs on the attempts left, 20.
--
-- Not modelled: log lines, cookies, the lock of the database, the threads of the end point (requests are
-- handled one after the other, but for Registry.Race), memory management (`calloc` and `malloc` succeed
-- where no test follows); the registers of the microcontroller; the Android application (ins-app); the copy of spdlog.
pub mod Base
pub mod Machine
pub mod WifiNode
pub mod LocalConfig
pub mod DataStore
pub mod Localization
pub mod Service
pub mod PowerController
pub mod WifiModule
mod Tests
