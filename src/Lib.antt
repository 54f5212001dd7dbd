-- ===== src/Lib.antt =====
-- Verification of the BLE gateway: the gateway's driver of a BLED112 dongle, the client process that
-- the dongle is plugged into, and the daemon that starts one client for each dongle.
--
-- The program. A daemon (BLEGatewayDaemon/ble_daemon.c) waits for udev events. For each dongle
-- that is plugged in it starts a client process (BLEGatewayClient/), and it kills the client when
-- the dongle is pulled out. A client connects its dongle, on a serial port, with the gateway
-- application, on a TCP socket. One thread reads length-prefixed requests of the gateway
-- (process_message_from_tcpsocket), decodes them with the serialiser tpl and sends BGAPI commands
-- to the dongle (ble_send_message). The other thread reads BGAPI messages of the dongle
-- (read_message_from_serial_port), finds the callback for each in a table (ble_get_msg_hdr), and
-- the callback packs the answer and sends it to the gateway. The threads share the flag abort_cmd.
-- In the gateway (BLEGatewayApplication/), an object BLED112 stands for the dongle of one client. A
-- command of it sends requests, registers an event for the response and handles the messages of the
-- client until one of them posts that event, or its time is over (WaitForCompletionEvent,
-- ProcessTCPMsgFromSocket, PostCompletionEvent). The messages fill the maps of discovered and of
-- connected devices, which the result of a command points into. A thread accepts HTTP requests and
-- puts each on the queue of the worker thread of its dongle, which parses it, runs the command and
-- posts the reply (FCGIWorker, BLEWorker, ExecuteWorkRequest, ProcessHTTPRequest).
--
-- The files.
--   Common    names of the libraries passed on, Boolean tests, and lists measured by native
--             numbers.
--   Bglib     BLEGatewayClient/cmd_def.c and cmd_def.h. Types, Handlers and Indices have the
--             structures and enumerations, Commands, Responses and Events the rows of apis,
--             Classes the tables by class and command. Lookup is ble_get_msg, ble_find_msg_hdr and
--             ble_get_msg_hdr. Send is ble_send_message: put is one round of its switch,
--             put_params its loop, and the call of bglib_output is the value Output.
--   Posix     what read, write and send may do, as lists of outcomes.
--   Uart      uart_tx and uart_rx of BLEGatewayClient/uart_driver.c; tx_loop and read_loop are
--             their loops, which keep the offset of data_buffer. Port is uart_open, uart_configure
--             and uart_close.
--   Tpl       tpl as a record of operations and its documented laws; Toy is an instance.
--   Client    BLEGatewayClient/client.c and response_callbacks.c. Process has the shared state
--             World, the results of a call and the abort flag; Transport has
--             read_bytes_from_tcpsocket and the two senders; Commands is
--             decode_incoming_tcp_message, a function for each case; Tcp and Serial are the two
--             message loops; Callbacks has the callbacks; Notices lists the messages that the
--             callbacks pass on; Start is the start of main; Threads has the loops of the threads
--             and their interleavings; Abort is about what each function does to abort_cmd.
--   Daemon    BLEGatewayDaemon/ble_daemon.c. Map is the array map and the loops over it, Events
--             the handling of an event in main, Processes the daemon with its children and
--             signals.
--   Gateway   BLEGatewayApplication/BLE_DRIVER.cpp and Headers/BLE_DRIVER.h, BLE_HELPER.cpp and
--             GATT_SPECIFICATIONS.cpp. Driver has the object BLED112 and the results of a call; Map
--             is std::map; Text has the string helpers, Gatt and Errors the tables of texts; Packets
--             is ParseUUID and ParseBGAPIAdvertisementPacket; Register has the register of
--             completion events, CompletionEvents its flags; Transport has the socket in both
--             directions; Responses and Events have the callbacks, got_... being what a callback
--             does with the values that tpl unpacks; Receive is ProcessTCPMsgFromSocket and
--             DecodeIncomingTCPMessage; Wait is WaitForCompletionEvent; Parameters has the checks of
--             parameters; Commands has the commands, Connect, Read, Discover and Info the longer
--             ones, and its send_request stands for all BleCmd... functions but two. Meaning
--             says what each message is for, without the callbacks, and Delivery puts the client's
--             senders and the gateway's receiver together. Web is HTTP_HELPER.cpp and
--             BLE_GATEWAY.cpp: Params and Keys have the map of request parameters, Uri, Query, Accept
--             and Request the parsing, Reply the replies, Execute is ExecuteWorkRequest, and Workers
--             has the threads with their queues; Ready, Processed, Answers, Once, Shut and Lost are about
--             them.
--   Tests     runs on concrete inputs.
--
-- How state is modelled. A client function takes the World, with the outcomes of system calls to
-- come, the bytes sent so far and abort_cmd, and returns a value, waits in a call, ends its thread
-- or is undefined. Undefined is: a read or write outside a buffer or table, a null handler, the
-- use of uninitialised values, a variable argument of the wrong type. Uninitialised arrays hold
-- arbitrary bytes (Env.garbage). Errors of system calls are the outcome failed with its errno,
-- which the functions return as the source does. Machine integers are natural numbers with the
-- wrap-around written out. A string is the list of its bytes.
--
-- A function of the gateway takes the Driver, with the results of poll, recv and send to come, and
-- returns a value, throws a BLED112Exception, waits in a system call or is undefined with a Cause.
-- Time is in seconds and goes on in poll only: each result of poll comes with its time, and the
-- clock that a wait or a time stamp reads is that of the last poll. The struct of a wait lies on the
-- stack: a wait has a number, the register has the number as the pointer, and a pointer whose wait
-- is over is dangling. The result of a command names the structures that it points to.
--
-- Bounds. put_params has 17 rounds: a 64-bit word has 16 nibbles, and the last test of the loop
-- takes one more. uart_tx and uart_rx recurse on the list of outcomes. The loops of the threads
-- and of the daemon do not end: they are step relations. A wait and a discovery of the gateway recurse
-- on the list of poll results, and block when it is at its end. The loops that split text and parse
-- advertisements have one round more than there are bytes, since each round takes at least one.
--
-- Threads and signals. The worker map of the gateway is used without its lock: the look-up of a worker
-- and the push on its queue are two steps, with steps of other threads between them, and a push may
-- come too late; an operation on the map or a queue is one step. A thread of the client handles a
-- message in one step, since its calls use other fields of the state than those of the other thread,
-- and the calls of its mutex succeed. One thread of the gateway uses a Driver. An event of the daemon is
-- one step: the daemon does not block SIGCHLD, but runs in which it comes while an event is handled are
-- not among those of Processes.
--
-- Not modelled: log output; tpl and jsoncpp, which are third-party copies; the layout of HTML, JSON
-- and headers, so that a reply is the values that are printed in it; main, the signal handler and the
-- server socket of the gateway, and its overview of the dongles; the functions of the driver that
-- nothing calls (BleRspConnectionDisconnect, BleCmdGattFindCharacteristics); a length of 2 ^ 31 or more
-- on the gateway's stack, which is left undefined; the read timeout that uart_rx sets; start_daemon;
-- the signal mask of the daemon; the child that the daemon forks, whose execv is undefined; the data
-- races on the worker map. Floats are a parameter (Floats).
pub mod Common
pub mod Bglib
pub mod Posix
pub mod Uart
pub mod Tpl
pub mod Client
pub mod Daemon
pub mod Gateway
pub mod Tests
