-- ===== src/Tests/Client.antt =====
-- Runs of BLEGatewayClient/client.c and response_callbacks.c.
use io_tblegateway.Bglib.Send.Layout.{kinds, fixed, array}
use io_tblegateway.Client.Commands.Rows.{row_of}
use io_tblegateway.Client.Commands.Requests.{
  arguments_of, Request, packed, index_of, format_of, fields_of,
}
use io_tblegateway.Client.Threads.{
  after_work, checking, working, gone, turn, System, command_turn, response_turn,
  command_thread_handler, response_thread_handler, Run, here, then_step,
}
use io_tblegateway.Common.{◌≤◌, ◌≡◌, refl, ap, inl, true, false, some, [], ◌∷◌, arith, Bytes}
use io_tblegateway.Posix.{got, took}
use io_tblegateway.Bglib.Send.{kind_of}
use io_tblegateway.Bglib.Send.Rounds.{final, finish}
use io_tblegateway.Bglib.Send.RoundTrip.{Framed, packet_of}
use io_tblegateway.Tpl.{v, c}
use io_tblegateway.Tpl.Toy.{toy, toy-Laws, toy_dump, marked}
use io_tblegateway.Client.Process.{
  World, ret, Env, quit, read_abort_threadsafe, signal_abort_threadsafe,
}
use io_tblegateway.Client.Transport.{htonl_bytes}
use io_tblegateway.Client.Tcp.{process_message_from_tcpsocket}
use io_tblegateway.Client.Tcp.Framing.{process_message-closed}
use io_tblegateway.Client.Tcp.Delivery.{request-delivered}
use io_tblegateway.Client.Notices.{Notice}
use io_tblegateway.Client.Serial.{read_message_from_serial_port}
use io_tblegateway.Client.Serial.Rows
use io_tblegateway.Client.Serial.Forward.{message-forwarded}
use io_tblegateway.Client.Abort.{Keeps}
use io_tblegateway.Client.Abort.Messages.{
  Keeps-process_message_from_tcpsocket, Keeps-read_message_from_serial_port,
}
use io_tblegateway.Client.Start.{Answers, refused, connected, runs, main}
use io_tblegateway.Client.Start.Threaded.{main-runs}
use io_tblegateway.Client.Threads.Shutdown.{gone-aborts, abort-stops}

abbrev env : Env
env = record { tpl = toy; garbage = λ n. 7 }

abbrev idle : World
idle = record {
  serial_reads = [];
  serial_writes = [];
  tcp_reads = [];
  tcp_sends = [];
  serial_out = [];
  tcp_out = [];
  abort_cmd = false;
}

-- the gateway's request for the status of connection 3
abbrev request : Request
request = Request.get_status 3

abbrev request_msg : Bytes
request_msg = 0 ∷ 40 ∷ 1 ∷ 3 ∷ []

abbrev asked : World
asked = record idle {
  tcp_reads = got (0 ∷ 0 ∷ 0 ∷ 4 ∷ []) ∷ got request_msg ∷ [];
  serial_writes = took 5 ∷ [];
}

request-delivered_example :
    (process_message_from_tcpsocket env asked
      ≡ ret 0 (record asked {
        tcp_reads = [];
        serial_writes = [];
        serial_out = 0 ∷ 1 ∷ 3 ∷ 7 ∷ 3 ∷ [];
      }))
    × Framed
        (row_of request)
        (arguments_of request)
        (packet_of (row_of request) (arguments_of request))
unfolding toy toy_dump packed index_of arguments_of format_of fields_of row_of packet_of final
    finish fixed array kinds kind_of htonl_bytes
request-delivered_example =
    request-delivered env toy-Laws request request_msg asked [] [] (omega arith) refl (omega arith)
      (omega arith) refl refl

abbrev closing : World
closing = record idle { tcp_reads = got [] ∷ [] }

-- the dongle's answer
abbrev notice : Notice
notice = Notice.rsp_connection_get_status 3

abbrev notice_msg : Bytes
notice_msg = 0 ∷ 145 ∷ 1 ∷ 3 ∷ []

abbrev answered : World
answered = record idle {
  serial_reads = got (0 ∷ 1 ∷ 3 ∷ 7 ∷ []) ∷ got (3 ∷ []) ∷ [];
  tcp_sends = took 4 ∷ took 4 ∷ [];
}

message-forwarded_example :
    (read_message_from_serial_port env answered
      ≡ ret 0 (record answered {
        serial_reads = [];
        tcp_sends = [];
        tcp_out = 0 ∷ 0 ∷ 0 ∷ 4 ∷ notice_msg;
      }))
    × (env.tpl.unpack "vc" notice_msg ≡ some (v 145 ∷ c 3 ∷ []))
unfolding toy toy_dump marked Rows.row_of htonl_bytes
message-forwarded_example =
    message-forwarded env toy-Laws
      {hdr = record { type_hilen = 0; lolen = 1; cls = 3; command = 7 }} {n = notice}
      (record {
        kind = refl;
        cls = refl;
        command = refl;
        lolen = refl;
        some_data = omega arith;
        fits = omega arith;
      })
      tt refl [] [] answered refl refl

Keeps-process_message_from_tcpsocket_example : Keeps (process_message_from_tcpsocket env)
Keeps-process_message_from_tcpsocket_example = Keeps-process_message_from_tcpsocket env

Keeps-read_message_from_serial_port_example : Keeps (read_message_from_serial_port env)
Keeps-read_message_from_serial_port_example = Keeps-read_message_from_serial_port env

-- the gateway closes the socket
abbrev s0 : System
s0 = record { command = checking; response = checking; world = closing }

abbrev s2 : System
s2 = record { command = gone; response = checking; world = record idle { abort_cmd = true } }

closes : Run env 2 s0 s2
unfolding command_thread_handler turn read_abort_threadsafe quit signal_abort_threadsafe
closes = then_step (command_turn working closing refl) (
    then_step
      (command_turn gone (record idle { abort_cmd = true })
        (ap after_work (process_message-closed env [] closing refl)))
      here)

gone-aborts_example : s2.world.abort_cmd ≡ true
gone-aborts_example =
    gone-aborts (record { command = refl; response = refl; abort = refl }) closes (inl refl)

stops : Run env 1 s2 (record s2 { response = gone })
unfolding response_thread_handler turn read_abort_threadsafe
stops = then_step (response_turn gone (record idle { abort_cmd = true }) refl) here

abort-stops_example : 1 ≤ 4
abort-stops_example = abort-stops stops refl

abbrev answers : Answers
answers = record {
  serial = some 3;
  connections = refused ∷ refused ∷ connected 4 ∷ [];
  mutex = true;
  response_thread = true;
  command_thread = true;
}

abbrev booting : World
booting = record idle { serial_writes = took 4 ∷ []; abort_cmd = true }

abbrev booted : System
booted = record {
  command = checking;
  response = checking;
  world = record idle { serial_out = 0 ∷ 0 ∷ 6 ∷ 4 ∷ [] };
}

main-runs_example : main 4 answers booting ≡ runs booted
main-runs_example = main-runs 4 2 4 3 [] booting [] (omega arith) (omega arith) refl
