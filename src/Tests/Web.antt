-- ===== src/Tests/Web.antt =====
-- Runs of BLEGatewayApplication/HTTP_HELPER.cpp and BLE_GATEWAY.cpp.
use io_tblegateway.Common.{
  ◌+◌, List, Bool, false, ◌≡◌, ◌≢◌, ℕ, refl, true, none, some, [], ◌∷◌, arith, leb, ◌==◌,
}
use io_tblegateway.Gateway.Wait.Ends.{Calm}
use io_tblegateway.Gateway.Commands.Calm.{AtRest}
use io_tblegateway.Gateway.Text.{
  find, construct_substrings, construct_valid_integer, is_valid_mac, stoi_digits, all_pairs,
}
use io_tblegateway.Gateway.Web.Params.{text, get}
use io_tblegateway.Gateway.Web.Keys.{accepted_mime, cmd_dongle_overview}
use io_tblegateway.Gateway.Web.Uri.{slash, parse_uri}
use io_tblegateway.Gateway.Web.Accept.{get_quality_param, Floats, parse_accept_header}
use io_tblegateway.Gateway.Web.Request.{Request, process_http_request}
use io_tblegateway.Gateway.Web.Execute.{execute_work_request}
use io_tblegateway.Gateway.Web.Answers.{command_number, execute-Calm}
use io_tblegateway.Gateway.Web.Workers.{
  System, begun, fcgi_worker, add_ble_worker, turn, turned, Reach, start, more, connects, requests,
  pushes, pushed, push_to_worker_queue, works, dongle_in,
}
use io_tblegateway.Gateway.Web.Once.{count, places, Reach-Once}
use io_tblegateway.Gateway.Web.Lost.{Late, step-lost}
use io_tblegateway.Gateway.Web.Shut.{closed-finished}
use io_tblegateway.Tests.Gateway.{env, paired, paired-AtRest}

-- numbers in place of floats, and no text that is one
abbrev floats : Floats
floats = record {
  F = ℕ;
  zero_point_zero = 0;
  one_point_zero = 1;
  at_least = λ a b. leb b a;
  equal = λ a b. a == b;
  stof = λ str. none;
}

-- DELETE of the device of the driver's connection
abbrev deleting : Request
deleting = record {
  request_uri = text "/0/01:02:03:04:05:06";
  query_string = [];
  request_method = text "delete";
  http_accept = text "application/json";
}

command_of_deleting : command_number (process_http_request floats deleting []) ≡ some 6
unfolding process_http_request parse_uri construct_substrings find is_valid_mac parse_accept_header
    stoi_digits get all_pairs
command_of_deleting = refl

deleting-other : command_number (process_http_request floats deleting []) ≢ some cmd_dongle_overview
deleting-other e = absurd (ground (arith, command_of_deleting))

execute-Calm_example : Calm AtRest (execute_work_request floats env deleting paired)
unfolding text
execute-Calm_example =
    execute-Calm floats env deleting (text "0/01:02:03:04:05:06") paired refl deleting-other
      paired-AtRest

-- two dongles, a request to the first one and one to the second one, whose pushes are to come
abbrev asked : System
asked =
    fcgi_worker (text "/1/Connected")
      (fcgi_worker (text "/0/Connected") (add_ble_worker (add_ble_worker begun)))

asked-Reach : Reach asked
asked-Reach =
    more
      (more (more (more start (connects begun)) (connects (add_ble_worker begun)))
        (requests (text "/0/Connected") (add_ble_worker (add_ble_worker begun))))
      (requests (text "/1/Connected")
        (fcgi_worker (text "/0/Connected") (add_ble_worker (add_ble_worker begun))))

abbrev push : Bool → ℕ → ℕ → List (ℕ × ℕ) → System → System
push early wr bid waiting s =
    pushed wr (push_to_worker_queue early true bid wr s.workers) (record s { pushing = waiting })

-- a worker is told to stop, and goes on to its end
abbrev stopping : ℕ → System → System
stopping i s = turned (turn true i s.workers) s

-- The first request is pushed before its worker stops, and the second one after.
abbrev ended : System
ended =
    stopping 1
      (stopping 1 (stopping 0 (stopping 0 (stopping 0 (push true 0 0 ((1, 1) ∷ []) asked)))))

abbrev stopped : System
stopped = push false 1 1 [] ended

stopping-Reach : (i : ℕ) (s : System) → Reach s → Reach (stopping i s)
stopping-Reach i s reach = more reach (works true i s)

stopped-Reach : Reach stopped
unfolding fcgi_worker construct_substrings find text construct_valid_integer add_ble_worker turn
    push_to_worker_queue
stopped-Reach =
    more
      (stopping-Reach 1 _ (
        stopping-Reach 1 _ (
          stopping-Reach 0 _ (
            stopping-Reach 0 _ (
              stopping-Reach 0 _
                (more asked-Reach (pushes true true 0 0 ((1, 1) ∷ []) [] asked refl)))))))
      (pushes false true 1 1 [] [] _ refl)

Reach-Once_example : places 0 stopped ≡ 1
unfolding fcgi_worker construct_substrings find text construct_valid_integer add_ble_worker turn
    push_to_worker_queue
Reach-Once_example = Reach-Once stopped stopped-Reach 0

closed-finished_example : count 1 stopped.finished + count 1 stopped.lost ≡ 1
unfolding text fcgi_worker add_ble_worker turn construct_substrings find construct_valid_integer
    push_to_worker_queue
closed-finished_example =
    closed-finished stopped 1 stopped-Reach (refl, (refl, tt)) refl (omega arith)

step-lost_example : Late 1 ended
unfolding text fcgi_worker add_ble_worker turn construct_substrings find construct_valid_integer
    push_to_worker_queue
step-lost_example = step-lost 1 (pushes false true 1 1 [] [] ended refl) (omega arith)

-- The second request is not finished.
second_lost : (count 0 stopped.finished ≡ 1) × (count 1 stopped.lost ≡ 1)
unfolding text fcgi_worker add_ble_worker turn construct_substrings find construct_valid_integer
    push_to_worker_queue
second_lost = (refl, refl)

-- Between two types of the same quality the one for HTML is taken.
prefers_html :
    parse_accept_header floats (text "application/json,text/html") []
    ≡ some ((accepted_mime, text "text/html") ∷ [])
unfolding parse_accept_header construct_substrings find
prefers_html = refl

-- A query after the number of the dongle hides that number.
query_hides_dongle : dongle_in (construct_substrings (text "/0?lastupdate=5") slash) ≡ none
unfolding text construct_substrings find construct_valid_integer
query_hides_dongle = refl

-- The number in front of "q" keeps the quality from being read.
quality_unread : get_quality_param floats (text "text/html;level=1;q=0.4") ≡ some 1
unfolding get_quality_param text construct_substrings find
quality_unread = refl
