-- ===== src/Gateway/Web/Answers.antt =====
-- Every request to BLEGatewayApplication/BLE_GATEWAY.cpp is answered.
use io_tblegateway.Common.{
  ◌∙◌, ◌%◌, ◌^◌, subst, ap, ℕ, ◌≡◌, ◌≢◌, refl, sym, ◌⊎◌, inl, inr, Bool, true, false, Option, none,
  some, [], ◌∷◌, arith, ◌==◌, if◌then◌else◌, Bool-cases, Bytes, length,
}
use io_tblegateway.Client.Process.{Env}
use io_tblegateway.Gateway.Text.{construct_valid_mac, stoi_digits, push_bytes}
use io_tblegateway.Gateway.Driver.{Driver, D, ◌>>=◌}
use io_tblegateway.Gateway.Wait.Ends.{Calm, Calm-then}
use io_tblegateway.Gateway.Commands.{Result, get_connected_devices, write_device_attribute}
use io_tblegateway.Gateway.Commands.Calm.{AtRest}
use io_tblegateway.Gateway.Commands.Calm.Each.{
  connect_to, disconnect_from, read_all, read_from, write_to, scan_for, run-Calm,
}
use io_tblegateway.Gateway.Web.Params.{text, Params, get}
use io_tblegateway.Gateway.Web.Keys.{
  command_key, mac_string, attr_handle_str, cmd_dongle_overview, cmd_write_handle, cmd_read_handle,
  cmd_error, cmd_options, query_last_update, query_write_value,
}
use io_tblegateway.Gateway.Web.Accept.{Floats}
use io_tblegateway.Gateway.Web.Request.{Request, process_http_request}
use io_tblegateway.Gateway.Web.Reply.{Reply, message_case, post_http_message}
use io_tblegateway.Gateway.Commands.Read.{read_attribute}
use io_tblegateway.Gateway.Web.Execute.{
  known_or, integer, discover_parameters, connection_parameters, or_throw, post_message,
  unless_error, post_ok, post_found, created_or_ok, if_mac, with_mac, if_handle, with_handle,
  execute, execute_command, execute_parsed, execute_work_request,
}
use io_tblegateway.Gateway.Web.Ready.{split-Done, Coded, ReadyIn}
use io_tblegateway.Gateway.Web.Processed.{process-Ready}

-- A part of the work on a request that ends in a reply.
abbrev Replies : D Reply → Type 0
Replies m = (d : Driver) → AtRest d → Calm AtRest (m d)

Replies-if :
    (b : Bool) (m n : D Reply)
    → (b ≡ true → Replies m)
    → (b ≡ false → Replies n)
    → Replies (if b then m else n)
Replies-if b m n h k d rest = elim (Bool-cases b) [
  | inl e ↦ rw e (h e d rest)
  | inr e ↦ rw e (k e d rest)
]

Replies-then :
    (m : D Result) (f : Result → D Reply)
    → ((d : Driver) → AtRest d → Calm AtRest (m d))
    → ((r : Result) → Replies (f r))
    → Replies (m >>= f)
Replies-then m f h k d rest = Calm-then AtRest AtRest (m d) f (h d rest) k

-- A message with a status code that can be read back is posted.
posted-Replies : (ps : Params) → Coded ps → Replies (or_throw (post_http_message ps))
unfolding post_http_message
posted-Replies ps (n, e) d rest =
    subst
      (λ o.
        Calm AtRest (or_throw (elim o [ none ↦ none | some code ↦ some (message_case ps code) ]) d))
      (sym e) rest

ok-Replies : (ps : Params) (r : Result) → Replies (post_ok ps r)
unfolding text get stoi_digits
ok-Replies ps r =
    Replies-if (r.error_code == 0) _ _ (λ _ d rest. rest) (λ _. posted-Replies _ (29, refl))

known-Replies : (o : Option ℕ) (m n : D Reply) → Replies m → Replies n → Replies (known_or o m n)
known-Replies none m n h k = h
known-Replies (some handle) m n h k = k

found-Replies : (ps : Params) (r : Result) → Replies (post_found ps r)
unfolding text get stoi_digits
found-Replies ps r =
    known-Replies r.connection_handle _ _ (posted-Replies _ (17, refl)) (ok-Replies ps r)

created-Replies : (ps : Params) (r : Result) → Replies (unless_error created_or_ok ps r)
unfolding text get stoi_digits
created-Replies ps r =
    Replies-if (r.error_code == 0) _ _
      (λ _. known-Replies r.connection_handle _ _ (λ d rest. rest) (λ d rest. rest))
      (λ _. posted-Replies _ (29, refl))

valid_mac-Parsed :
    (str : Bytes)
    → (valid : Bool) × (mac : Bytes) × (construct_valid_mac str [] ≡ some (valid, mac))
unfolding construct_valid_mac
valid_mac-Parsed str =
    let parts = split-Done str b':' in
    let r = if length parts.0 == 6 then push_bytes parts.0 [] else (false, []) in
    (r.0, r.1, rw (parts.1, construct_valid_mac) refl)

mac-Replies :
    (ps : Params) (f : Bytes → D Reply)
    → ((mac : Bytes) → Replies (f mac))
    → Replies (with_mac ps f)
unfolding text get stoi_digits
mac-Replies ps f k =
    let r = valid_mac-Parsed (get mac_string ps) in
    subst (λ o. Replies (if_mac o ps f)) (sym r.2)
      (Replies-if r.0 _ _ (λ _. k r.1) (λ _. posted-Replies _ (13, refl)))

handle-Replies :
    (ps : Params) (f : ℕ → D Reply) → ((k : ℕ) → Replies (f k)) → Replies (with_handle ps f)
unfolding text get stoi_digits
handle-Replies ps f k = by_number (stoi_digits (get attr_handle_str ps))
  where
    by_number : (o : Option ℕ) → Replies (if_handle o ps f)
    by_number none = posted-Replies _ (13, refl)
    by_number (some n) = k (n % 2 ^ 16)

execute-Replies :
    (env : Env) (id : ℕ) (ps : Params)
    → id ≢ cmd_dongle_overview
    → ((id ≡ cmd_error) ⊎ (id ≡ cmd_options) → Coded ps)
    → Replies (execute env id ps)
unfolding text get stoi_digits execute get_connected_devices
execute-Replies env id ps other coded =
    Replies-if (id == 1) _ _ (λ e. absurd (other (ground arith)))
      (λ _.
        Replies-if (id == 2) _ _
          (λ _. mac-Replies ps _ (λ mac.
            Replies-then _ (post_found ps) (run-Calm env (read_all mac)) (found-Replies ps)))
          (λ _.
            Replies-if (id == 4) _ _
              (λ _.
                Replies-then _ (post_ok ps) (run-Calm env (scan_for (discover_parameters ps) _ _))
                  (ok-Replies ps))
              (λ _.
                Replies-if (id == 3) _ _
                  (λ _. Replies-then get_connected_devices (post_ok ps) (λ d h. h) (ok-Replies ps))
                  (λ _.
                    Replies-if (id == 5) _ _
                      (λ _. mac-Replies ps _ (λ mac.
                        Replies-then _ (unless_error created_or_ok ps)
                          (run-Calm env (connect_to mac _ (connection_parameters ps)))
                          (created-Replies ps)))
                      (λ _.
                        Replies-if (id == 6) _ _
                          (λ _. mac-Replies ps _ (λ mac.
                            Replies-then _ (post_ok ps) (run-Calm env (disconnect_from mac))
                              (ok-Replies ps)))
                          (λ _. at_attribute))))))
  where
    settled : Replies (
        if id == cmd_options
        then or_throw (post_http_message ps)
        else if id == cmd_error
        then or_throw (post_http_message ps)
        else post_message 27 "500 Internal Server Error" (text "Unknown Error") ps)
    settled =
        Replies-if (id == 10) _ _ (λ e. posted-Replies ps (coded (inr (ground arith))))
          (λ _.
            Replies-if (id == 9) _ _ (λ e. posted-Replies ps (coded (inl (ground arith))))
              (λ _. posted-Replies _ (27, refl)))

    at_attribute : Replies (
        if id == cmd_read_handle
        then with_mac ps (λ mac.
          with_handle ps
            (λ k. read_attribute env mac k (integer query_last_update 0 ps) >>= post_found ps))
        else if id == cmd_write_handle
        then with_mac ps (λ mac.
          with_handle ps
            (λ k. write_device_attribute env mac k (get query_write_value ps) >>= post_found ps))
        else if id == cmd_options
        then or_throw (post_http_message ps)
        else if id == cmd_error
        then or_throw (post_http_message ps)
        else post_message 27 "500 Internal Server Error" (text "Unknown Error") ps)
    at_attribute =
        Replies-if (id == 8) _ _
          (λ _. mac-Replies ps _ (λ mac. handle-Replies ps _ (λ k.
            Replies-then _ (post_found ps) (run-Calm env (read_from mac k _)) (found-Replies ps))))
          (λ _.
            Replies-if (id == 7) _ _
              (λ _. mac-Replies ps _ (λ mac. handle-Replies ps _ (λ k.
                Replies-then _ (post_found ps) (run-Calm env (write_to mac k _))
                  (found-Replies ps))))
              (λ _. settled))

abbrev pub command_number : Option Params → Option ℕ
command_number none = none
command_number (some ps) = stoi_digits (get command_key ps)

parsed-Replies :
    (env : Env) (o : Option Params)
    → ReadyIn o
    → command_number o ≢ some cmd_dongle_overview
    → Replies (execute_parsed env o)
parsed-Replies env none h other = elim h [ ]
parsed-Replies env (some ps) (id, e, coded) other =
    subst (λ n. Replies (execute_command env ps n)) (sym e)
      (execute-Replies env id ps (λ g. other (e ∙ ap some g)) coded)

-- The work on a request never throws, follows no pointer into a stack frame that is gone and uses no
-- iterator behind the end of the register, whatever the client of the dongle sends and whichever
-- send fails; if it comes to an end, there is a reply, no wait is registered and the maps of the
-- devices are in order. The path of the request starts with a slash, and its command is not the
-- overview of a dongle.
pub execute-Calm :
    (fl : Floats) (env : Env) (wr : Request) (str : Bytes) (d : Driver)
    → wr.request_uri ≡ b'/' ∷ str
    → command_number (process_http_request fl wr []) ≢ some cmd_dongle_overview
    → AtRest d
    → Calm AtRest (execute_work_request fl env wr d)
unfolding execute_work_request
execute-Calm fl env wr str d path other rest =
    parsed-Replies env (process_http_request fl wr []) (process-Ready fl wr str path) other d rest
