-- ===== src/Ws/Pumps.antt =====
-- internal/ws/client.go: the read pump and the write pump of a client, one round of a loop per step,
-- and the runs of a hub. What the socket does in a round is the step's argument.
use machmqtt_dashboard.Prelude.{
  ℕ, List, [], ◌∷◌, ◌++◌, String, Bool, false, Option, some, none, str_eq, if◌then◌else◌, length,
  add_u64,
}
use machmqtt_dashboard.Ws.{
  Client, Hub, new_client, teardown, unregister, at_client, get_client, send_all, broadcast,
  send_to,
}

-- What `ReadMessage` brings: an error, a text that is no subscription, or a subscription.
pub data Read : Type 0 where
  read_error garbage : Read
  subscribe : String → Read

-- What the `select` of the write pump picks, and whether the write succeeds.
pub data Write : Type 0 where
  sees_done : Write
  takes_frame pings : (succeeds : Bool) → Write

module _ {Frame : Type 0} where
  abbrev pub set_env : String → Client Frame → Client Frame
  set_env env c = record c { env = env }

  -- The deferred calls of `readPump`.
  unfoldable pub end_read : Client Frame → Client Frame
  unfolding teardown
  end_read c = teardown (record (unregister c) { reading = false })

  unfoldable pub end_write : Client Frame → Client Frame
  unfolding teardown
  end_write c = teardown (record c { writing = false })

  -- `hook` gives the frames that the hook on subscriptions sends.
  unfoldable pub read_round :
      (String → List (Option Frame)) → Hub Frame → ℕ → Client Frame → Read → Hub Frame
  unfolding end_read
  read_round hook h id c garbage = h
  read_round hook h id c read_error = record h {
    clients = at_client id end_read h.clients;
    disconnects = if c.registered then add_u64 h.disconnects 1 else h.disconnects;
  }
  read_round hook h id c (subscribe env) =
      if str_eq env ""
      then h
      else send_all
          (record h {
            clients = at_client id (set_env env) h.clients;
            subscribed = add_u64 h.subscribed 1;
          })
          id (hook env)

  -- A write that fails is counted, and ends the pump.
  abbrev pub fail_write : Hub Frame → ℕ → Hub Frame
  fail_write h id = record h {
    clients = at_client id end_write h.clients;
    write_failures = add_u64 h.write_failures 1;
  }

  abbrev pub set_send : List Frame → Client Frame → Client Frame
  set_send frames c = record c { send = frames }

  -- A case of the `select` that is not ready is not taken: the round does not happen.
  unfoldable pub write_round : Hub Frame → ℕ → Client Frame → List Frame → Write → Hub Frame
  unfolding end_write
  write_round h id c queue sees_done =
      if c.done then record h { clients = at_client id end_write h.clients } else h
  write_round h id c [] (takes_frame succeeds) = h
  write_round h id c (frame ∷ rest) (takes_frame succeeds) =
      let h' = record h { clients = at_client id (set_send rest) h.clients } in
      if succeeds then h' else fail_write h' id
  write_round h id c queue (pings succeeds) = if succeeds then h else fail_write h id

-- What can happen to a hub. `frame` is `none` where encoding fails.
pub data Event (Frame : Type 0) : Type 0 where
  connects : Event Frame
  reads : ℕ → Read → Event Frame
  writes : ℕ → Write → Event Frame
  broadcasts : (env : String) (frame : Option Frame) → Event Frame
  sends : (id : ℕ) (frame : Option Frame) → Event Frame

module _ {Frame : Type 0} where
  unfoldable pub read_of :
      (String → List (Option Frame)) → Hub Frame → ℕ → Option (Client Frame) → Read → Hub Frame
  read_of hook h id none r = h
  read_of hook h id (some c) r = if c.reading then read_round hook h id c r else h

  unfoldable pub write_of : Hub Frame → ℕ → Option (Client Frame) → Write → Hub Frame
  write_of h id none w = h
  write_of h id (some c) w = if c.writing then write_round h id c c.send w else h

  -- A new client's address is not the address of another one.
  unfoldable pub step : (String → List (Option Frame)) → Hub Frame → Event Frame → Hub Frame
  unfolding read_of write_of
  step hook h connects = record h { clients = h.clients ++ new_client (length h.clients) ∷ [] }
  step hook h (reads id r) = read_of hook h id (get_client id h.clients) r
  step hook h (writes id w) = write_of h id (get_client id h.clients) w
  step hook h (broadcasts env frame) = broadcast h env frame
  step hook h (sends id frame) = send_to h id frame

  unfoldable pub run : (String → List (Option Frame)) → Hub Frame → List (Event Frame) → Hub Frame
  run hook h [] = h
  run hook h (e ∷ es) = run hook (step hook h e) es
