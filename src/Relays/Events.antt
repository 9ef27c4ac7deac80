-- ===== src/Relays/Events.antt =====
-- The calls that the capture makes of relays.rs, as events.
use docsis_monitor.Relays.Table.{Relays, request, reply, tftp_request, tftp_send}
use docsis_monitor.Base.{ℕ, Option, List, [], ◌∷◌}

pub data Event : Type 0 where
  request_seen : Option ℕ → Option ℕ → ℕ → ℕ → Event
  reply_seen : Option ℕ → Option ℕ → ℕ → ℕ → Event
  tftp_request_seen : ℕ → Event
  tftp_send_seen : ℕ → Event

unfoldable pub step : Relays → Event → Relays
unfolding request reply tftp_request tftp_send
step r (request_seen gi xid now now_ms) = request gi xid now now_ms r
step r (reply_seen gi xid now now_ms) = reply gi xid now now_ms r
step r (tftp_request_seen now) = tftp_request now r
step r (tftp_send_seen now) = tftp_send now r

unfoldable pub run : Relays → List Event → Relays
unfolding step
run r [] = r
run r (e ∷ es) = run (step r e) es
