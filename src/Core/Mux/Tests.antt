-- ===== src/Core/Mux/Tests.antt =====
-- Concrete endpoints and flows, and the theorems at them.
use leshiy.Prelude.{
  ℕ, ◌+◌, ◌-◌, ◌≤◌, ◌≡◌, ◌≢◌, ◌⊎◌, refl, true, false, none, some, List, [], ◌∷◌, ◌++◌, length, All,
  arith,
}
use leshiy.Prelude.Assoc.{lookup}
use leshiy.Core.Frame.{Frame, base_type, code}
use leshiy.Core.Frame
use leshiy.Core.Mux.{
  Window, Sink, tcp, udp, icmp, new_sink, push_data, granted, waits, acquire_credit,
  channel_capacity, init_window,
}
use leshiy.Core.Mux.Flow.{Flow, send, Reach, here, next, start, arrival_fits}
use leshiy.Core.Mux.Progress.{Drains, sender_recovers}
use leshiy.Core.Mux.Sender.{
  parse_open_target, open_payload, open_all, first_id, client, server, strip_prefix, udp_prefix,
}
use leshiy.Core.Mux.Sender
use leshiy.Core.Mux.Sender.Chunks.{payloads, FitsRecord, send-payloads}
use leshiy.Core.Mux.Sender.Targets.{
  parse_open_target-open_payload, parse_open_target_misread, opened_by-HasParity, HasParity,
  opened_by,
}
use leshiy.Core.Mux.Reader.{Endpoint, on_frame, run_reader}
use leshiy.Core.Mux.Reader.Bounds.{Holds, IsBounded, on_frame-Inv}
use leshiy.Core.Mux.Reader.Bounds
use leshiy.Core.Mux.Reader.Stranded.{IsIn, on_open_replaces}

abbrev hi : List ℕ
hi = b'h' ∷ b'i' ∷ []

-- One chunk is under way.
abbrev sent : Flow
sent = record start {
  sender = record start.sender {
    send_window = some (record { permits = init_window - 2; is_closed = false });
  };
  chunks = hi ∷ [];
}

sent-Reach : Reach sent
unfolding acquire_credit new_sink
sent-Reach = next here (send start hi _ refl)

arrival_fits_example :
    (sent.receiver.sink.buffered + 2 ≤ init_window)
    × ((push_data sent.receiver.sink hi ≢ none)
        ⊎ (sent.receiver.sink.consumer_gone ≡ true)
        ⊎ (channel_capacity ≤ length sent.receiver.sink.queue))
arrival_fits_example = arrival_fits sent hi [] sent-Reach refl

sender_recovers_example :
    (g : Flow) × Drains sent g
    × ((w : Window) × (acquire_credit g.sender.send_window 16000 ≡ granted (some w)))
unfolding new_sink
sender_recovers_example = sender_recovers sent 16000 sent-Reach refl (omega arith)

send-payloads_example :
    (payloads (Sender.datagram_frame 4 hi ∷ []) ≡ hi)
    × All FitsRecord (Sender.datagram_frame 4 hi ∷ [])
send-payloads_example =
    send-payloads udp 4 hi (Sender.datagram_frame 4 hi ∷ []) (omega arith) (omega arith)
      (unfold Sender.send in refl)

parse_open_target-open_payload_example : parse_open_target (open_payload icmp hi) ≡ (icmp, hi)
unfolding strip_prefix
parse_open_target-open_payload_example = parse_open_target-open_payload icmp hi refl refl refl

parse_open_target_misread_example :
    parse_open_target (open_payload tcp (udp_prefix ++ (b'5' ∷ b'3' ∷ [])))
    ≡ (udp, b'5' ∷ b'3' ∷ [])
parse_open_target_misread_example = parse_open_target_misread (b'5' ∷ b'3' ∷ [])

opened_by-HasParity_example :
    All (HasParity 1) (opened_by client 0 ((tcp, hi) ∷ []))
    × All (HasParity 0) (opened_by server 1 ((udp, hi) ∷ (tcp, hi) ∷ []))
    × All
        (λ f.
          All (λ g. f.stream_id ≢ g.stream_id) (opened_by server 1 ((udp, hi) ∷ (tcp, hi) ∷ [])))
        (opened_by client 0 ((tcp, hi) ∷ []))
opened_by-HasParity_example = opened_by-HasParity 0 1 ((tcp, hi) ∷ []) ((udp, hi) ∷ (tcp, hi) ∷ [])

-- A stream that takes part in no flow control.
abbrev quiet : Sink
quiet = record { queue = hi ∷ []; buffered = 2; send_window = none; consumer_gone = false }

abbrev busy : Sink
busy = record quiet { queue = hi ∷ hi ∷ []; buffered = 4 }

abbrev one_stream : Endpoint
one_stream = record {
  streams = (1, quiet) ∷ [];
  detached = [];
  commands = [];
  incoming = [];
  accept_gone = false;
  flowcontrol = true;
  last_ping = none;
  rtt_micros = 0;
  last_seen = 0;
  closed = false;
}

abbrev lossless : List ℕ → List ℕ
lossless text = text

abbrev hi_frame : Frame
hi_frame = record { stream_id = 1; ftype = 3; payload = hi }

abbrev open_frame : Frame
open_frame = record { stream_id = 1; ftype = 2; payload = hi }

on_frame-Inv_example : Holds (Bounds.Inv 1) (on_frame lossless 5 6 one_stream hi_frame)
on_frame-Inv_example = on_frame-Inv lossless 5 6 one_stream hi_frame (omega arith)

-- A stream whose credit is spent.
abbrev starved : Sink
starved = record quiet { send_window = some (record { permits = 0; is_closed = false }) }

abbrev waiting_end : Endpoint
waiting_end = record one_stream { streams = (1, starved) ∷ [] }

starved_found : lookup 1 waiting_end.streams ≡ some starved
unfolding lookup
starved_found = refl

starved_waits : acquire_credit starved.send_window 5 ≡ waits
unfolding acquire_credit
starved_waits = refl

open_type : base_type open_frame.ftype ≡ code Frame.open_stream
unfolding base_type
open_type = refl

on_open_replaces_example :
    ((run_reader lossless waiting_end ((5, 6, open_frame) ∷ (7, 8, hi_frame) ∷ [])).streams ≡ [])
    × ((old : Sink) × IsIn
          (1, old)
          (run_reader lossless waiting_end ((5, 6, open_frame) ∷ (7, 8, hi_frame) ∷ [])).detached
        × (acquire_credit old.send_window 5 ≡ waits))
on_open_replaces_example =
    on_open_replaces lossless waiting_end 5 6 5 open_frame starved ((7, 8, hi_frame) ∷ []) open_type
      starved_found (omega arith) starved_waits
