-- ===== src/Core/Mux/Reader.antt =====
-- The reader task of `Mux::start_with_keepalive`: what one inbound frame does to this end.
pub mod Bounds
pub mod Isolation
pub mod Stranded
use leshiy.Prelude.{
  ℕ, ◌+◌, ◌-◌, ◌≤◌, ◌≡◌, Bool, true, false, ◌||◌, Option, none, some, List, [], ◌∷◌, ◌++◌, map,
  length, get_or, ltb, leb, max, min, ◌^◌, ◌==◌, if◌then◌else◌,
}
use leshiy.Prelude.Bytes.{from_be}
use leshiy.Prelude.Assoc.{lookup, insert, erase}
use leshiy.Core.Frame.{Frame, code, base_type, is_critical}
use leshiy.Core.Frame
use leshiy.Core.Mux.{
  StreamKind, Sink, new_sink, close, push_data, add_credit, max_concurrent_peer_streams,
}
use leshiy.Core.Mux.Sender.{parse_open_target}

-- A stream that the peer opened, as it waits for `accept`.
pub record Incoming : Type 0 where
  pub id : ℕ
  pub kind : StreamKind
  pub target : List ℕ

-- One end of the session. `detached` are sinks that left the map and that a `Stream` may still hold;
-- `accept_gone` says that the receiver of `incoming` was dropped; `commands` are the frames handed to the writer, oldest first; times are in microseconds.
pub record Endpoint : Type 0 where
  pub streams : List (ℕ × Sink)
  pub detached : List (ℕ × Sink)
  pub commands : List Frame
  pub incoming : List Incoming
  pub accept_gone : Bool
  pub flowcontrol : Bool
  pub last_ping : Option ℕ
  pub rtt_micros : ℕ
  pub last_seen : ℕ
  pub closed : Bool

-- The reader goes on, or leaves its loop.
pub data Outcome : Type 0 where
  continues breaks : Endpoint → Outcome

abbrev pub control_frame : ℕ → ℕ → Frame
control_frame id ftype = record { stream_id = id; ftype = ftype; payload = [] }

abbrev pub write : Endpoint → Frame → Endpoint
write m f = record m { commands = m.commands ++ (f ∷ []) }

-- `RttState::note_pong_recv`: at least one microsecond, at most the largest u64.
pub note_pong : Endpoint → Option ℕ → ℕ → Endpoint
note_pong m none now = m
note_pong m (some sent) now = record m {
  last_ping = none;
  rtt_micros = min (max (now - sent) 1) (2 ^ 64 - 1);
}

abbrev pub detach_all : ℕ → Option Sink → List (ℕ × Sink) → List (ℕ × Sink)
detach_all id none gone = gone
detach_all id (some s) gone = (id, s) ∷ gone

abbrev pub closed_sink : Option Sink → Option Sink
closed_sink none = none
closed_sink (some s) = some (close s)

-- `remove(&id)`, then `close` of what was there.
pub remove_stream : Endpoint → ℕ → Endpoint
remove_stream m id = record m {
  streams = erase id m.streams;
  detached = detach_all id (closed_sink (lookup id m.streams)) m.detached;
}

-- `insert(id, sink)` replaces an entry of that id, whose sink is not closed.
pub install : Endpoint → Frame → Endpoint
install m f = record m {
  streams = insert f.stream_id (new_sink m.flowcontrol) m.streams;
  detached = detach_all f.stream_id (lookup f.stream_id m.streams) m.detached;
}

-- `inc_tx.send(stream)`
pub announce : (List ℕ → List ℕ) → Endpoint → Frame → Endpoint
announce lossy m f =
    let opened = parse_open_target (lossy f.payload) in
    record m {
      incoming =
          m.incoming ++ (record { id = f.stream_id; kind = opened.0; target = opened.1 } ∷ []);
    }

-- Too many streams end the loop before the insert, a gone receiver ends it after.
pub on_open : (List ℕ → List ℕ) → Endpoint → Frame → Outcome
unfolding install announce
on_open lossy m f =
    if leb max_concurrent_peer_streams (length m.streams)
    then breaks m
    else if m.accept_gone
    then breaks (install m f)
    else continues (announce lossy (install m f) f)

-- The channel takes the payload, or the stream is reset and the peer is told.
pub accept_data : Endpoint → ℕ → Option Sink → Endpoint
accept_data m id none = write (remove_stream m id) (control_frame id (code Frame.close))
accept_data m id (some s) = record m { streams = insert id s m.streams }

pub on_data : Endpoint → Frame → Option Sink → Endpoint
on_data m f none = m
on_data m f (some s) = accept_data m f.stream_id (push_data s f.payload)

pub on_window_update : Endpoint → Frame → Option Sink → Endpoint
on_window_update m f none = m
on_window_update m f (some s) =
    let p = f.payload in
    let credit = from_be (get_or p 0 0 ∷ get_or p 1 0 ∷ get_or p 2 0 ∷ get_or p 3 0 ∷ []) in
    if leb 4 (length p)
    then record m { streams = insert f.stream_id (add_credit s credit) m.streams }
    else m

-- One turn of the reader's loop. `lossy` is `String::from_utf8_lossy`; `wall` is the wall clock in
-- milliseconds and `now` the monotonic one. `accept` has taken what `inc_tx` holds.
unfoldable pub on_frame : (List ℕ → List ℕ) → ℕ → ℕ → Endpoint → Frame → Outcome
unfolding note_pong remove_stream on_open accept_data on_data on_window_update
on_frame lossy wall now m0 f =
    let m : Endpoint = record m0 { last_seen = wall } in
    let bt = base_type f.ftype in
    if bt == code Frame.ping
    then continues (write m (control_frame 0 (code Frame.pong)))
    else if bt == code Frame.pong
    then continues (note_pong m m.last_ping now)
    else if bt == code Frame.open_stream
    then on_open lossy m f
    else if (bt == code Frame.data_bytes) || (bt == code Frame.datagram)
    then continues (on_data m f (lookup f.stream_id m.streams))
    else if bt == code Frame.window_update
    then continues (on_window_update m f (lookup f.stream_id m.streams))
    else if bt == code Frame.close
    then continues (remove_stream m f.stream_id)
    else if is_critical f.ftype
    then breaks m
    else continues m

abbrev pub close_entry : ℕ × Sink → ℕ × Sink
close_entry e = (e.0, close e.1)

-- After the loop: `close_all_streams`, and `closed` is published.
unfoldable pub tear_down : Endpoint → Endpoint
tear_down m = record m {
  streams = [];
  detached = map close_entry m.streams ++ m.detached;
  closed = true;
}

-- The reader's task on the frames that arrive; a read that fails ends it as a break does.
unfoldable pub run_reader : (List ℕ → List ℕ) → Endpoint → List (ℕ × ℕ × Frame) → Endpoint
run_reader lossy m [] = tear_down m
run_reader lossy m ((wall, now, f) ∷ more) = elim (on_frame lossy wall now m f) [
  | continues m' ↦ run_reader lossy m' more
  | breaks m' ↦ tear_down m'
]
