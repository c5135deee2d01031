-- ===== src/Core/Mux.antt =====
-- crates/leshiy-core/src/mux.rs: logical streams over one session.
-- A stream's handle and its entry in the map share a channel, a counter and a send window. Here a
-- `Sink` holds these, the map takes a stream id to a `Sink`, and the consumer's part is `Receiver`.
pub mod Flow
pub mod Progress
pub mod Reader
pub mod Sender
mod Tests
use leshiy.Prelude.{
  ℕ, ◌+◌, ◌-◌, ◌*◌, ◌/◌, ◌^◌, Bool, true, false, ◌||◌, Option, none, some, List, [], ◌∷◌, ◌++◌,
  length, min, ltb, leb, if◌then◌else◌,
}
use leshiy.Prelude.Bytes.{to_be}
use leshiy.Core.Frame.{Frame, code}
use leshiy.Core.Frame

abbrev pub max_concurrent_peer_streams : ℕ
max_concurrent_peer_streams = 1024

abbrev pub init_window : ℕ
init_window = 256 * 1024

abbrev pub window_threshold : ℕ
window_threshold = init_window / 2

abbrev pub max_credit : ℕ
max_credit = init_window

abbrev pub max_buffered : ℕ
max_buffered = 4 * 1024 * 1024

-- The capacity in messages of a stream's channel, in `new_stream`.
abbrev pub channel_capacity : ℕ
channel_capacity = 1024

pub data StreamKind : Type 0 where
  tcp udp icmp : StreamKind

-- A tokio semaphore as it is used here.
pub record Window : Type 0 where
  pub permits : ℕ
  pub is_closed : Bool

-- The shared part of a stream: `StreamSink`, with the messages in its channel. `consumer_gone`
-- says that the receiving end was dropped.
pub record Sink : Type 0 where
  pub queue : List (List ℕ)
  pub buffered : ℕ
  pub send_window : Option Window
  pub consumer_gone : Bool

-- The sink that `new_stream` makes.
unfoldable pub new_sink : Bool → Sink
new_sink flowcontrol = record {
  queue = [];
  buffered = 0;
  send_window =
      if flowcontrol then some (record { permits = init_window; is_closed = false }) else none;
  consumer_gone = false;
}

abbrev close_window : Option Window → Option Window
close_window none = none
close_window (some w) = some (record w { is_closed = true })

-- `StreamSink::close`
unfoldable pub close : Sink → Sink
close s = record s { send_window = close_window s.send_window }

-- `acquire_many(n)` and `forget`: the permits are taken, or the task waits, or the window is closed.
pub data Acquired : Type 0 where
  granted : Option Window → Acquired
  waits fails : Acquired

unfoldable pub acquire_credit : Option Window → ℕ → Acquired
acquire_credit none n = granted none
acquire_credit (some w) n =
    if w.is_closed
    then fails
    else if ltb w.permits n
    then waits
    else granted (some (record w { permits = w.permits - n }))

-- `try_send` fails when the channel is full or its receiver is gone.
try_send_fails : Sink → Bool
try_send_fails s = s.consumer_gone || leb channel_capacity (length s.queue)

-- A payload enters the channel, or `none`: the stream is to be reset.
unfoldable pub push_data : Sink → List ℕ → Option Sink
unfolding try_send_fails
push_data s payload =
    let buffered = s.buffered + length payload in
    if ltb max_buffered buffered || try_send_fails s
    then none
    else some (record s { queue = s.queue ++ (payload ∷ []); buffered = buffered })

abbrev credit_window : Option Window → ℕ → Option Window
credit_window none credit = none
credit_window (some w) credit = some (record w { permits = w.permits + min credit max_credit })

-- A `WindowUpdate`: `add_permits(credit.min(MAX_CREDIT))`.
unfoldable pub add_credit : Sink → ℕ → Sink
add_credit s credit = record s { send_window = credit_window s.send_window credit }

unfoldable pub window_update_frame : ℕ → ℕ → Frame
window_update_frame stream_id credit = record {
  stream_id = stream_id;
  ftype = code Frame.window_update;
  payload = to_be 4 credit;
}

-- `ReceiveState`, with the shared part of its stream.
pub record Receiver : Type 0 where
  pub sink : Sink
  pub consumed : ℕ
  pub pending : Option (List ℕ)

abbrev pub counted : Option Window → ℕ → ℕ
counted none n = 0
counted (some w) n = n

abbrev take_front : Receiver → List (List ℕ) → Option Receiver
take_front r [] = none
take_front r (chunk ∷ rest) = some (record r {
  sink = record r.sink { queue = rest; buffered = r.sink.buffered - length chunk };
  consumed = r.consumed + counted r.sink.send_window (length chunk);
  pending = some chunk;
})

abbrev take_unless : Receiver → Option (List ℕ) → Option Receiver
take_unless r none = take_front r r.sink.queue
take_unless r (some chunk) = some r

-- The first part of `Stream::recv`: take a chunk, unless one was left by a cancelled call. `none`
-- means that the channel is empty.
unfoldable pub recv_take : Receiver → Option Receiver
recv_take r = take_unless r r.pending

-- The second part: the credit to grant, if it is due, and the chunk.
unfoldable pub recv_finish : Receiver → Receiver × Option ℕ × Option (List ℕ)
recv_finish r =
    if leb window_threshold r.consumed
    then (record r { consumed = 0; pending = none }, some (min r.consumed (2 ^ 32 - 1)), r.pending)
    else (record r { pending = none }, none, r.pending)
