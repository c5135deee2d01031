-- ===== src/Core/Mux/Reader/Bounds.antt =====
-- No frame that a peer sends makes this end keep more than its bounds.
use leshiy.Prelude.{
  ℕ, max, ◌≤◌, ◌≡◌, inl, inr, refl, Bool, true, false, Option, none, some, List, [], ◌∷◌, length,
  leb, Bool-cases, Option-cases, if◌then◌else◌, length-append, arith,
}
use leshiy.Prelude.Assoc.{
  lookup, length-insert, length-insert_found, length-erase, Values, Values-insert, Values-erase,
  Values-lookup,
}
use leshiy.Core.Frame.{Frame}
use leshiy.Core.Mux.{
  Sink, new_sink, push_data, add_credit, max_buffered, channel_capacity,
  max_concurrent_peer_streams,
}
use leshiy.Core.Mux.Flow.{total, total-snoc}
use leshiy.Core.Mux.Reader.{
  Endpoint, Outcome, continues, breaks, write, note_pong, remove_stream, install, announce, on_open,
  on_data, accept_data, on_window_update, on_frame, control_frame,
}
use leshiy.Core.Frame.{code}
use leshiy.Core.Frame

pub record IsBounded (s : Sink) : Type 0 where
  pub counted : s.buffered ≡ total s.queue
  pub bytes : s.buffered ≤ max_buffered
  pub messages : length s.queue ≤ channel_capacity

-- The sinks are bounded, and the streams no more than `count` or the peer's limit.
pub record Inv (count : ℕ) (m : Endpoint) : Type 0 where
  pub sinks : Values IsBounded m.streams
  pub few : length m.streams ≤ max count max_concurrent_peer_streams

abbrev pub Holds {ℓ} : (Endpoint → Type ℓ) → Outcome → Type ℓ
Holds P (continues m) = P m
Holds P (breaks m) = P m

pub if_holds {ℓ κ} :
    {A : Type ℓ} (P : A → Type κ) (b : Bool) (x y : A) → P x → P y → P (if b then x else y)
if_holds P true x y px py = px
if_holds P false x y px py = py

-- A statement about the outcome of a frame follows from its cases.
pub on_frame_cases {ℓ} :
    (P : Outcome → Type ℓ) (lossy : List ℕ → List ℕ) (wall now : ℕ) (m0 : Endpoint) (f : Frame)
    → let m : Endpoint = record m0 { last_seen = wall } in
      P (continues (write m (control_frame 0 (code Frame.pong))))
      → P (continues (note_pong m m.last_ping now))
      → P (on_open lossy m f)
      → P (continues (on_data m f (lookup f.stream_id m.streams)))
      → P (continues (on_window_update m f (lookup f.stream_id m.streams)))
      → P (continues (remove_stream m f.stream_id))
      → P (breaks m)
      → P (continues m)
      → P (on_frame lossy wall now m0 f)
unfolding on_frame
on_frame_cases P lossy wall now m0 f ping pong opened bytes credit closed broken ignored =
    if_holds P _ _ _ ping (
      if_holds P _ _ _ pong (
        if_holds P _ _ _ opened (
          if_holds P _ _ _ bytes
            (if_holds P _ _ _ credit (if_holds P _ _ _ closed (if_holds P _ _ _ broken ignored))))))

new_sink-IsBounded : (flow : Bool) → IsBounded (new_sink flow)
unfolding new_sink
new_sink-IsBounded flow = omega arith

push_data-IsBounded :
    (s s' : Sink) (payload : List ℕ) → IsBounded s → push_data s payload ≡ some s' → IsBounded s'
unfolding push_data
push_data-IsBounded s s' payload b e =
    ground (arith, total-snoc s.queue payload, length-append s.queue (payload ∷ []))

on_data-Inv :
    (count : ℕ) (m : Endpoint) (f : Frame) (o : Option Sink)
    → lookup f.stream_id m.streams ≡ o
    → Inv count m
    → Inv count (on_data m f o)
unfolding on_data accept_data remove_stream
on_data-Inv count m f none e v = v
on_data-Inv count m f (some s) e v = elim (Option-cases (push_data s f.payload)) [
  | inl reset ↦ rw reset (record {
    sinks = Values-erase IsBounded f.stream_id m.streams v.sinks;
    few = omega (arith, v.few, length-erase f.stream_id m.streams);
  })
  | inr (s', taken) ↦ rw taken (record {
    sinks =
        Values-insert IsBounded f.stream_id s' m.streams
          (push_data-IsBounded s s' f.payload
            (Values-lookup IsBounded f.stream_id s m.streams v.sinks e) taken)
          v.sinks;
    few = omega (arith, v.few, length-insert_found f.stream_id s' s m.streams e);
  })
]

on_window_update-Inv :
    (count : ℕ) (m : Endpoint) (f : Frame) (o : Option Sink)
    → lookup f.stream_id m.streams ≡ o
    → Inv count m
    → Inv count (on_window_update m f o)
unfolding on_window_update add_credit
on_window_update-Inv count m f none e v = v
on_window_update-Inv count m f (some s) e v =
    if_holds (Inv count) (leb 4 (length f.payload)) _ m
      (record {
        sinks =
            Values-insert IsBounded f.stream_id _ m.streams
              (kept _ (Values-lookup IsBounded f.stream_id s m.streams v.sinks e)) v.sinks;
        few = omega (arith, v.few, length-insert_found f.stream_id _ s m.streams e);
      })
      v
  where
    kept : (c : ℕ) → IsBounded s → IsBounded (add_credit s c)
    kept c b = record { counted = b.counted; bytes = b.bytes; messages = b.messages }

on_open-Inv :
    (count : ℕ) (lossy : List ℕ → List ℕ) (m : Endpoint) (f : Frame)
    → Inv count m
    → Holds (Inv count) (on_open lossy m f)
unfolding on_open
on_open-Inv count lossy m f v =
    elim (Bool-cases (leb max_concurrent_peer_streams (length m.streams))) [
      | inl full ↦ rw full v
      | inr room ↦ rw room (
          if_holds (Holds (Inv count)) m.accept_gone (breaks (install m f)) _ (installed room)
            (announced (installed room)))
    ]
  where
    announced : Inv count (install m f) → Inv count (announce lossy (install m f) f)
    announced w = record { sinks = w.sinks; few = w.few }

    installed : leb max_concurrent_peer_streams (length m.streams) ≡ false → Inv count (install m f)
    installed room = record {
      sinks =
          Values-insert IsBounded f.stream_id _ m.streams (new_sink-IsBounded m.flowcontrol)
            v.sinks;
      few = ground (arith, room, length-insert f.stream_id (new_sink m.flowcontrol) m.streams);
    }

note_pong-Inv :
    (count : ℕ) (m : Endpoint) (o : Option ℕ) (now : ℕ)
    → Inv count m
    → Inv count (note_pong m o now)
unfolding note_pong
note_pong-Inv count m none now v = v
note_pong-Inv count m (some sent) now v = record { sinks = v.sinks; few = v.few }

remove_stream-Inv :
    (count : ℕ) (m : Endpoint) (id : ℕ) → Inv count m → Inv count (remove_stream m id)
unfolding remove_stream
remove_stream-Inv count m id v = record {
  sinks = Values-erase IsBounded id m.streams v.sinks;
  few = omega (arith, v.few, length-erase id m.streams);
}

-- Whatever frame arrives at an end whose streams each hold at most 4 MiB and 1024 messages and count
-- the bytes in their channels, they all still do after it, a new one included; and the streams are
-- at most 1024, or as many as before the frame, of which this end may have opened more itself.
pub on_frame-Inv :
    (lossy : List ℕ → List ℕ) (wall now : ℕ) (m : Endpoint) (f : Frame)
    → Values IsBounded m.streams
    → Holds (Inv (length m.streams)) (on_frame lossy wall now m f)
on_frame-Inv lossy wall now m f v =
    let count = length m.streams in
    let seen : Inv count (record m { last_seen = wall }) = record {
      sinks = v;
      few = omega arith;
    } in
    on_frame_cases (Holds (Inv count)) lossy wall now m f (record { sinks = v; few = omega arith })
      (note_pong-Inv count _ m.last_ping now seen) (on_open-Inv count lossy _ f seen)
      (on_data-Inv count _ f _ refl seen) (on_window_update-Inv count _ f _ refl seen)
      (remove_stream-Inv count _ f.stream_id seen) seen seen
