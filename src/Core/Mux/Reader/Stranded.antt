-- ===== src/Core/Mux/Reader/Stranded.antt =====
-- A stream whose id is opened again: nothing ever closes its sink.
use leshiy.Prelude.{
  ℕ, ◌<◌, ◌≡◌, ◌⊎◌, inl, inr, refl, ap, false, Option, none, some, List, [], ◌∷◌, ◌++◌, map, length,
  leb, Option-cases, arith,
}
use leshiy.Prelude.Assoc.{lookup}
use leshiy.Core.Frame.{Frame, base_type, code}
use leshiy.Core.Frame
use leshiy.Core.Mux.{Sink, waits, acquire_credit, push_data, max_concurrent_peer_streams}
use leshiy.Core.Mux.Reader.{
  Endpoint, Outcome, continues, breaks, note_pong, detach_all, close_entry, closed_sink,
  remove_stream, install, announce, on_open, on_data, accept_data, on_window_update, on_frame,
  tear_down, run_reader,
}
use leshiy.Core.Mux.Reader.Bounds.{Holds, if_holds, on_frame_cases}

abbrev pub IsIn : ℕ × Sink → List (ℕ × Sink) → Type 0
IsIn e [] = ⊥
IsIn e (x ∷ xs) = (x ≡ e) ⊎ IsIn e xs

IsIn-append : (e : ℕ × Sink) (xs ys : List (ℕ × Sink)) → IsIn e ys → IsIn e (xs ++ ys)
IsIn-append e [] ys h = h
IsIn-append e (x ∷ xs) ys h = inr (IsIn-append e xs ys h)

IsIn-detach_all :
    (e : ℕ × Sink) (id : ℕ) (o : Option Sink) (gone : List (ℕ × Sink))
    → IsIn e gone
    → IsIn e (detach_all id o gone)
IsIn-detach_all e id none gone h = h
IsIn-detach_all e id (some s) gone h = inr h

module _ (e : ℕ × Sink) where
  abbrev Has : Endpoint → Type 0
  Has m = IsIn e m.detached

  remove_stream-Has : (m : Endpoint) (id : ℕ) → Has m → Has (remove_stream m id)
  unfolding remove_stream
  remove_stream-Has m id h = IsIn-detach_all e id (closed_sink (lookup id m.streams)) m.detached h

  on_data-Has : (m : Endpoint) (f : Frame) (o : Option Sink) → Has m → Has (on_data m f o)
  unfolding on_data accept_data
  on_data-Has m f none h = h
  on_data-Has m f (some s) h = elim (Option-cases (push_data s f.payload)) [
    | inl reset ↦ rw reset (remove_stream-Has m f.stream_id h)
    | inr (s', taken) ↦ rw taken h
  ]

  on_window_update-Has :
      (m : Endpoint) (f : Frame) (o : Option Sink) → Has m → Has (on_window_update m f o)
  unfolding on_window_update
  on_window_update-Has m f none h = h
  on_window_update-Has m f (some s) h = if_holds Has (leb 4 (length f.payload)) _ m h h

  on_open-Has :
      (lossy : List ℕ → List ℕ) (m : Endpoint) (f : Frame) → Has m → Holds Has (on_open lossy m f)
  unfolding on_open install announce
  on_open-Has lossy m f h =
      let kept = IsIn-detach_all e f.stream_id (lookup f.stream_id m.streams) m.detached h in
      if_holds (Holds Has) (leb max_concurrent_peer_streams (length m.streams)) (breaks m) _ h
        (if_holds (Holds Has) m.accept_gone (breaks (install m f)) _ kept kept)

  note_pong-Has : (m : Endpoint) (o : Option ℕ) (now : ℕ) → Has m → Has (note_pong m o now)
  unfolding note_pong
  note_pong-Has m none now h = h
  note_pong-Has m (some sent) now h = h

  on_frame-Has :
      (lossy : List ℕ → List ℕ) (wall now : ℕ) (m : Endpoint) (f : Frame)
      → Has m
      → Holds Has (on_frame lossy wall now m f)
  on_frame-Has lossy wall now m f h =
      let seen : Endpoint = record m { last_seen = wall } in
      on_frame_cases (Holds Has) lossy wall now m f h (note_pong-Has seen m.last_ping now h)
        (on_open-Has lossy seen f h) (on_data-Has seen f _ h) (on_window_update-Has seen f _ h)
        (remove_stream-Has seen f.stream_id h) h h

  tear_down-Has : (m : Endpoint) → Has m → Has (tear_down m)
  unfolding tear_down
  tear_down-Has m h = IsIn-append e (map close_entry m.streams) m.detached h

  -- The rest of the reader's run, after a frame.
  abbrev after : (List ℕ → List ℕ) → List (ℕ × ℕ × Frame) → Outcome → Endpoint
  after lossy more o = elim o [ continues m' ↦ run_reader lossy m' more | breaks m' ↦ tear_down m' ]

  after-Has :
      (lossy : List ℕ → List ℕ) (more : List (ℕ × ℕ × Frame)) (o : Outcome)
      → ((m : Endpoint) → Has m → Has (run_reader lossy m more))
      → Holds Has o
      → Has (after lossy more o)
  after-Has lossy more (continues m') rest h = rest m' h
  after-Has lossy more (breaks m') rest h = tear_down-Has m' h

  run_reader-Has :
      (lossy : List ℕ → List ℕ) (frames : List (ℕ × ℕ × Frame)) (m : Endpoint)
      → Has m
      → Has (run_reader lossy m frames)
  unfolding run_reader
  run_reader-Has lossy [] m h = tear_down-Has m h
  run_reader-Has lossy ((wall, now, f) ∷ more) m h =
      after-Has lossy more (on_frame lossy wall now m f) (λ m' g. run_reader-Has lossy more m' g)
        (on_frame-Has lossy wall now m f h)

  run_reader-first :
      (lossy : List ℕ → List ℕ) (wall now : ℕ) (m : Endpoint) (f : Frame)
      (more : List (ℕ × ℕ × Frame))
      → Holds Has (on_frame lossy wall now m f)
      → Has (run_reader lossy m ((wall, now, f) ∷ more))
  unfolding run_reader
  run_reader-first lossy wall now m f more h =
      after-Has lossy more (on_frame lossy wall now m f) (λ m' g. run_reader-Has lossy more m' g) h

after_empties :
    (lossy : List ℕ → List ℕ) (more : List (ℕ × ℕ × Frame)) (o : Outcome)
    → ((m : Endpoint) → (run_reader lossy m more).streams ≡ [])
    → (elim o as (λ x. Endpoint) [
      | continues m' ↦ run_reader lossy m' more
      | breaks m' ↦ tear_down m'
    ]).streams
      ≡ []
unfolding tear_down
after_empties lossy more (continues m') rest = rest m'
after_empties lossy more (breaks m') rest = refl

run_reader_empties :
    (lossy : List ℕ → List ℕ) (frames : List (ℕ × ℕ × Frame)) (m : Endpoint)
    → (run_reader lossy m frames).streams ≡ []
unfolding run_reader tear_down
run_reader_empties lossy [] m = refl
run_reader_empties lossy ((wall, now, f) ∷ more) m =
    after_empties lossy more (on_frame lossy wall now m f) (λ m'. run_reader_empties lossy more m')

detached_old :
    (id : ℕ) (s : Sink) (o : Option Sink) (gone : List (ℕ × Sink))
    → o ≡ some s
    → IsIn (id, s) (detach_all id o gone)
detached_old id s none gone h = cc
detached_old id s (some x) gone h = let same : x ≡ s = cc h in inl (ap (λ (y : Sink). (id, y)) same)

open_strands :
    (lossy : List ℕ → List ℕ) (m : Endpoint) (wall now : ℕ) (f : Frame) (s : Sink)
    → base_type f.ftype ≡ code Frame.open_stream
    → lookup f.stream_id m.streams ≡ some s
    → length m.streams < max_concurrent_peer_streams
    → Holds (Has (f.stream_id, s)) (on_frame lossy wall now m f)
unfolding on_frame on_open install announce
open_strands lossy m wall now f s opens found room =
    let fits : leb max_concurrent_peer_streams (length m.streams) ≡ false = ground (arith, room) in
    let seen : Endpoint = record m { last_seen = wall } in
    let old = detached_old f.stream_id s (lookup f.stream_id m.streams) m.detached found in
    rw (opens, fits)
      (if_holds (Holds (Has (f.stream_id, s))) m.accept_gone (breaks (install seen f)) _ old old)

-- A sender waits for credit on a stream whose id the peer opens again, at an end with room for a
-- stream. Whatever arrives afterwards, the reader's run ends with no stream in the map; and at its
-- end the old sink, which a `Stream` may still hold, has left the map and a sender on it still waits:
-- it has got no credit, and its window was not closed.
pub on_open_replaces :
    (lossy : List ℕ → List ℕ) (m : Endpoint) (wall now n : ℕ) (f : Frame) (s : Sink)
    (more : List (ℕ × ℕ × Frame))
    → base_type f.ftype ≡ code Frame.open_stream
    → lookup f.stream_id m.streams ≡ some s
    → length m.streams < max_concurrent_peer_streams
    → acquire_credit s.send_window n ≡ waits
    → ((run_reader lossy m ((wall, now, f) ∷ more)).streams ≡ [])
      × ((old : Sink) × IsIn
            (f.stream_id, old)
            (run_reader lossy m ((wall, now, f) ∷ more)).detached
          × (acquire_credit old.send_window n ≡ waits))
on_open_replaces lossy m wall now n f s more opens found room waiting = (
  run_reader_empties lossy ((wall, now, f) ∷ more) m,
  (
    s,
    run_reader-first (f.stream_id, s) lossy wall now m f more
        (open_strands lossy m wall now f s opens found room),
    waiting,
  ),
)
