-- ===== src/Core/Mux/Reader/Isolation.antt =====
-- What a frame does to the stream that it names, and to the others.
use leshiy.Prelude.{ℕ, ◌≡◌, ◌⊎◌, inl, inr, some, List, [], ◌∷◌, ◌++◌, arith}
use leshiy.Prelude.Assoc.{lookup, insert, lookup-insert}
use leshiy.Core.Frame.{Frame, base_type}
use leshiy.Core.Mux.{Sink, close, push_data}
use leshiy.Core.Mux.Reader.{
  Endpoint, Outcome, breaks, tear_down, continues, on_data, accept_data, on_frame,
}

module _ (id : ℕ) (m : Endpoint) where
  -- The stream of that id is as it is in `m`.
  abbrev pub Keeps : Endpoint → Type 0
  Keeps m' = lookup id m'.streams ≡ lookup id m.streams

-- A stream after a frame: as it was, or, when the loop ends, closed and taken out of the map.
abbrev pub Spared : ℕ → Endpoint → Outcome → Type 0
Spared id m (continues m') = lookup id m'.streams ≡ lookup id m.streams
Spared id m (breaks m') =
    (s : Sink)
    → lookup id m.streams ≡ some s
    → ((tear_down m').streams ≡ []) × (lookup id (tear_down m').detached ≡ some (close s))

push_data_lem :
    (s s' : Sink) (payload : List ℕ)
    → push_data s payload ≡ some s'
    → (s'.queue ≡ s.queue ++ (payload ∷ [])) × (s'.send_window ≡ s.send_window)
unfolding push_data
push_data_lem s s' payload e = (ground arith, ground arith)

-- A data frame that its stream can take goes to the end of that stream's channel.
pub on_frame_delivers :
    (lossy : List ℕ → List ℕ) (wall now : ℕ) (m : Endpoint) (f : Frame) (s s' : Sink)
    → (base_type f.ftype ≡ 3) ⊎ (base_type f.ftype ≡ 5)
    → lookup f.stream_id m.streams ≡ some s
    → push_data s f.payload ≡ some s'
    → (m' : Endpoint) × (on_frame lossy wall now m f ≡ continues m')
      × (lookup f.stream_id m'.streams ≡ some s')
      × (s'.queue ≡ s.queue ++ (f.payload ∷ []))
      × (s'.send_window ≡ s.send_window)
unfolding on_frame on_data accept_data
on_frame_delivers lossy wall now m f s s' data_type found taken = (
  record m { last_seen = wall; streams = insert f.stream_id s' m.streams },
  elim data_type [ inl e ↦ rw (e, found, taken) | inr e ↦ rw (e, found, taken) ],
  ground (arith, lookup-insert f.stream_id f.stream_id s' m.streams),
  (push_data_lem s s' f.payload taken).0,
  (push_data_lem s s' f.payload taken).1,
)
