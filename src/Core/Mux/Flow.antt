-- ===== src/Core/Mux/Flow.antt =====
-- One direction of one stream with flow control, across both peers and the wire between them:
-- the credit is conserved, so a sender within its window never fills the receiver's byte budget, and
-- has its window back once the receiver has drained what was sent.
use leshiy.Prelude.{
  ℕ, ◌+◌, ◌-◌, ◌^◌, ◌≤◌, ◌<◌, ◌≡◌, ◌≢◌, ◌⊎◌, inl, inr, ap, true, false, Option, none, some, List,
  [], ◌∷◌, ◌++◌, length, min, leb, arith, Bool-cases, append-nil,
}
use leshiy.Core.Frame.{max_frame_payload}
use leshiy.Core.Mux.{
  Window, Sink, Receiver, new_sink, granted, acquire_credit, push_data, add_credit, recv_take,
  recv_finish, init_window, window_threshold, channel_capacity,
}

abbrev pub total : List (List ℕ) → ℕ
total [] = 0
total (c ∷ cs) = length c + total cs

abbrev pub sum : List ℕ → ℕ
sum [] = 0
sum (n ∷ ns) = n + sum ns

pub total-snoc : (cs : List (List ℕ)) (c : List ℕ) → total (cs ++ (c ∷ [])) ≡ total cs + length c
total-snoc [] c = omega arith
total-snoc (x ∷ cs) c = omega (arith, total-snoc cs c)

sum-snoc : (ns : List ℕ) (n : ℕ) → sum (ns ++ (n ∷ [])) ≡ sum ns + n
sum-snoc [] n = omega arith
sum-snoc (x ∷ ns) n = omega (arith, sum-snoc ns n)

-- The sender's sink, the chunks under way, the receiver, and the credits under way back.
pub record Flow : Type 0 where
  pub sender : Sink
  pub chunks : List (List ℕ)
  pub receiver : Receiver
  pub credits : List ℕ

abbrev pub start : Flow
start = record {
  sender = new_sink true;
  chunks = [];
  receiver = record { sink = new_sink true; consumed = 0; pending = none };
  credits = [];
}

abbrev pub credit_sent : Option ℕ → List ℕ
credit_sent none = []
credit_sent (some credit) = credit ∷ []

-- What the two peers do, in any order: send a chunk for which there is credit, deliver the oldest
-- chunk, take a chunk from the channel, finish a receive, and deliver the oldest credit.
pub data Step : Flow → Flow → Type 0 where
  send :
      (f : Flow) (chunk : List ℕ) (w : Option Window)
      → acquire_credit f.sender.send_window (length chunk) ≡ granted w
      → Step f (record f {
        sender = record f.sender { send_window = w };
        chunks = f.chunks ++ (chunk ∷ []);
      })
  deliver :
      (f : Flow) (chunk : List ℕ) (rest : List (List ℕ)) (s : Sink)
      → f.chunks ≡ chunk ∷ rest
      → push_data f.receiver.sink chunk ≡ some s
      → Step f (record f { chunks = rest; receiver = record f.receiver { sink = s } })
  take :
      (f : Flow) (r : Receiver) → recv_take f.receiver ≡ some r → Step f (record f { receiver = r })
  finish :
      (f : Flow)
      → Step f (record f {
        receiver = (recv_finish f.receiver).0;
        credits = f.credits ++ credit_sent (recv_finish f.receiver).1;
      })
  credit :
      (f : Flow) (n : ℕ) (rest : List ℕ)
      → f.credits ≡ n ∷ rest
      → Step f (record f { sender = add_credit f.sender n; credits = rest })

pub data Reach : Flow → Type 0 where
  here : Reach start
  next : {f g : Flow} → Reach f → Step f g → Reach g

abbrev pub permits_of : Option Window → ℕ
permits_of none = 0
permits_of (some w) = w.permits

abbrev pub IsOpen : Option Window → Type 0
IsOpen none = ⊥
IsOpen (some w) = w.is_closed ≡ false

-- Every byte of the window is with the sender, under way, in the channel, consumed or coming back.
pub record Inv (f : Flow) : Type 0 where
  pub sender_open : IsOpen f.sender.send_window
  pub receiver_open : IsOpen f.receiver.sink.send_window
  pub counted_right : f.receiver.sink.buffered ≡ total f.receiver.sink.queue
  pub conserved :
      permits_of f.sender.send_window
        + total f.chunks
        + f.receiver.sink.buffered
        + f.receiver.consumed
        + sum f.credits
      ≡ init_window

start-Inv : Inv start
unfolding new_sink
start-Inv = ground arith

Step-Inv : {f g : Flow} → Step f g → Inv f → Inv g
unfolding acquire_credit push_data recv_take recv_finish add_credit
Step-Inv (send f chunk w e) v = ground (arith, total-snoc f.chunks chunk)
Step-Inv (deliver f chunk rest s e p) v =
    ground (arith, ap total e, total-snoc f.receiver.sink.queue chunk)
Step-Inv (take f r e) v = ground arith
Step-Inv (finish f) v = elim (Bool-cases (leb window_threshold f.receiver.consumed)) [
  | inl due ↦ rw due (ground (arith, sum-snoc f.credits (min f.receiver.consumed (2 ^ 32 - 1))))
  | inr early ↦ rw early (ground (arith, append-nil f.credits))
]
Step-Inv (credit f n rest e) v = ground (arith, ap sum e)

-- In every reachable state the bytes of the window are where the invariant says.
pub Reach-Inv : {f : Flow} → Reach f → Inv f
Reach-Inv here = start-Inv
Reach-Inv (next r st) = Step-Inv st (Reach-Inv r)

-- Whatever the two peers have done, the chunk that arrives next stays within the initial window, so
-- the stream is reset only if its channel already holds its maximum of messages or its consumer is
-- gone: the byte limit is never the reason.
pub arrival_fits :
    (f : Flow) (chunk : List ℕ) (rest : List (List ℕ))
    → Reach f
    → f.chunks ≡ chunk ∷ rest
    → (f.receiver.sink.buffered + length chunk ≤ init_window)
      × ((push_data f.receiver.sink chunk ≢ none)
          ⊎ (f.receiver.sink.consumer_gone ≡ true)
          ⊎ (channel_capacity ≤ length f.receiver.sink.queue))
unfolding push_data
arrival_fits f chunk rest r e = fits_of (Reach-Inv r)
  where
    fits_of :
        Inv f
        → (f.receiver.sink.buffered + length chunk ≤ init_window)
          × ((push_data f.receiver.sink chunk ≢ none)
              ⊎ (f.receiver.sink.consumer_gone ≡ true)
              ⊎ (channel_capacity ≤ length f.receiver.sink.queue))
    fits_of v = ground (arith, ap total e)

-- In a reachable state in which all that was sent is delivered and taken, less than a threshold of it
-- is still unacknowledged, and all credit has come back, any chunk that fits a frame is granted.
pub drained_grants :
    (f : Flow) (n : ℕ)
    → Reach f
    → f.chunks ≡ []
    → f.receiver.sink.queue ≡ []
    → f.receiver.consumed < window_threshold
    → f.credits ≡ []
    → n ≤ max_frame_payload
    → (w : Window) × (acquire_credit f.sender.send_window n ≡ granted (some w))
unfolding acquire_credit
drained_grants f n r no_chunks no_queue early no_credits h =
    from_window f.sender.send_window v.sender_open (
      omega (
        arith,
        v.conserved,
        v.counted_right,
        ap total no_chunks,
        ap total no_queue,
        ap sum no_credits,
      ))
  where
    v : Inv f
    v = Reach-Inv r

    from_window :
        (o : Option Window)
        → IsOpen o
        → n ≤ permits_of o
        → (w : Window) × (acquire_credit o n ≡ granted (some w))
    from_window none is_open fits = absurd is_open
    from_window (some w) is_open fits =
        (record w { permits = w.permits - n }, rw is_open (ground arith))
