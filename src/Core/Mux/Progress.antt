-- ===== src/Core/Mux/Progress.antt =====
-- The steps of the receiver and of the wire alone give a sender its credit back.
use leshiy.Prelude.{
  ℕ, ◌+◌, ◌-◌, ◌≤◌, ◌<◌, ◌≡◌, refl, ap, ◌∙◌, inl, inr, Bool, true, false, Bool-cases, Option-cases,
  none, some, List, [], ◌∷◌, ◌++◌, length, leb, arith,
}
use leshiy.Core.Frame.{max_frame_payload}
use leshiy.Core.Mux.{
  Window, Sink, Receiver, granted, acquire_credit, push_data, recv_take, recv_finish, add_credit,
  counted, window_threshold,
}
use leshiy.Core.Mux.Flow.{
  Flow, Step, send, deliver, take, finish, credit, Reach, next, arrival_fits, drained_grants,
  credit_sent,
}

abbrev pub is_send : {f g : Flow} → Step f g → Bool
is_send (send f chunk w e) = true
is_send st = false

-- Steps none of which is a send.
pub data Drains : Flow → Flow → Type 0 where
  stop : (f : Flow) → Drains f f
  step : {f g h : Flow} → (st : Step f g) → is_send st ≡ false → Drains g h → Drains f h

join : {f g h : Flow} → Drains f g → Drains g h → Drains f h
join (stop f) rest = rest
join (step st quiet more) rest = step st quiet (join more rest)

reach : {f g : Flow} → Reach f → Drains f g → Reach g
reach r (stop f) = r
reach r (step st quiet more) = reach (next r st) more

-- The receiver is between two receives, with its channel empty and its consumer there.
record IsIdle (chunks : List (List ℕ)) (f : Flow) : Type 0 where
  under_way : f.chunks ≡ chunks
  present : f.receiver.sink.consumer_gone ≡ false
  empty : f.receiver.sink.queue ≡ []
  free : f.receiver.pending ≡ none
  early : f.receiver.consumed < window_threshold

finish_lem :
    (r : Receiver)
    → ((recv_finish r).0.sink ≡ r.sink)
      × ((recv_finish r).0.pending ≡ none)
      × ((recv_finish r).0.consumed < window_threshold)
unfolding recv_finish
finish_lem r = elim (Bool-cases (leb window_threshold r.consumed)) [
  | inl due ↦ rw due (refl, refl, omega arith)
  | inr not_due ↦ rw not_due (refl, refl, ground (arith, not_due))
]

take_lem :
    (r : Receiver) (chunk : List ℕ) (rest : List (List ℕ))
    → r.pending ≡ none
    → r.sink.queue ≡ chunk ∷ rest
    → (r' : Receiver) × (recv_take r ≡ some r')
      × (r'.sink.queue ≡ rest)
      × (r'.sink.consumer_gone ≡ r.sink.consumer_gone)
unfolding recv_take
take_lem r chunk rest p q = (
  record r {
    sink = record r.sink { queue = rest; buffered = r.sink.buffered - length chunk };
    consumed = r.consumed + counted r.sink.send_window (length chunk);
    pending = some chunk;
  },
  rw (p, q) refl,
  refl,
  refl,
)

-- The channel is emptied, a chunk and its receive at a time.
empty_queue :
    (queue : List (List ℕ)) (f : Flow)
    → f.receiver.sink.queue ≡ queue
    → f.receiver.pending ≡ none
    → f.receiver.consumed < window_threshold
    → f.receiver.sink.consumer_gone ≡ false
    → (g : Flow) × Drains f g × IsIdle f.chunks g
empty_queue [] f q p early here =
    (f, stop f, record { under_way = refl; present = here; empty = q; free = p; early = early })
empty_queue (chunk ∷ rest) f q p early here =
    let (r, taken, left, gone) = take_lem f.receiver chunk rest p q in
    let (same, free, soon) = finish_lem r in
    let (g, drains, idle) =
      empty_queue rest (record f { receiver = (recv_finish r).0; credits = _ })
        (ap (λ (s : Sink). s.queue) same ∙ left) free soon
        (ap (λ (s : Sink). s.consumer_gone) same ∙ gone ∙ here) in
    (g, step (take f r taken) refl (step (finish (record f { receiver = r })) refl drains), idle)

abbrev finish_flow : Flow → Flow
finish_flow f = record f {
  receiver = (recv_finish f.receiver).0;
  credits = f.credits ++ credit_sent (recv_finish f.receiver).1;
}

pushed_lem :
    (s s' : Sink) (chunk : List ℕ)
    → push_data s chunk ≡ some s'
    → (s'.queue ≡ s.queue ++ (chunk ∷ [])) × (s'.consumer_gone ≡ s.consumer_gone)
unfolding push_data
pushed_lem s s' chunk e = (ground arith, ground arith)

-- Each chunk under way is delivered to the empty channel, and received.
empty_wire :
    (chunks : List (List ℕ)) (f : Flow)
    → Reach f
    → IsIdle chunks f
    → (g : Flow) × Drains f g × IsIdle [] g
empty_wire [] f r idle = (f, stop f, idle)
empty_wire (chunk ∷ rest) f r idle = elim (Option-cases (push_data f.receiver.sink chunk)) [
  | inl refused ↦ elim (arrival_fits f chunk rest r idle.under_way).1 [
    | inl fits ↦ absurd (fits refused)
    | inr (inl gone) ↦ cc (gone, idle.present)
    | inr (inr full) ↦ ground (arith, full, idle.empty)
  ]
  | inr (s, pushed) ↦
      let delivered : Flow = record f {
        chunks = rest;
        receiver = record f.receiver { sink = s };
      } in
      let (queue, gone) = pushed_lem f.receiver.sink s chunk pushed in
      let st = deliver f chunk rest s idle.under_way pushed in
      let (g, drains, idle') =
        empty_queue (chunk ∷ []) delivered (queue ∙ ap (λ q. q ++ (chunk ∷ [])) idle.empty)
          idle.free idle.early (gone ∙ idle.present) in
      let (h, more, done) = empty_wire rest g (reach (next r st) drains) idle' in
      (h, step st refl (join drains more), done)
]

-- All credit comes back to the sender.
empty_credits :
    (credits : List ℕ) (f : Flow)
    → f.credits ≡ credits
    → IsIdle [] f
    → (g : Flow) × Drains f g × IsIdle [] g × (g.credits ≡ [])
empty_credits [] f e idle = (f, stop f, idle, e)
empty_credits (n ∷ rest) f e idle =
    let back : Flow = record f { sender = add_credit f.sender n; credits = rest } in
    let (g, drains, idle', none_left) = empty_credits rest back refl (record {
      under_way = idle.under_way;
      present = idle.present;
      empty = idle.empty;
      free = idle.free;
      early = idle.early;
    }) in
    (g, step (credit f n rest e) refl drains, idle', none_left)

-- From every reachable state whose consumer has not dropped the stream there are steps of the
-- receiver and of the wire alone, without a send, to a state in which any chunk that fits a frame is
-- granted: if the receiver reads what was sent and its credit arrives, the sender goes on.
pub sender_recovers :
    (f : Flow) (n : ℕ)
    → Reach f
    → f.receiver.sink.consumer_gone ≡ false
    → n ≤ max_frame_payload
    → (g : Flow) × Drains f g
      × ((w : Window) × (acquire_credit g.sender.send_window n ≡ granted (some w)))
sender_recovers f n r present fits =
    let (same, free, soon) = finish_lem f.receiver in
    let (g, to_g, idle) =
      empty_queue f.receiver.sink.queue (finish_flow f) (ap (λ (s : Sink). s.queue) same) free soon
        (ap (λ (s : Sink). s.consumer_gone) same ∙ present) in
    let start_drains = step (finish f) refl to_g in
    let r_g = reach r start_drains in
    let (h, to_h, dry) = empty_wire f.chunks g r_g idle in
    let (k, to_k, last, paid) = empty_credits h.credits h refl dry in
    let all = join start_drains (join to_h to_k) in
    (k, all, drained_grants k n (reach r all) last.under_way last.empty last.early paid fits)
