-- ===== src/Core/Mux/Sender/Targets.antt =====
-- The target of an OPEN frame, and the ids of the streams that the two peers open.
use leshiy.Prelude.{
  ℕ, ◌%◌, ◌≡◌, ◌≢◌, refl, sym, subst, ap, ◌∙◌, inl, inr, none, List, [], ◌∷◌, ◌++◌, All, All-append,
  arith,
}
use leshiy.Core.Error.{Result, ok, Result-cases}
use leshiy.Core.Frame.{Frame}
use leshiy.Core.Mux.{StreamKind, tcp, udp, icmp}
use leshiy.Core.Mux.Sender.{
  strip_prefix, parse_open_target, open_payload, udp_prefix, icmp_prefix, tcp_prefix, Opener,
  open_stream, open_all, after_open, Role, client, server, first_id,
}

-- The peer reads the kind and the target that were opened, if a target without a scheme does not
-- begin with the spelling of one.
pub parse_open_target-open_payload :
    (kind : StreamKind) (target : List ℕ)
    → strip_prefix udp_prefix target ≡ none
    → strip_prefix icmp_prefix target ≡ none
    → strip_prefix tcp_prefix target ≡ none
    → parse_open_target (open_payload kind target) ≡ (kind, target)
unfolding parse_open_target open_payload
parse_open_target-open_payload tcp target u i t = rw (u, i, t)
parse_open_target-open_payload udp target u i t = refl
parse_open_target-open_payload icmp target u i t = refl

-- A TCP target that begins with `udp:`, as the host `udp` with a port does, is read as a datagram
-- association to what follows.
pub parse_open_target_misread :
    (rest : List ℕ) → parse_open_target (open_payload tcp (udp_prefix ++ rest)) ≡ (udp, rest)
unfolding parse_open_target open_payload
parse_open_target_misread rest = refl

-- An open, granted or not, keeps the parity of the next id, and a granted one has the id before.
open_stream-parity :
    (kind : StreamKind) (m m' : Opener) (target : List ℕ) (f : Frame)
    → open_stream kind m target ≡ ok (m', f)
    → (m'.next_id % 2 ≡ m.next_id % 2) × (f.stream_id ≡ m.next_id)
unfolding open_stream
open_stream-parity tcp m m' target f e = ground arith
open_stream-parity udp m m' target f e = ground arith
open_stream-parity icmp m m' target f e = ground arith

abbrev pub HasParity : ℕ → Frame → Type 0
HasParity p f = f.stream_id % 2 ≡ p

open_all-HasParity :
    (p : ℕ) (m : Opener) (frames : List Frame) (ops : List (StreamKind × List ℕ))
    → m.next_id % 2 ≡ p
    → All (HasParity p) frames
    → All (HasParity p) (open_all m frames ops).1
unfolding open_all
open_all-HasParity p m frames [] h done = done
open_all-HasParity p m frames ((kind, target) ∷ ops) h done =
    elim (Result-cases (open_stream kind m target)) [
      | inl (e, refused) ↦ along (sym refused) (open_all-HasParity p m frames ops h done)
      | inr ((m', f), opened) ↦
          let (parity, id) = open_stream-parity kind m m' target f opened in
          along (sym opened) (
            open_all-HasParity p m' (frames ++ (f ∷ [])) ops (parity ∙ h)
              (All-append (HasParity p) frames (f ∷ []) done (ap (λ (n : ℕ). n % 2) id ∙ h, tt)))
    ]
  where
    along :
        {r r' : Result (Opener × Frame)}
        → r ≡ r'
        → All (HasParity p) (open_all (after_open m frames r).0 (after_open m frames r).1 ops).1
        → All (HasParity p) (open_all (after_open m frames r').0 (after_open m frames r').1 ops).1
    along e =
        subst
          (λ r.
            All (HasParity p) (open_all (after_open m frames r).0 (after_open m frames r).1 ops).1)
          e

-- Frames with ids of the two parities never share one.
apart :
    (fs gs : List Frame)
    → All (HasParity 1) fs
    → All (HasParity 0) gs
    → All (λ f. All (λ g. f.stream_id ≢ g.stream_id) gs) fs
apart [] gs odd even = tt
apart (f ∷ fs) gs odd even = (apart_from f gs odd.0 even, apart fs gs odd.1 even)
  where
    apart_from :
        (f : Frame) (gs : List Frame)
        → HasParity 1 f
        → All (HasParity 0) gs
        → All (λ g. f.stream_id ≢ g.stream_id) gs
    apart_from f [] odd even = tt
    apart_from f (g ∷ gs) odd even =
        (λ e. ground (arith, odd, even.0, e), apart_from f gs odd even.1)

abbrev pub opened_by : Role → ℕ → List (StreamKind × List ℕ) → List Frame
opened_by role capabilities ops =
    (open_all (record { next_id = first_id role; capabilities = capabilities }) [] ops).1

-- However many streams the client and the server open, also past the wrap of the u32 counter, the
-- client's ids are odd, the server's are even, and no id of the one is an id of the other.
pub opened_by-HasParity :
    (client_caps server_caps : ℕ) (client_ops server_ops : List (StreamKind × List ℕ))
    → All (HasParity 1) (opened_by client client_caps client_ops)
      × All (HasParity 0) (opened_by server server_caps server_ops)
      × All
          (λ f. All (λ g. f.stream_id ≢ g.stream_id) (opened_by server server_caps server_ops))
          (opened_by client client_caps client_ops)
unfolding first_id
opened_by-HasParity client_caps server_caps client_ops server_ops =
    let odd =
      open_all-HasParity 1 (record { next_id = 1; capabilities = client_caps }) [] client_ops refl
        tt in
    let even =
      open_all-HasParity 0 (record { next_id = 2; capabilities = server_caps }) [] server_ops refl
        tt in
    (
      odd,
      even,
      apart (opened_by client client_caps client_ops) (opened_by server server_caps server_ops) odd
          even,
    )
