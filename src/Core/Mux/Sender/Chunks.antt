-- ===== src/Core/Mux/Sender/Chunks.antt =====
-- `Stream::send` splits its bytes and loses none.
use leshiy.Prelude.{
  ℕ, zero, suc, ◌+◌, ◌^◌, ◌≤◌, ◌<◌, ◌≡◌, ◌≢◌, subst, false, ◌⊎◌, inl, inr, refl, ap, ◌∙◌, List, [],
  ◌∷◌, ◌++◌, map, length, take, drop, min, ltb, Bool-cases, All, All-take, All-drop, length-take,
  length-drop, take-append-drop, append-nil, arith, ltb→lt, ltb_false→le,
}
use leshiy.Prelude.Bytes.{IsByte, IsBytes}
use leshiy.Core.Error.{ok, err, protocol, datagram_too_large}
use leshiy.Core.Frame.{Frame, IsFrame, max_frame_payload, header_len}
use leshiy.Core.Mux.{StreamKind, tcp, udp, icmp}
use leshiy.Core.Mux.Sender.{split_chunks, data_frame, datagram_frame, send_datagram, send}

abbrev pub payloads : List Frame → List ℕ
payloads [] = []
payloads (f ∷ fs) = f.payload ++ payloads fs

-- A frame that one TLS record can hold, beside its header and the content type.
abbrev pub FitsRecord : Frame → Type 0
FitsRecord f = IsFrame f × (length f.payload + header_len + 1 ≤ 2 ^ 14)

min-append :
    (bytes : List ℕ) (cap : ℕ)
    → take (min (length bytes) cap) bytes ++ drop (min (length bytes) cap) bytes ≡ bytes
min-append bytes cap = take-append-drop (min (length bytes) cap) bytes

split_chunks-payloads :
    (cap fuel id : ℕ) (bytes : List ℕ)
    → 0 < cap
    → length bytes ≤ fuel
    → payloads (map (data_frame id) (split_chunks cap fuel bytes)) ≡ bytes
unfolding split_chunks
split_chunks-payloads cap zero id [] pos enough = refl
split_chunks-payloads cap zero id (b ∷ bytes) pos enough = absurd (omega arith)
split_chunks-payloads cap (suc fuel) id [] pos enough = refl
split_chunks-payloads cap (suc fuel) id (b ∷ bytes) pos enough =
    let n = min (length (b ∷ bytes)) cap in
    ap (◌++◌ (take n (b ∷ bytes))) (
      split_chunks-payloads cap fuel id (drop n (b ∷ bytes)) pos
        (omega (arith, length-drop n (b ∷ bytes))))
    ∙ min-append (b ∷ bytes) cap

split_chunks-FitsRecord :
    (cap fuel id : ℕ) (bytes : List ℕ)
    → cap ≤ max_frame_payload
    → id < 2 ^ 32
    → IsBytes bytes
    → All FitsRecord (map (data_frame id) (split_chunks cap fuel bytes))
unfolding split_chunks
split_chunks-FitsRecord cap zero id bytes h hid hb = tt
split_chunks-FitsRecord cap (suc fuel) id [] h hid hb = tt
split_chunks-FitsRecord cap (suc fuel) id (b ∷ bytes) h hid hb =
    let n = min (length (b ∷ bytes)) cap in
    (
      (
        record {
          id_fits = hid;
          type_fits = omega arith;
          payload_bytes = All-take IsByte n (b ∷ bytes) hb;
        },
        omega (arith, length-take n (b ∷ bytes)),
      ),
      split_chunks-FitsRecord cap fuel id (drop n (b ∷ bytes)) h hid
          (All-drop IsByte n (b ∷ bytes) hb),
    )

send_datagram-payloads :
    (id : ℕ) (bytes : List ℕ) (fs : List Frame)
    → id < 2 ^ 32
    → IsBytes bytes
    → send_datagram id bytes ≡ ok fs
    → (payloads fs ≡ bytes) × All FitsRecord fs
unfolding send_datagram
send_datagram-payloads id bytes fs hid hb e =
    elim (Bool-cases (ltb max_frame_payload (length bytes))) [
      | inl long ↦ cc (rw long at e)
      | inr short ↦
          let one : (datagram_frame id bytes ∷ []) ≡ fs = cc (rw short at e) in
          subst (λ (gs : List Frame). (payloads gs ≡ bytes) × All FitsRecord gs) one
            (append-nil bytes, ((fits short), tt))
    ]
  where
    fits : ltb max_frame_payload (length bytes) ≡ false → FitsRecord (datagram_frame id bytes)
    fits short = (
      record { id_fits = hid; type_fits = omega arith; payload_bytes = hb },
      omega (arith, ltb_false→le _ _ short),
    )

-- The frames that `send` writes carry the given bytes in order, and each fits one TLS record.
pub send-payloads :
    (kind : StreamKind) (id : ℕ) (bytes : List ℕ) (fs : List Frame)
    → id < 2 ^ 32
    → IsBytes bytes
    → send kind id bytes ≡ ok fs
    → (payloads fs ≡ bytes) × All FitsRecord fs
unfolding send
send-payloads tcp id bytes fs hid hb e =
    let same : map (data_frame id) (split_chunks max_frame_payload (length bytes) bytes) ≡ fs =
      cc in
    subst (λ (gs : List Frame). (payloads gs ≡ bytes) × All FitsRecord gs) same
      (
        split_chunks-payloads max_frame_payload (length bytes) id bytes (omega arith) (omega arith),
        split_chunks-FitsRecord max_frame_payload (length bytes) id bytes (omega arith) hid hb,
      )
send-payloads udp id bytes fs hid hb e = send_datagram-payloads id bytes fs hid hb e
send-payloads icmp id bytes fs hid hb e = send_datagram-payloads id bytes fs hid hb e

send_datagram_cases :
    (id : ℕ) (bytes : List ℕ)
    → ((fs : List Frame) × (send_datagram id bytes ≡ ok fs))
      ⊎ ((max_frame_payload < length bytes)
          × (send_datagram id bytes ≡ err (protocol datagram_too_large)))
unfolding send_datagram
send_datagram_cases id bytes = elim (Bool-cases (ltb max_frame_payload (length bytes))) [
  | inl long ↦ inr (ltb→lt _ _ long, rw long)
  | inr short ↦ inl (datagram_frame id bytes ∷ [], rw short)
]

-- `send` fails only on a datagram, or an ICMP message, that does not fit one frame.
pub send_cases :
    (kind : StreamKind) (id : ℕ) (bytes : List ℕ)
    → ((fs : List Frame) × (send kind id bytes ≡ ok fs))
      ⊎ ((kind ≢ tcp)
          × (max_frame_payload < length bytes)
          × (send kind id bytes ≡ err (protocol datagram_too_large)))
unfolding send
send_cases tcp id bytes =
    inl (map (data_frame id) (split_chunks max_frame_payload (length bytes) bytes), refl)
send_cases udp id bytes = elim (send_datagram_cases id bytes) [
  | inl done ↦ inl done
  | inr (long, refused) ↦ inr (λ e. cc, long, refused)
]
send_cases icmp id bytes = elim (send_datagram_cases id bytes) [
  | inl done ↦ inl done
  | inr (long, refused) ↦ inr (λ e. cc, long, refused)
]
