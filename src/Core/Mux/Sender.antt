-- ===== src/Core/Mux/Sender.antt =====
-- The sending half of mux.rs: targets, stream ids, and the frames that `Stream::send` writes.
pub mod Chunks
pub mod Targets
use leshiy.Prelude.{
  ℕ, zero, suc, ◌+◌, ◌%◌, ◌^◌, Bool, true, false, Option, none, some, List, [], ◌∷◌, ◌++◌, map,
  length, take, drop, min, ltb, ◌==◌, if◌then◌else◌,
}
use leshiy.Core.Error.{Result, ok, err, protocol, datagram_too_large, no_cap_datagram, no_cap_icmp}
use leshiy.Core.Frame.{Frame, code, max_frame_payload}
use leshiy.Core.Frame
use leshiy.Core.Version.{has_cap, cap_datagram, cap_icmp}
use leshiy.Core.Mux.{StreamKind, tcp, udp, icmp}

-- The loop of `send` on a TCP stream: pieces of at most `cap` bytes until none is left. The fuel is
-- the number of bytes, since each piece takes one at least (Sender/Chunks).
unfoldable pub split_chunks : ℕ → ℕ → List ℕ → List (List ℕ)
split_chunks cap zero bytes = []
split_chunks cap (suc fuel) [] = []
split_chunks cap (suc fuel) (b ∷ bytes) =
    let n = min (length (b ∷ bytes)) cap in
    take n (b ∷ bytes) ∷ split_chunks cap fuel (drop n (b ∷ bytes))

abbrev pub data_frame : ℕ → List ℕ → Frame
data_frame id chunk = record { stream_id = id; ftype = code Frame.data_bytes; payload = chunk }

abbrev pub datagram_frame : ℕ → List ℕ → Frame
datagram_frame id payload = record {
  stream_id = id;
  ftype = code Frame.datagram;
  payload = payload;
}

send_datagram : ℕ → List ℕ → Result (List Frame)
send_datagram id bytes =
    if ltb max_frame_payload (length bytes)
    then err (protocol datagram_too_large)
    else ok (datagram_frame id bytes ∷ [])

-- The frames of `Stream::send`, in order, when every one is granted its credit.
unfoldable pub send : StreamKind → ℕ → List ℕ → Result (List Frame)
unfolding send_datagram
send tcp id bytes = ok (map (data_frame id) (split_chunks max_frame_payload (length bytes) bytes))
send udp id bytes = send_datagram id bytes
send icmp id bytes = send_datagram id bytes

-- `strip_prefix`
unfoldable pub strip_prefix : List ℕ → List ℕ → Option (List ℕ)
strip_prefix [] raw = some raw
strip_prefix (p ∷ ps) [] = none
strip_prefix (p ∷ ps) (c ∷ raw) = let rest = strip_prefix ps raw in if p == c then rest else none

abbrev pub udp_prefix : List ℕ
udp_prefix = b'u' ∷ b'd' ∷ b'p' ∷ b':' ∷ []

abbrev pub icmp_prefix : List ℕ
icmp_prefix = b'i' ∷ b'c' ∷ b'm' ∷ b'p' ∷ b':' ∷ []

abbrev pub tcp_prefix : List ℕ
tcp_prefix = b't' ∷ b'c' ∷ b'p' ∷ b':' ∷ []

abbrev schemes : List (List ℕ × StreamKind)
schemes = (udp_prefix, udp) ∷ (icmp_prefix, icmp) ∷ (tcp_prefix, tcp) ∷ []

abbrev hit_or : StreamKind → Option (List ℕ) → StreamKind × List ℕ → StreamKind × List ℕ
hit_or kind (some rest) other = (kind, rest)
hit_or kind none other = other

first_scheme : List (List ℕ × StreamKind) → List ℕ → StreamKind × List ℕ
first_scheme [] raw = (tcp, raw)
first_scheme ((prefix, kind) ∷ more) raw =
    hit_or kind (strip_prefix prefix raw) (first_scheme more raw)

unfoldable pub parse_open_target : List ℕ → StreamKind × List ℕ
unfolding first_scheme strip_prefix
parse_open_target raw = first_scheme schemes raw

-- The payload of the OPEN frame that `open`, `open_datagram` and `open_icmp` send.
unfoldable pub open_payload : StreamKind → List ℕ → List ℕ
open_payload tcp target = target
open_payload udp target = udp_prefix ++ target
open_payload icmp target = icmp_prefix ++ target

pub record Opener : Type 0 where
  pub next_id : ℕ
  pub capabilities : ℕ

-- The stream id and the OPEN frame; the counter is a u32.
open_as : StreamKind → Opener → List ℕ → Opener × Frame
unfolding open_payload
open_as kind m target = (
  record m { next_id = (m.next_id + 2) % 2 ^ 32 },
  record {
    stream_id = m.next_id;
    ftype = code Frame.open_stream;
    payload = open_payload kind target;
  },
)

-- `Mux::open`, `Mux::open_datagram` and `Mux::open_icmp`.
unfoldable pub open_stream : StreamKind → Opener → List ℕ → Result (Opener × Frame)
unfolding open_as
open_stream tcp m target = ok (open_as tcp m target)
open_stream udp m target =
    if has_cap m.capabilities cap_datagram
    then ok (open_as udp m target)
    else err (protocol no_cap_datagram)
open_stream icmp m target =
    if has_cap m.capabilities cap_icmp
    then ok (open_as icmp m target)
    else err (protocol no_cap_icmp)

pub data Role : Type 0 where
  client server : Role

-- The first stream id.
unfoldable pub first_id : Role → ℕ
first_id client = 1
first_id server = 2

abbrev after_open : Opener → List Frame → Result (Opener × Frame) → Opener × List Frame
after_open m frames (err e) = (m, frames)
after_open m frames (ok (m', frame)) = (m', frames ++ (frame ∷ []))

-- Streams opened one after the other; a refused one changes nothing.
unfoldable pub open_all : Opener → List Frame → List (StreamKind × List ℕ) → Opener × List Frame
open_all m frames [] = (m, frames)
open_all m frames ((kind, target) ∷ more) =
    let opened = after_open m frames (open_stream kind m target) in open_all opened.0 opened.1 more
