-- ===== src/Wire/Reassembler.antt =====
-- src/wire/FrameReassembler.cpp: the streaming reader of a non-blocking connection. What the socket
-- gives is a parameter: the results of the successive calls of `receiveWithFds`, in order.
pub mod Steps
pub mod Stream
pub mod Pump
mod Runs
use libre_agent.Common.{
  ℕ, zero, suc, ◌+◌, ◌*◌, ◌≤◌, ◌<◌, ◌≡◌, refl, Bool, true, false, Option, none, some, List, [], ◌∷◌,
  ◌++◌, ltb, if◌then◌else◌, length, take, drop,
}
use libre_agent.Wire.Frame.{
  Frame, FrameError, oversize, io, too_many_fds, fd_mismatch, frame_header_bytes, max_frame_bytes,
  max_frame_fds, get_u32_le,
}

abbrev pub max_pending_fds : ℕ
max_pending_fds = 2 * max_frame_fds

abbrev pub max_buffer_bytes : ℕ
max_buffer_bytes = frame_header_bytes + max_frame_bytes

pub data PumpStatus : Type 0 where
  drained closed : PumpStatus
  failed : FrameError → PumpStatus

pub record Reassembler : Type 0 where
  pub buffer : List ℕ
  pub fds : List ℕ

abbrev pub empty : Reassembler
empty = record { buffer = []; fds = [] }

-- One result of `receiveWithFds`: bytes and descriptors with the truncation flag, a clean end, or
-- an `errno` (EINTR, EAGAIN or another).
pub data Received : Type 0 where
  bytes : List ℕ → List ℕ → Bool → Received
  end_of_file interrupted would_block broken : Received

-- One round of the loop in `extract`.
pub data Next : Type 0 where
  incomplete : Next
  refused : FrameError → Next
  taken : Frame → List ℕ → List ℕ → Next

-- The round once the header is read.
unfoldable pub cut_frame : ℕ → ℕ → List ℕ → List ℕ → Next
cut_frame body_len fd_count buffer fds =
    if ltb max_frame_bytes body_len
    then refused oversize
    else if ltb max_frame_fds fd_count
    then refused too_many_fds
    else if ltb (length buffer) (frame_header_bytes + body_len)
    then incomplete
    else if ltb (length fds) fd_count
    then refused fd_mismatch
    else taken
        (record { body = take body_len (drop frame_header_bytes buffer); fds = take fd_count fds })
        (drop (frame_header_bytes + body_len) buffer) (drop fd_count fds)

unfoldable pub next_frame : List ℕ → List ℕ → Next
next_frame buffer fds =
    if ltb (length buffer) frame_header_bytes
    then incomplete
    else cut_frame (get_u32_le buffer) (get_u32_le (drop 4 buffer)) buffer fds

pub record Extracted : Type 0 where
  pub frames : List Frame
  pub error : Option FrameError
  pub rest : Reassembler

abbrev pub push_frame : Frame → Extracted → Extracted
push_frame f x = record x { frames = f ∷ x.frames }

-- Each round takes a header at least, so as many rounds as the buffer has bytes are enough.
unfoldable pub extract_loop : ℕ → List ℕ → List ℕ → Extracted
extract_loop zero buffer fds = record {
  frames = [];
  error = none;
  rest = record { buffer = buffer; fds = fds };
}
extract_loop (suc fuel) buffer fds = elim (next_frame buffer fds) [
  | incomplete ↦ record { frames = []; error = none; rest = record { buffer = buffer; fds = fds } }
  | refused e ↦ record { frames = []; error = some e; rest = record { buffer = buffer; fds = fds } }
  | taken f buffer' fds' ↦ push_frame f (extract_loop fuel buffer' fds')
]

unfoldable pub extract : Reassembler → Extracted
extract r = extract_loop (length r.buffer) r.buffer r.fds

pub record PumpResult : Type 0 where
  pub frames : List Frame
  pub status : PumpStatus

-- The read loop of `pump`, up to the result that ends it. A script that ends is a drained socket.
unfoldable pub read_loop : List Received → Reassembler → PumpStatus × Reassembler
read_loop [] r = (drained, r)
read_loop (end_of_file ∷ script) r = (closed, r)
read_loop (interrupted ∷ script) r = read_loop script r
read_loop (would_block ∷ script) r = (drained, r)
read_loop (broken ∷ script) r = (failed io, r)
read_loop (bytes chunk fds truncated ∷ script) r =
    let pending = record r { fds = r.fds ++ fds } in
    let filled = record pending { buffer = r.buffer ++ chunk } in
    let later = read_loop script filled in
    if truncated
    then (failed io, pending)
    else if ltb max_pending_fds (length pending.fds)
    then (failed too_many_fds, pending)
    else if ltb max_buffer_bytes (length filled.buffer)
    then (failed oversize, filled)
    else later

abbrev pub finish : PumpStatus → Extracted → PumpResult
finish status x = elim x.error [
  | none ↦ record { frames = x.frames; status = status }
  | some e ↦ record { frames = x.frames; status = failed e }
]

-- What follows the read loop: frames are extracted unless it failed.
unfoldable pub conclude : PumpStatus → Reassembler → PumpResult × Reassembler
conclude drained r = (finish drained (extract r), (extract r).rest)
conclude closed r = (finish closed (extract r), (extract r).rest)
conclude (failed e) r = (record { frames = []; status = failed e }, r)

unfoldable pub pump : List Received → Reassembler → PumpResult × Reassembler
unfolding conclude
pump script r = let (status, filled) = read_loop script r in conclude status filled
