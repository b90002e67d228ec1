-- ===== src/Wire/Frame.antt =====
-- include/LibreSCRS/Agent/wire/Framing.h and the encoder of src/wire/Framing.cpp: a frame is a
-- four-byte body length, a four-byte descriptor count, both little-endian, and the body. Bytes are
-- numbers below 256, and a descriptor is its number. In `get_u32_le` the four shifted bytes share no
-- bit, so the source's `|` is `+`.
use libre_agent.Common.{
  ℕ, ◌+◌, ◌*◌, ◌/◌, ◌%◌, ◌^◌, ◌≤◌, ◌<◌, ◌≡◌, List, [], ◌∷◌, ◌++◌, arith, length,
}

abbrev pub frame_header_bytes : ℕ
frame_header_bytes = 8

abbrev pub max_frame_bytes : ℕ
max_frame_bytes = 1_048_576

abbrev pub max_frame_fds : ℕ
max_frame_fds = 16

pub data FrameError : Type 0 where
  peer_closed oversize io too_many_fds fd_mismatch would_block : FrameError

pub record Frame : Type 0 where
  pub body : List ℕ
  pub fds : List ℕ

abbrev pub put_u32_le : ℕ → List ℕ
put_u32_le v = (v % 256) ∷ (v / 256 % 256) ∷ (v / 65_536 % 256) ∷ (v / 16_777_216 % 256) ∷ []

-- The source reads four bytes that are there; no shorter list is ever read.
abbrev pub get_u32_le : List ℕ → ℕ
get_u32_le (a ∷ b ∷ c ∷ d ∷ rest) = a + b * 256 + c * 65_536 + d * 16_777_216
get_u32_le rest = 0

unfoldable pub encode_frame : List ℕ → ℕ → List ℕ
encode_frame body fd_count = put_u32_le (length body % 2 ^ 32) ++ (put_u32_le fd_count ++ body)

-- The frames that the protocol admits.
pub record IsFrame (f : Frame) : Type 0 where
  pub body_fits : length f.body ≤ max_frame_bytes
  pub fds_fit : length f.fds ≤ max_frame_fds

pub length-encode_frame :
    (body : List ℕ) (n : ℕ) → length (encode_frame body n) ≡ frame_header_bytes + length body
unfolding encode_frame
length-encode_frame body n = omega arith

-- A header word is read back, for every 32-bit value.
pub get_u32_le-put_u32_le :
    (v : ℕ) (rest : List ℕ) → v < 2 ^ 32 → get_u32_le (put_u32_le v ++ rest) ≡ v
get_u32_le-put_u32_le v rest h = omega arith
