-- ===== src/Wire/Reassembler/Runs.antt =====
-- The reassembler at concrete streams.
use libre_agent.Common.{
  ℕ, zero, suc, length-append, ◌≡◌, refl, none, List, [], ◌∷◌, ◌++◌, ◌+◌, ◌<◌, ◌⊎◌, arith, All,
  length,
}
use libre_agent.Wire.Frame.{get_u32_le, Frame, IsFrame, oversize, encode_frame, length-encode_frame}
use libre_agent.Wire.Reassembler.{
  would_block, Reassembler, drained, failed, empty, next_frame, cut_frame, extract, extract_loop,
  pump, read_loop,
}
use libre_agent.Wire.Reassembler.Stream.{stream, push_frames}
use libre_agent.Wire.Reassembler.Pump.{
  reads, pump-frames, extract_resume, extract_done, pump-stream, pump_over,
}

abbrev hello : Frame
hello = record { body = 0x65 ∷ 0x66 ∷ 0x67 ∷ []; fds = 9 ∷ [] }

abbrev bye : Frame
bye = record { body = []; fds = [] }

-- The two frames and the first byte of a third, in two reads.
abbrev cuts : List (List ℕ × List ℕ)
cuts =
    (3 ∷ 0 ∷ 0 ∷ 0 ∷ 1 ∷ [], 9 ∷ [])
    ∷ (0 ∷ 0 ∷ 0 ∷ 0x65 ∷ 0x66 ∷ 0x67 ∷ 0 ∷ 0 ∷ 0 ∷ 0 ∷ 0 ∷ 0 ∷ 0 ∷ 0 ∷ 7 ∷ [], [])
    ∷ []

abbrev two_frames : List Frame
two_frames = hello ∷ bye ∷ []

abbrev half_read : Reassembler
half_read = record { buffer = stream two_frames ++ (7 ∷ []); fds = 9 ∷ [] }

pump_runs :
    pump (reads cuts (would_block ∷ [])) empty
    ≡ (record { frames = two_frames; status = drained }, record { buffer = 7 ∷ []; fds = [] })
unfolding pump read_loop extract extract_loop next_frame cut_frame
pump_runs = refl

pump-stream_example :
    pump (reads cuts (would_block ∷ [])) empty
    ≡ (record { frames = two_frames; status = drained }, record { buffer = 7 ∷ []; fds = [] })
unfolding encode_frame next_frame
pump-stream_example =
    pump-stream two_frames cuts (7 ∷ []) [] [] (omega arith) refl refl (omega arith) (omega arith)
      refl

pump-frames_example : All IsFrame (pump (reads cuts (would_block ∷ [])) empty).0.frames
pump-frames_example = pump-frames (reads cuts (would_block ∷ [])) empty

half_read_error : (extract half_read).error ≡ none
unfolding extract extract_loop next_frame cut_frame encode_frame
half_read_error = refl

extract_resume_example :
    extract (record { buffer = half_read.buffer ++ (0 ∷ []); fds = half_read.fds ++ [] })
    ≡ push_frames (extract half_read).frames (
        extract (record {
          buffer = (extract half_read).rest.buffer ++ (0 ∷ []);
          fds = (extract half_read).rest.fds ++ [];
        }))
extract_resume_example = extract_resume half_read (0 ∷ []) [] half_read_error

extract_done_example :
    (length (extract half_read).rest.buffer < 8)
    ⊎ (length (extract half_read).rest.buffer < 8 + get_u32_le (extract half_read).rest.buffer)
extract_done_example = extract_done half_read half_read_error

zeros : ℕ → List ℕ
zeros zero = []
zeros (suc n) = 0 ∷ zeros n

length-zeros : (n : ℕ) → length (zeros n) ≡ n
unfolding zeros
length-zeros zero = refl
length-zeros (suc n) = omega (arith, length-zeros n)

-- A frame of 600,000 bytes, well under the limit.
abbrev large : Frame
large = record { body = zeros 600_000; fds = [] }

large-IsFrame : IsFrame large
large-IsFrame = record { body_fits = omega (arith, length-zeros 600_000); fds_fit = omega arith }

length-large : length (encode_frame (zeros 600_000) 0) ≡ 600_008
length-large = omega (arith, length-zeros 600_000, length-encode_frame (zeros 600_000) 0)

-- Two such frames that arrive before the reader wakes up end the connection.
pump_over_example :
    (pump (reads ((stream (large ∷ large ∷ []), []) ∷ []) (would_block ∷ [])) empty).0
    ≡ record { frames = []; status = failed oversize }
pump_over_example =
    pump_over ((stream (large ∷ large ∷ []), []) ∷ []) (would_block ∷ [])
      (omega (
        arith,
        length-large,
        length-append (encode_frame (zeros 600_000) 0) (encode_frame (zeros 600_000) 0 ++ []),
        length-append (encode_frame (zeros 600_000) 0) [],
        length-append (stream (large ∷ large ∷ [])) [],
      ))
      (omega arith)
