-- ===== src/Wire/Reassembler/Pump.antt =====
-- `pump` on a connection: limits, resumption, and delivery whatever the cuts between reads.
use libre_agent.Common.{
  ℕ, zero, suc, ◌+◌, ◌≤◌, ◌<◌, ◌≡◌, refl, ap, ◌∙◌, ◌⊎◌, false, none, List, [], ◌∷◌, ◌++◌, length,
  arith, length-append, All, append-nil, inl, inr, append_assoc,
}
use native.Mathlib.Decide.{dec_le}
use libre_agent.Wire.Frame.{get_u32_le, Frame, oversize, IsFrame}
use libre_agent.Wire.Reassembler.{
  cut_frame, next_frame, incomplete, Extracted, push_frame, Reassembler, extract_loop, extract,
  Received, bytes, would_block, PumpStatus, drained, closed, failed, read_loop, conclude, pump,
  finish, empty, max_buffer_bytes, max_pending_fds,
}
use libre_agent.Wire.Reassembler.Steps.{taken_bounds, next_frame-append}
use libre_agent.Wire.Reassembler.Stream.{
  Next-cases, extract_taken, push_frames, stream, stream_fds, extract-stream,
}

extract_loop-frames :
    (fuel : ℕ) (buffer fds : List ℕ) → All IsFrame (extract_loop fuel buffer fds).frames
unfolding extract_loop
extract_loop-frames zero buffer fds = tt
extract_loop-frames (suc fuel) buffer fds = elim (Next-cases (next_frame buffer fds)) [
  | inl e ↦ rw (e, extract_loop) tt
  | inr (inl (x, e)) ↦ rw (e, extract_loop) tt
  | inr (inr (f, b, r, e)) ↦
      rw (e, extract_loop) ((taken_bounds buffer fds b r f e).0, extract_loop-frames fuel b r)
]

finish-frames : (status : PumpStatus) (x : Extracted) → (finish status x).frames ≡ x.frames
finish-frames status x = ground arith

conclude-frames : (status : PumpStatus) (r : Reassembler) → All IsFrame (conclude status r).0.frames
unfolding conclude extract
conclude-frames drained r = rw finish-frames (extract_loop-frames (length r.buffer) r.buffer r.fds)
conclude-frames closed r = rw finish-frames (extract_loop-frames (length r.buffer) r.buffer r.fds)
conclude-frames (failed e) r = tt

-- Whatever the socket gives, no frame that `pump` hands on has a body over one MiB or more than 16
-- descriptors.
pub pump-frames : (script : List Received) (r : Reassembler) → All IsFrame (pump script r).0.frames
unfolding pump
pump-frames script r = conclude-frames (read_loop script r).0 (read_loop script r).1

incomplete_short :
    (buffer fds : List ℕ)
    → next_frame buffer fds ≡ incomplete
    → (length buffer < 8) ⊎ (length buffer < 8 + get_u32_le buffer)
unfolding next_frame cut_frame
incomplete_short buffer fds h = elim (dec_le 8 (length buffer)) [
  | no short ↦ inl (omega arith)
  | yes header ↦ inr (ground (arith, h))
]

extract_loop_done :
    (fuel : ℕ) (buffer fds : List ℕ)
    → length buffer ≤ fuel
    → (extract_loop fuel buffer fds).error ≡ none
    → next_frame (extract_loop fuel buffer fds).rest.buffer (extract_loop fuel buffer fds).rest.fds
      ≡ incomplete
unfolding extract_loop
extract_loop_done zero [] fds h k = unfold next_frame in refl
extract_loop_done zero (b ∷ buffer) fds h k = absurd (omega arith)
extract_loop_done (suc fuel) buffer fds h k = elim (Next-cases (next_frame buffer fds)) [
  | inl e ↦ rw (e, extract_loop) e
  | inr (inl (x, e)) ↦ absurd (ground arith)
  | inr (inr (f, b, r, e)) ↦
      rw (e, extract_loop)
        (extract_loop_done fuel b r (omega (arith, taken_bounds buffer fds b r f e))
          (rw (e, extract_loop) at k))
]

extract_loop_resume :
    (fuel : ℕ) (buffer fds more_bytes more_fds : List ℕ)
    → length buffer ≤ fuel
    → (extract_loop fuel buffer fds).error ≡ none
    → let first = extract_loop fuel buffer fds in
      extract (record { buffer = buffer ++ more_bytes; fds = fds ++ more_fds })
      ≡ push_frames first.frames (
          extract
            (record { buffer = first.rest.buffer ++ more_bytes; fds = first.rest.fds ++ more_fds }))
unfolding extract_loop
extract_loop_resume zero buffer fds more_bytes more_fds h k = refl
extract_loop_resume (suc fuel) buffer fds more_bytes more_fds h k =
    elim (Next-cases (next_frame buffer fds)) [
      | inl e ↦ rw (e, extract_loop) refl
      | inr (inl (x, e)) ↦ absurd (ground arith)
      | inr (inr (f, b, r, e)) ↦
          rw (e, extract_loop)
            (extract_taken _ _ _ _ f (next_frame-append buffer fds b r more_bytes more_fds f e)
              ∙ ap (push_frame f) (
                  extract_loop_resume fuel b r more_bytes more_fds
                    (omega (arith, taken_bounds buffer fds b r f e)) (rw (e, extract_loop) at k)))
    ]

-- Bytes that come after an extraction without error are treated as if they had been there before: the
-- frames taken out first stand in front, and the rest is what the leftover and the new bytes give.
pub extract_resume :
    (r : Reassembler) (more_bytes more_fds : List ℕ)
    → (extract r).error ≡ none
    → extract (record { buffer = r.buffer ++ more_bytes; fds = r.fds ++ more_fds })
      ≡ push_frames (extract r).frames (
          extract (record {
            buffer = (extract r).rest.buffer ++ more_bytes;
            fds = (extract r).rest.fds ++ more_fds;
          }))
unfolding extract
extract_resume r more_bytes more_fds h =
    extract_loop_resume (length r.buffer) r.buffer r.fds more_bytes more_fds (omega arith) h

-- After an extraction without error no whole frame is left in the buffer: what is left is shorter than the
-- eight bytes of a header, or than those and the length that its first four bytes give.
pub extract_done :
    (r : Reassembler)
    → (extract r).error ≡ none
    → (length (extract r).rest.buffer < 8)
      ⊎ (length (extract r).rest.buffer < 8 + get_u32_le (extract r).rest.buffer)
unfolding extract
extract_done r h =
    incomplete_short _ _ (extract_loop_done (length r.buffer) r.buffer r.fds (omega arith) h)

-- Reads that bring bytes and descriptors and are not truncated.
abbrev pub reads : List (List ℕ × List ℕ) → List Received → List Received
reads [] script = script
reads ((chunk, fds) ∷ cuts) script = bytes chunk fds false ∷ reads cuts script

abbrev pub all_bytes : List (List ℕ × List ℕ) → List ℕ
all_bytes [] = []
all_bytes ((chunk, fds) ∷ cuts) = chunk ++ all_bytes cuts

abbrev pub all_fds : List (List ℕ × List ℕ) → List ℕ
all_fds [] = []
all_fds ((chunk, fds) ∷ cuts) = fds ++ all_fds cuts

abbrev grown : Reassembler → List ℕ → List ℕ → Reassembler
grown r chunk fds = record { buffer = r.buffer ++ chunk; fds = r.fds ++ fds }

read_step :
    (chunk fds : List ℕ) (script : List Received) (r : Reassembler)
    → length r.buffer + length chunk ≤ max_buffer_bytes
    → length r.fds + length fds ≤ max_pending_fds
    → read_loop (bytes chunk fds false ∷ script) r ≡ read_loop script (grown r chunk fds)
unfolding read_loop
read_step chunk fds script r h k =
    ground (arith, length-append r.buffer chunk, length-append r.fds fds)

read_over :
    (chunk fds : List ℕ) (script : List Received) (r : Reassembler)
    → max_buffer_bytes < length r.buffer + length chunk
    → length r.fds + length fds ≤ max_pending_fds
    → read_loop (bytes chunk fds false ∷ script) r ≡ (failed oversize, grown r chunk fds)
unfolding read_loop
read_over chunk fds script r h k =
    ground (arith, length-append r.buffer chunk, length-append r.fds fds)

read_loop-reads :
    (cuts : List (List ℕ × List ℕ)) (script : List Received) (r : Reassembler)
    → length r.buffer + length (all_bytes cuts) ≤ max_buffer_bytes
    → length r.fds + length (all_fds cuts) ≤ max_pending_fds
    → read_loop (reads cuts script) r ≡ read_loop script (grown r (all_bytes cuts) (all_fds cuts))
read_loop-reads [] script r h k = simp append-nil
read_loop-reads ((chunk, fds) ∷ cuts) script r h k =
    read_step chunk fds (reads cuts script) r (omega (arith, length-append chunk (all_bytes cuts)))
      (omega (arith, length-append fds (all_fds cuts)))
    ∙ read_loop-reads cuts script (grown r chunk fds)
        (omega (arith, length-append chunk (all_bytes cuts), length-append r.buffer chunk))
        (omega (arith, length-append fds (all_fds cuts), length-append r.fds fds))
    ∙ simp append_assoc

read_loop_over :
    (cuts : List (List ℕ × List ℕ)) (script : List Received) (r : Reassembler)
    → length r.buffer ≤ max_buffer_bytes
    → max_buffer_bytes < length r.buffer + length (all_bytes cuts)
    → length r.fds + length (all_fds cuts) ≤ max_pending_fds
    → (read_loop (reads cuts script) r).0 ≡ failed oversize
read_loop_over [] script r b h k = absurd (omega arith)
read_loop_over ((chunk, fds) ∷ cuts) script r b h k =
    elim (dec_le (length r.buffer + length chunk) max_buffer_bytes) [
      | yes fits ↦
          rw
            (read_step chunk fds (reads cuts script) r fits
              (omega (arith, length-append fds (all_fds cuts))))
            (read_loop_over cuts script (grown r chunk fds)
              (omega (arith, length-append r.buffer chunk))
              (omega (arith, length-append chunk (all_bytes cuts), length-append r.buffer chunk))
              (omega (arith, length-append fds (all_fds cuts), length-append r.fds fds)))
      | no over ↦ rw (
          read_over chunk fds (reads cuts script) r (omega arith)
            (omega (arith, length-append fds (all_fds cuts))))
    ]

incomplete_extract :
    (tail more : List ℕ)
    → next_frame tail more ≡ incomplete
    → extract (record { buffer = tail; fds = more })
      ≡ record { frames = []; error = none; rest = record { buffer = tail; fds = more } }
unfolding extract extract_loop
incomplete_extract [] more h = refl
incomplete_extract (b ∷ tail) more h = rw (h, extract_loop)

push_frames_leftover :
    (fs : List Frame) (r : Reassembler)
    → push_frames fs (record { frames = []; error = none; rest = r })
      ≡ record { frames = fs; error = none; rest = r }
push_frames_leftover [] r = refl
push_frames_leftover (f ∷ fs) r = ap (push_frame f) (push_frames_leftover fs r)

-- However the reads cut up a stream of admissible frames and an incomplete tail, one `pump` on a new
-- connection returns those frames, in order and each with its own descriptors, and keeps the tail; the
-- stream must fit the buffer and its descriptors the queue.
pub pump-stream :
    (fs : List Frame) (cuts : List (List ℕ × List ℕ)) (tail more : List ℕ) (later : List Received)
    → All IsFrame fs
    → all_bytes cuts ≡ stream fs ++ tail
    → all_fds cuts ≡ stream_fds fs ++ more
    → length (all_bytes cuts) ≤ max_buffer_bytes
    → length (all_fds cuts) ≤ max_pending_fds
    → next_frame tail more ≡ incomplete
    → pump (reads cuts (would_block ∷ later)) empty
      ≡ (record { frames = fs; status = drained }, record { buffer = tail; fds = more })
unfolding pump
pump-stream fs cuts tail more later v eb ef hb hf done =
    rw (read_loop-reads cuts (would_block ∷ later) empty (omega arith) (omega arith)) (
      unfold read_loop in
      rw (
        eb,
        ef,
        extract-stream fs tail more v,
        incomplete_extract tail more done,
        push_frames_leftover fs (record { buffer = tail; fds = more }),
      ))

-- On a new connection, if the reads of one pump are whole and bring more bytes than a header and one MiB,
-- but no more descriptors than the queue holds, the pump ends the connection as oversize and hands on no
-- frame, also where every frame of what it read is admissible and complete.
pub pump_over :
    (cuts : List (List ℕ × List ℕ)) (script : List Received)
    → max_buffer_bytes < length (all_bytes cuts)
    → length (all_fds cuts) ≤ max_pending_fds
    → (pump (reads cuts script) empty).0 ≡ record { frames = []; status = failed oversize }
unfolding pump
pump_over cuts script h k =
    rw (read_loop_over cuts script empty (omega arith) (omega arith) (omega arith), conclude)
