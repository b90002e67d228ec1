-- ===== src/Wire/Reassembler/Stream.antt =====
-- Whole streams: frames survive any cut into reads, and every frame is within the limits.
use libre_agent.Common.{
  ℕ, zero, suc, ◌≤◌, ◌≡◌, refl, ap, sym, ◌∙◌, List, [], ◌∷◌, ◌++◌, length, arith, All, inl, inr,
  ◌⊎◌, append_assoc,
}
use libre_agent.Wire.Frame.{Frame, FrameError, encode_frame, IsFrame}
use libre_agent.Wire.Reassembler.{
  next_frame, Next, incomplete, refused, taken, Extracted, push_frame, extract_loop, extract,
}
use libre_agent.Wire.Reassembler.Steps.{taken_bounds, next_frame-encode_frame}

pub Next-cases :
    (n : Next)
    → (n ≡ incomplete)
      ⊎ ((e : FrameError) × (n ≡ refused e))
      ⊎ ((f : Frame) × (b : List ℕ) × (fds : List ℕ) × (n ≡ taken f b fds))
Next-cases incomplete = inl refl
Next-cases (refused e) = inr (inl (e, refl))
Next-cases (taken f b fds) = inr (inr (f, b, fds, refl))

-- The bytes and the descriptors of a row of frames.
abbrev pub stream : List Frame → List ℕ
stream [] = []
stream (f ∷ fs) = encode_frame f.body (length f.fds) ++ stream fs

abbrev pub stream_fds : List Frame → List ℕ
stream_fds [] = []
stream_fds (f ∷ fs) = f.fds ++ stream_fds fs

abbrev pub push_frames : List Frame → Extracted → Extracted
push_frames [] x = x
push_frames (f ∷ fs) x = push_frame f (push_frames fs x)

-- More rounds than the buffer has bytes change nothing.
extract_loop_enough :
    (fuel more : ℕ) (buffer fds : List ℕ)
    → length buffer ≤ fuel
    → fuel ≤ more
    → extract_loop more buffer fds ≡ extract_loop fuel buffer fds
unfolding extract_loop
extract_loop_enough zero zero buffer fds h k = refl
extract_loop_enough zero (suc more) [] fds h k = unfold next_frame in refl
extract_loop_enough zero (suc more) (b ∷ buffer) fds h k = absurd (omega arith)
extract_loop_enough (suc fuel) zero buffer fds h k = absurd (omega arith)
extract_loop_enough (suc fuel) (suc more) buffer fds h k =
    elim (Next-cases (next_frame buffer fds)) [
      | inl e ↦ rw (e, extract_loop)
      | inr (inl (x, e)) ↦ rw (e, extract_loop)
      | inr (inr (f, b, r, e)) ↦
          rw (e, extract_loop)
            (ap (push_frame f) (
              extract_loop_enough fuel more b r (omega (arith, taken_bounds buffer fds b r f e))
                (omega arith)))
    ]

-- A frame that a round takes stands in front of what the rest of the buffer gives.
pub extract_taken :
    (buffer fds buffer' fds' : List ℕ) (f : Frame)
    → next_frame buffer fds ≡ taken f buffer' fds'
    → extract (record { buffer = buffer; fds = fds })
      ≡ push_frame f (extract (record { buffer = buffer'; fds = fds' }))
unfolding extract
extract_taken buffer fds buffer' fds' f e =
    sym (
      extract_loop_enough (length buffer) (suc (length buffer)) buffer fds (omega arith)
        (omega arith))
    ∙ unfold extract_loop in
      rw (e, extract_loop)
        (ap (push_frame f) (
          extract_loop_enough (length buffer') (length buffer) buffer' fds' (omega arith)
            (omega (arith, taken_bounds buffer fds buffer' fds' f e))))

-- The frames of a stream come out in order, each with its own descriptors, before what follows them.
pub extract-stream :
    (fs : List Frame) (tail more : List ℕ)
    → All IsFrame fs
    → extract (record { buffer = stream fs ++ tail; fds = stream_fds fs ++ more })
      ≡ push_frames fs (extract (record { buffer = tail; fds = more }))
extract-stream [] tail more h = refl
extract-stream (f ∷ fs) tail more h =
    rw
      (
        append_assoc (encode_frame f.body (length f.fds)) (stream fs) tail,
        append_assoc f.fds (stream_fds fs) more,
      )
      (extract_taken _ _ _ _ f
          (next_frame-encode_frame f (stream fs ++ tail) (stream_fds fs ++ more) h.0)
        ∙ ap (push_frame f) (extract-stream fs tail more h.1))
