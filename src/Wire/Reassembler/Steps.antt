-- ===== src/Wire/Reassembler/Steps.antt =====
-- One round of `extract`: what it takes, and that bytes still to come do not change it.
use libre_agent.Common.{
  ℕ, suc, ◌+◌, ◌*◌, ◌≤◌, ◌≡◌, refl, ap, sym, ◌∙◌, List, [], ◌∷◌, ◌++◌, ltb, length, take, drop,
  arith, length-append, take-append_le, drop-append_le, length-drop, length-take,
  take-length-append, drop-length-append, Bool-cases, inl, inr,
}
use libre_agent.Wire.Frame.{
  Frame, frame_header_bytes, max_frame_bytes, max_frame_fds, get_u32_le, encode_frame, IsFrame,
}
use libre_agent.Wire.Reassembler.{cut_frame, next_frame, taken}

get_u32_le-append : (xs ys : List ℕ) → 4 ≤ length xs → get_u32_le (xs ++ ys) ≡ get_u32_le xs
get_u32_le-append [] ys h = absurd (omega arith)
get_u32_le-append (a ∷ []) ys h = absurd (omega arith)
get_u32_le-append (a ∷ b ∷ []) ys h = absurd (omega arith)
get_u32_le-append (a ∷ b ∷ c ∷ []) ys h = absurd (omega arith)
get_u32_le-append (a ∷ b ∷ c ∷ d ∷ xs) ys h = refl

module _ (body_len fd_count : ℕ) where
  -- What `cut_frame` has checked and returned where it takes a frame.
  record Cut (buffer fds : List ℕ) (f : Frame) (buffer' fds' : List ℕ) : Type 0 where
    body_fits : body_len ≤ max_frame_bytes
    fds_fit : fd_count ≤ max_frame_fds
    arrived : frame_header_bytes + body_len ≤ length buffer
    supplied : fd_count ≤ length fds
    body_eq : f.body ≡ take body_len (drop frame_header_bytes buffer)
    fds_eq : f.fds ≡ take fd_count fds
    buffer_eq : buffer' ≡ drop (frame_header_bytes + body_len) buffer
    rest_eq : fds' ≡ drop fd_count fds

  cut_frame_inv :
      (buffer fds buffer' fds' : List ℕ) (f : Frame)
      → cut_frame body_len fd_count buffer fds ≡ taken f buffer' fds'
      → Cut buffer fds f buffer' fds'
  unfolding cut_frame
  cut_frame_inv buffer fds buffer' fds' f e = ground arith

  cut_frame_intro :
      (buffer fds buffer' fds' : List ℕ) (f : Frame)
      → Cut buffer fds f buffer' fds'
      → cut_frame body_len fd_count buffer fds ≡ taken f buffer' fds'
  unfolding cut_frame
  cut_frame_intro buffer fds buffer' fds' f c = ground arith

  Cut-append :
      (buffer fds buffer' fds' more_bytes more_fds : List ℕ) (f : Frame)
      → Cut buffer fds f buffer' fds'
      → Cut (buffer ++ more_bytes) (fds ++ more_fds) f (buffer' ++ more_bytes) (fds' ++ more_fds)
  Cut-append buffer fds buffer' fds' more_bytes more_fds f c = record {
    body_fits = c.body_fits;
    fds_fit = c.fds_fit;
    arrived = omega (arith, c.arrived, length-append buffer more_bytes);
    supplied = omega (arith, c.supplied, length-append fds more_fds);
    body_eq =
        c.body_eq
        ∙ sym (
            ap (take body_len) (drop-append_le 8 buffer more_bytes (omega (arith, c.arrived)))
            ∙ take-append_le body_len (drop 8 buffer) more_bytes
                (omega (arith, c.arrived, length-drop 8 buffer)));
    fds_eq = c.fds_eq ∙ sym (take-append_le fd_count fds more_fds c.supplied);
    buffer_eq =
        ap (λ t. t ++ more_bytes) c.buffer_eq ∙ sym (drop-append_le _ buffer more_bytes c.arrived);
    rest_eq = ap (λ t. t ++ more_fds) c.rest_eq ∙ sym (drop-append_le _ fds more_fds c.supplied);
  }

  Cut-bounds :
      (buffer fds buffer' fds' : List ℕ) (f : Frame)
      → Cut buffer fds f buffer' fds'
      → IsFrame f × (length buffer' + frame_header_bytes + length f.body ≡ length buffer)
  Cut-bounds buffer fds buffer' fds' f c =
      let body : length f.body ≡ body_len =
        ap length c.body_eq
        ∙ length-take body_len (drop 8 buffer) (omega (arith, c.arrived, length-drop 8 buffer)) in
      let count : length f.fds ≡ fd_count =
        ap length c.fds_eq ∙ length-take fd_count fds c.supplied in
      (
        record { body_fits = omega (arith, c.body_fits); fds_fit = omega (arith, c.fds_fit) },
        omega (
          arith,
          c.arrived,
          ap length c.buffer_eq,
          length-drop (frame_header_bytes + body_len) buffer,
        ),
      )

-- A taken frame is within the limits, and its header and body leave the buffer.
pub taken_bounds :
    (buffer fds buffer' fds' : List ℕ) (f : Frame)
    → next_frame buffer fds ≡ taken f buffer' fds'
    → IsFrame f × (length buffer' + frame_header_bytes + length f.body ≡ length buffer)
unfolding next_frame
taken_bounds buffer fds buffer' fds' f e =
    elim (Bool-cases (ltb (length buffer) frame_header_bytes)) [
      | inl short ↦ absurd (ground arith)
      | inr long ↦
          Cut-bounds (get_u32_le buffer) (get_u32_le (drop 4 buffer)) buffer fds buffer' fds' f (
            cut_frame_inv (get_u32_le buffer) (get_u32_le (drop 4 buffer)) buffer fds buffer' fds' f
              (ground arith))
    ]

pub next_frame-append :
    (buffer fds buffer' fds' more_bytes more_fds : List ℕ) (f : Frame)
    → next_frame buffer fds ≡ taken f buffer' fds'
    → next_frame (buffer ++ more_bytes) (fds ++ more_fds)
      ≡ taken f (buffer' ++ more_bytes) (fds' ++ more_fds)
unfolding next_frame
next_frame-append buffer fds buffer' fds' more_bytes more_fds f e =
    elim (Bool-cases (ltb (length buffer) frame_header_bytes)) [
      | inl short ↦ absurd (ground arith)
      | inr long ↦ ground (
        arith,
        length-append buffer more_bytes,
        get_u32_le-append buffer more_bytes (ground arith),
        get_u32_le-append (drop 4 buffer) more_bytes (ground (arith, length-drop 4 buffer)),
        drop-append_le 4 buffer more_bytes (ground arith),
        cut_frame_intro (get_u32_le buffer) (get_u32_le (drop 4 buffer)) (buffer ++ more_bytes)
            (fds ++ more_fds) (buffer' ++ more_bytes) (fds' ++ more_fds) f
            (Cut-append _ _ buffer fds buffer' fds' more_bytes more_fds f (
              cut_frame_inv (get_u32_le buffer) (get_u32_le (drop 4 buffer)) buffer fds buffer' fds'
                f (ground arith))),
      )
    ]

module _ (a b c d e f g h : ℕ) where
  abbrev header : List ℕ → List ℕ
  header xs = a ∷ b ∷ c ∷ d ∷ e ∷ f ∷ g ∷ h ∷ xs

  drop-header : (n : ℕ) (xs : List ℕ) → drop (frame_header_bytes + n) (header xs) ≡ drop n xs
  drop-header n xs =
      let p : 8 + n ≡ suc (suc (suc (suc (suc (suc (suc (suc n))))))) = omega arith in rw p

  header_taken :
      (x : Frame) (rest more : List ℕ)
      → IsFrame x
      → a + b * 256 + c * 65_536 + d * 16_777_216 ≡ length x.body
      → e + f * 256 + g * 65_536 + h * 16_777_216 ≡ length x.fds
      → next_frame (header (x.body ++ rest)) (x.fds ++ more) ≡ taken x rest more
  unfolding next_frame
  header_taken x rest more v p q = ground (arith, p, q, cut)
    where
      cut :
          cut_frame (length x.body) (length x.fds) (header (x.body ++ rest)) (x.fds ++ more)
          ≡ taken x rest more
      cut = cut_frame_intro _ _ (header (x.body ++ rest)) (x.fds ++ more) rest more x (record {
        body_fits = v.body_fits;
        fds_fit = v.fds_fit;
        arrived = omega (arith, length-append x.body rest);
        supplied = omega (arith, length-append x.fds more);
        body_eq = sym (take-length-append x.body rest);
        fds_eq = sym (take-length-append x.fds more);
        buffer_eq =
            sym (drop-header (length x.body) (x.body ++ rest) ∙ drop-length-append x.body rest);
        rest_eq = sym (drop-length-append x.fds more);
      })

-- An encoded frame with its descriptors is taken back whole, and what follows both is left.
pub next_frame-encode_frame :
    (f : Frame) (rest more : List ℕ)
    → IsFrame f
    → next_frame (encode_frame f.body (length f.fds) ++ rest) (f.fds ++ more) ≡ taken f rest more
unfolding encode_frame
next_frame-encode_frame f rest more v =
    header_taken _ _ _ _ _ _ _ _ f rest more v (omega (arith, v.body_fits))
      (omega (arith, v.fds_fit))
