-- ===== src/Grpc/Pump/Chunks.antt =====
-- src/grpc/stream.rs, `pump_task`: the frames of a connection under other cuts into chunks.
use construct_tui.Prelude.{
  ℕ, zero, suc, ◌≤◌, ◌≡◌, refl, sym, ap, ◌∙◌, inl, inr, none, some, List, [], ◌∷◌, ◌++◌, length,
  take, drop, arith, length-append, length-drop, take-append-drop, append_assoc, append-nil,
  Option-cases, concat,
}
use construct_tui.Prelude.Bytes.{Bytes}
use construct_tui.Grpc.Pump.{first_frame, cut_frames, on_chunk, receive}

pub first_frame_bounds :
    (buf : Bytes) (n : ℕ) → first_frame buf ≡ some n → (5 ≤ n) × (n ≤ length buf)
unfolding first_frame
first_frame_bounds [] n e = cc
first_frame_bounds (_ ∷ []) n e = cc
first_frame_bounds (_ ∷ _ ∷ []) n e = cc
first_frame_bounds (_ ∷ _ ∷ _ ∷ []) n e = cc
first_frame_bounds (_ ∷ _ ∷ _ ∷ _ ∷ []) n e = cc
first_frame_bounds (flag ∷ a ∷ b ∷ c ∷ d ∷ rest) n e = ground arith

-- More bytes behind a whole frame leave it as it is.
first_frame-append : (x y : Bytes) (n : ℕ) → first_frame x ≡ some n → first_frame (x ++ y) ≡ some n
unfolding first_frame
first_frame-append [] y n e = cc
first_frame-append (_ ∷ []) y n e = cc
first_frame-append (_ ∷ _ ∷ []) y n e = cc
first_frame-append (_ ∷ _ ∷ _ ∷ []) y n e = cc
first_frame-append (_ ∷ _ ∷ _ ∷ _ ∷ []) y n e = cc
first_frame-append (flag ∷ a ∷ b ∷ c ∷ d ∷ rest) y n e = ground (arith, length-append rest y)

take-append_le : (n : ℕ) (x y : Bytes) → n ≤ length x → take n (x ++ y) ≡ take n x
take-append_le zero x y h = refl
take-append_le (suc n) [] y h = absurd (omega arith)
take-append_le (suc n) (a ∷ x) y h = ap (λ (l : Bytes). a ∷ l) (take-append_le n x y (omega arith))

drop-append_le : (n : ℕ) (x y : Bytes) → n ≤ length x → drop n (x ++ y) ≡ drop n x ++ y
drop-append_le zero x y h = refl
drop-append_le (suc n) [] y h = absurd (omega arith)
drop-append_le (suc n) (a ∷ x) y h = drop-append_le n x y (omega arith)

-- A buffer with no whole frame stays as it is, whatever the fuel.
cut_frames-none : (f : ℕ) (buf : Bytes) → first_frame buf ≡ none → cut_frames f buf ≡ ([], buf)
unfolding cut_frames
cut_frames-none zero buf e = refl
cut_frames-none (suc f) buf e = rw (e, cut_frames)

-- One round, with the later rounds shut.
cut_frames-some :
    (f : ℕ) (buf : Bytes) (n : ℕ)
    → first_frame buf ≡ some n
    → cut_frames (suc f) buf
      ≡ (take n buf ∷ (cut_frames f (drop n buf)).0, (cut_frames f (drop n buf)).1)
unfolding cut_frames
cut_frames-some f buf n e = rw (e, cut_frames)

shorter :
    (f n : ℕ) (buf : Bytes)
    → first_frame buf ≡ some n
    → length buf ≤ suc f
    → length (drop n buf) ≤ f
shorter f n buf e h = omega (arith, length-drop n buf, first_frame_bounds buf n e)

no_frame_in_nil : (n : ℕ) → first_frame [] ≡ some n → ⊥
no_frame_in_nil n e = omega (arith, first_frame_bounds [] n e)

-- The fuel does not show in the result, as soon as it covers the buffer.
cut_frames_fuel :
    (f g : ℕ) (buf : Bytes) → length buf ≤ f → length buf ≤ g → cut_frames f buf ≡ cut_frames g buf
cut_frames_fuel zero g [] hf hg =
    unfold first_frame in cut_frames-none zero [] refl ∙ sym (cut_frames-none g [] refl)
cut_frames_fuel zero g (b ∷ buf) hf hg = absurd (omega arith)
cut_frames_fuel (suc f) zero [] hf hg =
    unfold first_frame in cut_frames-none (suc f) [] refl ∙ sym (cut_frames-none zero [] refl)
cut_frames_fuel (suc f) zero (b ∷ buf) hf hg = absurd (omega arith)
cut_frames_fuel (suc f) (suc g) buf hf hg = elim (Option-cases (first_frame buf)) [
  | inl e ↦ cut_frames-none (suc f) buf e ∙ sym (cut_frames-none (suc g) buf e)
  | inr (n, e) ↦ cc (
    cut_frames-some f buf n e,
    cut_frames-some g buf n e,
    cut_frames_fuel f g (drop n buf) (shorter f n buf e hf) (shorter g n buf e hg),
  )
]

-- The inner loop on a buffer, with its own fuel.
abbrev pub cut : Bytes → List Bytes × Bytes
cut buf = cut_frames (length buf) buf

pub cut-none : (buf : Bytes) → first_frame buf ≡ none → cut buf ≡ ([], buf)
cut-none buf e = cut_frames-none (length buf) buf e

pub cut-some :
    (buf : Bytes) (n : ℕ)
    → first_frame buf ≡ some n
    → cut buf ≡ (take n buf ∷ (cut (drop n buf)).0, (cut (drop n buf)).1)
cut-some [] n e = absurd (no_frame_in_nil n e)
cut-some (b ∷ buf) n e = cc (
  cut_frames-some (length buf) (b ∷ buf) n e,
  cut_frames_fuel (length buf) (length (drop n (b ∷ buf))) (drop n (b ∷ buf))
      (shorter (length buf) n (b ∷ buf) e (omega arith)) (omega arith),
)

-- One round on `x ++ y` is one round on `x`, where `x` holds a whole frame.
cut-append_round :
    (x y : Bytes) (n : ℕ)
    → first_frame x ≡ some n
    → cut (drop n x ++ y)
      ≡ ((cut (drop n x)).0 ++ (cut ((cut (drop n x)).1 ++ y)).0, (cut ((cut (drop n x)).1 ++ y)).1)
    → cut (x ++ y) ≡ ((cut x).0 ++ (cut ((cut x).1 ++ y)).0, (cut ((cut x).1 ++ y)).1)
cut-append_round x y n e ih =
    rw
      (
        cut-some x n e,
        cut-some (x ++ y) n (first_frame-append x y n e),
        take-append_le n x y (first_frame_bounds x n e).1,
        drop-append_le n x y (first_frame_bounds x n e).1,
      )
      (ap (λ (r : List Bytes × Bytes). (take n x ∷ r.0, r.1)) ih)

cut-append_bound :
    (f : ℕ) (x y : Bytes)
    → length x ≤ f
    → cut (x ++ y) ≡ ((cut x).0 ++ (cut ((cut x).1 ++ y)).0, (cut ((cut x).1 ++ y)).1)
cut-append_bound zero [] y h = unfold cut_frames in refl
cut-append_bound zero (b ∷ x) y h = absurd (omega arith)
cut-append_bound (suc f) x y h = elim (Option-cases (first_frame x)) [
  | inl e ↦ rw (cut-none x e)
  | inr (n, e) ↦ cut-append_round x y n e (cut-append_bound f (drop n x) y (shorter f n x e h))
]

-- To cut `x ++ y` is to cut `x` and to go on with what is left of it and `y`.
pub cut-append :
    (x y : Bytes) → cut (x ++ y) ≡ ((cut x).0 ++ (cut ((cut x).1 ++ y)).0, (cut ((cut x).1 ++ y)).1)
cut-append x y = cut-append_bound (length x) x y (omega arith)

-- What is left holds no whole frame, and the frames with what is left are the whole input.
cut_bound :
    (f : ℕ) (x : Bytes)
    → length x ≤ f
    → (first_frame (cut x).1 ≡ none) × (concat (cut x).0 ++ (cut x).1 ≡ x)
cut_bound zero [] h = unfold cut_frames first_frame in (refl, refl)
cut_bound zero (b ∷ x) h = absurd (omega arith)
cut_bound (suc f) x h = elim (Option-cases (first_frame x)) [
  | inl e ↦ rw (cut-none x e) (e, refl)
  | inr (n, e) ↦
      let (stuck, whole) = cut_bound f (drop n x) (shorter f n x e h) in
      rw (cut-some x n e) (stuck, append_assoc (take n x) _ _ ∙ rw whole (take-append-drop n x))
]

-- Whatever the sizes of the chunks, receiving them one by one gives the frames, and leaves the
-- bytes, that the whole stream in one chunk would, if the buffer holds no whole frame at first.
receive-concat :
    (buf : Bytes) (chunks : List Bytes)
    → first_frame buf ≡ none
    → receive buf chunks ≡ on_chunk buf (concat chunks)
unfolding receive on_chunk
receive-concat buf [] e = rw (append-nil buf) (sym (cut-none buf e))
receive-concat buf (chunk ∷ chunks) e =
    let (stuck, _) = cut_bound (length (buf ++ chunk)) (buf ++ chunk) (omega arith) in
    rw (receive-concat (cut (buf ++ chunk)).1 chunks stuck) (
      sym
        (rw (← append_assoc buf chunk (concat chunks)) (cut-append (buf ++ chunk) (concat chunks))))

-- A connection starts with an empty buffer. Two ways to cut the same bytes into chunks give the
-- same frames in the same order and the same bytes left.
pub receive-chunks :
    (chunks chunks' : List Bytes)
    → concat chunks ≡ concat chunks'
    → receive [] chunks ≡ receive [] chunks'
receive-chunks chunks chunks' e =
    receive-concat [] chunks (unfold first_frame in refl)
    ∙ ap (on_chunk []) e
    ∙ sym (receive-concat [] chunks' (unfold first_frame in refl))

-- No byte is lost, invented or moved: the frames passed on and the buffer that is left, in order,
-- are the received chunks in order; and no whole frame stays behind in the buffer.
pub receive_whole :
    (chunks : List Bytes)
    → (concat (receive [] chunks).0 ++ (receive [] chunks).1 ≡ concat chunks)
      × (first_frame (receive [] chunks).1 ≡ none)
unfolding on_chunk
receive_whole chunks =
    let (stuck, whole) = cut_bound (length (concat chunks)) (concat chunks) (omega arith) in
    rw (receive-concat [] chunks (unfold first_frame in refl)) (whole, stuck)

pub receive-cut : (chunks : List Bytes) → receive [] chunks ≡ cut (concat chunks)
unfolding on_chunk
receive-cut chunks = receive-concat [] chunks (unfold first_frame in refl)
