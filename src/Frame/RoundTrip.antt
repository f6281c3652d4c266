-- ===== src/Frame/RoundTrip.antt =====
-- What one side writes the other reads.
use rampardos.Prelude.{
  ℕ, ◌/◌, ◌%◌, ◌^◌, ◌≤◌, ◌<◌, ◌≡◌, ◌⊎◌, inl, refl, sym, true, false, some, none, List, [], ◌∷◌,
  ◌++◌, All, length, length-append, length-take, take-append-drop, take-length-append,
  drop-length-append, lt→ltb, arith,
}
use mathlib.Core.List.{append-nil, append_assoc}
use rampardos.Frame.{
  uint32, Writer, write, put_uint32, max_frame_size, write_payload, write_frame, payload_too_large,
  write_failed, Frame, frame, read_payload, read_frame,
}
use rampardos.Frame.Words.{uint32-put_uint32}

-- The bytes of a frame.
abbrev pub encode : Frame → List ℕ
encode f = f.typ ∷ put_uint32 (length f.payload) ++ f.payload

abbrev pub Fits : Frame → Type 0
Fits f = length f.payload ≤ max_frame_size

read_payload-append :
    (t : ℕ) (p rest : List ℕ)
    → length p ≤ max_frame_size
    → read_payload t (length p) (p ++ rest) ≡ frame (record { typ = t; payload = p }) rest
unfolding read_payload
read_payload-append t [] rest h = refl
read_payload-append t (x ∷ p) rest h =
    let n = length-append (x ∷ p) rest in
    ground (arith, take-length-append (x ∷ p) rest, drop-length-append (x ∷ p) rest)

-- Reading the bytes of a frame within the size limit gives the frame and the bytes after it.
pub read_frame-encode :
    (f : Frame) (rest : List ℕ) → Fits f → read_frame (encode f ++ rest) ≡ frame f rest
unfolding read_frame
read_frame-encode f rest h =
    rw (uint32-put_uint32 (length f.payload) (omega arith))
      (read_payload-append f.typ f.payload rest h)

abbrev pub header : Frame → List ℕ
header f = f.typ ∷ put_uint32 (length f.payload)

-- A Write call appends all of its bytes, or fails and appends none.
write-written :
    (p : List ℕ) (w : Writer)
    → (((write p w).1 ≡ false) × ((write p w).0.written ≡ w.written ++ p))
      ⊎ (((write p w).1 ≡ true) × ((write p w).0.written ≡ w.written))
unfolding write
write-written p w = ground arith

write_payload-written :
    (p : List ℕ) (w : Writer)
    → (((write_payload p w false).1 ≡ none)
        × ((write_payload p w false).0.written ≡ w.written ++ p))
      ⊎ (((write_payload p w false).1 ≡ some write_failed)
          × ((write_payload p w false).0.written ≡ w.written))
unfolding write_payload
write_payload-written [] w = inl (refl, sym (append-nil w.written))
write_payload-written (x ∷ p) w = ground (arith, write-written (x ∷ p) w)

-- Writing a frame within the size limit writes its bytes without an error, or ends with an error
-- after a Write call failed with nothing or only the header written.
pub write_frame-written :
    (f : Frame) (w : Writer)
    → Fits f
    → let (w', e) = write_frame f.typ f.payload w in
      ((e ≡ none) × (w'.written ≡ w.written ++ encode f))
      ⊎ ((e ≡ some write_failed)
          × ((w'.written ≡ w.written) ⊎ (w'.written ≡ w.written ++ header f)))
unfolding write_frame
write_frame-written f w h =
    let w' = (write (header f) w).0 in
    let split = append_assoc w.written (header f) f.payload in
    ground (arith, write-written (header f) w, write_payload-written f.payload w', split)

-- A payload over the limit is refused before anything is written.
pub write_frame_too_large :
    (typ : ℕ) (payload : List ℕ) (w : Writer)
    → max_frame_size < length payload
    → write_frame typ payload w ≡ (w, some payload_too_large)
unfolding write_frame
write_frame_too_large typ payload w h = rw (lt→ltb max_frame_size (length payload) h)

read_payload-append_inv :
    (t n : ℕ) (s : List ℕ) (f : Frame) (rest : List ℕ)
    → read_payload t n s ≡ frame f rest
    → (f.typ ≡ t) × (length f.payload ≡ n) × (n ≤ max_frame_size) × (f.payload ++ rest ≡ s)
unfolding read_payload
read_payload-append_inv t n s f rest h = ground (arith, length-take n s, take-append-drop n s)

-- A frame that is read from a stream of numbers below 256 is within the size limit, and its bytes
-- and those left over are the stream.
pub encode-read_frame :
    (s : List ℕ) (f : Frame) (rest : List ℕ)
    → All (λ b. b < 256) s
    → read_frame s ≡ frame f rest
    → Fits f × (encode f ++ rest ≡ s)
unfolding read_frame
encode-read_frame [] f rest a h = absurd (cc)
encode-read_frame (t ∷ []) f rest a h = absurd (cc)
encode-read_frame (t ∷ x ∷ []) f rest a h = absurd (cc)
encode-read_frame (t ∷ x ∷ y ∷ []) f rest a h = absurd (cc)
encode-read_frame (t ∷ x ∷ y ∷ z ∷ []) f rest a h = absurd (cc)
encode-read_frame (t ∷ x ∷ y ∷ z ∷ u ∷ s) f rest a h =
    let (p, n, fits, e) = read_payload-append_inv t (uint32 x y z u) s f rest h in
    let lx = a.1.0 in
    let ly = a.1.1.0 in
    let lz = a.1.1.1.0 in
    let lu = a.1.1.1.1.0 in
    let ex : length f.payload / 2 ^ 24 % 256 ≡ x = omega arith in
    let ey : length f.payload / 2 ^ 16 % 256 ≡ y = omega arith in
    let ez : length f.payload / 2 ^ 8 % 256 ≡ z = omega arith in
    let eu : length f.payload % 256 ≡ u = omega arith in (omega arith, cc)
