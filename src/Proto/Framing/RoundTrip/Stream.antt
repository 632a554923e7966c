-- ===== src/Proto/Framing/RoundTrip/Stream.antt =====
-- Many frames, one behind another on a connection.
use zz_drop.Prelude.{
  ℕ, zero, suc, ◌+◌, ◌-◌, ◌≤◌, ◌≡◌, refl, sym, List, [], ◌∷◌, ◌++◌, Bytes, length, arith, Result,
  ok, err, append_assoc, append-nil, ◌<◌, length-append, take-length-append, drop-length-append,
  All, ◌>>=◌,
}
use zz_drop.Proto.Framing.{
  to_be_bytes, from_be_bytes, frame_limit, FramingError, Reader, read_exact, read_frame, Writer,
  write_frame,
}
use zz_drop.Proto.Framing.Lengths.{from_be_bytes-to_be_bytes, length-to_be_bytes}

-- the bytes on the wire for one payload
abbrev pub framed : Bytes → Bytes
framed payload = to_be_bytes (length payload) ++ payload

abbrev pub framed_all : List Bytes → Bytes
framed_all [] = []
framed_all (p ∷ ps) = framed p ++ framed_all ps

-- Reading `n` frames from a connection, one after the other.
unfoldable pub read_frames : ℕ → Reader → Result FramingError (List Bytes × Reader)
read_frames zero r = ok ([], r)
read_frames (suc n) r = do
  (payload, r') ← read_frame r
  (payloads, r'') ← read_frames n r'
  ok (payload ∷ payloads, r'')

-- Writing payloads to a connection, one after the other, up to the first failure.
unfoldable pub write_frames : List Bytes → Writer → Result FramingError (Unit {0}) × Writer
write_frames [] w = (ok tt, w)
write_frames (p ∷ ps) w = elim (write_frame p w).0 [
  | ok _ ↦ write_frames ps (write_frame p w).1
  | err e ↦ (err e, (write_frame p w).1)
]

read_exact-append :
    (n : ℕ) (xs ys : Bytes) (fails : FramingError)
    → length xs ≡ n
    → read_exact n (record { incoming = xs ++ ys; then_fails = fails })
      ≡ ok (xs, record { incoming = ys; then_fails = fails })
unfolding read_exact
read_exact-append n xs ys fails e =
    rw (← e, take-length-append, drop-length-append) (ground (arith, length-append xs ys))

from_be_bytes-prefix : (n : ℕ) → n < 4294967296 → from_be_bytes (to_be_bytes n) ≡ n
from_be_bytes-prefix n h = rw append-nil at (from_be_bytes-to_be_bytes n [] h)

read_frame-prefix :
    (prefix payload rest : Bytes) (fails : FramingError)
    → length prefix ≡ 4
    → from_be_bytes prefix ≡ length payload
    → length payload ≤ frame_limit
    → read_frame (record { incoming = prefix ++ (payload ++ rest); then_fails = fails })
      ≡ ok (payload, record { incoming = rest; then_fails = fails })
read_frame-prefix prefix payload rest fails four len h =
    let first = read_exact-append 4 prefix (payload ++ rest) fails four in
    let second = read_exact-append (length payload) payload rest fails refl in
    unfold read_frame in ground (arith, first, second, len)

-- A read of a frame takes the frame's bytes and no more.
pub read_frame-framed :
    (payload rest : Bytes) (fails : FramingError)
    → length payload ≤ frame_limit
    → read_frame (record { incoming = framed payload ++ rest; then_fails = fails })
      ≡ ok (payload, record { incoming = rest; then_fails = fails })
read_frame-framed payload rest fails h = rw append_assoc (
    read_frame-prefix (to_be_bytes (length payload)) payload rest fails
      (length-to_be_bytes (length payload)) (from_be_bytes-prefix (length payload) (omega arith)) h)

pub write_frame-framed :
    (payload : Bytes) (w : Writer)
    → length payload ≤ frame_limit
    → 4 + length payload ≤ w.room
    → write_frame payload w ≡ (
      ok tt,
      record w { written = w.written ++ framed payload; room = w.room - (4 + length payload) },
    )
unfolding write_frame
write_frame-framed payload w h fits =
    ground (arith, append_assoc w.written (to_be_bytes (length payload)) payload)

write_frame-eq-ok :
    (payload : Bytes) (w : Writer)
    → (write_frame payload w).0 ≡ ok tt
    → (length payload ≤ frame_limit)
      × ((write_frame payload w).1.written ≡ w.written ++ framed payload)
unfolding write_frame
write_frame-eq-ok payload w h =
    ground (arith, append_assoc w.written (to_be_bytes (length payload)) payload)

read_frames-framed_all :
    (ps : List Bytes) (rest : Bytes) (fails : FramingError)
    → All (λ (p : Bytes). length p ≤ frame_limit) ps
    → read_frames (length ps) (record { incoming = framed_all ps ++ rest; then_fails = fails })
      ≡ ok (ps, record { incoming = rest; then_fails = fails })
unfolding read_frames
read_frames-framed_all [] rest fails h = refl
read_frames-framed_all (p ∷ ps) rest fails (fits, h) = rw (
  append_assoc (framed p) (framed_all ps) rest,
  read_frame-framed p (framed_all ps ++ rest) fails fits,
  read_frames-framed_all ps rest fails h,
)

pub write_frames-eq-ok :
    (ps : List Bytes) (w : Writer)
    → (write_frames ps w).0 ≡ ok tt
    → All (λ (p : Bytes). length p ≤ frame_limit) ps
      × ((write_frames ps w).1.written ≡ w.written ++ framed_all ps)
unfolding write_frames
write_frames-eq-ok [] w h = (tt, sym (append-nil w.written))
write_frames-eq-ok (p ∷ ps) w h =
    let w' = (write_frame p w).1 in
    ground (
      arith,
      write_frame-eq-ok p w,
      write_frames-eq-ok ps w',
      append_assoc w.written (framed p) (framed_all ps),
    )

-- If all payloads could be written to a fresh connection, the other end, reading as many frames as
-- were written, gets those payloads in order, and leaves whatever comes after them unread.
pub read_frames-write_frames :
    (ps : List Bytes) (w : Writer) (rest : Bytes) (fails : FramingError)
    → w.written ≡ []
    → (write_frames ps w).0 ≡ ok tt
    → read_frames
        (length ps)
        (record { incoming = (write_frames ps w).1.written ++ rest; then_fails = fails })
      ≡ ok (ps, record { incoming = rest; then_fails = fails })
read_frames-write_frames ps w rest fails fresh h =
    let (fits, e) = write_frames-eq-ok ps w h in
    rw (e, fresh) (read_frames-framed_all ps rest fails fits)
