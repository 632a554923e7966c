-- ===== src/Proto/Framing/Lengths.antt =====
-- The four bytes of a length prefix, and the shape of a framed payload.
use zz_drop.Prelude.{ℕ, ◌<◌, ◌≤◌, ◌≡◌, refl, [], ◌∷◌, ◌++◌, Bytes, length, take, drop, arith, ok}
use zz_drop.Proto.Framing.{to_be_bytes, from_be_bytes, frame_payload, frame_limit}

pub from_be_bytes-to_be_bytes :
    (n : ℕ) (rest : Bytes) → n < 4294967296 → from_be_bytes (to_be_bytes n ++ rest) ≡ n
unfolding from_be_bytes to_be_bytes
from_be_bytes-to_be_bytes n rest h = omega arith

pub to_be_bytes-from_be_bytes :
    (a b c d : ℕ)
    → a < 256
    → b < 256
    → c < 256
    → d < 256
    → to_be_bytes (from_be_bytes (a ∷ b ∷ c ∷ d ∷ [])) ≡ a ∷ b ∷ c ∷ d ∷ []
unfolding from_be_bytes to_be_bytes
to_be_bytes-from_be_bytes a b c d ha hb hc hd = ground arith

pub length-to_be_bytes : (n : ℕ) → length (to_be_bytes n) ≡ 4
unfolding to_be_bytes
length-to_be_bytes n = refl

pub take-to_be_bytes : (n : ℕ) (rest : Bytes) → take 4 (to_be_bytes n ++ rest) ≡ to_be_bytes n ++ []
unfolding to_be_bytes
take-to_be_bytes n rest = refl

pub drop-to_be_bytes : (n : ℕ) (rest : Bytes) → drop 4 (to_be_bytes n ++ rest) ≡ rest
unfolding to_be_bytes
drop-to_be_bytes n rest = refl

-- A payload within the limit is framed behind its length.
pub frame_payload-eq :
    (payload : Bytes)
    → length payload ≤ frame_limit
    → frame_payload payload ≡ ok (to_be_bytes (length payload) ++ payload)
unfolding frame_payload
frame_payload-eq payload h = ground arith

pub frame_payload-eq-ok :
    (payload frame : Bytes)
    → frame_payload payload ≡ ok frame
    → (length payload ≤ frame_limit) × (to_be_bytes (length payload) ++ payload ≡ frame)
unfolding frame_payload
frame_payload-eq-ok payload frame h = ground arith
