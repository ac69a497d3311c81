-- ===== src/Fs/Data.antt =====
-- The transfer of bytes between a caller's array and `filesystem.data`.
use mathlib.Core.Path.{◌∙◌}
use alpha_os.Prelude.{
  ℕ, zero, suc, ◌+◌, ◌≤◌, ◌<◌, ◌≡◌, refl, ap, List, [], ◌∷◌, arith, length, take,
}
use alpha_os.Bytes.{Memory, poke}
use alpha_os.Fs.{write_bytes, read_bytes}

-- A write of `k` bytes at `offset` leaves the byte at `a` where it does not stand in them.
pub write_bytes-below :
    (m : Memory) (offset : ℕ) (bs : List ℕ) (a : ℕ) → a < offset → write_bytes m offset bs a ≡ m a
unfolding write_bytes poke
write_bytes-below m offset [] a h = refl
write_bytes-below m offset (b ∷ bs) a h =
    write_bytes-below (poke m offset b) (offset + 1) bs a (omega arith) ∙ ground arith

pub write_bytes-above :
    (m : Memory) (offset : ℕ) (bs : List ℕ) (a : ℕ)
    → offset + length bs ≤ a
    → write_bytes m offset bs a ≡ m a
unfolding write_bytes poke
write_bytes-above m offset [] a h = refl
write_bytes-above m offset (b ∷ bs) a h =
    write_bytes-above (poke m offset b) (offset + 1) bs a (omega arith) ∙ ground arith

write_bytes-first :
    (m : Memory) (offset b : ℕ) (bs : List ℕ) → write_bytes m offset (b ∷ bs) offset ≡ b
unfolding write_bytes poke
write_bytes-first m offset b bs =
    write_bytes-below (poke m offset b) (offset + 1) bs offset (omega arith) ∙ ground arith

-- What is written is read back.
pub read_bytes-write_bytes :
    (m : Memory) (offset : ℕ) (bs : List ℕ) (n : ℕ)
    → n ≤ length bs
    → read_bytes (write_bytes m offset bs) offset n ≡ take n bs
unfolding write_bytes read_bytes
read_bytes-write_bytes m offset bs zero h = refl
read_bytes-write_bytes m offset [] (suc n) h = absurd (omega arith)
read_bytes-write_bytes m offset (b ∷ bs) (suc n) h = rw (write_bytes-first m offset b bs) (
    ap (λ rest. b ∷ rest)
      (read_bytes-write_bytes (poke m offset b) (offset + 1) bs n (omega arith)))

-- A read sees only its range.
pub read_bytes-frame :
    (m m' : Memory) (offset n : ℕ)
    → ((a : ℕ) → offset ≤ a → a < offset + n → m a ≡ m' a)
    → read_bytes m offset n ≡ read_bytes m' offset n
unfolding read_bytes
read_bytes-frame m m' offset zero h = refl
read_bytes-frame m m' offset (suc n) h =
    let rest = read_bytes-frame m m' (offset + 1) n λ a low high. h a (omega arith) (omega arith) in
    rw (h offset (omega arith) (omega arith), rest) refl
