-- ===== src/Bytes/Compare.antt =====
-- What `memcmp` and `memchr` of libc/string.c decide.
use alpha_os.Prelude.{
  ℕ, zero, suc, ◌+◌, ◌%◌, ◌<◌, ◌≡◌, ◌≢◌, refl, ◌⊎◌, inl, inr, arith, ltb, ◌==◌, Bool-cases,
}
use alpha_os.Prelude.Int.{ℤ, pos, negsuc}
use native.Mathlib.Decide.{dec_lt}
use alpha_os.Bytes.{Ptr, null, Memory, compare_bytes, memcmp, find_byte, memchr}

-- The order of C: the first byte that differs decides, or nothing differs.
pub data Lex (m : Memory) (p q : Ptr) (n : ℕ) : ℤ → Type 0 where
  same : ((j : ℕ) → j < n → m (p + j) ≡ m (q + j)) → Lex m p q n (pos 0)
  below :
      (i : ℕ)
      → i < n
      → ((j : ℕ) → j < i → m (p + j) ≡ m (q + j))
      → m (p + i) < m (q + i)
      → Lex m p q n (negsuc 0)
  above :
      (i : ℕ)
      → i < n
      → ((j : ℕ) → j < i → m (p + j) ≡ m (q + j))
      → m (q + i) < m (p + i)
      → Lex m p q n (pos 1)

module _ (p q : Ptr) (m : Memory) where
  -- The loop, once the first `i` bytes are known to agree.
  compare_bytes-Lex :
      (k i n : ℕ)
      → i + k ≡ n
      → ((j : ℕ) → j < i → m (p + j) ≡ m (q + j))
      → Lex m p q n (compare_bytes k i p q m)
  unfolding compare_bytes
  compare_bytes-Lex zero i n e seen = same λ j h. seen j (omega arith)
  compare_bytes-Lex (suc k) i n e seen = elim (Bool-cases (ltb (m (p + i)) (m (q + i)))) [
    | inl lt ↦ rw lt (below i (omega arith) seen (ground arith))
    | inr ge ↦ rw ge (elim (Bool-cases (ltb (m (q + i)) (m (p + i)))) [
      | inl gt ↦ rw gt (above i (omega arith) seen (ground arith))
      | inr le ↦ rw le (
          compare_bytes-Lex k (i + 1) n (omega arith) λ j h. elim (dec_lt j i) [
            | yes old ↦ seen j old
            | no new ↦ let here : j ≡ i = omega arith in rw here (ground arith)
          ])
    ])
  ]

-- `memcmp` returns 0 exactly when no byte differs, and else -1 or 1 by the first that does.
pub memcmp_lem : (p q : Ptr) (n : ℕ) (m : Memory) → Lex m p q n (memcmp p q n m)
unfolding memcmp
memcmp_lem p q n m = compare_bytes-Lex p q m n 0 n (omega arith) λ j h. absurd (omega arith)

module _ (p : Ptr) (c : ℕ) (m : Memory) (ne_null : 0 < p) where
  find_byte_lem :
      (k i n : ℕ)
      → i + k ≡ n
      → ((j : ℕ) → j < i → m (p + j) ≢ c % 256)
      → ((find_byte k i p c m ≡ null) × ((j : ℕ) → j < n → m (p + j) ≢ c % 256))
        ⊎ ((t : ℕ) × (t < n)
            × (find_byte k i p c m ≡ p + t)
            × (m (p + t) ≡ c % 256)
            × ((j : ℕ) → j < t → m (p + j) ≢ c % 256))
  unfolding find_byte
  find_byte_lem zero i n e seen = inl (refl, λ j h. seen j (omega arith))
  find_byte_lem (suc k) i n e seen = elim (Bool-cases (m (p + i) == c % 256)) [
    | inl hit ↦ rw hit (inr (i, omega arith, refl, ground arith, seen))
    | inr miss ↦ rw miss (
        find_byte_lem k (i + 1) n (omega arith) λ j h. elim (dec_lt j i) [
          | yes old ↦ seen j old
          | no new ↦ let here : j ≡ i = omega arith in rw here (ground arith)
        ])
  ]

  -- `memchr` in an object, whose address is not null: null if the low byte of `c` is not among the
  -- `n` bytes, and otherwise the address of its first occurrence.
  pub memchr_lem :
      (n : ℕ)
      → ((memchr p c n m ≡ null) × ((j : ℕ) → j < n → m (p + j) ≢ c % 256))
        ⊎ ((t : ℕ) × (t < n)
            × (memchr p c n m ≡ p + t)
            × (m (p + t) ≡ c % 256)
            × ((j : ℕ) → j < t → m (p + j) ≢ c % 256))
  unfolding memchr
  memchr_lem n = find_byte_lem n 0 n (omega arith) λ j h. absurd (omega arith)
