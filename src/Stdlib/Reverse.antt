-- ===== src/Stdlib/Reverse.antt =====
-- The loop of `itoa` in libc/stdlib.c that reverses the bytes between two addresses.
use alpha_os.Prelude.{
  ℕ, zero, suc, ◌+◌, ◌-◌, ◌*◌, ◌≤◌, ◌<◌, ◌≡◌, ◌≢◌, ap, ◌⊎◌, inl, inr, refl, ◌∙◌, some, arith, ltb,
  ◌==◌, Bool-cases,
}
use alpha_os.Bytes.{Ptr, Memory, poke}
use alpha_os.Stdlib.{reverse_loop}

-- The bytes from `p` to `q` are in reverse order, and the others as before.
pub record Reversed (m m' : Memory) (p q : Ptr) : Type 0 where
  pub inside : (a : Ptr) → p ≤ a → a ≤ q → m' a ≡ m (p + q - a)
  pub outside : (a : Ptr) → (a < p) ⊎ (q < a) → m' a ≡ m a

abbrev exchange : Memory → (p q : Ptr) → Memory
exchange m p q = poke (poke m q (m p)) p (m q)

exchange-low : (m : Memory) (p q : Ptr) → exchange m p q p ≡ m q
unfolding poke
exchange-low m p q = ground arith

exchange-high : (m : Memory) (p q : Ptr) → p < q → exchange m p q q ≡ m p
unfolding poke
exchange-high m p q h = ground arith

exchange-other : (m : Memory) (p q a : Ptr) → a ≢ p → a ≢ q → exchange m p q a ≡ m a
unfolding poke
exchange-other m p q a np nq = ground arith

Reversed-next :
    (m m' : Memory) (p q : Ptr)
    → p < q
    → Reversed (exchange m p q) m' (p + 1) (q - 1)
    → Reversed m m' p q
Reversed-next m m' p q lt r = record { inside = inside; outside = outside }
  where
    inside : (a : Ptr) → p ≤ a → a ≤ q → m' a ≡ m (p + q - a)
    inside a lo hi = elim (Bool-cases (a == p)) [
      | inl at_p ↦
          let e : a ≡ p = ground arith in
          let other : q ≡ p + q - a = omega arith in
          r.outside a (inl (omega arith)) ∙ ap (exchange m p q) e ∙ exchange-low m p q ∙ ap m other
      | inr not_p ↦ elim (Bool-cases (a == q)) [
        | inl at_q ↦
            let e : a ≡ q = ground arith in
            let other : p ≡ p + q - a = omega arith in
            r.outside a (inr (omega arith))
            ∙ ap (exchange m p q) e
            ∙ exchange-high m p q lt
            ∙ ap m other
        | inr not_q ↦
            let above : p < a = ground arith in
            let below : a < q = ground arith in
            let same : p + 1 + (q - 1) - a ≡ p + q - a = omega arith in
            r.inside a (omega arith) (omega arith)
            ∙ ap (exchange m p q) same
            ∙ exchange-other m p q (p + q - a) (λ e. omega arith) (λ e. omega arith)
      ]
    ]

    outside : (a : Ptr) → (a < p) ⊎ (q < a) → m' a ≡ m a
    outside a (inl lo) =
        r.outside a (inl (omega arith))
        ∙ exchange-other m p q a (λ e. omega arith) (λ e. omega arith)
    outside a (inr hi) =
        r.outside a (inr (omega arith))
        ∙ exchange-other m p q a (λ e. omega arith) (λ e. omega arith)

-- With a round for each two bytes, the loop reverses them.
pub reverse_loop_lem :
    (fuel : ℕ) (p q : Ptr) (m : Memory)
    → q + 1 < p + 2 * fuel
    → p ≤ q + 1
    → (m' : Memory) × (reverse_loop fuel p q m ≡ some m') × Reversed m m' p q
unfolding reverse_loop
reverse_loop_lem zero p q m enough le = absurd (omega arith)
reverse_loop_lem (suc f) p q m enough le = elim (Bool-cases (ltb p q)) [
  | inl more ↦
      let lt : p < q = ground arith in
      let (m', e, r) =
        reverse_loop_lem f (p + 1) (q - 1) (exchange m p q) (omega arith) (omega arith) in
      (m', rw more e, Reversed-next m m' p q lt r)
  | inr done ↦ (
    m,
    rw done refl,
    record {
      inside = λ a lo hi. ap m {x = a} {y = p + q - a} (ground arith);
      outside = λ a h. refl;
    },
  )
]
