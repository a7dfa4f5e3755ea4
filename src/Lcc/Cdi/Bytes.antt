-- ===== src/Lcc/Cdi/Bytes.antt =====
-- The bytes of the text of a description, of LCC/lcc-cdi-control.c, from an address on.
use train_utils.Common.{
  ℕ, zero, suc, ◌+◌, ◌≤◌, ◌<◌, ◌≡◌, refl, sym, ap, ◌∙◌, arith, List, [], ◌∷◌, ◌++◌, length,
  length-append, get_or, replicate, write_from, take, drop, take-append-drop, ap₂, take-write_from,
  drop-write_from, length-replicate, replicate-add, drop-append,
}

-- The bytes of a text from an address on, with 0 behind its end.
abbrev pub bytes_at : List ℕ → ℕ → ℕ → List ℕ
bytes_at t a zero = []
bytes_at t a (suc n) = get_or t a 0 ∷ bytes_at t (a + 1) n

pub bytes_at-add :
    (t : List ℕ) (a m n : ℕ) → bytes_at t a (m + n) ≡ bytes_at t a m ++ bytes_at t (a + m) n
bytes_at-add t a zero n =
    ap (λ k. bytes_at t a k) {x = 0 + n} {y = n} (omega arith)
    ∙ ap (λ k. bytes_at t k n) {x = a} {y = a + 0} (omega arith)
bytes_at-add t a (suc m) n =
    ap (λ k. bytes_at t a k) {x = suc m + n} {y = suc (m + n)} (omega arith)
    ∙ ap (λ l. get_or t a 0 ∷ l)
        (bytes_at-add t (a + 1) m n
          ∙ ap (λ k. bytes_at t (a + 1) m ++ bytes_at t k n) {x = a + 1 + m} {y = a + suc m}
              (omega arith))

pub length-bytes_at : (t : List ℕ) (a n : ℕ) → length (bytes_at t a n) ≡ n
length-bytes_at t a zero = refl
length-bytes_at t a (suc n) = ap suc (length-bytes_at t (a + 1) n)

-- A step past the first character.
bytes_at-suc : (c : ℕ) (t : List ℕ) (a n : ℕ) → bytes_at (c ∷ t) (suc a) n ≡ bytes_at t a n
bytes_at-suc c t a zero = refl
bytes_at-suc c t a (suc n) =
    ap (λ l. get_or t a 0 ∷ l)
      (ap (λ k. bytes_at (c ∷ t) k n) {x = suc a + 1} {y = suc (a + 1)} (omega arith)
        ∙ bytes_at-suc c t (a + 1) n)

pub bytes_at-past : (c t : List ℕ) (a n : ℕ) → bytes_at (c ++ t) (length c + a) n ≡ bytes_at t a n
bytes_at-past [] t a n = ap (λ k. bytes_at t k n) {x = 0 + a} {y = a} (omega arith)
bytes_at-past (x ∷ xs) t a n =
    ap (λ k. bytes_at (x ∷ (xs ++ t)) k n) {x = suc (length xs) + a} {y = suc (length xs + a)}
      (omega arith)
    ∙ bytes_at-suc x (xs ++ t) (length xs + a) n
    ∙ bytes_at-past xs t a n

pub bytes_at-nil : (a n : ℕ) → bytes_at [] a n ≡ replicate n 0
bytes_at-nil a zero = refl
bytes_at-nil a (suc n) = ap (λ l. 0 ∷ l) (bytes_at-nil (a + 1) n)

pub bytes_at-beyond : (t : List ℕ) (a n : ℕ) → length t ≤ a → bytes_at t a n ≡ replicate n 0
bytes_at-beyond [] a n h = bytes_at-nil a n
bytes_at-beyond (x ∷ xs) zero n h = absurd (omega arith)
bytes_at-beyond (x ∷ xs) (suc a) n h = bytes_at-suc x xs a n ∙ bytes_at-beyond xs a n (omega arith)

pub bytes_at_self : (c t : List ℕ) → bytes_at (c ++ t) 0 (length c) ≡ c
bytes_at_self [] t = refl
bytes_at_self (x ∷ xs) t =
    ap (λ l. x ∷ l)
      (ap (λ k. bytes_at (x ∷ (xs ++ t)) k (length xs)) {x = 0 + 1} {y = suc 0} (omega arith)
        ∙ bytes_at-suc x (xs ++ t) 0 (length xs)
        ∙ bytes_at_self xs t)

-- A text written over zeros.
pub written_over :
    (k : ℕ) (b : List ℕ) → write_from (replicate (length b + k) 0) 0 b ≡ b ++ replicate k 0
written_over k b =
    let zeros : List ℕ = replicate (length b + k) 0 in
    sym (take-append-drop (length b) (write_from zeros 0 b))
    ∙ ap₂ (λ x y. x ++ y)
        (ap (λ j. take j (write_from zeros 0 b)) {x = length b} {y = 0 + length b} (omega arith)
          ∙ take-write_from zeros 0 b (omega (arith, length-replicate {A = ℕ} (length b + k) 0)))
        (drop-write_from zeros (length b) 0 b (omega arith) ∙ zeros_left)
  where
    zeros_left : drop {A = ℕ} (length b) (replicate {A = ℕ} (length b + k) 0) ≡ replicate k 0
    zeros_left =
        ap (λ l. drop {A = ℕ} (length b) l) (replicate-add (length b) k 0)
        ∙ ap (λ j. drop {A = ℕ} j (replicate (length b) 0 ++ replicate k 0)) {x = length b}
            {y = length (replicate {A = ℕ} (length b) 0)}
            (omega (arith, length-replicate {A = ℕ} (length b) 0))
        ∙ drop-append (replicate (length b) 0) (replicate k 0)

-- A text that fits, and zeros up to the end of the buffer.
pub padded :
    (c t : List ℕ) (k : ℕ)
    → length c + k ≡ 64
    → (length c < 64 → t ≡ [])
    → c ++ replicate k 0 ≡ bytes_at (c ++ t) 0 64
padded c t k size ends =
    ap₂ (λ x y. x ++ y) (sym (bytes_at_self c t)) (sym (behind k size))
    ∙ sym (bytes_at-add (c ++ t) 0 (length c) k)
    ∙ ap (λ n. bytes_at (c ++ t) 0 n) size
  where
    behind : (j : ℕ) → length c + j ≡ 64 → bytes_at (c ++ t) (0 + length c) j ≡ replicate j 0
    behind zero e = refl
    behind (suc j) e =
        bytes_at-beyond (c ++ t) (0 + length c) (suc j)
          (omega (arith, length-append c t, ap length (ends (omega arith))))
