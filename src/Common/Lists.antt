-- ===== src/Common/Lists.antt =====
-- Lists measured and indexed by native numbers: the C arrays of the program.
use Prim.Native.Nat.{ℕ, zero, suc, ◌+◌, ◌-◌, ◌≤◌, ◌<◌, min}
use mathlib.Core.Path.{◌≡◌, refl, ap, sym, ◌∙◌}
use mathlib.Core.Logic.{◌≢◌}
use mathlib.Core.List.{List, [], ◌∷◌, ◌++◌, append-nil, append_assoc}
use native.Mathlib.Omega.{arith}

module _ {ℓ} {A : Type ℓ} where
  abbrev pub length : List A → ℕ
  length [] = 0
  length (x ∷ xs) = suc (length xs)

  abbrev pub get_or : List A → ℕ → A → A
  get_or [] i d = d
  get_or (x ∷ xs) zero d = x
  get_or (x ∷ xs) (suc i) d = get_or xs i d

  -- A write out of bounds changes nothing.
  abbrev pub set : List A → ℕ → A → List A
  set [] i v = []
  set (x ∷ xs) zero v = v ∷ xs
  set (x ∷ xs) (suc i) v = x ∷ set xs i v

  abbrev pub take : ℕ → List A → List A
  take zero xs = []
  take (suc n) [] = []
  take (suc n) (x ∷ xs) = x ∷ take n xs

  abbrev pub drop : ℕ → List A → List A
  drop zero xs = xs
  drop (suc n) [] = []
  drop (suc n) (x ∷ xs) = drop n xs

  abbrev pub replicate : ℕ → A → List A
  replicate zero a = []
  replicate (suc n) a = a ∷ replicate n a

  pub length-append : (xs ys : List A) → length (xs ++ ys) ≡ length xs + length ys
  length-append [] ys = omega arith
  length-append (x ∷ xs) ys = omega (arith, length-append xs ys)

  pub length-set : (xs : List A) (i : ℕ) (v : A) → length (set xs i v) ≡ length xs
  length-set [] i v = refl
  length-set (x ∷ xs) zero v = refl
  length-set (x ∷ xs) (suc i) v = ap suc (length-set xs i v)

  pub set-set : (xs : List A) (i : ℕ) (v w : A) → set (set xs i v) i w ≡ set xs i w
  set-set [] i v w = refl
  set-set (x ∷ xs) zero v w = refl
  set-set (x ∷ xs) (suc i) v w = ap (λ l. x ∷ l) (set-set xs i v w)

  pub get_or-set_self :
      (xs : List A) (i : ℕ) (v d : A) → i < length xs → get_or (set xs i v) i d ≡ v
  get_or-set_self [] i v d h = absurd (omega arith)
  get_or-set_self (x ∷ xs) zero v d h = refl
  get_or-set_self (x ∷ xs) (suc i) v d h = get_or-set_self xs i v d (omega arith)

  pub get_or-set_ne :
      (xs : List A) (i j : ℕ) (v d : A) → i ≢ j → get_or (set xs i v) j d ≡ get_or xs j d
  get_or-set_ne [] i j v d h = refl
  get_or-set_ne (x ∷ xs) zero zero v d h = absurd (h refl)
  get_or-set_ne (x ∷ xs) zero (suc j) v d h = refl
  get_or-set_ne (x ∷ xs) (suc i) zero v d h = refl
  get_or-set_ne (x ∷ xs) (suc i) (suc j) v d h = get_or-set_ne xs i j v d (λ e. h (ap suc e))

  pub length-take : (n : ℕ) (xs : List A) → length (take n xs) ≡ min n (length xs)
  length-take zero xs = omega arith
  length-take (suc n) [] = omega arith
  length-take (suc n) (x ∷ xs) = omega (arith, length-take n xs)

  pub length-drop : (n : ℕ) (xs : List A) → length (drop n xs) ≡ length xs - n
  length-drop zero xs = omega arith
  length-drop (suc n) [] = omega arith
  length-drop (suc n) (x ∷ xs) = omega (arith, length-drop n xs)

  pub length-replicate : (n : ℕ) (a : A) → length (replicate n a) ≡ n
  length-replicate zero a = refl
  length-replicate (suc n) a = ap suc (length-replicate n a)

  pub replicate-add : (m n : ℕ) (a : A) → replicate (m + n) a ≡ replicate m a ++ replicate n a
  replicate-add zero n a = ap (λ k. replicate k a) (omega arith)
  replicate-add (suc m) n a =
      ap (λ k. replicate k a) {x = suc m + n} {y = suc (m + n)} (omega arith)
      ∙ ap (λ l. a ∷ l) (replicate-add m n a)

  -- `bs` written into `xs` from index `i` on.
  unfoldable pub write_from : List A → ℕ → List A → List A
  write_from xs i [] = xs
  write_from xs i (b ∷ bs) = write_from (set xs i b) (i + 1) bs

  pub length-write_from :
      (xs : List A) (i : ℕ) (bs : List A) → length (write_from xs i bs) ≡ length xs
  unfolding write_from
  length-write_from xs i [] = refl
  length-write_from xs i (b ∷ bs) = length-write_from (set xs i b) (i + 1) bs ∙ length-set xs i b

  pub take-append : (xs ys : List A) → take (length xs) (xs ++ ys) ≡ xs
  take-append [] ys = refl
  take-append (x ∷ xs) ys = ap (λ l. x ∷ l) (take-append xs ys)

  pub drop-append : (xs ys : List A) → drop (length xs) (xs ++ ys) ≡ ys
  drop-append [] ys = refl
  drop-append (x ∷ xs) ys = drop-append xs ys

  -- Writing just past a prefix makes the prefix longer by the value.
  pub take-set :
      (xs : List A) (i : ℕ) (v : A)
      → i < length xs
      → take (suc i) (set xs i v) ≡ take i xs ++ (v ∷ [])
  take-set [] i v h = absurd (omega arith)
  take-set (x ∷ xs) zero v h = refl
  take-set (x ∷ xs) (suc i) v h = ap (λ l. x ∷ l) (take-set xs i v (omega arith))

  pub take-suc :
      (xs : List A) (i : ℕ) (d : A)
      → i < length xs
      → take (suc i) xs ≡ take i xs ++ (get_or xs i d ∷ [])
  take-suc [] i d h = absurd (omega arith)
  take-suc (x ∷ xs) zero d h = refl
  take-suc (x ∷ xs) (suc i) d h = ap (λ l. x ∷ l) (take-suc xs i d (omega arith))

  pub take-set_any : (xs : List A) (n i : ℕ) (v : A) → take n (set xs i v) ≡ set (take n xs) i v
  take-set_any [] zero i v = refl
  take-set_any [] (suc n) i v = refl
  take-set_any (x ∷ xs) zero i v = refl
  take-set_any (x ∷ xs) (suc n) zero v = refl
  take-set_any (x ∷ xs) (suc n) (suc i) v = ap (λ l. x ∷ l) (take-set_any xs n i v)

  pub get_or-take : (xs : List A) (n i : ℕ) (d : A) → i < n → get_or (take n xs) i d ≡ get_or xs i d
  get_or-take [] zero i d h = refl
  get_or-take [] (suc n) i d h = refl
  get_or-take (x ∷ xs) zero i d h = elim h [ ]
  get_or-take (x ∷ xs) (suc n) zero d h = refl
  get_or-take (x ∷ xs) (suc n) (suc i) d h = get_or-take xs n i d (omega arith)

  pub get_or-drop : (xs : List A) (n i : ℕ) (d : A) → get_or (drop n xs) i d ≡ get_or xs (n + i) d
  get_or-drop xs zero i d = ap (λ k. get_or xs k d) (omega arith)
  get_or-drop [] (suc n) i d = refl
  get_or-drop (x ∷ xs) (suc n) i d =
      get_or-drop xs n i d
      ∙ ap (λ k. get_or (x ∷ xs) k d) {x = suc (n + i)} {y = suc n + i} (omega arith)

  pub get_or-append_left :
      (xs ys : List A) (i : ℕ) (d : A) → i < length xs → get_or (xs ++ ys) i d ≡ get_or xs i d
  get_or-append_left [] ys i d h = absurd (omega arith)
  get_or-append_left (x ∷ xs) ys zero d h = refl
  get_or-append_left (x ∷ xs) ys (suc i) d h = get_or-append_left xs ys i d (omega arith)

  pub take-append-drop : (n : ℕ) (xs : List A) → take n xs ++ drop n xs ≡ xs
  take-append-drop zero xs = refl
  take-append-drop (suc n) [] = refl
  take-append-drop (suc n) (x ∷ xs) = ap (λ l. x ∷ l) (take-append-drop n xs)

  pub take_all : (n : ℕ) (xs : List A) → length xs ≤ n → take n xs ≡ xs
  take_all zero [] h = refl
  take_all zero (x ∷ xs) h = absurd (omega arith)
  take_all (suc n) [] h = refl
  take_all (suc n) (x ∷ xs) h = ap (λ l. x ∷ l) (take_all n xs (omega arith))

  pub take-write_from :
      (xs : List A) (i : ℕ) (bs : List A)
      → i + length bs ≤ length xs
      → take (i + length bs) (write_from xs i bs) ≡ take i xs ++ bs
  unfolding write_from
  take-write_from xs i [] h = ap (λ k. take k xs) (omega arith) ∙ sym (append-nil (take i xs))
  take-write_from xs i (b ∷ bs) h =
      ap (λ k. take k (write_from (set xs i b) (i + 1) bs)) (omega arith)
      ∙ take-write_from (set xs i b) (i + 1) bs (omega (arith, length-set xs i b))
      ∙ ap (λ k. take k (set xs i b) ++ bs) {x = i + 1} {y = suc i} (omega arith)
      ∙ ap (λ l. l ++ bs) (take-set xs i b (omega arith))
      ∙ append_assoc (take i xs) (b ∷ []) bs

  pub take-set_after : (xs : List A) (j i : ℕ) (b : A) → j ≤ i → take j (set xs i b) ≡ take j xs
  take-set_after xs zero i b h = refl
  take-set_after [] (suc j) i b h = refl
  take-set_after (x ∷ xs) (suc j) zero b h = absurd (omega arith)
  take-set_after (x ∷ xs) (suc j) (suc i) b h =
      ap (λ l. x ∷ l) (take-set_after xs j i b (omega arith))

  -- What stands before the first place written stays.
  pub take-write_before :
      (xs : List A) (j i : ℕ) (bs : List A) → j ≤ i → take j (write_from xs i bs) ≡ take j xs
  unfolding write_from
  take-write_before xs j i [] h = refl
  take-write_before xs j i (b ∷ bs) h =
      take-write_before (set xs i b) j (i + 1) bs (omega arith) ∙ take-set_after xs j i b h

  pub drop-set_before : (xs : List A) (j i : ℕ) (b : A) → i < j → drop j (set xs i b) ≡ drop j xs
  drop-set_before xs zero i b h = absurd (omega arith)
  drop-set_before [] (suc j) i b h = refl
  drop-set_before (x ∷ xs) (suc j) zero b h = refl
  drop-set_before (x ∷ xs) (suc j) (suc i) b h = drop-set_before xs j i b (omega arith)

  -- What stands behind the last place written stays.
  pub drop-write_from :
      (xs : List A) (j i : ℕ) (bs : List A)
      → i + length bs ≤ j
      → drop j (write_from xs i bs) ≡ drop j xs
  unfolding write_from
  drop-write_from xs j i [] h = refl
  drop-write_from xs j i (b ∷ bs) h =
      drop-write_from (set xs i b) j (i + 1) bs (omega arith)
      ∙ drop-set_before xs j i b (omega arith)

  drop_nil : (n : ℕ) → ◌≡◌ {A = List A} (drop n []) []
  drop_nil zero = refl
  drop_nil (suc n) = refl

  pub drop-drop : (m n : ℕ) (xs : List A) → drop n (drop m xs) ≡ drop (m + n) xs
  drop-drop zero n xs = ap (λ k. drop k xs) (omega arith)
  drop-drop (suc m) n [] = drop_nil n ∙ sym (drop_nil (suc m + n))
  drop-drop (suc m) n (x ∷ xs) =
      drop-drop m n xs ∙ ap (λ k. drop k (x ∷ xs)) {x = suc (m + n)} {y = suc m + n} (omega arith)

  pub drop-set : (xs : List A) (n i : ℕ) (b : A) → drop n (set xs (n + i) b) ≡ set (drop n xs) i b
  drop-set xs zero i b = ap (λ k. set xs k b) (omega arith)
  drop-set [] (suc n) i b = refl
  drop-set (x ∷ xs) (suc n) i b =
      ap (λ k. drop (suc n) (set (x ∷ xs) k b)) {x = suc n + i} {y = suc (n + i)} (omega arith)
      ∙ drop-set xs n i b

  -- A write of the value that is there changes nothing.
  pub set-get_or : (xs : List A) (i : ℕ) (b : A) → get_or xs i b ≡ b → set xs i b ≡ xs
  set-get_or [] i b e = refl
  set-get_or (x ∷ xs) zero b e = ap (λ y. y ∷ xs) (sym e)
  set-get_or (x ∷ xs) (suc i) b e = ap (λ l. x ∷ l) (set-get_or xs i b e)

abbrev pub All {ℓ κ} : {A : Type ℓ} → (A → Type κ) → List A → Type κ
All P [] = Unit
All P (x ∷ xs) = P x × All P xs

-- The bytes of a buffer.
abbrev pub IsBytes : List ℕ → Type 0
IsBytes = All (λ b. b < 256)

pub get_or-IsBytes : (xs : List ℕ) (i : ℕ) → IsBytes xs → get_or xs i 0 < 256
get_or-IsBytes [] i h = omega arith
get_or-IsBytes (x ∷ xs) zero h = h.0
get_or-IsBytes (x ∷ xs) (suc i) h = get_or-IsBytes xs i h.1

pub set-IsBytes : (xs : List ℕ) (i v : ℕ) → IsBytes xs → v < 256 → IsBytes (set xs i v)
set-IsBytes [] i v h k = h
set-IsBytes (x ∷ xs) zero v h k = (k, h.1)
set-IsBytes (x ∷ xs) (suc i) v h k = (h.0, set-IsBytes xs i v h.1 k)
