-- ===== src/Lcc/Datagram/Copying.antt =====
-- `memcpy` into the buffer of a datagram, inside and past its end.
use train_utils.Common.{
  ℕ, ◌+◌, ◌-◌, ◌≤◌, ◌≡◌, ap, ap₂, sym, ◌∙◌, arith, List, ◌++◌, length, take, drop, replicate,
  write_from, take-write_from, drop-write_from, take-append-drop, length-append, length-take,
  length-drop, length-replicate, append-nil,
}
use train_utils.Lcc.Datagram.{overwrite, copied}

pub length-copied : (content : List ℕ) (len : ℕ) → length (copied content len) ≡ len
unfolding copied
length-copied content len = omega (
  arith,
  length-append (take len content) (replicate (len - length content) 0),
  length-take len content,
  length-replicate {A = ℕ} (len - length content) 0,
)

pub length-overwrite :
    (xs : List ℕ) (i : ℕ) (bs : List ℕ)
    → i + length bs ≤ length xs
    → length (overwrite xs i bs) ≡ length xs
unfolding overwrite
length-overwrite xs i bs h = omega (
  arith,
  h,
  length-append (take i xs ++ bs) (drop (i + length bs) xs),
  length-append (take i xs) bs,
  length-take i xs,
  length-drop (i + length bs) xs,
)

-- Inside the array the bytes are set one after another.
pub overwrite-eq :
    (xs : List ℕ) (i : ℕ) (bs : List ℕ)
    → i + length bs ≤ length xs
    → overwrite xs i bs ≡ write_from xs i bs
unfolding overwrite
overwrite-eq xs i bs h =
    let n = i + length bs in
    ap₂ (λ ys zs. ys ++ zs) (sym (take-write_from xs i bs h))
      (sym (drop-write_from xs n i bs (omega arith)))
    ∙ take-append-drop n (write_from xs i bs)

pub copied-eq :
    (content chunk : List ℕ) (len : ℕ)
    → take len content ≡ chunk
    → len ≡ length chunk
    → copied content len ≡ chunk
unfolding copied
copied-eq content chunk len t l =
    ap (λ k. take len content ++ replicate k 0) {x = len - length content} {y = 0}
      (omega (arith, ap length t, l, length-take len content))
    ∙ append-nil (take len content)
    ∙ t
