-- ===== src/Lcc/MemoryMap/Stored.antt =====
-- Proofs about LCC/lcc-memory-map.c: what is written is what is read.
use train_utils.Common.{
  ℕ, zero, suc, ◌+◌, ◌-◌, ◌^◌, ◌≤◌, ◌<◌, ◌≡◌, refl, sym, ap, ◌∙◌, arith, Bool, false, Option, none,
  some, List, [], ◌∷◌, ◌++◌, if◌then◌else◌, ◌==◌, length, take, drop, write_from, length-write_from,
  has_bits, Bool-cases, inl, inr, take-write_from, length-take, drop-append,
}
use train_utils.Lcc.Node.{Context}
use train_utils.Lcc.Memory.{Line, respond_read_reply_ok, respond_write_reply_ok}
use train_utils.Lcc.MemoryMap.{
  Segment, find_segment, put_memory, replied, beyond, overruns, memory_map_read, memory_map_write,
}

the_one : (x s : Segment) → some x ≡ some s → x ≡ s
the_one x s h = ground (arith, h)

abbrev holding : List ℕ → Segment → Option Segment
holding memory s = some (record s { memory = memory })

-- The segment that is found after a write is the one that was found before, with its new memory.
find_segment-put_memory :
    (ss : List Segment) (s : Segment) (space : ℕ) (memory : List ℕ)
    → find_segment ss space ≡ some s
    → find_segment (put_memory ss space memory) space ≡ some (record s { memory = memory })
unfolding find_segment put_memory
find_segment-put_memory [] s space memory h = ground (arith, h)
find_segment-put_memory (x ∷ xs) s space memory h = elim (Bool-cases (x.space == 0)) [
  | inl z ↦ ground (arith, z, h)
  | inr z ↦ elim (Bool-cases (x.space == space)) [
    | inl e ↦ rw (z, e, z, e) (ap (holding memory) (the_one x s (sym (rw (z, e) refl) ∙ h)))
    | inr e ↦ rw (z, e, z, e) (find_segment-put_memory xs s space memory (sym (rw (z, e) refl) ∙ h))
  ]
]

take-drop {ℓ} : {A : Type ℓ} (i n : ℕ) (xs : List A) → take n (drop i xs) ≡ drop i (take (i + n) xs)
take-drop zero n xs = ap (λ k. take k xs) (omega arith)
take-drop (suc i) zero [] =
    ap (λ k. drop (suc i) (take k [])) {x = suc (i + 0)} {y = suc i + 0} (omega arith)
take-drop (suc i) (suc n) [] =
    ap (λ k. drop (suc i) (take k [])) {x = suc (i + suc n)} {y = suc i + suc n} (omega arith)
take-drop (suc i) n (x ∷ xs) =
    take-drop i n xs
    ∙ ap (λ k. drop (suc i) (take k (x ∷ xs))) {x = suc (i + n)} {y = suc i + n} (omega arith)

-- A write reads back.
read_back :
    (xs bs : List ℕ) (i : ℕ)
    → i + length bs ≤ length xs
    → take (length bs) (drop i (write_from xs i bs)) ≡ bs
read_back xs bs i h =
    take-drop i (length bs) (write_from xs i bs)
    ∙ ap (λ l. drop i l) (take-write_from xs i bs h)
    ∙ ap (λ k. drop k (take i xs ++ bs)) (omega (arith, h, length-take i xs))
    ∙ drop-append (take i xs) bs

-- The segments after a write.
abbrev pub after_write : List Segment → Segment → ℕ → ℕ → List ℕ → List Segment
after_write ss s space address content =
    put_memory ss space (write_from s.memory (address - s.low_address) content)

module _ (c : Context) (l : Line) (ss : List Segment) (s : Segment) (told : Bool)
    (alias space address : ℕ) (content : List ℕ) where
  -- A write into a segment that can be written, within its limits and its memory, is answered as good
  -- and told to the client, and a read of the same bytes then answers with what was written.
  pub write_read_lem :
      find_segment ss space ≡ some s
      → has_bits s.space_flags 1 ≡ false
      → s.high_address + 1 < 2 ^ 32
      → s.low_address ≤ address
      → address + length content ≤ s.high_address + 1
      → address - s.low_address + length content ≤ length s.memory
      → (memory_map_write c l ss told alias space address content
          ≡ replied
              (after_write ss s space address content)
              (respond_write_reply_ok c l alias space address)
              (if told then some (space, address, length content) else none))
        × (memory_map_read c l
              (after_write ss s space address content)
              alias
              space
              address
              (length content)
            ≡ replied
                (after_write ss s space address content)
                (respond_read_reply_ok c l alias space address content)
                none)
  unfolding memory_map_write memory_map_read
  write_read_lem found writable top low high fits = (
    rw (found, writable, inside, kept) refl,
    rw
        (
          find_segment-put_memory ss s space (write_from s.memory (address - s.low_address) content)
              found,
          inside,
          kept_after,
          read_back s.memory content (address - s.low_address) fits,
        )
        refl,
  )
    where
      inside : beyond s address (length content) ≡ false
      inside = ground arith

      kept : overruns s address (length content) ≡ false
      kept = ground arith

      kept_after :
          overruns
            (record s { memory = write_from s.memory (address - s.low_address) content })
            address
            (length content)
          ≡ false
      kept_after = ground (arith, length-write_from s.memory (address - s.low_address) content)
