-- ===== src/Lcc/Memory/OnDemand.antt =====
-- Reads of a description that is made on demand, in LCC/lcc-memory.c.
use train_utils.Common.{
  ℕ, zero, suc, ◌+◌, ◌%◌, ◌-◌, ◌^◌, ◌≤◌, ◌≡◌, refl, sym, ap, ap₂, ◌∙◌, arith, Bool-cases, inl, inr,
  true, Option, none, some, List, [], ◌∷◌, ◌++◌, ltb, ◌==◌, length, length-append, append-nil,
  get_or, take, drop, length-take, length-drop, take-append, drop-append, u32,
}
use train_utils.Lcc.Node.{Status}
use train_utils.Lcc.Cdi.{to_xml_at_offset}
use train_utils.Lcc.Cdi.Chunks.{flatten}
use train_utils.Lcc.Cdi.Bytes.{bytes_at, bytes_at-add, length-bytes_at, bytes_at-beyond}
use train_utils.Lcc.Cdi.Offset.{to_xml_at_offset_lem}
use train_utils.Lcc.Memory.{MemoryContext}
use train_utils.Lcc.Memory.Made.{cdi_bytes, at_most_64, made_bytes, description_bytes, read_cdi}

-- A whole chunk, also behind the end of the text.
aligned :
    (ss : List (List ℕ)) (a : ℕ)
    → a % 64 ≡ 0
    → (to_xml_at_offset ss a).1 ≡ bytes_at (flatten ss) a 64
aligned ss a h =
    let even : (a % 64 == 0) ≡ true = ground (arith, h) in
    elim (Bool-cases (ltb a (length (flatten ss)))) [
      | inl e ↦ ap (λ (r : Status × List ℕ). r.1) (to_xml_at_offset_lem ss a) ∙ rw (even, e) refl
      | inr e ↦
          ap (λ (r : Status × List ℕ). r.1) (to_xml_at_offset_lem ss a)
          ∙ rw (even, e) (sym (bytes_at-beyond (flatten ss) a 64 (ground (arith, e))))
    ]

-- Within some bytes, the bytes of a part of them.
part :
    (t : List ℕ) (a o n k : ℕ) → take n (drop o (bytes_at t a (o + (n + k)))) ≡ bytes_at t (a + o) n
part t a o n k =
    ap (λ l. take n (drop o l)) (bytes_at-add t a o (n + k))
    ∙ ap (λ j. take n (drop j (bytes_at t a o ++ bytes_at t (a + o) (n + k)))) {x = o}
        {y = length (bytes_at t a o)} (sym (length-bytes_at t a o))
    ∙ ap (λ l. take n l)
        (drop-append (bytes_at t a o) (bytes_at t (a + o) (n + k)) ∙ bytes_at-add t (a + o) n k)
    ∙ ap (λ j. take j (bytes_at t (a + o) n ++ bytes_at t (a + o + n) k)) {x = n}
        {y = length (bytes_at t (a + o) n)} (sym (length-bytes_at t (a + o) n))
    ∙ take-append (bytes_at t (a + o) n) (bytes_at t (a + o + n) k)

-- A read that does not reach past the last address gives the bytes of the text, with 0 behind its end.
pub made_bytes_lem :
    (ss : List (List ℕ)) (address n : ℕ)
    → n ≤ 64
    → address + n ≤ 2 ^ 32
    → made_bytes ss address n ≡ bytes_at (flatten ss) address n
unfolding made_bytes
made_bytes_lem ss address n few within = elim (Bool-cases (ltb 64 (offset + n))) [
  | inl over ↦
      let next : u32 (start + 64) ≡ start + 64 = ground (arith, over) in
      let k = 64 + 64 - offset - n in
      rw over (
        ap₂ (λ x y. take n (drop offset (x ++ y))) first
          (ap (λ a. (to_xml_at_offset ss a).1) next ∙ aligned ss (start + 64) (omega arith))
        ∙ ap (λ l. take n (drop offset l))
            (sym (bytes_at-add t start 64 64)
              ∙ ap (λ j. bytes_at t start j) {x = 64 + 64} {y = offset + (n + k)} (omega arith))
        ∙ part t start offset n k
        ∙ ap (λ a. bytes_at t a n) whole)
  | inr fits ↦
      let k = 64 - offset - n in
      rw fits (
        ap (λ x. take n (drop offset (x ++ []))) first
        ∙ ap (λ l. take n (drop offset l))
            (append-nil (bytes_at t start 64)
              ∙ ap (λ j. bytes_at t start j) {x = 64} {y = offset + (n + k)} (ground (arith, fits)))
        ∙ part t start offset n k
        ∙ ap (λ a. bytes_at t a n) whole)
]
  where
    t : List ℕ
    t = flatten ss

    start : ℕ
    start = address - address % 64

    offset : ℕ
    offset = address - start

    whole : start + offset ≡ address
    whole = omega arith

    first : (to_xml_at_offset ss start).1 ≡ bytes_at t start 64
    first = aligned ss start (omega arith)

-- As many bytes as are asked for, wherever the read is.
length-made_bytes :
    (ss : List (List ℕ)) (address n : ℕ) → n ≤ 64 → length (made_bytes ss address n) ≡ n
unfolding made_bytes
length-made_bytes ss address n few = elim (Bool-cases (ltb 64 (offset + n))) [
  | inl over ↦ rw over (
      omega (
        arith,
        first,
        length-take n (drop offset (chunk start ++ chunk (u32 (start + 64)))),
        length-drop offset (chunk start ++ chunk (u32 (start + 64))),
        length-append (chunk start) (chunk (u32 (start + 64))),
        length-chunk (u32 (start + 64)) (omega arith),
      ))
  | inr fits ↦ rw fits (
      ground (
        arith,
        fits,
        first,
        length-take n (drop offset (chunk start ++ [])),
        length-drop offset (chunk start ++ []),
        length-append (chunk start) [],
      ))
]
  where
    chunk : ℕ → List ℕ
    chunk a = (to_xml_at_offset ss a).1

    length-chunk : (a : ℕ) → a % 64 ≡ 0 → length (chunk a) ≡ 64
    length-chunk a h = ap length (aligned ss a h) ∙ length-bytes_at (flatten ss) a 64

    start : ℕ
    start = address - address % 64

    offset : ℕ
    offset = address - start

    first : length (chunk start) ≡ 64
    first = length-chunk start (omega arith)

length-cdi_bytes : (f : ℕ → ℕ) (address n : ℕ) → length (cdi_bytes f address n) ≡ n
length-cdi_bytes f address zero = refl
length-cdi_bytes f address (suc n) = ap suc (length-cdi_bytes f (address + 1) n)

few_enough : (n : ℕ) → n ≤ 64 → at_most_64 n ≡ n
few_enough n h = ground arith

length-description_bytes :
    (f : ℕ → ℕ) (d : Option (List (List ℕ))) (address n : ℕ)
    → n ≤ 64
    → length (description_bytes f d address n) ≡ n
length-description_bytes f none address n few = length-cdi_bytes f address n
length-description_bytes f (some ss) address n few =
    ap (λ k. length (made_bytes ss address k)) (few_enough n few)
    ∙ length-made_bytes ss address n few

pub length-read_cdi :
    (m : MemoryContext) (address n : ℕ) → n ≤ 64 → length (read_cdi m address n) ≡ n
unfolding read_cdi
length-read_cdi m address n few = length-description_bytes m.cdi_data m.cdi_strings address n few

-- Of a description in memory any number of bytes is taken.
pub length-read_cdi_any :
    (m : MemoryContext) (address n : ℕ) → m.cdi_strings ≡ none → length (read_cdi m address n) ≡ n
unfolding read_cdi
length-read_cdi_any m address n stored = rw stored (length-cdi_bytes m.cdi_data address n)

-- The text of a description as memory: 0 behind its end.
abbrev pub text_memory : List (List ℕ) → ℕ → ℕ
text_memory ss a = get_or (flatten ss) a 0

text_bytes :
    (ss : List (List ℕ)) (a n : ℕ) → bytes_at (flatten ss) a n ≡ cdi_bytes (text_memory ss) a n
text_bytes ss a zero = refl
text_bytes ss a (suc n) = ap (λ l. text_memory ss a ∷ l) (text_bytes ss (a + 1) n)

-- The context of a node that has the same text in memory.
abbrev pub stored : MemoryContext → List (List ℕ) → MemoryContext
stored m ss = record m { cdi_data = text_memory ss; cdi_strings = none }

pub read_cdi-stored :
    (m : MemoryContext) (ss : List (List ℕ)) (address n : ℕ)
    → m.cdi_strings ≡ some ss
    → n ≤ 64
    → address + n ≤ 2 ^ 32
    → read_cdi m address n ≡ read_cdi (stored m ss) address n
unfolding read_cdi
read_cdi-stored m ss address n made few within = rw made (
    ap (made_bytes ss address) (few_enough n few)
    ∙ made_bytes_lem ss address n few within
    ∙ text_bytes ss address n)
