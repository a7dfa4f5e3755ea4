-- ===== src/Lcc/Cdi/Offset.antt =====
-- lcc_cdi_control_to_xml_at_offset of LCC/lcc-cdi-control.c: which bytes a chunk holds.
use train_utils.Common.{
  ℕ, zero, suc, ◌+◌, ◌*◌, ◌/◌, ◌%◌, ◌-◌, ◌&&◌, ◌<◌, ◌≡◌, ◌≢◌, refl, sym, ap, ◌∙◌, arith, Bool,
  Bool-cases, inl, inr, true, false, List, [], ◌∷◌, ◌++◌, if◌then◌else◌, ltb, ◌==◌, length,
  length-append, append-nil, append_assoc, All, replicate, write_from, ap₂,
}
use train_utils.Lcc.Node.{Status, ok, error_generic}
use train_utils.Lcc.Cdi.{
  last_chunk, to_xml, for_each, OffsetParseState, data_at_offset, to_xml_at_offset,
}
use train_utils.Lcc.Cdi.Bytes.{
  bytes_at, bytes_at-past, bytes_at-nil, bytes_at-beyond, written_over, padded,
}
use train_utils.Lcc.Cdi.Chunks.{flatten, Full, Cut, to_xml-Cut}

-- A chunk behind the one that is wanted changes neither the bytes nor the success.
past :
    (cs : List (List ℕ)) (s : OffsetParseState)
    → s.desired_offset < s.current_offset
    → ((for_each data_at_offset cs s).success ≡ s.success)
      × ((for_each data_at_offset cs s).buffer_output ≡ s.buffer_output)
unfolding for_each data_at_offset
past [] s h = (refl, refl)
past (c ∷ cs) s h =
    let missed : (s.current_offset == s.desired_offset) ≡ false = ground arith in
    let later = past cs (data_at_offset c s) (omega arith) in
    (later.0 ∙ rw missed refl, later.1 ∙ rw missed refl)

-- Before any call, or at one that is not yet wanted: nothing is found, and `64 * k` bytes are to come.
record Seeks (s : OffsetParseState) (k : ℕ) : Type 0 where
  pub ahead : s.current_offset + 64 * k ≡ s.desired_offset
  pub nothing_yet : s.success ≡ false
  pub blank : s.buffer_output ≡ replicate 64 0

abbrev Finds : OffsetParseState → List ℕ → ℕ → Type 0
Finds e t k = (e.success ≡ ltb (64 * k) (length t)) × (e.buffer_output ≡ bytes_at t (64 * k) 64)

module _ (s : OffsetParseState) (c : List ℕ) (cs : List (List ℕ)) where
  -- The call that is wanted.
  hit :
      Seeks s 0
      → 0 < length c
      → (k : ℕ) → length c + k ≡ 64
      → ((for_each data_at_offset (c ∷ cs) s).success ≡ true)
        × ((for_each data_at_offset (c ∷ cs) s).buffer_output ≡ c ++ replicate k 0)
  unfolding for_each data_at_offset
  hit v some_text k size =
      let here : (s.current_offset == s.desired_offset) ≡ true = ground (arith, v.ahead) in
      let later = past cs (data_at_offset c s) (omega (arith, v.ahead)) in
      (
        later.0 ∙ rw here refl,
        later.1
            ∙ rw here (
                ap (λ l. write_from l 0 c) (v.blank ∙ ap (λ j. replicate j 0) (sym size))
                ∙ written_over k c),
      )

missed :
    (s : OffsetParseState) (c : List ℕ) (k : ℕ)
    → Seeks s (suc k)
    → ((data_at_offset c s).success ≡ false) × ((data_at_offset c s).buffer_output ≡ replicate 64 0)
unfolding data_at_offset
missed s c k v =
    let not_here : (s.current_offset == s.desired_offset) ≡ false = ground (arith, v.ahead) in
    (rw not_here v.nothing_yet, rw not_here v.blank)

missed-Seeks :
    (s : OffsetParseState) (c : List ℕ) (k : ℕ)
    → Seeks s (suc k)
    → length c ≡ 64
    → Seeks (data_at_offset c s) k
unfolding data_at_offset
missed-Seeks s c k v size =
    let m = missed s c k v in
    record { ahead = omega (arith, v.ahead, size); nothing_yet = m.0; blank = m.1 }

-- The call at the offset that is wanted is found, and brings the bytes from there on.
found :
    (whole : List (List ℕ)) (rest : List ℕ) (k : ℕ) (s : OffsetParseState)
    → Seeks s k
    → All Full whole
    → length rest < 64
    → Finds (for_each data_at_offset (whole ++ last_chunk rest) s) (flatten whole ++ rest) k
unfolding for_each
found [] [] k s v full short =
    (v.nothing_yet ∙ ground arith, v.blank ∙ sym (bytes_at-nil (64 * k) 64))
found [] (c ∷ cs) zero s v full short =
    let h = hit s (c ∷ cs) [] v (omega arith) (64 - length (c ∷ cs)) (omega arith) in
    (
      h.0 ∙ ground arith,
      h.1
          ∙ padded (c ∷ cs) [] (64 - length (c ∷ cs)) (omega arith) (λ e. refl)
          ∙ ap (λ t. bytes_at t 0 64) (append-nil (c ∷ cs))
          ∙ ap (λ a. bytes_at (c ∷ cs) a 64) {x = 0} {y = 64 * 0} (omega arith),
    )
found [] (c ∷ cs) (suc k) s v full short =
    let m = missed s (c ∷ cs) k v in
    (m.0 ∙ ground arith, m.1 ∙ sym (bytes_at-beyond (c ∷ cs) (64 * suc k) 64 (omega arith)))
found (c ∷ cs) rest zero s v full short =
    let h = hit s c (cs ++ last_chunk rest) v (omega (arith, full.0)) 0 (omega (arith, full.0)) in
    (
      h.0
          ∙ ground
              (arith, full.0, length-append (c ++ flatten cs) rest, length-append c (flatten cs)),
      h.1
          ∙ padded c (flatten cs ++ rest) 0 (omega (arith, full.0))
              (λ e. absurd (omega (arith, full.0)))
          ∙ ap (λ t. bytes_at t 0 64) (sym (append_assoc c (flatten cs) rest))
          ∙ ap (λ a. bytes_at ((c ++ flatten cs) ++ rest) a 64) {x = 0} {y = 64 * 0} (omega arith),
    )
found (c ∷ cs) rest (suc k) s v full short =
    let ih = found cs rest k (data_at_offset c s) (missed-Seeks s c k v full.0) full.1 short in
    let t = flatten cs ++ rest in
    (
      ih.0
          ∙ ground (arith, full.0, length-append c t, ap length (append_assoc c (flatten cs) rest)),
      ih.1
          ∙ sym (bytes_at-past c t (64 * k) 64)
          ∙ ap (λ a. bytes_at (c ++ t) a 64) {x = length c + 64 * k} {y = 64 * suc k}
              (omega (arith, full.0))
          ∙ ap (λ l. bytes_at l (64 * suc k) 64) (sym (append_assoc c (flatten cs) rest)),
    )

-- Between two calls nothing is found.
between :
    (whole : List (List ℕ)) (rest : List ℕ) (s : OffsetParseState)
    → s.current_offset % 64 ≢ s.desired_offset % 64
    → All Full whole
    → ((for_each data_at_offset (whole ++ last_chunk rest) s).success ≡ s.success)
      × ((for_each data_at_offset (whole ++ last_chunk rest) s).buffer_output ≡ s.buffer_output)
unfolding for_each data_at_offset
between [] [] s off full = (refl, refl)
between [] (c ∷ cs) s off full =
    let not_here : (s.current_offset == s.desired_offset) ≡ false = ground arith in
    (rw not_here refl, rw not_here refl)
between (c ∷ cs) rest s off full =
    let not_here : (s.current_offset == s.desired_offset) ≡ false = ground arith in
    let later = between cs rest (data_at_offset c s) (λ e. off (omega (arith, e, full.0))) full.1 in
    (later.0 ∙ rw not_here refl, later.1 ∙ rw not_here refl)

abbrev start_at : ℕ → OffsetParseState
start_at offset = record {
  current_offset = 0;
  desired_offset = offset;
  success = false;
  buffer_output = replicate 64 0;
}

abbrev outcome : Bool × List ℕ → Status × List ℕ
outcome (b, l) = ((if b then ok else error_generic), l)

-- At an offset that is a multiple of 64 and within the text, lcc_cdi_control_to_xml_at_offset gives the
-- 64 bytes of the text from there on, with 0 behind its end; at any other it fails, with a buffer of
-- zeros.
pub to_xml_at_offset_lem :
    (ss : List (List ℕ)) (offset : ℕ)
    → to_xml_at_offset ss offset ≡ (
        if (offset % 64 == 0) && ltb offset (length (flatten ss))
        then (ok, bytes_at (flatten ss) offset 64)
        else (error_generic, replicate 64 0))
unfolding to_xml_at_offset
to_xml_at_offset_lem ss offset = elim (Bool-cases (offset % 64 == 0)) [
  | inl whole ↦
      let k = offset / 64 in
      let f =
        found v.whole v.rest k (start_at offset)
          (record { ahead = ground (arith, whole); nothing_yet = refl; blank = refl }) v.full
          v.short in
      let same : 64 * k ≡ offset = ground (arith, whole) in
      called
      ∙ ap₂ (λ b l. outcome (b, l)) (f.0 ∙ ap (λ n. ltb n (length t)) same)
          (f.1 ∙ ap (λ n. bytes_at t n 64) same)
      ∙ ap (λ x. outcome (ltb offset (length x), bytes_at x offset 64)) v.all_text
      ∙ rw whole (ends (flatten ss) offset)
  | inr part ↦
      let f = between v.whole v.rest (start_at offset) (ground (arith, part)) v.full in
      called ∙ ap₂ (λ b l. outcome (b, l)) f.0 f.1 ∙ rw part refl
]
  where
    v : Cut (to_xml ss) (flatten ss)
    v = to_xml-Cut ss

    t : List ℕ
    t = flatten v.whole ++ v.rest

    called :
        to_xml_at_offset ss offset
        ≡ outcome (
          (for_each data_at_offset (v.whole ++ last_chunk v.rest) (start_at offset)).success,
          (for_each data_at_offset (v.whole ++ last_chunk v.rest) (start_at offset)).buffer_output,
        )
    called =
        ap
          (λ cs. outcome (
            (for_each data_at_offset cs (start_at offset)).success,
            (for_each data_at_offset cs (start_at offset)).buffer_output,
          ))
          v.calls

    ends :
        (x : List ℕ) (n : ℕ)
        → outcome (ltb n (length x), bytes_at x n 64)
          ≡ (if ltb n (length x) then (ok, bytes_at x n 64) else (error_generic, replicate 64 0))
    ends x n = elim (Bool-cases (ltb n (length x))) [
      | inl h ↦ rw h refl
      | inr h ↦ rw h (ap (λ l. (error_generic, l)) (bytes_at-beyond x n 64 (ground (arith, h))))
    ]
