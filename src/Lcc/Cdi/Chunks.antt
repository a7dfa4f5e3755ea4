-- ===== src/Lcc/Cdi/Chunks.antt =====
-- How the text of a description is cut into calls, in LCC/lcc-cdi-control.c.
use train_utils.Common.{
  ℕ, ◌+◌, ◌<◌, ◌≡◌, refl, sym, ap, ◌∙◌, arith, Bool-cases, inl, inr, false, List, [], ◌∷◌, ◌++◌,
  ltb, length, length-append, append-nil, append_assoc, All,
}
use train_utils.Lcc.Cdi.{
  Out, append_char, append_string, append_strings, last_chunk, to_xml, for_each, data_count,
  xml_length,
}

-- Texts one after another.
abbrev pub flatten : List (List ℕ) → List ℕ
flatten [] = []
flatten (t ∷ ts) = t ++ flatten ts

flatten-append : (ss ts : List (List ℕ)) → flatten (ss ++ ts) ≡ flatten ss ++ flatten ts
flatten-append [] ts = refl
flatten-append (s ∷ ss) ts =
    ap (λ l. s ++ l) (flatten-append ss ts) ∙ sym (append_assoc s (flatten ss) (flatten ts))

abbrev pub Full : List ℕ → Type 0
Full c = length c ≡ 64

full_append : (cs ds : List (List ℕ)) → All Full cs → All Full ds → All Full (cs ++ ds)
full_append [] ds h k = k
full_append (c ∷ cs) ds h k = (h.0, full_append cs ds h.1 k)

-- The text that was appended, in whole calls and a rest that is shorter.
pub record Holds (o : Out) (text : List ℕ) : Type 0 where
  pub content : flatten o.chunks ++ o.buffer ≡ text
  pub full : All Full o.chunks
  pub short : length o.buffer < 64

append_char-Holds :
    (c : ℕ) (o : Out) (t : List ℕ) → Holds o t → Holds (append_char c o) (t ++ c ∷ [])
unfolding append_char
append_char-Holds c o t v = elim (Bool-cases (ltb (length (o.buffer ++ c ∷ [])) 64)) [
  | inl room ↦ rw room (record {
    content =
        sym (append_assoc (flatten o.chunks) o.buffer (c ∷ [])) ∙ ap (λ l. l ++ c ∷ []) v.content;
    full = v.full;
    short = ground (arith, room);
  })
  | inr whole ↦ rw whole (record {
    content =
        append-nil (flatten (o.chunks ++ (o.buffer ++ c ∷ []) ∷ []))
        ∙ flatten-append o.chunks ((o.buffer ++ c ∷ []) ∷ [])
        ∙ ap (λ l. flatten o.chunks ++ l) (append-nil (o.buffer ++ c ∷ []))
        ∙ sym (append_assoc (flatten o.chunks) o.buffer (c ∷ []))
        ∙ ap (λ l. l ++ c ∷ []) v.content;
    full =
        full_append o.chunks ((o.buffer ++ c ∷ []) ∷ []) v.full
          (whole_lem o.buffer c v.short whole, tt);
    short = omega arith;
  })
]
  where
    whole_lem :
        (b : List ℕ) (x : ℕ)
        → length b < 64
        → ltb (length (b ++ x ∷ [])) 64 ≡ false
        → length (b ++ x ∷ []) ≡ 64
    whole_lem b x h k = ground (arith, length-append b (x ∷ []))

append_string-Holds :
    (s : List ℕ) (o : Out) (t : List ℕ) → Holds o t → Holds (append_string s o) (t ++ s)
unfolding append_string
append_string-Holds [] o t v = rw (append-nil t) v
append_string-Holds (c ∷ cs) o t v =
    rw (← append_assoc t (c ∷ []) cs)
      (append_string-Holds cs (append_char c o) (t ++ c ∷ []) (append_char-Holds c o t v))

append_strings-Holds :
    (ss : List (List ℕ)) (o : Out) (t : List ℕ)
    → Holds o t
    → Holds (append_strings ss o) (t ++ flatten ss)
unfolding append_strings
append_strings-Holds [] o t v = rw (append-nil t) v
append_strings-Holds (s ∷ ss) o t v =
    rw (← append_assoc t s (flatten ss))
      (append_strings-Holds ss (append_string s o) (t ++ s) (append_string-Holds s o t v))

-- Whole calls, and then one shorter or none.
pub record Cut (chunks : List (List ℕ)) (text : List ℕ) : Type 0 where
  pub whole : List (List ℕ)
  pub rest : List ℕ
  pub calls : chunks ≡ whole ++ last_chunk rest
  pub all_text : flatten whole ++ rest ≡ text
  pub full : All Full whole
  pub short : length rest < 64

-- The calls of lcc_cdi_control_to_xml are the text that is appended: each has 64 characters, but for
-- a last one that may be shorter and is never empty.
pub to_xml-Cut : (ss : List (List ℕ)) → Cut (to_xml ss) (flatten ss)
unfolding to_xml
to_xml-Cut ss =
    let o : Out = append_strings ss (record { buffer = []; chunks = [] }) in
    let v : Holds o (flatten ss) =
      append_strings-Holds ss (record { buffer = []; chunks = [] }) []
        (record { content = refl; full = tt; short = omega arith }) in
    record {
      whole = o.chunks;
      rest = o.buffer;
      calls = refl;
      all_text = v.content;
      full = v.full;
      short = v.short;
    }

flatten-last_chunk : (t : List ℕ) → flatten (last_chunk t) ≡ t
flatten-last_chunk [] = refl
flatten-last_chunk (c ∷ cs) = append-nil (c ∷ cs)

pub flatten-to_xml : (ss : List (List ℕ)) → flatten (to_xml ss) ≡ flatten ss
flatten-to_xml ss =
    let v = to_xml-Cut ss in
    ap flatten v.calls
    ∙ flatten-append v.whole (last_chunk v.rest)
    ∙ ap (λ l. flatten v.whole ++ l) (flatten-last_chunk v.rest)
    ∙ v.all_text

counted_from : (cs : List (List ℕ)) (n : ℕ) → for_each data_count cs n ≡ n + length (flatten cs)
unfolding for_each
counted_from [] n = omega arith
counted_from (c ∷ cs) n =
    counted_from cs (n + length c) ∙ omega (arith, length-append c (flatten cs))

-- lcc_cdi_control_xml_length is the length of the text.
pub xml_length_lem : (ss : List (List ℕ)) → xml_length ss ≡ length (flatten ss)
unfolding xml_length
xml_length_lem ss = counted_from (to_xml ss) 0 ∙ omega (arith, ap length (flatten-to_xml ss))
