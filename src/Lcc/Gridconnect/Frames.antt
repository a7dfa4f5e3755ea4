-- ===== src/Lcc/Gridconnect/Frames.antt =====
-- The frames of a whole text, one after another.
use train_utils.Common.{
  ℕ, suc, ◌+◌, ◌≤◌, ◌≡◌, ◌≢◌, refl, sym, ap, ap₂, ◌∙◌, arith, true, List, [], ◌∷◌, ◌++◌, length,
  set, take, drop, map, All, length-set, take-set, take-append-drop, take-write_from, append_assoc,
  length-write_from, if◌then◌else◌, write_from,
}
use train_utils.Lcc.Frame.{CanFrame}
use train_utils.Lcc.Gridconnect.{
  Gridconnect, canframe_to_gridconnect, gridconnect_to_canframe, parsed, store, incoming_loop,
  incoming_data,
}
use train_utils.Lcc.Gridconnect.Text.{
  IsFrame, body, body-IsPlain, length-body, text_lem, read_frame, printed_lem,
}
use train_utils.Lcc.Gridconnect.Stream.{follow, skips, keeps, stores, fills}

-- Nothing of a frame is in, and the client is told of frames.
pub record IsWaiting (g : Gridconnect) : Type 0 where
  pub empty : g.buffer_pos ≡ 0
  pub told : g.frame_parsed_set ≡ true
  pub size : length g.buffer ≡ 128

abbrev ended : Gridconnect → List ℕ
ended h = set (set h.buffer h.buffer_pos 59) (h.buffer_pos + 1) 0

abbrev finished : Gridconnect → CanFrame → Gridconnect
finished h f = record h { buffer = ended h; frame = read_frame f; buffer_pos = 0 }

ended_lem :
    (h : Gridconnect) (cs : List ℕ)
    → h.buffer_pos ≡ length cs
    → take (length cs) h.buffer ≡ cs
    → length h.buffer ≡ 128
    → length cs ≤ 27
    → ended h ≡ cs ++ (59 ∷ 0 ∷ drop (suc (suc (length cs))) (ended h))
ended_lem h cs p t size small =
    let n = length cs in
    let first = set h.buffer n 59 in
    let whole = set first (suc n) 0 in
    let pos : h.buffer_pos + 1 ≡ suc n = omega (arith, p) in
    let same : ended h ≡ whole = ap₂ (λ i j. set (set h.buffer i 59) j 0) p pos in
    let front : take (suc (suc n)) whole ≡ (cs ++ (59 ∷ [])) ++ (0 ∷ []) =
      take-set first (suc n) 0 (omega (arith, length-set h.buffer n 59))
      ∙ ap (λ l. l ++ (0 ∷ []))
          (take-set h.buffer n 59 (omega arith) ∙ ap (λ l. l ++ (59 ∷ [])) t) in
    same
    ∙ sym (take-append-drop (suc (suc n)) whole)
    ∙ ap₂ (λ l w. l ++ drop (suc (suc n)) w) front (sym same)
    ∙ append_assoc (cs ++ (59 ∷ [])) (0 ∷ []) (drop (suc (suc n)) (ended h))
    ∙ append_assoc cs (59 ∷ []) (0 ∷ drop (suc (suc n)) (ended h))

finishes :
    (h : Gridconnect) (f : CanFrame)
    → IsFrame f
    → h.frame_parsed_set ≡ true
    → h.buffer_pos ≡ length (body f)
    → take (length (body f)) h.buffer ≡ body f
    → length h.buffer ≡ 128
    → store h 59 ≡ (finished h f, read_frame f ∷ [])
unfolding store
finishes h f v told p t size =
    let text = ended_lem h (body f) p t size (length-body f v) in
    ap (parsed (record h { buffer = ended h })) (
      ap gridconnect_to_canframe text ∙ text_lem f (drop (suc (suc (length (body f)))) (ended h)) v)
    ∙ ap (λ b. (finished h f, if b then read_frame f ∷ [] else [])) told

-- A frame's text, from an empty buffer on.
one_frame :
    (g : Gridconnect) (f : CanFrame) (rest : List ℕ)
    → IsFrame f
    → IsWaiting g
    → (e : Gridconnect) × (incoming_data g (body f ++ (59 ∷ rest))
        ≡ follow (e, read_frame f ∷ []) rest)
      × IsWaiting e
unfolding write_from
one_frame g f rest v w =
    let start : Gridconnect = record g { buffer_pos = 0 } in
    let tail = drop 1 (body f) in
    let first : Gridconnect = record start { buffer = set g.buffer 0 58; buffer_pos = 0 + 1 } in
    let full : Gridconnect = record g {
      buffer = write_from (set g.buffer 0 58) (0 + 1) tail;
      buffer_pos = 0 + 1 + length tail;
    } in
    let small = length-body f v in
    let plain = body-IsPlain f v in
    let size = length-write_from g.buffer 0 (body f) ∙ w.size in
    let front =
      ap (λ n. take n (write_from g.buffer 0 (body f))) {x = length (body f)}
        {y = 0 + length (body f)} (omega arith)
      ∙ take-write_from g.buffer 0 (body f) (omega (arith, small, w.size)) in
    let done = finishes full f v w.told (omega arith) front size in
    (
      finished full f,
      ap (λ n. incoming_data (record g { buffer_pos = n }) (body f ++ (59 ∷ rest))) w.empty
          ∙ keeps start 58 (tail ++ (59 ∷ rest)) refl
          ∙ ap (λ r. follow r (tail ++ (59 ∷ rest))) (stores start 58 plain.0.1 (omega arith))
          ∙ fills tail (59 ∷ rest) first plain.1 (omega arith) (omega arith)
          ∙ keeps full 59 rest (ground arith)
          ∙ ap (λ r. follow r rest) done,
      record {
        empty = refl;
        told = w.told;
        size =
            length-set (set full.buffer full.buffer_pos 59) (full.buffer_pos + 1) 0
            ∙ length-set full.buffer full.buffer_pos 59
            ∙ size;
      },
    )

-- Characters that begin no frame are passed over.
noise :
    (g : Gridconnect) (cs rest : List ℕ)
    → g.buffer_pos ≡ 0
    → All (λ c. c ≢ 58) cs
    → incoming_data g (cs ++ rest) ≡ incoming_data g rest
noise g [] rest e h = refl
noise g (c ∷ cs) rest e h = skips g c (cs ++ rest) (ground (arith, e, h.0)) ∙ noise g cs rest e h.1

nothing : (g : Gridconnect) → incoming_data g [] ≡ (g, [])
unfolding incoming_data incoming_loop
nothing g = refl

-- Frames, each printed after characters that are no ':'.
abbrev pub stream : List (List ℕ × CanFrame) → List ℕ
stream [] = []
stream ((before, f) ∷ fs) = before ++ (canframe_to_gridconnect f 29 ++ stream fs)

abbrev pub AllFrames : List (List ℕ × CanFrame) → Type 0
AllFrames = All (λ x. All (λ c. c ≢ 58) x.0 × IsFrame x.1)

-- Any frames that are printed one after another, with any characters but ':' before each, come out
-- of a waiting parser as the same frames in the same order; and the parser waits again.
pub stream_lem :
    (fs : List (List ℕ × CanFrame)) (g : Gridconnect)
    → AllFrames fs
    → IsWaiting g
    → (e : Gridconnect) × (incoming_data g (stream fs) ≡ (e, map (λ x. read_frame x.1) fs))
      × IsWaiting e
stream_lem [] g h w = (g, nothing g, w)
stream_lem ((before, f) ∷ fs) g h w =
    let text = printed_lem f 29 h.0.1 (omega arith) in
    let (e, first, v) = one_frame g f (stream fs) h.0.1 w in
    let (last, rest, u) = stream_lem fs e h.1 v in
    (
      last,
      noise g before (canframe_to_gridconnect f 29 ++ stream fs) w.empty h.0.0
          ∙ ap (λ l. incoming_data g (l ++ stream fs)) text
          ∙ ap (incoming_data g) (append_assoc (body f) (59 ∷ []) (stream fs))
          ∙ first
          ∙ ap (λ r. (r.0, read_frame f ∷ r.1)) rest,
      u,
    )
