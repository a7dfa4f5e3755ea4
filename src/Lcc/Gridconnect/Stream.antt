-- ===== src/Lcc/Gridconnect/Stream.antt =====
-- Text that comes in piece by piece, and the frames that are found in it.
use train_utils.Common.{
  ℕ, suc, ◌+◌, ◌≤◌, ◌≡◌, ◌≢◌, inl, inr, refl, sym, ap, ◌∙◌, arith, true, false, ◌&&◌, Option, none,
  some, List, [], ◌∷◌, ◌++◌, length, set, All, append_assoc, append-nil, Bool-cases, ◌==◌, ◌!=◌,
  leb, write_from,
}
use train_utils.Lcc.Frame.{CanFrame}
use train_utils.Lcc.Gridconnect.{
  Gridconnect, gridconnect_to_canframe, parsed, store, discards, incoming_loop, incoming_data,
}
use train_utils.Lcc.Gridconnect.Text.{IsPlain}

-- What comes of more characters after a first result.
abbrev pub follow : Gridconnect × List CanFrame → List ℕ → Gridconnect × List CanFrame
follow (g, fs) cs = let (e, later) = incoming_data g cs in (e, fs ++ later)

parsed-pos : (g : Gridconnect) (o : Option CanFrame) → (parsed g o).0.buffer_pos ≡ 0
parsed-pos g none = refl
parsed-pos g (some f) = refl

-- The flag says that the buffer is empty.
discards_lem : (g : Gridconnect) (c : ℕ) → discards g c ≡ ((store g c).0.buffer_pos == 0)
unfolding store
discards_lem g c = elim (Bool-cases (c == 59)) [
  | inl e ↦
      let ended = set (set g.buffer g.buffer_pos c) (g.buffer_pos + 1) 0 in
      rw e (
        ap (λ n. n == 0)
          (sym (parsed-pos (record g { buffer = ended }) (gridconnect_to_canframe ended))))
  | inr e ↦ elim (Bool-cases (leb 128 (g.buffer_pos + 1))) [
    | inl k ↦ rw (e, k) refl
    | inr k ↦ rw (e, k) (ground arith)
  ]
]

pub skips :
    (g : Gridconnect) (c : ℕ) (cs : List ℕ)
    → ((g.buffer_pos == 0) && (c != 58)) ≡ true
    → incoming_data g (c ∷ cs) ≡ incoming_data g cs
unfolding incoming_data incoming_loop
skips g c cs e = rw (e, incoming_loop) refl

pub keeps :
    (g : Gridconnect) (c : ℕ) (cs : List ℕ)
    → ((g.buffer_pos == 0) && (c != 58)) ≡ false
    → incoming_data g (c ∷ cs) ≡ follow (store g c) cs
unfolding incoming_data incoming_loop
keeps g c cs e =
    rw (e, incoming_loop)
      (ap
        (λ b. (
          (incoming_loop b (store g c).0 cs).0,
          (store g c).1 ++ (incoming_loop b (store g c).0 cs).1,
        ))
        (discards_lem g c))

follow-follow :
    (r : Gridconnect × List CanFrame) (xs ys : List ℕ)
    → ((g : Gridconnect) → incoming_data g (xs ++ ys) ≡ follow (incoming_data g xs) ys)
    → follow r (xs ++ ys) ≡ follow (follow r xs) ys
follow-follow (g, fs) xs ys h =
    ap (λ r. (r.0, fs ++ r.1)) (h g)
    ∙ ap (λ l. ((follow (incoming_data g xs) ys).0, l))
        (sym (append_assoc fs (incoming_data g xs).1 (incoming_data (incoming_data g xs).0 ys).1))

incoming_data-append :
    (g : Gridconnect) (xs ys : List ℕ) → incoming_data g (xs ++ ys) ≡ follow (incoming_data g xs) ys
unfolding incoming_data incoming_loop
incoming_data-append g [] ys = refl
incoming_data-append g (c ∷ xs) ys = elim (Bool-cases ((g.buffer_pos == 0) && (c != 58))) [
  | inl e ↦
      skips g c (xs ++ ys) e
      ∙ incoming_data-append g xs ys
      ∙ ap (λ r. follow r ys) (sym (skips g c xs e))
  | inr e ↦
      keeps g c (xs ++ ys) e
      ∙ follow-follow (store g c) xs ys (λ h. incoming_data-append h xs ys)
      ∙ ap (λ r. follow r ys) (sym (keeps g c xs e))
]

-- The same text in one call, and in pieces, a call for each.
abbrev pub joined : List (List ℕ) → List ℕ
joined [] = []
joined (cs ∷ pieces) = cs ++ joined pieces

abbrev pub in_pieces : Gridconnect × List CanFrame → List (List ℕ) → Gridconnect × List CanFrame
in_pieces r [] = r
in_pieces r (cs ∷ pieces) = in_pieces (follow r cs) pieces

-- However a text is cut into pieces, the calls with the pieces one after another leave the same
-- buffer and tell the client of the same frames as one call with the whole text.
pub pieces_lem :
    (r : Gridconnect × List CanFrame) (pieces : List (List ℕ))
    → in_pieces r pieces ≡ follow r (joined pieces)
unfolding incoming_data incoming_loop
pieces_lem (g, fs) [] = ap (λ l. (g, l)) (sym (append-nil fs))
pieces_lem r (cs ∷ pieces) =
    pieces_lem (follow r cs) pieces
    ∙ sym (follow-follow r cs (joined pieces) (λ h. incoming_data-append h cs (joined pieces)))

pub stores :
    (g : Gridconnect) (c : ℕ)
    → c ≢ 59
    → g.buffer_pos + 1 ≤ 127
    → store g c
      ≡ (record g { buffer = set g.buffer g.buffer_pos c; buffer_pos = g.buffer_pos + 1 }, [])
unfolding store
stores g c h k = ground (arith, h, k)

-- Characters that end no frame fill the buffer.
pub fills :
    (cs rest : List ℕ) (g : Gridconnect)
    → All IsPlain cs
    → 1 ≤ g.buffer_pos
    → g.buffer_pos + length cs ≤ 127
    → incoming_data g (cs ++ rest)
      ≡ incoming_data
          (record g {
            buffer = write_from g.buffer g.buffer_pos cs;
            buffer_pos = g.buffer_pos + length cs;
          })
          rest
unfolding write_from
fills [] rest g h low room =
    ap (λ n. incoming_data (record g { buffer_pos = n }) rest) (omega arith)
fills (c ∷ cs) rest g h low room =
    let next : Gridconnect = record g {
      buffer = set g.buffer g.buffer_pos c;
      buffer_pos = g.buffer_pos + 1;
    } in
    keeps g c (cs ++ rest) (ground (arith, low))
    ∙ ap (λ r. follow r (cs ++ rest)) (stores g c h.0.1 (omega arith))
    ∙ fills cs rest next h.1 (omega arith) (omega arith)
    ∙ ap
        (λ n.
          incoming_data
            (record g {
              buffer = write_from (set g.buffer g.buffer_pos c) (g.buffer_pos + 1) cs;
              buffer_pos = n;
            })
            rest)
        {x = g.buffer_pos + 1 + length cs} {y = g.buffer_pos + suc (length cs)} (omega arith)
