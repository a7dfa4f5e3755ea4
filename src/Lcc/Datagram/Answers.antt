-- ===== src/Lcc/Datagram/Answers.antt =====
-- The answers to a datagram, as the node that sent it takes them.
use train_utils.Common.{
  sym, ℕ, ◌*◌, ◌/◌, ◌^◌, ◌<◌, ◌≡◌, ◌⊎◌, refl, ap, ◌∙◌, arith, true, false, some, [], ◌∷◌, get_or,
  write_from, bit_and, bit_or, shl, shr, u8,
}
use train_utils.Common.Bits.{bit_and_low, bit_and_high, bit_or_sum, zero-bit_or}
use train_utils.Lcc.Frame.{
  CanFrame, set_flags_and_dest_alias, set_lcb_can_frame_type, set_lcb_variable_field,
}
use train_utils.Lcc.Frame.Fields.{Fields, message-Fields}
use train_utils.Lcc.Node.{Context, ok, empty_frame}
use train_utils.Lcc.Datagram.{
  DatagramContext, written, accepted, rejected, result, write_one, rxok_frame, rejected_frame,
  respond_rxok, respond_rejected,
}
use train_utils.Lcc.Datagram.Incoming.{Handlers, is_datagram_type, handle_response, handle_datagram}
use train_utils.Lcc.Datagram.Fragments.{no_handlers}

-- The first two bytes of an answer, and the alias that is read from them.
abbrev high_part : ℕ → ℕ
high_part alias = u8 (bit_or (shl 0 4) (shr (bit_and alias 0xF00) 8))

high_part_lem : (alias : ℕ) → alias < 2 ^ 12 → high_part alias ≡ alias / 256
high_part_lem alias h =
    ap u8
      (zero-bit_or (shr (bit_and alias 0xF00) 8) ∙ ap (λ x. x / 2 ^ 8) (bit_and_high 8 alias 15))
    ∙ omega (arith, bit_and_low 4 (alias / 2 ^ 8))

dest_lem :
    (alias : ℕ)
    → alias < 2 ^ 12
    → bit_or (shl (bit_and (high_part alias) 0x0F) 8) (bit_and alias 0xFF) ≡ alias
dest_lem alias h =
    ap (λ x. bit_or (shl (bit_and x 0x0F) 8) (bit_and alias 0xFF)) (high_part_lem alias h)
    ∙ ap (λ x. bit_or (shl x 8) (bit_and alias 0xFF)) {x = bit_and (alias / 256) 0x0F}
        {y = alias / 256} (bit_and_low 4 (alias / 256) ∙ omega arith)
    ∙ bit_or_sum 8 (alias / 256) (bit_and alias 0xFF) (omega (arith, bit_and_low 8 alias))
    ∙ omega (arith, bit_and_low 8 alias)

pub code_lem :
    (code : ℕ)
    → code < 2 ^ 16
    → bit_or (shl (shr (bit_and code 0xFF00) 8) 8) (bit_and code 0xFF) ≡ code
code_lem code h =
    ap (λ x. bit_or (shl (x / 2 ^ 8) 8) (bit_and code 0xFF)) (bit_and_high 8 code 255)
    ∙ ap (λ x. bit_or (shl x 8) (bit_and code 0xFF))
        {x = bit_and (code / 2 ^ 8) 255 * 2 ^ 8 / 2 ^ 8} {y = code / 256}
        (omega (arith, bit_and_low 8 (code / 2 ^ 8)))
    ∙ bit_or_sum 8 (code / 256) (bit_and code 0xFF) (omega (arith, bit_and_low 8 code))
    ∙ omega (arith, bit_and_low 8 code)

abbrev pub dest_of : CanFrame → ℕ
dest_of f = bit_or (shl (bit_and (get_or f.bytes 0 0) 0x0F) 8) (get_or f.bytes 1 0)

-- An answer of either kind: where it comes from and whom it is for.
pub record IsAnswer (f : CanFrame) (mti source dest : ℕ) : Type 0 where
  pub parts : Fields f.can_id 1 mti source
  pub to : dest_of f ≡ dest

pub rxok_frame-IsAnswer :
    (peer : Context) (alias flags : ℕ)
    → peer.node_alias < 2 ^ 12
    → alias < 2 ^ 12
    → IsAnswer (rxok_frame peer alias flags) 0xA28 peer.node_alias alias
unfolding rxok_frame set_flags_and_dest_alias write_from set_lcb_can_frame_type
    set_lcb_variable_field
rxok_frame-IsAnswer peer alias flags h k = record {
  parts = message-Fields empty_frame peer.node_alias 0xA28 1 h (omega arith) (omega arith);
  to = dest_lem alias k;
}

rejected_frame-IsAnswer :
    (peer : Context) (alias code : ℕ)
    → peer.node_alias < 2 ^ 12
    → alias < 2 ^ 12
    → IsAnswer (rejected_frame peer alias code) 0xA48 peer.node_alias alias
unfolding rejected_frame set_flags_and_dest_alias write_from set_lcb_can_frame_type
    set_lcb_variable_field
rejected_frame-IsAnswer peer alias code h k = record {
  parts = message-Fields empty_frame peer.node_alias 0xA48 1 h (omega arith) (omega arith);
  to = dest_lem alias k;
}

pub flags_lem :
    (peer : Context) (alias flags : ℕ)
    → flags < 256
    → get_or (rxok_frame peer alias flags).bytes 2 0 ≡ flags
unfolding rxok_frame set_flags_and_dest_alias write_from set_lcb_can_frame_type
    set_lcb_variable_field
flags_lem peer alias flags h = omega arith

sent_code_lem :
    (peer : Context) (alias code : ℕ)
    → code < 2 ^ 16
    → bit_or
        (shl (get_or (rejected_frame peer alias code).bytes 2 0) 8)
        (get_or (rejected_frame peer alias code).bytes 3 0)
      ≡ code
unfolding rejected_frame set_flags_and_dest_alias write_from set_lcb_can_frame_type
    set_lcb_variable_field
sent_code_lem peer alias code h = code_lem code h

pub lengths :
    (peer : Context) (alias x : ℕ)
    → ((rxok_frame peer alias x).can_len ≡ 3) × ((rejected_frame peer alias x).can_len ≡ 4)
unfolding rxok_frame rejected_frame
lengths peer alias x = (refl, refl)

module _ (node peer : Context) (d : DatagramContext) where
  pub accepts :
      (f : CanFrame) (flags : ℕ)
      → IsAnswer f 0xA28 peer.node_alias node.node_alias
      → f.can_len ≡ 3
      → get_or f.bytes 2 0 ≡ flags
      → d.ok_set ≡ true
      → handle_datagram no_handlers node d f
        ≡ result ok (record d { handling = false }) (accepted peer.node_alias flags ∷ [])
  unfolding handle_datagram handle_response is_datagram_type
  accepts f flags a l b s =
      ground (arith, a.parts.source, a.parts.type_of, a.parts.field_of, a.to, l, b, s)

  rejects :
      (f : CanFrame) (code : ℕ)
      → IsAnswer f 0xA48 peer.node_alias node.node_alias
      → f.can_len ≡ 4
      → bit_or (shl (get_or f.bytes 2 0) 8) (get_or f.bytes 3 0) ≡ code
      → d.rejected_set ≡ true
      → handle_datagram no_handlers node d f
        ≡ result ok (record d { handling = false }) (rejected peer.node_alias code ∷ [])
  unfolding handle_datagram handle_response is_datagram_type
  rejects f code a l b s =
      ground (arith, a.parts.source, a.parts.type_of, a.parts.field_of, a.to, l, b, s)

-- What a node answers reaches the client of the node that sent the datagram: where the write
-- succeeds, the frame that is written tells it the answering node's alias and the flags, or the
-- error code, as they were given. Neither node is then receiving a datagram.
pub answers_lem :
    (node peer : Context) (d e : DatagramContext) (flags code : ℕ) (write : CanFrame → ℕ)
    → node.node_alias < 2 ^ 12
    → peer.node_alias < 2 ^ 12
    → flags < 256
    → code < 2 ^ 16
    → d.ok_set ≡ true
    → d.rejected_set ≡ true
    → peer.write_function ≡ some write
    → ((f : CanFrame) → write f ≡ 0)
    → ((f : CanFrame) × (respond_rxok peer e node.node_alias flags
          ≡ result ok (record e { handling = false }) (written f ∷ []))
        × (handle_datagram no_handlers node d f
            ≡ result ok (record d { handling = false }) (accepted peer.node_alias flags ∷ [])))
      × ((f : CanFrame) × (respond_rejected peer e node.node_alias code
            ≡ result ok (record e { handling = false }) (written f ∷ []))
          × (handle_datagram no_handlers node d f
              ≡ result ok (record d { handling = false }) (rejected peer.node_alias code ∷ [])))
unfolding respond_rxok respond_rejected write_one
answers_lem node peer d e flags code write own far small word s t w writes =
    let f = rxok_frame peer node.node_alias flags in
    let g = rejected_frame peer node.node_alias code in
    let wrote = writes f in
    let refused = writes g in
    (
      (
        f,
        ground (arith, w, wrote),
        accepts node peer d f flags (rxok_frame-IsAnswer peer node.node_alias flags far own)
            (lengths peer node.node_alias flags).0 (flags_lem peer node.node_alias flags small) s,
      ),
      (
        g,
        ground (arith, w, refused),
        rejects node peer d g code (rejected_frame-IsAnswer peer node.node_alias code far own)
            (lengths peer node.node_alias code).1 (sent_code_lem peer node.node_alias code word) t,
      ),
    )

busy :
    (h : Handlers) (c : Context) (d : DatagramContext) (f : CanFrame) (type source : ℕ)
    (write : CanFrame → ℕ)
    → Fields f.can_id type c.node_alias source
    → (type ≡ 2) ⊎ (type ≡ 3)
    → d.handling ≡ true
    → c.write_function ≡ some write
    → write (rejected_frame c source 0x2020) ≡ 0
    → handle_datagram h c d f
      ≡ result ok (record d { handling = true }) (written (rejected_frame c source 0x2020) ∷ [])
unfolding handle_datagram is_datagram_type respond_rejected write_one
busy h c d f type source write p t b w wrote =
    ground (arith, p.type_of, p.field_of, p.source, t, b, w, wrote)

-- A node that is receiving a datagram and gets the first frame of another one, or a datagram of one
-- frame, keeps all that it has and goes on receiving, and writes one frame; and when that frame comes
-- to the node that sent the other datagram, its client is told that the first node rejected it with
-- the error code 0x2020.
pub busy_lem :
    (h : Handlers) (node other : Context) (d e : DatagramContext) (f : CanFrame) (type : ℕ)
    (write : CanFrame → ℕ)
    → node.node_alias < 2 ^ 12
    → other.node_alias < 2 ^ 12
    → Fields f.can_id type node.node_alias other.node_alias
    → (type ≡ 2) ⊎ (type ≡ 3)
    → d.handling ≡ true
    → e.rejected_set ≡ true
    → node.write_function ≡ some write
    → ((g : CanFrame) → write g ≡ 0)
    → (g : CanFrame) × (handle_datagram h node d f ≡ result ok d (written g ∷ []))
      × (handle_datagram no_handlers other e g
          ≡ result ok (record e { handling = false }) (rejected node.node_alias 0x2020 ∷ []))
busy_lem h node other d e f type write own far p t b s w writes =
    let g = rejected_frame node other.node_alias 0x2020 in
    (
      g,
      busy h node d f type other.node_alias write p t b w (writes g)
          ∙ ap (λ x. result ok (record d { handling = x }) (written g ∷ [])) (sym b),
      rejects other node e g 0x2020 (rejected_frame-IsAnswer node other.node_alias 0x2020 own far)
          (lengths node other.node_alias 0x2020).1
          (sent_code_lem node other.node_alias 0x2020 (omega arith)) s,
    )
