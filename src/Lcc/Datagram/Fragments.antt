-- ===== src/Lcc/Datagram/Fragments.antt =====
-- The frames of one datagram, as the node that they are for takes them.
use train_utils.Common.{
  ℕ, ◌+◌, ◌^◌, ◌≤◌, ◌<◌, ◌≡◌, ◌≢◌, refl, ap, ◌∙◌, arith, ◌⊎◌, inl, inr, true, false, none, List, [],
  ◌∷◌, ◌++◌, length, take, write_from, take-write_from, shr, bit_and, append-nil,
}
use train_utils.Lcc.Frame.{CanFrame}
use train_utils.Lcc.Frame.Fields.{Fields, message-Fields}
use train_utils.Lcc.Node.{Context, ok, empty_frame}
use train_utils.Lcc.Datagram.{
  DatagramContext, received, result, append_bytes, datagram_frame, Action,
}
use train_utils.Lcc.Datagram.Incoming.{
  Handlers, deliver, handle_response, is_datagram_type, take_frame, handle_datagram,
}
use train_utils.Lcc.Datagram.Buffer.{
  Holds, with_chunk, append_bytes_lem, with_chunk-Holds, with_chunk-received, completed,
}

-- A node without the contexts for memory.
abbrev pub no_handlers : Handlers
no_handlers = record { memory_context = none; remote_memory_context = none }

-- A sender and a receiver whose aliases are 12 bits; the receiver's is neither of the two numbers
-- that mark an answer to a datagram.
module _ (sender receiver : Context) (own : sender.node_alias < 2 ^ 12)
    (dest : receiver.node_alias < 2 ^ 12) (not_ok : receiver.node_alias ≢ 0xA28)
    (not_rejected : receiver.node_alias ≢ 0xA48) where
  frame-Fields :
      (type : ℕ) (held chunk : List ℕ)
      → type < 8
      → Fields
          (datagram_frame sender receiver.node_alias type held chunk).can_id
          type
          receiver.node_alias
          sender.node_alias
  unfolding datagram_frame
  frame-Fields type held chunk h =
      message-Fields empty_frame sender.node_alias receiver.node_alias type own dest h

  frame-content :
      (type : ℕ) (held chunk : List ℕ)
      → length held ≡ 8
      → length chunk ≤ 8
      → take
          (datagram_frame sender receiver.node_alias type held chunk).can_len
          (datagram_frame sender receiver.node_alias type held chunk).bytes
        ≡ chunk
  unfolding datagram_frame
  frame-content type held chunk h k =
      ap (λ n. take n (write_from held 0 chunk)) {x = length chunk} {y = 0 + length chunk}
        (omega arith)
      ∙ take-write_from held 0 chunk (omega arith)

  not_response :
      (h : Handlers) (d : DatagramContext) (f : CanFrame)
      → shr (bit_and f.can_id 0x00FFF000) 12 ≡ receiver.node_alias
      → handle_response h receiver d f ≡ result ok d []
  unfolding handle_response
  not_response h d f e = ground (arith, e, not_ok, not_rejected)

  -- The last frame hands the client what is in.
  deliver_lem :
      (d : DatagramContext) (xs : List ℕ) (source : ℕ)
      → Holds d xs
      → d.received_set ≡ true
      → deliver no_handlers receiver d source
        ≡ result ok (record d { offset = 0 }) (received source xs ∷ [])
  unfolding deliver
  deliver_lem d xs source v r =
      let content = ap (λ n. take n d.buffer) v.offset ∙ v.front in ground (arith, r, content)

  -- A frame that is not the last.
  more :
      (d : DatagramContext) (f : CanFrame) (type : ℕ) (chunk : List ℕ)
      → Fields f.can_id type receiver.node_alias sender.node_alias
      → ((type ≡ 3) × (d.handling ≡ false)) ⊎ (type ≡ 4)
      → append_bytes (record d { handling = true }) f.bytes f.can_len
        ≡ with_chunk (record d { handling = true }) chunk
      → handle_datagram no_handlers receiver d f
        ≡ result ok (with_chunk (record d { handling = true }) chunk) []
  unfolding handle_datagram take_frame is_datagram_type
  more d f type chunk p (inl (t, h)) e =
      let answers =
        not_response no_handlers (with_chunk (record d { handling = true }) chunk) f p.field_of in
      ground (arith, p.type_of, p.field_of, t, h, e, answers)
  more d f type chunk p (inr t) e =
      let answers =
        not_response no_handlers (with_chunk (record d { handling = true }) chunk) f p.field_of in
      ground (arith, p.type_of, p.field_of, t, e, answers)

  -- Delivery once the last chunk is in.
  completes :
      (d : DatagramContext) (xs chunk : List ℕ)
      → Holds d xs
      → length xs + length chunk ≤ 72
      → d.received_set ≡ true
      → deliver no_handlers receiver
          (record (with_chunk (record d { handling = true }) chunk) { handling = false })
          sender.node_alias
        ≡ result ok (completed d chunk) (received sender.node_alias (xs ++ chunk) ∷ [])
  completes d xs chunk v room r =
      let held =
        with_chunk-Holds (record d { handling = true }) xs chunk
          (record { size = v.size; offset = v.offset; front = v.front }) room in
      deliver_lem (record (with_chunk (record d { handling = true }) chunk) { handling = false })
        (xs ++ chunk) sender.node_alias
        (record { size = held.size; offset = held.offset; front = held.front })
        (with_chunk-received (record d { handling = true }) chunk ∙ r)

  -- The last frame, whoever is handed the datagram.
  last :
      (h : Handlers) (d : DatagramContext) (f : CanFrame) (type : ℕ) (chunk : List ℕ)
      (acts : List Action)
      → Fields f.can_id type receiver.node_alias sender.node_alias
      → ((type ≡ 2) × (d.handling ≡ false)) ⊎ (type ≡ 5)
      → append_bytes (record d { handling = true }) f.bytes f.can_len
        ≡ with_chunk (record d { handling = true }) chunk
      → deliver h receiver
          (record (with_chunk (record d { handling = true }) chunk) { handling = false })
          sender.node_alias
        ≡ result ok (completed d chunk) acts
      → handle_datagram h receiver d f ≡ result ok (completed d chunk) acts
  unfolding handle_datagram take_frame is_datagram_type
  last h d f type chunk acts p (inl (t, k)) e delivered =
      let answers = not_response h (completed d chunk) f p.field_of in
      let whole = append-nil acts in
      ground (arith, p.type_of, p.field_of, p.source, t, k, e, answers, delivered, whole)
  last h d f type chunk acts p (inr t) e delivered =
      let answers = not_response h (completed d chunk) f p.field_of in
      let whole = append-nil acts in
      ground (arith, p.type_of, p.field_of, p.source, t, e, answers, delivered, whole)

  appended :
      (d : DatagramContext) (type : ℕ) (held chunk xs : List ℕ)
      → length held ≡ 8
      → length chunk ≤ 8
      → Holds d xs
      → length xs + length chunk ≤ 72
      → append_bytes d
          (datagram_frame sender receiver.node_alias type held chunk).bytes
          (datagram_frame sender receiver.node_alias type held chunk).can_len
        ≡ with_chunk d chunk
  unfolding datagram_frame
  appended d type held chunk xs h k v room =
      append_bytes_lem d (datagram_frame sender receiver.node_alias type held chunk).bytes chunk
        (length chunk) (frame-content type held chunk h k) refl (omega (arith, v.offset)) v.size

  pub takes_more :
      (d : DatagramContext) (type : ℕ) (held chunk xs : List ℕ)
      → length held ≡ 8
      → length chunk ≤ 8
      → Holds d xs
      → length xs + length chunk ≤ 72
      → ((type ≡ 3) × (d.handling ≡ false)) ⊎ (type ≡ 4)
      → handle_datagram no_handlers receiver d
          (datagram_frame sender receiver.node_alias type held chunk)
        ≡ result ok (with_chunk (record d { handling = true }) chunk) []
  takes_more d type held chunk xs h k v room t =
      more d _ type chunk (frame-Fields type held chunk (ground (arith, t))) t (
        appended (record d { handling = true }) type held chunk xs h k
          (record { size = v.size; offset = v.offset; front = v.front }) room)

  pub takes_last_any :
      (to : Handlers) (d : DatagramContext) (type : ℕ) (held chunk xs : List ℕ) (acts : List Action)
      → length held ≡ 8
      → length chunk ≤ 8
      → Holds d xs
      → length xs + length chunk ≤ 72
      → ((type ≡ 2) × (d.handling ≡ false)) ⊎ (type ≡ 5)
      → deliver to receiver
          (record (with_chunk (record d { handling = true }) chunk) { handling = false })
          sender.node_alias
        ≡ result ok (completed d chunk) acts
      → handle_datagram to receiver d (datagram_frame sender receiver.node_alias type held chunk)
        ≡ result ok (completed d chunk) acts
  takes_last_any to d type held chunk xs acts h k v room t delivered =
      last to d _ type chunk acts (frame-Fields type held chunk (ground (arith, t))) t
        (appended (record d { handling = true }) type held chunk xs h k
          (record { size = v.size; offset = v.offset; front = v.front }) room)
        delivered

  pub takes_last :
      (d : DatagramContext) (type : ℕ) (held chunk xs : List ℕ)
      → length held ≡ 8
      → length chunk ≤ 8
      → Holds d xs
      → length xs + length chunk ≤ 72
      → ((type ≡ 2) × (d.handling ≡ false)) ⊎ (type ≡ 5)
      → d.received_set ≡ true
      → handle_datagram no_handlers receiver d
          (datagram_frame sender receiver.node_alias type held chunk)
        ≡ result ok (completed d chunk) (received sender.node_alias (xs ++ chunk) ∷ [])
  takes_last d type held chunk xs h k v room t r =
      takes_last_any no_handlers d type held chunk xs _ h k v room t (completes d xs chunk v room r)
