-- ===== src/Lcc/Datagram/Delivery.antt =====
-- What one node sends as a datagram, the other node's client gets.
use train_utils.Common.{
  ℕ, zero, suc, ◌+◌, ◌-◌, ◌*◌, ◌^◌, ◌≤◌, ◌<◌, ◌≡◌, ◌≢◌, refl, sym, ap, subst, ◌∙◌, arith, inl, inr,
  true, some, Option, List, [], ◌∷◌, ◌++◌, length, map, Bool-cases, leb, take, drop, take_all,
  length-take, length-drop, take-append-drop, append_assoc, length-write_from, length-append,
}
use train_utils.Lcc.Frame.{CanFrame}
use train_utils.Lcc.Node.{Context, ok}
use train_utils.Lcc.Context.Alias.{all_written}
use train_utils.Lcc.Datagram.{
  DatagramContext, written, received, result, datagram_frame, frame_type, frames_from, num_packets,
  buffer_size, load_and_send, send_all, write_one,
}
use train_utils.Lcc.Datagram.Incoming.{handle_datagram, and_then, handle_frames}
use train_utils.Lcc.Datagram.Buffer.{
  Holds, IsIdle, with_chunk, with_chunk-Holds, with_chunk-received, completed, completed-IsIdle,
}
use train_utils.Lcc.Datagram.Fragments.{no_handlers, takes_more, takes_last}

-- What the receiver's client gets, and that the receiver waits for another datagram then.
unfoldable pub Delivers : Context → Context → DatagramContext → List CanFrame → List ℕ → Type 0
Delivers sender receiver d fs content =
    (e : DatagramContext) × (handle_frames no_handlers receiver d fs
      ≡ result ok e (received sender.node_alias content ∷ []))
    × IsIdle e

length-frame :
    (c : Context) (alias type : ℕ) (held chunk : List ℕ)
    → length (datagram_frame c alias type held chunk).bytes ≡ length held
unfolding datagram_frame
length-frame c alias type held chunk = length-write_from held 0 chunk

packets_lem :
    (n : ℕ)
    → 9 ≤ n
    → (suc (suc (num_packets n - 2)) ≡ num_packets n)
      × (8 * suc (num_packets n - 2) < n)
      × (n ≤ 8 * suc (suc (num_packets n - 2)))
packets_lem n h = (ground (arith, h), ground (arith, h), ground (arith, h))

module _ (sender receiver : Context) (own : sender.node_alias < 2 ^ 12)
    (dest : receiver.node_alias < 2 ^ 12) (not_ok : receiver.node_alias ≢ 0xA28)
    (not_rejected : receiver.node_alias ≢ 0xA48) where
  last_one :
      (d : DatagramContext) (f : CanFrame) (content chunk : List ℕ)
      → length d.buffer ≡ 72
      → handle_datagram no_handlers receiver d f
        ≡ result ok (completed d chunk) (received sender.node_alias content ∷ [])
      → Delivers sender receiver d (f ∷ []) content
  unfolding handle_frames Delivers
  last_one d f content chunk h e =
      (completed d chunk, ap (λ r. and_then r (λ e. result ok e [])) e, completed-IsIdle d chunk h)

  one_more :
      (d e : DatagramContext) (f : CanFrame) (fs : List CanFrame) (content : List ℕ)
      → handle_datagram no_handlers receiver d f ≡ result ok e []
      → Delivers sender receiver e fs content
      → Delivers sender receiver d (f ∷ fs) content
  unfolding handle_frames Delivers
  one_more d e f fs content h (r, got, idle) =
      (r, ap (λ r. and_then r (λ e. handle_frames no_handlers receiver e fs)) h ∙ rw got refl, idle)

  -- The frames from number `x` on.
  rest_delivered :
      (k x packets : ℕ) (d : DatagramContext) (held rest xs : List ℕ)
      → length held ≡ 8
      → 1 ≤ x
      → x + suc k ≡ packets
      → 8 * k < length rest
      → length rest ≤ 8 * suc k
      → Holds d xs
      → length xs + length rest ≤ 72
      → d.received_set ≡ true
      → Delivers sender receiver d
          (frames_from sender receiver.node_alias packets (suc k) x held rest)
          (xs ++ rest)
  unfolding frames_from
  rest_delivered zero x packets d held rest xs h hx n low high v room r =
      let type : frame_type x packets ≡ 5 = ground (arith, hx, n) in
      subst
        (λ l.
          Delivers sender receiver d
            (datagram_frame sender receiver.node_alias (frame_type x packets) held l ∷ [])
            (xs ++ rest))
        (sym (take_all 8 rest (omega arith)))
        (last_one d _ (xs ++ rest) rest v.size (
          takes_last sender receiver own dest not_ok not_rejected d (frame_type x packets) held rest
            xs h (omega arith) v room (inr type) r))
  rest_delivered (suc k) x packets d held rest xs h hx n low high v room r =
      let type : frame_type x packets ≡ 4 = ground (arith, hx, n) in
      let chunk = take 8 rest in
      let size : length chunk ≡ 8 = omega (arith, length-take 8 rest) in
      let f = datagram_frame sender receiver.node_alias (frame_type x packets) held chunk in
      let e = with_chunk (record d { handling = true }) chunk in
      one_more d e f _ (xs ++ rest)
        (takes_more sender receiver own dest not_ok not_rejected d (frame_type x packets) held chunk
          xs h (omega arith) v (omega arith) (inr type))
        (subst
          (λ l.
            Delivers sender receiver e
              (frames_from sender receiver.node_alias packets (suc k) (x + 1) f.bytes (drop 8 rest))
              l)
          (append_assoc xs chunk (drop 8 rest) ∙ ap (λ l. xs ++ l) (take-append-drop 8 rest))
          (rest_delivered k (x + 1) packets e f.bytes (drop 8 rest) (xs ++ chunk)
            (length-frame sender receiver.node_alias (frame_type x packets) held chunk ∙ h)
            (omega arith) (omega (arith, n)) (omega (arith, length-drop 8 rest))
            (omega (arith, length-drop 8 rest))
            (with_chunk-Holds (record d { handling = true }) xs chunk
              (record { size = v.size; offset = v.offset; front = v.front }) (omega arith))
            (omega (arith, length-drop 8 rest, length-append xs chunk))
            (with_chunk-received (record d { handling = true }) chunk ∙ r)))

  -- Two frames or more, from an idle context on.
  all_delivered :
      (k packets : ℕ) (d : DatagramContext) (held content : List ℕ)
      → length held ≡ 8
      → suc (suc k) ≡ packets
      → 8 * suc k < length content
      → length content ≤ 8 * suc (suc k)
      → IsIdle d
      → length content ≤ 72
      → d.received_set ≡ true
      → Delivers sender receiver d
          (frames_from sender receiver.node_alias packets (suc (suc k)) 0 held content)
          content
  unfolding frames_from
  all_delivered k packets d held content h n low high v room r =
      let chunk = take 8 content in
      let size : length chunk ≡ 8 = omega (arith, length-take 8 content) in
      let f = datagram_frame sender receiver.node_alias 3 held chunk in
      let e = with_chunk (record d { handling = true }) chunk in
      let nothing : Holds d [] = record { size = v.size; offset = v.empty; front = refl } in
      one_more d e f _ content
        (takes_more sender receiver own dest not_ok not_rejected d 3 held chunk [] h (omega arith)
          nothing (omega arith) (inl (refl, v.free)))
        (subst
          (λ l.
            Delivers sender receiver e
              (frames_from sender receiver.node_alias packets (suc k) 1 f.bytes (drop 8 content)) l)
          (take-append-drop 8 content)
          (rest_delivered k 1 packets e f.bytes (drop 8 content) chunk
            (length-frame sender receiver.node_alias 3 held chunk ∙ h) (omega arith)
            (omega (arith, n)) (omega (arith, length-drop 8 content))
            (omega (arith, length-drop 8 content))
            (with_chunk-Holds (record d { handling = true }) [] chunk
              (record { size = v.size; offset = v.empty; front = refl }) (omega arith))
            (omega (arith, length-drop 8 content))
            (with_chunk-received (record d { handling = true }) chunk ∙ r)))

  -- A datagram of at most 72 bytes, sent where there is room for its frames and the writes succeed,
  -- is OK for the sender; and when the frames written come to an idle receiver, its client gets
  -- these bytes once and the sender's alias, and the receiver is idle again.
  pub load_and_send-Delivers :
      (d e : DatagramContext) (room : Option ℕ) (held content : List ℕ) (write : CanFrame → ℕ)
      → length held ≡ 8
      → length content ≤ 72
      → 1 ≤ buffer_size room
      → num_packets (length content) ≤ buffer_size room
      → sender.write_function ≡ some write
      → ((f : CanFrame) → write f ≡ 0)
      → IsIdle e
      → e.received_set ≡ true
      → (fs : List CanFrame) × (load_and_send sender d room held receiver.node_alias content
          ≡ result ok d (map written fs))
        × Delivers sender receiver e fs content
  unfolding load_and_send write_one send_all
  load_and_send-Delivers d e room held content write h small some_room enough w writes v r =
      elim (Bool-cases (leb (length content) 8)) [
        | inl short ↦ (
          datagram_frame sender receiver.node_alias 2 held content ∷ [],
          ground (
            arith,
            small,
            some_room,
            short,
            w,
            writes (datagram_frame sender receiver.node_alias 2 held content),
          ),
          last_one e _ content content v.size (
              takes_last sender receiver own dest not_ok not_rejected e 2 held content [] h
                (ground (arith, short)) (record { size = v.size; offset = v.empty; front = refl })
                (omega arith) (inl (refl, v.free)) r),
        )
        | inr long ↦
            let packets = num_packets (length content) in
            let k = packets - 2 in
            let counts = packets_lem (length content) (ground (arith, long)) in
            let fs = frames_from sender receiver.node_alias packets packets 0 held content in
            let sent = all_written write fs writes in
            (
              fs,
              ground (arith, small, some_room, enough, long, w, sent),
              subst
                  (λ m.
                    Delivers sender receiver e
                      (frames_from sender receiver.node_alias packets m 0 held content) content)
                  counts.0
                  (all_delivered k packets e held content h counts.0 counts.1 counts.2 v small r),
            )
      ]
