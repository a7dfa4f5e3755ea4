-- ===== src/Lcc/Memory/Exchange.antt =====
-- A read of the configuration description, from the node that asks and back to it.
use train_utils.Common.{
  ℕ, ◌+◌, ◌^◌, ◌≤◌, ◌<◌, ◌≡◌, ◌≢◌, refl, sym, ap, ap₂, ◌∙◌, arith, inl, true, false, none, some,
  Option, List, [], ◌∷◌, ◌++◌, map, length, take, drop, take-append-drop, length-append,
  append_assoc, append-nil,
}
use train_utils.Lcc.Frame.{CanFrame, to_bytes}
use train_utils.Lcc.Frame.Bytes.{length-to_bytes}
use train_utils.Lcc.Node.{Context, ok}
use train_utils.Lcc.Datagram.{
  DatagramContext, Action, written, received, accepted, result, num_packets, buffer_size,
  load_and_send, write_one, datagram_frame, rxok_frame,
}
use train_utils.Lcc.Datagram.Incoming.{Handlers, deliver, handle_datagram, and_then, handle_frames}
use train_utils.Lcc.Datagram.Buffer.{
  Holds, IsIdle, with_chunk, with_chunk-Holds, completed, completed-IsIdle,
}
use train_utils.Lcc.Datagram.Fragments.{no_handlers, takes_last_any}
use train_utils.Lcc.Datagram.Delivery.{Delivers}
use train_utils.Lcc.Datagram.Answers.{accepts, rxok_frame-IsAnswer, flags_lem, lengths}
use train_utils.Lcc.Memory.{Line, MemoryContext}
use train_utils.Lcc.Memory.Made.{read_cdi}
use train_utils.Lcc.Memory.Incoming.{Firmware, memory_try_handle_datagram}
use train_utils.Lcc.Memory.Read.{request, reply, read_lem}

-- A node with a context for memory.
abbrev pub memory_handlers : MemoryContext → Context → Line → Option Firmware → Handlers
memory_handlers m c l w = record {
  memory_context = some (λ alias buffer len. memory_try_handle_datagram m c l w alias buffer len);
  remote_memory_context = none;
}

length-request : (address n : ℕ) → length (request address n []) ≡ 7
length-request address n =
    omega (arith, length-append (to_bytes 4 address) (n ∷ []), length-to_bytes 4 address)

request-rest :
    (address n : ℕ) (junk : List ℕ) → request address n [] ++ junk ≡ request address n junk
request-rest address n junk =
    ap (λ l. 0x20 ∷ 0x43 ∷ l) (append_assoc (to_bytes 4 address) (n ∷ []) junk)

buffer_lem :
    (d : DatagramContext) (address n : ℕ)
    → Holds d (request address n [])
    → (d.buffer ≡ request address n (drop 7 d.buffer)) × (d.offset ≡ 7)
buffer_lem d address n v = (
  sym (take-append-drop 7 d.buffer)
      ∙ ap (λ l. l ++ drop 7 d.buffer)
          (ap (λ k. take k d.buffer) (sym (length-request address n)) ∙ v.front)
      ∙ request-rest address n (drop 7 d.buffer),
  v.offset ∙ length-request address n,
)

deliver_memory :
    (m : MemoryContext) (c : Context) (l : Line) (w : Option Firmware) (d : DatagramContext)
    (source address n : ℕ) (acts : List Action)
    → Holds d (request address n [])
    → memory_try_handle_datagram m c l w source (request address n (drop 7 d.buffer)) 7
      ≡ (true, acts)
    → deliver (memory_handlers m c l w) c d source ≡ result ok (record d { offset = 0 }) acts
unfolding deliver
deliver_memory m c l w d source address n acts v e =
    let whole = buffer_lem d address n v in
    let tried = ap₂ (λ b k. memory_try_handle_datagram m c l w source b k) whole.0 whole.1 ∙ e in
    rw tried
      (ap (λ a. result ok (record d { offset = 0 }) a) (append-nil (acts ++ []) ∙ append-nil acts))

-- What the node that asks sees: the answer that a reply is pending, and the reply.
told :
    (asker node : Context) (d : DatagramContext) (fs : List CanFrame) (content : List ℕ)
    → node.node_alias < 2 ^ 12
    → asker.node_alias < 2 ^ 12
    → d.ok_set ≡ true
    → Delivers node asker (record d { handling = false }) fs content
    → (e : DatagramContext) × (handle_frames no_handlers asker d
          (rxok_frame node asker.node_alias 0x80 ∷ fs)
        ≡ result ok e (accepted node.node_alias 0x80 ∷ received node.node_alias content ∷ []))
      × IsIdle e
unfolding handle_frames Delivers
told asker node d fs content far own set (e, got, idle) =
    let answer = rxok_frame node asker.node_alias 0x80 in
    let first =
      accepts asker node d answer 0x80 (rxok_frame-IsAnswer node asker.node_alias 0x80 far own)
        (lengths node asker.node_alias 0x80).0 (flags_lem node asker.node_alias 0x80 (omega arith))
        set in
    (e, ap (λ r. and_then r (λ x. handle_frames no_handlers asker x fs)) first ∙ rw got refl, idle)

-- A node asks another for up to 64 bytes of its configuration description: its message is one frame,
-- and the other node, which was idle, writes an answer and a reply and is idle again. When these
-- frames come to the node that asked, its client is told that the message was accepted with a reply
-- pending, and then gets just the bytes from the address on, behind the address; and it is idle too.
pub exchange_lem :
    (m : MemoryContext) (asker node : Context) (l : Line) (w : Option Firmware)
    (d e : DatagramContext) (room : Option ℕ) (held : List ℕ) (address n : ℕ)
    (write answer : CanFrame → ℕ)
    → asker.node_alias < 2 ^ 12
    → node.node_alias < 2 ^ 12
    → asker.node_alias ≢ 0xA28
    → asker.node_alias ≢ 0xA48
    → node.node_alias ≢ 0xA28
    → node.node_alias ≢ 0xA48
    → asker.write_function ≡ some write
    → node.write_function ≡ some answer
    → ((f : CanFrame) → write f ≡ 0)
    → ((f : CanFrame) → answer f ≡ 0)
    → m.cdi_set ≡ true
    → address < 2 ^ 32
    → n ≤ 64
    → length held ≡ 8
    → length l.held ≡ 8
    → 1 ≤ buffer_size room
    → 1 ≤ buffer_size l.room
    → num_packets (6 + n) ≤ buffer_size l.room
    → IsIdle d
    → IsIdle e
    → d.ok_set ≡ true
    → d.received_set ≡ true
    → (f : CanFrame) × (load_and_send asker d room held node.node_alias (request address n [])
        ≡ result ok d (written f ∷ []))
      × (fs : List CanFrame) × (after : DatagramContext) × (handle_datagram
            (memory_handlers m node l w)
            node
            e
            f
          ≡ result ok after (map written fs))
      × IsIdle after
      × (last : DatagramContext) × (handle_frames no_handlers asker d fs
          ≡ result ok last (
              accepted node.node_alias 0x80
              ∷ received node.node_alias (reply address (read_cdi m address n))
              ∷ []))
      × IsIdle last
unfolding load_and_send write_one
exchange_lem m asker node l w d e room held address n write answer own far ask_ok ask_no node_ok
      node_no asks answers wrote answered set small few eight eight_more some_room more_room enough
      idle waits accepts_set gets =
    let ask = request address n [] in
    let seven = length-request address n in
    let f = datagram_frame asker node.node_alias 2 held ask in
    let sent = wrote f in
    let d_free : DatagramContext = record d { handling = false } in
    let taken : DatagramContext = record (with_chunk (record e { handling = true }) ask) {
      handling = false;
    } in
    let v =
      with_chunk-Holds (record e { handling = true }) [] ask
        (record { size = waits.size; offset = waits.empty; front = refl }) (omega (arith, seven)) in
    let (frames, handled, delivers) =
      read_lem m node asker l w d_free address n (drop 7 taken.buffer) answer far own ask_ok ask_no
        set small few eight_more more_room enough answers answered
        (record { size = idle.size; empty = idle.empty; free = refl }) gets in
    let (last, got, ends) =
      told asker node d frames (reply address (read_cdi m address n)) far own accepts_set
        delivers in
    (
      f,
      ground (arith, seven, some_room, asks, sent),
      rxok_frame node asker.node_alias 0x80 ∷ frames,
      completed e ask,
      takes_last_any asker node own far node_ok node_no (memory_handlers m node l w) e 2 held ask []
          _ eight (omega (arith, seven))
          (record { size = waits.size; offset = waits.empty; front = refl }) (omega (arith, seven))
          (inl (refl, waits.free))
          (deliver_memory m node l w taken asker.node_alias address n _
            (record { size = v.size; offset = v.offset; front = v.front }) handled),
      completed-IsIdle e ask waits.size,
      last,
      got,
      ends,
    )
