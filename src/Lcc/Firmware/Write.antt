-- ===== src/Lcc/Firmware/Write.antt =====
-- A piece of firmware that is written to a node.
use train_utils.Common.{
  ℕ, ◌+◌, ◌-◌, ◌^◌, ◌≤◌, ◌<◌, ◌≡◌, ◌≢◌, refl, sym, ap, ap₂, subst, ◌||◌, inl, inr, ◌∙◌, arith, true,
  false, some, List, [], ◌∷◌, ◌++◌, map, length, take, take-append, length-append, ltb, ◌!=◌,
  Bool-cases,
}
use train_utils.Lcc.Frame.{CanFrame, to_bytes}
use train_utils.Lcc.Frame.Bytes.{length-to_bytes}
use train_utils.Lcc.Node.{Context, ok}
use train_utils.Lcc.Datagram.{
  DatagramContext, written, called, firmware_data, result, num_packets, buffer_size, load_and_send,
  rxok_frame,
}
use train_utils.Lcc.Datagram.Buffer.{IsIdle}
use train_utils.Lcc.Datagram.Delivery.{Delivers, load_and_send-Delivers}
use train_utils.Lcc.Memory.{
  Line, MemoryContext, space_code, space_byte, reply_head, respond_write_reply_ok,
}
use train_utils.Lcc.Memory.Incoming.{
  Firmware, handle_read_cdi_space, handle_freeze_unfreeze, command_space, handle_command,
  handle_transfer, memory_try_handle_datagram, or_else,
}
use train_utils.Lcc.Memory.Read.{address_of}
use train_utils.Lcc.Firmware.{
  FirmwareContext, WriteAnswer, write_ok, firmware_handlers, firmware_incoming_write,
  firmware_write_ok,
}

-- A write of bytes to the space for firmware, in a buffer that goes on with anything.
abbrev pub write_request : ℕ → List ℕ → List ℕ → List ℕ
write_request address content rest =
    0x20 ∷ 0x00 ∷ (to_bytes 4 address ++ (0xEF ∷ (content ++ rest)))

-- The reply.
abbrev pub write_reply : ℕ → List ℕ
write_reply address = 0x20 ∷ 0x10 ∷ (to_bytes 4 address ++ (0xEF ∷ []))

not_read :
    (m : MemoryContext) (c : Context) (l : Line) (source address : ℕ) (content rest : List ℕ)
    → handle_read_cdi_space m c l source (write_request address content rest) (7 + length content)
      ≡ (false, [])
unfolding handle_read_cdi_space
not_read m c l source address content rest = elim (Bool-cases (ltb (7 + length content) 7)) [
  | inl e ↦ rw e refl
  | inr e ↦ elim (Bool-cases (ltb 8 (7 + length content))) [
    | inl k ↦ rw (e, k) refl
    | inr k ↦ rw (e, k) refl
  ]
]

not_freeze :
    (w : Firmware) (source : ℕ) (buffer content : List ℕ)
    → handle_freeze_unfreeze (some w) source buffer (7 + length content) ≡ (false, [])
unfolding handle_freeze_unfreeze
not_freeze w source buffer content =
    let long : (7 + length content != 3) ≡ true = ground arith in rw long refl

command :
    (m : MemoryContext) (c : Context) (w : Firmware) (source address : ℕ) (content rest : List ℕ)
    → address < 2 ^ 32
    → handle_command m c
        (some w)
        source
        (write_request address content rest)
        (7 + length content)
        (false, 0xEF)
      ≡ (true, written (rxok_frame c source 0x80) ∷ w.incoming_write source address content)
unfolding handle_command to_bytes
command m c w source address content rest small =
    ap₂ (λ a b. (true, written (rxok_frame c source 0x80) ∷ w.incoming_write source a b))
      (address_of 0x20 0x00 address (0xEF ∷ (content ++ rest)) small)
      (ap (λ k. take k (content ++ rest)) {x = 7 + length content - 7} {y = length content}
          (omega arith)
        ∙ take-append content rest)

to_command :
    (m : MemoryContext) (c : Context) (l : Line) (w : Firmware) (source address : ℕ)
    (content rest : List ℕ)
    → m.write_set ≡ true
    → handle_transfer m c l
        (some w)
        source
        (write_request address content rest)
        (7 + length content)
      ≡ handle_command m c
          (some w)
          source
          (write_request address content rest)
          (7 + length content)
          (false, 0xEF)
unfolding handle_transfer command_space to_bytes
to_command m c l w source address content rest set =
    let some_function : (m.cdi_set || m.read_set || m.write_set) ≡ true = ground (arith, set) in
    rw (some_function, not_read m c l source address content rest) refl

-- The message is a write, which the firmware context gets.
to_firmware :
    (m : MemoryContext) (c : Context) (l : Line) (w : Firmware) (source address : ℕ)
    (content rest : List ℕ)
    → m.write_set ≡ true
    → address < 2 ^ 32
    → memory_try_handle_datagram m c l
        (some w)
        source
        (write_request address content rest)
        (7 + length content)
      ≡ (true, written (rxok_frame c source 0x80) ∷ w.incoming_write source address content)
unfolding memory_try_handle_datagram
to_firmware m c l w source address content rest set small =
    let long : ltb (7 + length content) 2 ≡ false = ground arith in
    let whole = write_request address content rest in
    rw long (
      ap (λ f. or_else f (handle_transfer m c l (some w) source whole (7 + length content)))
        (not_freeze w source whole content)
      ∙ to_command m c l w source address content rest set
      ∙ command m c w source address content rest small)

length-reply : (address : ℕ) → length (write_reply address) ≡ 7
length-reply address =
    omega (arith, length-append (to_bytes 4 address) (0xEF ∷ []), length-to_bytes 4 address)

answer_lem :
    (c : Context) (l : Line) (client : ℕ → List ℕ → WriteAnswer) (f : FirmwareContext)
    (source address : ℕ) (content : List ℕ) (fs : List CanFrame)
    → f.functions_set ≡ true
    → client address content ≡ write_ok
    → load_and_send c l.datagram_context l.room l.held source (write_reply address)
      ≡ result ok l.datagram_context (map written fs)
    → (firmware_incoming_write c l client f source address content).1
      ≡ called (firmware_data address content) ∷ map written fs
unfolding firmware_incoming_write firmware_write_ok respond_write_reply_ok reply_head space_code
    space_byte
answer_lem c l client f source address content fs set says sent = rw (set, says, sent) refl

-- A node is written a piece of its firmware: where it has a context for firmware and a function for
-- writes of memory, and the writes of frames succeed, it answers that a reply is pending and hands
-- its client the address and just the bytes of the message; and if the client tells it there that all
-- is well, it sends a datagram of which the node that wrote gets the reply for this space and address.
pub firmware_write_lem :
    (m : MemoryContext) (node writer : Context) (l : Line) (client : ℕ → List ℕ → WriteAnswer)
    (f : FirmwareContext) (e : DatagramContext) (address : ℕ) (content rest : List ℕ)
    (write : CanFrame → ℕ)
    → node.node_alias < 2 ^ 12
    → writer.node_alias < 2 ^ 12
    → writer.node_alias ≢ 0xA28
    → writer.node_alias ≢ 0xA48
    → m.write_set ≡ true
    → f.functions_set ≡ true
    → client address content ≡ write_ok
    → address < 2 ^ 32
    → length l.held ≡ 8
    → 1 ≤ buffer_size l.room
    → node.write_function ≡ some write
    → ((g : CanFrame) → write g ≡ 0)
    → IsIdle e
    → e.received_set ≡ true
    → (fs : List CanFrame) × (memory_try_handle_datagram m node l
          (some (firmware_handlers node write l client f))
          writer.node_alias
          (write_request address content rest)
          (7 + length content)
        ≡ (
          true,
          written (rxok_frame node writer.node_alias 0x80)
              ∷ called (firmware_data address content)
              ∷ map written fs,
        ))
      × Delivers node writer e fs (write_reply address)
firmware_write_lem m node writer l client f e address content rest write own far not_ok not_rejected
      set has says small held room w writes v told =
    let seven = length-reply address in
    let (fs, sent, delivers) =
      load_and_send-Delivers node writer own far not_ok not_rejected l.datagram_context e l.room
        l.held (write_reply address) write held (omega (arith, seven)) room
        (subst (λ k. num_packets k ≤ buffer_size l.room) (sym seven) room) w writes v told in
    (
      fs,
      to_firmware m node l (firmware_handlers node write l client f) writer.node_alias address
            content rest set small
          ∙ ap (λ a. (true, written (rxok_frame node writer.node_alias 0x80) ∷ a))
              (answer_lem node l client f writer.node_alias address content fs has says sent),
      delivers,
    )
