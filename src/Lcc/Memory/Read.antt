-- ===== src/Lcc/Memory/Read.antt =====
-- A node that reads the configuration description of another.
use train_utils.Common.{
  ℕ, ◌+◌, ◌*◌, ◌^◌, ◌≤◌, ◌<◌, ◌≡◌, ◌≢◌, refl, sym, ap, subst, ◌∙◌, arith, Bool, true, false, none,
  some, Option, List, [], ◌∷◌, ◌++◌, map, length, take, drop, take-append, length-append,
  append-nil, if◌then◌else◌, ltb,
}
use train_utils.Lcc.Frame.{CanFrame, to_bytes, or_bytes, uint32_from_data}
use train_utils.Lcc.Frame.Bytes.{or_bytes-to_bytes, length-to_bytes}
use train_utils.Lcc.Node.{Context}
use train_utils.Lcc.Datagram.{
  DatagramContext, written, called, read_space, rejected_frame, num_packets, buffer_size,
  load_and_send, rxok_frame,
}
use train_utils.Lcc.Datagram.Buffer.{IsIdle}
use train_utils.Lcc.Datagram.Delivery.{Delivers, load_and_send-Delivers}
use train_utils.Lcc.Memory.{
  Line, MemoryContext, space_code, space_byte, reply_head, respond_read_reply_ok,
}
use train_utils.Lcc.Memory.Made.{read_cdi}
use train_utils.Lcc.Memory.OnDemand.{length-read_cdi, length-read_cdi_any}
use train_utils.Lcc.Memory.Incoming.{
  Firmware, handled_if_ok, or_else, handle_read_cdi_space, handle_freeze_unfreeze, handle_transfer,
  handle_command, command_space, memory_try_handle_datagram,
}

-- A request for `n` bytes from an address on, in a buffer that goes on with anything.
abbrev pub request : ℕ → ℕ → List ℕ → List ℕ
request address n rest = 0x20 ∷ 0x43 ∷ (to_bytes 4 address ++ (n ∷ rest))

-- The reply.
abbrev pub reply : ℕ → List ℕ → List ℕ
reply address content = 0x20 ∷ 0x53 ∷ (to_bytes 4 address ++ content)

length-reply :
    (address : ℕ) (content : List ℕ) → length (reply address content) ≡ 6 + length content
length-reply address content =
    omega (arith, length-append (to_bytes 4 address) content, length-to_bytes 4 address)

pub address_of :
    (a b address : ℕ) (more : List ℕ)
    → address < 2 ^ 32
    → uint32_from_data (drop 2 (a ∷ b ∷ (to_bytes 4 address ++ more))) ≡ address
unfolding uint32_from_data
address_of a b address more h =
    ap (or_bytes 0) (
      ap (λ k. take k (to_bytes 4 address ++ more)) {x = 4} {y = length (to_bytes 4 address)}
        (omega (arith, length-to_bytes 4 address))
      ∙ take-append (to_bytes 4 address) more)
    ∙ ap (λ t. or_bytes t (to_bytes 4 address)) {x = 0} {y = 0 * 2 ^ (8 * 4)} (omega arith)
    ∙ or_bytes-to_bytes 4 0 address
    ∙ omega arith

address_lem :
    (address n : ℕ) (rest : List ℕ)
    → address < 2 ^ 32
    → uint32_from_data (drop 2 (request address n rest)) ≡ address
address_lem address n rest h = address_of 0x20 0x43 address (n ∷ rest) h

head_lem :
    (address : ℕ) (content : List ℕ)
    → reply_head 0x50 0xFF address ++ content ≡ reply address content
unfolding reply_head space_code space_byte
head_lem address content = ap (λ l. (0x20 ∷ 0x53 ∷ l) ++ content) (append-nil (to_bytes 4 address))

pub read_taken :
    (m : MemoryContext) (c : Context) (l : Line) (alias address n : ℕ) (rest : List ℕ)
    → address < 2 ^ 32
    → handle_read_cdi_space m c l alias (request address n rest) 7
      ≡ handled_if_ok
          (rxok_frame c alias 0x80)
          (respond_read_reply_ok c l alias 0xFF address (read_cdi m address n))
unfolding handle_read_cdi_space to_bytes
read_taken m c l alias address n rest h =
    ap
      (λ a.
        handled_if_ok (rxok_frame c alias 0x80)
          (respond_read_reply_ok c l alias 0xFF a (read_cdi m a n)))
      (address_lem address n rest h)

replied :
    (c : Context) (l : Line) (alias address : ℕ) (content : List ℕ)
    → length content ≤ 64
    → respond_read_reply_ok c l alias 0xFF address content
      ≡ load_and_send c l.datagram_context l.room l.held alias (reply address content)
unfolding respond_read_reply_ok
replied c l alias address content h =
    let fits : ltb 64 (length content) ≡ false = ground (arith, h) in
    rw fits (
      ap (λ r. load_and_send c l.datagram_context l.room l.held alias r) (head_lem address content))

not_freeze :
    (w : Option Firmware) (alias : ℕ) (buffer : List ℕ)
    → handle_freeze_unfreeze w alias buffer 7 ≡ (false, [])
unfolding handle_freeze_unfreeze
not_freeze none alias buffer = refl
not_freeze (some v) alias buffer = refl

pub to_transfer :
    (m : MemoryContext) (c : Context) (l : Line) (w : Option Firmware) (alias address n : ℕ)
    (rest : List ℕ)
    → memory_try_handle_datagram m c l w alias (request address n rest) 7
      ≡ handle_transfer m c l w alias (request address n rest) 7
unfolding memory_try_handle_datagram
to_transfer m c l w alias address n rest =
    ap (λ f. or_else f (handle_transfer m c l w alias (request address n rest) 7))
      (not_freeze w alias (request address n rest))

-- With a description, the read of it comes first, and settles the message where its reply is OK.
settled :
    (m : MemoryContext) (c : Context) (l : Line) (w : Option Firmware) (alias : ℕ) (buffer : List ℕ)
    (fs : List CanFrame)
    → m.cdi_set ≡ true
    → handle_read_cdi_space m c l alias buffer 7
      ≡ (true, written (rxok_frame c alias 0x80) ∷ map written fs)
    → handle_transfer m c l w alias buffer 7
      ≡ (true, written (rxok_frame c alias 0x80) ∷ map written fs)
unfolding handle_transfer
settled m c l w alias buffer fs set e = rw (e, set) refl

-- A node asks another for up to 64 bytes of its configuration description. The other node, where the
-- writes succeed and there is room for the reply, handles the message: it answers that a reply is
-- pending, and then sends a datagram of which the node that asked gets just the bytes of the
-- description from that address on, behind the address. What else is in the buffer, and the context
-- for firmware, do not matter.
pub read_lem :
    (m : MemoryContext) (node asker : Context) (l : Line) (w : Option Firmware)
    (e : DatagramContext) (address n : ℕ) (rest : List ℕ) (write : CanFrame → ℕ)
    → node.node_alias < 2 ^ 12
    → asker.node_alias < 2 ^ 12
    → asker.node_alias ≢ 0xA28
    → asker.node_alias ≢ 0xA48
    → m.cdi_set ≡ true
    → address < 2 ^ 32
    → n ≤ 64
    → length l.held ≡ 8
    → 1 ≤ buffer_size l.room
    → num_packets (6 + n) ≤ buffer_size l.room
    → node.write_function ≡ some write
    → ((f : CanFrame) → write f ≡ 0)
    → IsIdle e
    → e.received_set ≡ true
    → (fs : List CanFrame) × (memory_try_handle_datagram m node l w asker.node_alias
          (request address n rest)
          7
        ≡ (true, written (rxok_frame node asker.node_alias 0x80) ∷ map written fs))
      × Delivers node asker e fs (reply address (read_cdi m address n))
read_lem m node asker l w e address n rest write own far not_ok not_rejected set small few held
      some_room enough f ok_writes v told =
    let content = read_cdi m address n in
    let size : length content ≡ n = length-read_cdi m address n few in
    let whole : length (reply address content) ≡ 6 + n =
      omega (arith, length-reply address content, size) in
    let (fs, sent, delivers) =
      load_and_send-Delivers node asker own far not_ok not_rejected l.datagram_context e l.room
        l.held (reply address content) write held (omega (arith, whole)) some_room
        (subst (λ k. num_packets k ≤ buffer_size l.room) (sym whole) enough) f ok_writes v told in
    (
      fs,
      to_transfer m node l w asker.node_alias address n rest
          ∙ settled m node l w asker.node_alias (request address n rest) fs set (
              read_taken m node l asker.node_alias address n rest small
              ∙ ap (handled_if_ok (rxok_frame node asker.node_alias 0x80))
                  (replied node l asker.node_alias address content (omega (arith, size)) ∙ sent)),
      delivers,
    )

too_long :
    (c : Context) (l : Line) (alias address : ℕ) (content : List ℕ)
    → 64 < length content
    → handled_if_ok (rxok_frame c alias 0x80) (respond_read_reply_ok c l alias 0xFF address content)
      ≡ (false, written (rxok_frame c alias 0x80) ∷ [])
unfolding respond_read_reply_ok
too_long c l alias address content h =
    let over : ltb 64 (length content) ≡ true = ground (arith, h) in rw over refl

asks_client :
    (m : MemoryContext) (c : Context) (w : Option Firmware) (alias address n : ℕ) (rest : List ℕ)
    (b : Bool)
    → address < 2 ^ 32
    → m.read_set ≡ b
    → handle_command m c w alias (request address n rest) 7 (true, 0xFF) ≡ (
      true,
      (if b
          then written (rxok_frame c alias 0x80) ∷ called (read_space alias 0xFF address n) ∷ []
          else written (rejected_frame c alias 0) ∷ []),
    )
unfolding handle_command to_bytes
asks_client m c none alias address n rest true h k = rw k (
    ap (λ a. (true, written (rxok_frame c alias 0x80) ∷ called (read_space alias 0xFF a n) ∷ []))
      (address_lem address n rest h))
asks_client m c none alias address n rest false h k = rw k refl
asks_client m c (some v) alias address n rest true h k = rw k (
    ap (λ a. (true, written (rxok_frame c alias 0x80) ∷ called (read_space alias 0xFF a n) ∷ []))
      (address_lem address n rest h))
asks_client m c (some v) alias address n rest false h k = rw k refl

-- A node with a configuration description in memory that is asked for more than 64 bytes of it answers that a
-- reply is pending and sends no reply with it. It then treats the message as a read of any other
-- space: it answers a second time and asks its client for the bytes, or, if the client has no
-- function for reads, rejects the message that it has accepted.
pub too_long_lem :
    (m : MemoryContext) (c : Context) (l : Line) (w : Option Firmware) (alias address n : ℕ)
    (rest : List ℕ)
    → m.cdi_set ≡ true
    → m.cdi_strings ≡ none
    → address < 2 ^ 32
    → 64 < n
    → memory_try_handle_datagram m c l w alias (request address n rest) 7 ≡ (
      true,
      written (rxok_frame c alias 0x80)
          ∷ (if m.read_set
              then written (rxok_frame c alias 0x80) ∷ called (read_space alias 0xFF address n) ∷ []
              else written (rejected_frame c alias 0) ∷ []),
    )
unfolding handle_transfer command_space
too_long_lem m c l w alias address n rest set held small many =
    let long =
      too_long c l alias address (read_cdi m address n)
        (omega (arith, length-read_cdi_any m address n held)) in
    let first = read_taken m c l alias address n rest small ∙ long in
    let second = asks_client m c w alias address n rest m.read_set small refl in
    to_transfer m c l w alias address n rest ∙ rw (first, second, set) refl
