-- ===== src/Lcc/Remote/Heard.antt =====
-- LCC/lcc-remote-memory.c and LCC/lcc-memory.c: what a node asks for is what the client of the other one
-- is called with, and one request at a time.
use train_utils.Common.{
  ℕ, ◌+◌, ◌-◌, ◌^◌, ◌≤◌, ◌<◌, ◌≡◌, ◌≢◌, refl, ap, ap₂, ◌∙◌, true, false, ◌||◌, arith, none, some,
  List, [], ◌∷◌, ◌++◌, if◌then◌else◌, ltb, ◌==◌, ◌!=◌, length, take, drop, take-append, bit_and,
}
use train_utils.Common.Bits.{bit_and_low}
use train_utils.Lcc.Frame.{to_bytes, uint32_from_data}
use train_utils.Lcc.Node.{Context}
use train_utils.Lcc.Datagram.{written, called, read_space, write_space, rxok_frame}
use train_utils.Lcc.Memory.{Line, MemoryContext, reply_head, space_code, space_byte, send_reply}
use train_utils.Lcc.Memory.Incoming.{
  memory_try_handle_datagram, handle_transfer, handle_read_cdi_space, handle_command, command_space,
  handle_freeze_unfreeze,
}
use train_utils.Lcc.Memory.Read.{address_of}
use train_utils.Lcc.Remote.{RemoteContext}
use train_utils.Lcc.Remote.Answers.{
  Coding, configuration, all_memory, definition, generic, space_cases,
}
use train_utils.Lcc.Remote.Requests.{
  Request, reads, writes, IsRequest, issue, request_bytes, line_of, call_of, issued,
}

-- A node whose client reads and writes its memory, and that has no context for firmware.
pub record Serves (m : MemoryContext) : Type 0 where
  pub by_read : m.read_set ≡ true
  pub by_write : m.write_set ≡ true

module _ (m : MemoryContext) (c : Context) (l : Line) (alias address : ℕ) (w : Serves m)
    (small : address < 2 ^ 32) (junk : List ℕ) where
  some_set : (m.cdi_set || m.read_set || m.write_set) ≡ true
  some_set = ground (arith, w.by_read)

  generic_head :
      (b s a : ℕ)
      → (s == 0xFD) ≡ false
      → (s == 0xFE) ≡ false
      → (s == 0xFF) ≡ false
      → reply_head b s a ≡ 0x20 ∷ b ∷ (to_bytes 4 a ++ s ∷ [])
  unfolding reply_head space_code space_byte
  generic_head b s a x y z = rw (x, y, z) refl

  generic_read :
      (s count : ℕ)
      → (s == 0xFF) ≡ false
      → count ≤ 64
      → memory_try_handle_datagram m c l none alias
          (0x20 ∷ 0x40 ∷ (to_bytes 4 address ++ (s ∷ bit_and count 0xFF ∷ junk)))
          8
        ≡ (true, written (rxok_frame c alias 0x80) ∷ called (read_space alias s address count) ∷ [])
  unfolding to_bytes memory_try_handle_datagram handle_transfer handle_read_cdi_space handle_command
      command_space handle_freeze_unfreeze
  generic_read s count z few =
      let other : (s != 0xFF) ≡ true = ground (arith, z) in
      rw (some_set, other, w.by_read)
        (ap₂
          (λ p q. (true, written (rxok_frame c alias 0x80) ∷ called (read_space alias s p q) ∷ []))
          (address_of 0x20 0x40 address (s ∷ bit_and count 0xFF ∷ junk) small)
          (bit_and_low 8 count ∙ omega arith))

  heard_read :
      (s count : ℕ)
      → Coding s
      → s ≢ 0xFF
      → count ≤ 64
      → memory_try_handle_datagram m c l none alias
          (request_bytes s address (reads count) ++ junk)
          (length (request_bytes s address (reads count)))
        ≡ (true, written (rxok_frame c alias 0x80) ∷ called (read_space alias s address count) ∷ [])
  unfolding reply_head space_code space_byte to_bytes memory_try_handle_datagram handle_transfer
      handle_read_cdi_space handle_command command_space handle_freeze_unfreeze
  heard_read _ count configuration n few =
      rw (some_set, w.by_read)
        (ap₂
          (λ x y.
            (true, written (rxok_frame c alias 0x80) ∷ called (read_space alias 0xFD x y) ∷ []))
          (address_of 0x20 0x41 address (bit_and count 0xFF ∷ junk) small)
          (bit_and_low 8 count ∙ omega arith))
  heard_read _ count all_memory n few =
      rw (some_set, w.by_read)
        (ap₂
          (λ x y.
            (true, written (rxok_frame c alias 0x80) ∷ called (read_space alias 0xFE x y) ∷ []))
          (address_of 0x20 0x42 address (bit_and count 0xFF ∷ junk) small)
          (bit_and_low 8 count ∙ omega arith))
  heard_read _ count definition n few = absurd (n refl)
  heard_read s count (generic x y z) n few =
      ap
        (λ h.
          memory_try_handle_datagram m c l none alias ((h ++ bit_and count 0xFF ∷ []) ++ junk)
            (length (h ++ bit_and count 0xFF ∷ [])))
        (generic_head 0x40 s address x y z)
      ∙ generic_read s count z few

  -- A write that is no read of the description is told to the client.
  write_told :
      (code s start len : ℕ) (rest : List ℕ)
      → (code == 0x43) ≡ false
      → (code == 0x40) ≡ false
      → command_space code (0x20 ∷ code ∷ rest) ≡ some (false, s)
      → (if (code == 0x40) || (code == 0x00) then 7 else 6) ≡ start
      → handle_transfer m c l none alias (0x20 ∷ code ∷ rest) len ≡ (
        true,
        written (rxok_frame c alias 0x80)
            ∷ called (
                write_space alias s
                  (uint32_from_data (drop 2 (0x20 ∷ code ∷ rest)))
                  (take (len - start) (drop start (0x20 ∷ code ∷ rest))))
            ∷ [],
      )
  unfolding handle_transfer handle_read_cdi_space handle_command
  write_told code s start len rest x y z e =
      let not_read : (ltb len 7 || ltb 8 len || (0 != 0xFF)) ≡ true = ground arith in
      rw (some_set, x, y, not_read, z, w.by_write)
        (ap
          (λ k. (
            true,
            written (rxok_frame c alias 0x80)
                ∷ called (
                    write_space alias s (uint32_from_data (drop 2 (0x20 ∷ code ∷ rest)))
                      (take (len - k) (drop k (0x20 ∷ code ∷ rest))))
                ∷ [],
          ))
          e)

  told_content :
      (code s start : ℕ) (extra content : List ℕ)
      → (code == 0x43) ≡ false
      → (code == 0x40) ≡ false
      → command_space code (0x20 ∷ code ∷ (to_bytes 4 address ++ (extra ++ (content ++ junk))))
        ≡ some (false, s)
      → (if (code == 0x40) || (code == 0x00) then 7 else 6) ≡ start
      → drop start (0x20 ∷ code ∷ (to_bytes 4 address ++ (extra ++ (content ++ junk))))
        ≡ content ++ junk
      → handle_transfer m c l none alias
          (0x20 ∷ code ∷ (to_bytes 4 address ++ (extra ++ (content ++ junk))))
          (start + length content)
        ≡ (
          true,
          written (rxok_frame c alias 0x80) ∷ called (write_space alias s address content) ∷ [],
        )
  told_content code s start extra content x y z e d =
      write_told code s start (start + length content)
        (to_bytes 4 address ++ (extra ++ (content ++ junk))) x y z e
      ∙ ap₂
          (λ p q. (true, written (rxok_frame c alias 0x80) ∷ called (write_space alias s p q) ∷ []))
          (address_of 0x20 code address (extra ++ (content ++ junk)) small)
          (ap (take (start + length content - start)) d
            ∙ ap (λ n. take n (content ++ junk)) {x = start + length content - start}
                {y = length content} (omega arith)
            ∙ take-append content junk)

  -- The tests before the transfers pass a write on.
  passed :
      (code len : ℕ) (rest : List ℕ)
      → code < 4
      → 2 ≤ len
      → memory_try_handle_datagram m c l none alias (0x20 ∷ code ∷ rest) len
        ≡ handle_transfer m c l none alias (0x20 ∷ code ∷ rest) len
  unfolding memory_try_handle_datagram handle_freeze_unfreeze
  passed code len rest h long =
      let enough : ltb len 2 ≡ false = ground (arith, long) in
      let a8 : (code == 0xA8) ≡ false = ground (arith, h) in
      let a9 : (code == 0xA9) ≡ false = ground (arith, h) in
      let aa : (code == 0xAA) ≡ false = ground (arith, h) in
      let q : (code == 0x84) ≡ false = ground (arith, h) in rw (enough, a8, a9, aa, q) refl

  heard_write :
      (s : ℕ) (content : List ℕ)
      → Coding s
      → memory_try_handle_datagram m c l none alias
          (request_bytes s address (writes content) ++ junk)
          (length (request_bytes s address (writes content)))
        ≡ (
          true,
          written (rxok_frame c alias 0x80) ∷ called (write_space alias s address content) ∷ [],
        )
  unfolding reply_head space_code space_byte to_bytes command_space
  heard_write _ content configuration =
      ap
        (memory_try_handle_datagram m c l none alias
          (request_bytes 0xFD address (writes content) ++ junk))
        {x = length (request_bytes 0xFD address (writes content))} {y = 6 + length content}
        (omega arith)
      ∙ passed 0x01 (6 + length content) _ (omega arith) (omega arith)
      ∙ told_content 0x01 0xFD 6 [] content refl refl refl refl refl
  heard_write _ content all_memory =
      ap
        (memory_try_handle_datagram m c l none alias
          (request_bytes 0xFE address (writes content) ++ junk))
        {x = length (request_bytes 0xFE address (writes content))} {y = 6 + length content}
        (omega arith)
      ∙ passed 0x02 (6 + length content) _ (omega arith) (omega arith)
      ∙ told_content 0x02 0xFE 6 [] content refl refl refl refl refl
  heard_write _ content definition =
      ap
        (memory_try_handle_datagram m c l none alias
          (request_bytes 0xFF address (writes content) ++ junk))
        {x = length (request_bytes 0xFF address (writes content))} {y = 6 + length content}
        (omega arith)
      ∙ passed 0x03 (6 + length content) _ (omega arith) (omega arith)
      ∙ told_content 0x03 0xFF 6 [] content refl refl refl refl refl
  heard_write s content (generic x y z) =
      ap
        (λ h.
          memory_try_handle_datagram m c l none alias ((h ++ content) ++ junk)
            (length (h ++ content)))
        (generic_head 0x00 s address x y z)
      ∙ ap (memory_try_handle_datagram m c l none alias _)
          {x = length (0x20 ∷ 0x00 ∷ (to_bytes 4 address ++ (s ∷ content)))}
          {y = 7 + length content} (omega arith)
      ∙ passed 0x00 (7 + length content) _ (omega arith) (omega arith)
      ∙ told_content 0x00 s 7 (s ∷ []) content refl refl refl refl refl

  pub heard :
      (s : ℕ) (q : Request)
      → IsRequest q
      → s ≢ 0xFF
      → memory_try_handle_datagram m c l none alias
          (request_bytes s address q ++ junk)
          (length (request_bytes s address q))
        ≡ (true, written (rxok_frame c alias 0x80) ∷ called (call_of alias s address q) ∷ [])
  heard s (reads count) f n = heard_read s count (space_cases s) n f
  heard s (writes content) f n = heard_write s content (space_cases s)

-- A node with no request and no datagram under way asks for a read of up to 64 bytes, or a write of 1
-- to 64: it sends one datagram. When the bytes of that datagram come to the memory of another node,
-- whose client reads and writes, and the space is not the configuration description, they are answered
-- with a reply pending and that client is called for the same space, address and count or data.
pub request_lem :
    (asker node : Context) (l k : Line) (r : RemoteContext) (m : MemoryContext) (space address : ℕ)
    (q : Request) (junk : List ℕ)
    → r.requesting_alias ≡ 0
    → l.datagram_context.handling ≡ false
    → IsRequest q
    → Serves m
    → address < 2 ^ 32
    → space ≢ 0xFF
    → ((issue asker l r node.node_alias space address q).1
        ≡ send_reply asker (line_of l q) node.node_alias (request_bytes space address q))
      × (memory_try_handle_datagram m node k none asker.node_alias
            (request_bytes space address q ++ junk)
            (length (request_bytes space address q))
          ≡ (
            true,
            written (rxok_frame node asker.node_alias 0x80)
                ∷ called (call_of asker.node_alias space address q)
                ∷ [],
          ))
request_lem asker node l k r m space address q junk idle free f w small n = (
  issued asker l r node.node_alias space address q f idle free,
  heard m node k asker.node_alias address w small junk space q f n,
)
