-- ===== src/Lcc/Remote/Replies.antt =====
-- LCC/lcc-remote-memory.c and LCC/lcc-memory.c: what a node replies is what the other one is told.
use train_utils.Common.{
  ℕ, ◌+◌, ◌-◌, ◌^◌, ◌<◌, ◌≡◌, refl, sym, ap, ap₂, subst, ◌∙◌, inl, inr, true, false, arith, Option,
  none, some, List, [], ◌∷◌, ◌++◌, if◌then◌else◌, ltb, leb, length, get_or, take, drop, drop-drop,
  get_or-drop, take-append, append-nil, bit_and, bit_or, shl, shr, Bool-cases,
}
use train_utils.Lcc.Frame.{to_bytes, uint32_from_data}
use train_utils.Lcc.Node.{Context}
use train_utils.Lcc.Datagram.{written, told, read_rejected, write_rejected, rxok_frame}
use train_utils.Lcc.Memory.{
  Line, reply_head, space_code, space_byte, send_reply, error_part, respond_read_reply_ok,
  respond_read_reply_fail, respond_write_reply_ok, respond_write_reply_fail,
}
use train_utils.Lcc.Datagram.Answers.{code_lem}
use train_utils.Lcc.Memory.Read.{address_of}
use train_utils.Lcc.Remote.{
  RemoteContext, closed, reply_of, reply_calls, error_code_of, message_of,
  remote_try_handle_datagram,
}
use train_utils.Lcc.Remote.Answers.{
  Answer, read_done, write_done, read_failed, write_failed, Fits, respond, base_code, rest_of,
  reply_bytes, kept, call_of, Listens, Coding, configuration, all_memory, definition, generic,
  space_cases, reply_step, kind_of,
}

-- A buffer that holds a head of `start` bytes with an address, and then the rest of a message.
record Laid (buffer : List ℕ) (len start address : ℕ) (rest : List ℕ) : Type 0 where
  junk : List ℕ
  behind : drop start buffer ≡ rest ++ junk
  size : len ≡ start + length rest
  place : uint32_from_data (drop 2 buffer) ≡ address

module _ {buffer : List ℕ} {len start address : ℕ} where
  content_of :
      (rest : List ℕ)
      → Laid buffer len start address rest
      → take (len - start) (drop start buffer) ≡ rest
  content_of rest l =
      ap (λ n. take n (drop start buffer)) {x = len - start} {y = length rest}
        (omega (arith, l.size))
      ∙ ap (take (length rest)) l.behind
      ∙ take-append rest l.junk

  code_of :
      (hi lo : ℕ) (tail : List ℕ)
      → Laid buffer len start address (hi ∷ lo ∷ tail)
      → error_code_of buffer len start ≡ bit_or (shl hi 8) lo
  code_of hi lo tail l =
      let long : leb (start + 2) len ≡ true = ground (arith, l.size) in
      let first : get_or buffer start 0 ≡ hi =
        ap (λ k. get_or buffer k 0) {x = start} {y = start + 0} (omega arith)
        ∙ sym (get_or-drop buffer start 0 0)
        ∙ ap (λ z. get_or z 0 0) l.behind in
      let next : get_or buffer (start + 1) 0 ≡ lo =
        sym (get_or-drop buffer start 1 0) ∙ ap (λ z. get_or z 1 0) l.behind in
      rw (long, first, next) refl

  text_of :
      (hi lo : ℕ) (tail : List ℕ)
      → Laid buffer len start address (hi ∷ lo ∷ tail)
      → message_of buffer len start ≡ (if ltb 0 (length tail) then some tail else none)
  text_of hi lo tail l =
      let longer : ltb (start + 2) len ≡ ltb 0 (length tail) = ground (arith, l.size) in
      let text : take (len - (start + 2)) (drop (start + 2) buffer) ≡ tail =
        ap (λ z. take (len - (start + 2)) z) (sym (drop-drop start 2 buffer) ∙ ap (drop 2) l.behind)
        ∙ ap (λ n. take n (tail ++ l.junk)) {x = len - (start + 2)} {y = length tail}
            (omega (arith, l.size))
        ∙ take-append tail l.junk in
      rw (longer, text) refl

abbrev sent_text : Option (List ℕ) → List ℕ
sent_text none = []
sent_text (some m) = if ltb 62 (length m) then [] else m

abbrev hi_of : ℕ → ℕ
hi_of code = shr (bit_and code 0xFF00) 8

abbrev lo_of : ℕ → ℕ
lo_of code = bit_and code 0xFF

error_part_form :
    (code : ℕ) (m : Option (List ℕ)) → error_part code m ≡ hi_of code ∷ lo_of code ∷ sent_text m
unfolding error_part
error_part_form code none = refl
error_part_form code (some m) = refl

text_kept :
    (m : Option (List ℕ))
    → (if ltb 0 (length (sent_text m)) then some (sent_text m) else none) ≡ kept m
text_kept none = refl
text_kept (some []) = refl
text_kept (some (x ∷ xs)) = elim (Bool-cases (ltb 62 (length (x ∷ xs)))) [
  | inl e ↦ rw e refl
  | inr e ↦ rw e (ground arith)
]

module _ (r : RemoteContext) (alias : ℕ) (w : Listens r) {buffer : List ℕ}
    {len start address : ℕ} where
  calls_lem :
      (a : Answer) (s : ℕ)
      → Fits a
      → Laid buffer len start address (rest_of a)
      → reply_calls r alias buffer len (kind_of a start s) ≡ told (call_of alias s address a) ∷ []
  unfolding reply_calls error_part
  calls_lem (read_done content) s f l = rw (w.receives, l.place, content_of content l) refl
  calls_lem write_done s f l = rw (w.writes, l.place) refl
  calls_lem (read_failed code message) s f l =
      let k = subst (Laid buffer len start address) (error_part_form code message) l in
      let number = code_of (hi_of code) (lo_of code) (sent_text message) k ∙ code_lem code f in
      let text = text_of (hi_of code) (lo_of code) (sent_text message) k ∙ text_kept message in
      rw (w.rejects, l.place)
        (ap₂ (λ x y. told (read_rejected alias s address x y) ∷ []) number text)
  calls_lem (write_failed code message) s f l =
      let k = subst (Laid buffer len start address) (error_part_form code message) l in
      let number = code_of (hi_of code) (lo_of code) (sent_text message) k ∙ code_lem code f in
      let text = text_of (hi_of code) (lo_of code) (sent_text message) k ∙ text_kept message in
      rw (w.write_rejects, l.place)
        (ap₂ (λ x y. told (write_rejected alias s address x y) ∷ []) number text)

-- The codes of the replies, for the three spaces with codes of their own and for the others.
code_kind :
    (a : Answer) (g : ℕ)
    → (reply_of (base_code a + 1) g ≡ some (kind_of a 6 0xFD))
      × (reply_of (base_code a + 2) g ≡ some (kind_of a 6 0xFE))
      × (reply_of (base_code a + 3) g ≡ some (kind_of a 6 0xFF))
      × (reply_of (base_code a) g ≡ some (kind_of a 7 g))
unfolding reply_of
code_kind (read_done content) g = (refl, refl, refl, refl)
code_kind write_done g = (refl, refl, refl, refl)
code_kind (read_failed code message) g = (refl, refl, refl, refl)
code_kind (write_failed code message) g = (refl, refl, refl, refl)

module _ (c : Context) (r : RemoteContext) (alias : ℕ) (w : Listens r)
    (e : r.requesting_alias ≡ alias) (address : ℕ) (small : address < 2 ^ 32) (a : Answer)
    (f : Fits a) (junk : List ℕ) where
  -- A reply with a code of its own for the space.
  coded :
      (code s : ℕ)
      → ((g : ℕ) → reply_of code g ≡ some (kind_of a 6 s))
      → remote_try_handle_datagram c r alias
          (0x20 ∷ code ∷ (to_bytes 4 address ++ (rest_of a ++ junk)))
          (6 + length (rest_of a))
        ≡ (closed r, (true, told (call_of alias s address a) ∷ written (rxok_frame c alias 0) ∷ []))
  unfolding to_bytes
  coded code s kind =
      let l : Laid (0x20 ∷ code ∷ (to_bytes 4 address ++ (rest_of a ++ junk)))
          (6 + length (rest_of a)) 6 address (rest_of a) =
        record {
          junk = junk;
          behind = refl;
          size = refl;
          place = address_of 0x20 code address (rest_of a ++ junk) small;
        } in
      reply_step c r alias code (6 + length (rest_of a)) _ (kind_of a 6 s) (omega arith) e (kind _)
      ∙ ap (λ z. (closed r, (true, z ++ written (rxok_frame c alias 0) ∷ [])))
          (calls_lem r alias w a s f l)

  other :
      (s : ℕ)
      → remote_try_handle_datagram c r alias
          (0x20 ∷ base_code a ∷ (to_bytes 4 address ++ (s ∷ rest_of a ++ junk)))
          (7 + length (rest_of a))
        ≡ (closed r, (true, told (call_of alias s address a) ∷ written (rxok_frame c alias 0) ∷ []))
  unfolding to_bytes
  other s =
      let l : Laid (0x20 ∷ base_code a ∷ (to_bytes 4 address ++ (s ∷ rest_of a ++ junk)))
          (7 + length (rest_of a)) 7 address (rest_of a) =
        record {
          junk = junk;
          behind = refl;
          size = refl;
          place = address_of 0x20 (base_code a) address (s ∷ rest_of a ++ junk) small;
        } in
      reply_step c r alias (base_code a) (7 + length (rest_of a)) _ (kind_of a 7 s) (omega arith) e
        ((code_kind a s).3)
      ∙ ap (λ z. (closed r, (true, z ++ written (rxok_frame c alias 0) ∷ [])))
          (calls_lem r alias w a s f l)

responds :
    (c : Context) (l : Line) (alias space address : ℕ) (a : Answer)
    → Fits a
    → respond c l alias space address a ≡ send_reply c l alias (reply_bytes space address a)
unfolding respond_read_reply_ok respond_read_reply_fail respond_write_reply_ok
    respond_write_reply_fail
responds c l alias space address (read_done content) f =
    let fits : ltb 64 (length content) ≡ false = ground (arith, f) in rw fits refl
responds c l alias space address write_done f =
    ap (send_reply c l alias) (sym (append-nil (reply_head 0x10 space address)))
responds c l alias space address (read_failed code message) f = refl
responds c l alias space address (write_failed code message) f = refl

module _ (c : Context) (r : RemoteContext) (alias : ℕ) (w : Listens r)
    (e : r.requesting_alias ≡ alias) (address : ℕ) (small : address < 2 ^ 32) (a : Answer)
    (f : Fits a) (junk : List ℕ) where
  replied :
      (s : ℕ)
      → Coding s
      → remote_try_handle_datagram c r alias
          (reply_bytes s address a ++ junk)
          (length (reply_bytes s address a))
        ≡ (closed r, (true, told (call_of alias s address a) ∷ written (rxok_frame c alias 0) ∷ []))
  unfolding reply_head space_code space_byte to_bytes
  replied _ configuration =
      ap (remote_try_handle_datagram c r alias (reply_bytes 0xFD address a ++ junk))
        {x = length (reply_bytes 0xFD address a)} {y = 6 + length (rest_of a)} (omega arith)
      ∙ coded c r alias w e address small a f junk (base_code a + 1) 0xFD (λ g. (code_kind a g).0)
  replied _ all_memory =
      ap (remote_try_handle_datagram c r alias (reply_bytes 0xFE address a ++ junk))
        {x = length (reply_bytes 0xFE address a)} {y = 6 + length (rest_of a)} (omega arith)
      ∙ coded c r alias w e address small a f junk (base_code a + 2) 0xFE (λ g. (code_kind a g).1)
  replied _ definition =
      ap (remote_try_handle_datagram c r alias (reply_bytes 0xFF address a ++ junk))
        {x = length (reply_bytes 0xFF address a)} {y = 6 + length (rest_of a)} (omega arith)
      ∙ coded c r alias w e address small a f junk (base_code a + 3) 0xFF (λ g. (code_kind a g).2)
  replied s (generic x y z) =
      rw (x, y, z)
        (ap (remote_try_handle_datagram c r alias _)
            {x = length (0x20 ∷ base_code a ∷ (to_bytes 4 address ++ (s ∷ rest_of a)))}
            {y = 7 + length (rest_of a)} (omega arith)
          ∙ other c r alias w e address small a f junk s)

-- Whatever a node answers to a read or a write of one of its spaces, the data, that the write is done,
-- or an error with its code and message, is sent as a datagram; and when the bytes of that datagram
-- come, from the node that was asked, to the context of the request, the client is told just that: the
-- data, or the code and the message when this has 1 to 62 characters, with the space and the address.
-- The request is then closed, and the datagram is answered.
pub reply_lem :
    (node asker : Context) (l : Line) (r : RemoteContext) (space address : ℕ) (a : Answer)
    (junk : List ℕ)
    → Listens r
    → r.requesting_alias ≡ node.node_alias
    → address < 2 ^ 32
    → Fits a
    → (respond node l asker.node_alias space address a
        ≡ send_reply node l asker.node_alias (reply_bytes space address a))
      × (remote_try_handle_datagram asker r node.node_alias
            (reply_bytes space address a ++ junk)
            (length (reply_bytes space address a))
          ≡ (
            closed r,
            (
              true,
              told (call_of node.node_alias space address a)
                  ∷ written (rxok_frame asker node.node_alias 0)
                  ∷ [],
            ),
          ))
reply_lem node asker l r space address a junk w e small f = (
  responds node l asker.node_alias space address a f,
  replied asker r node.node_alias w e address small a f junk space (space_cases space),
)
