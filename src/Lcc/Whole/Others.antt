-- ===== src/Lcc/Whole/Others.antt =====
-- Frames that are not for a node, and nodes that may not take part yet, in LCC/lcc.c.
use train_utils.Common.{
  ℕ, ◌≡◌, ◌≢◌, inl, inr, refl, sym, ap, ◌∙◌, arith, Bool, true, false, Bool-cases, Option, none,
  some, List, [], ◌∷◌, map, if◌then◌else◌, leb, ◌==◌, ◌!=◌, has_bits, bit_and, bit_or, shl, shr,
  get_or,
}
use train_utils.Lcc.Frame.{CanFrame}
use train_utils.Lcc.Node.{Context, ok, fail}
use train_utils.Lcc.Context.{
  is_permitted, check_collision, incoming_frame, rid_frame, is_datagram_frame, handler, passed_on,
}
use train_utils.Lcc.Addressed.{SimpleInfo, Protocols, handle_addressed}
use train_utils.Lcc.Datagram.Incoming.{Handlers, handle_datagram, handle_response, is_datagram_type}
use train_utils.Lcc.Datagram.{DatagramContext, result}
use train_utils.Lcc.Simple.{nothing}
use train_utils.Lcc.Whole.{
  Station, sends, station_frame, finish, handle_datagram_in, of_result, of_reaction,
}

abbrev source : CanFrame → ℕ
source f = bit_and f.can_id 0xFFF

abbrev field : CanFrame → ℕ
field f = shr (bit_and f.can_id 0x00FFF000) 12

abbrev type : CanFrame → ℕ
type f = shr (bit_and f.can_id 0x07000000) 24

-- The frame of the check for an alias, whatever its type says.
abbrev pub IsCid : CanFrame → Type 0
IsCid f = leb 4 (bit_and (shr f.can_id 24) 7) ≡ true

-- What a node does that is not permitted to take part: it answers a check of its own alias with a RID
-- frame, gives its alias up when another uses it, and does nothing else.
unfoldable pub waiting_frame : Station → CanFrame → List CanFrame × Station
waiting_frame s f =
    if source f != s.context.node_alias
    then ([], s)
    else if leb 4 (bit_and (shr f.can_id 24) 7)
    then (rid_frame s.context ∷ [], s)
    else ([], record s { context = record s.context { node_alias_state = fail } })

-- A node with a write function that is not permitted to take part does with any frame at most this:
-- it writes a RID frame against a CID frame with its own alias, and it gives up its alias on another
-- frame with that alias. No client is called, and nothing else is written or changed.
pub waiting_lem :
    (bsearch : ℕ → List ℕ → Bool) (h : Handlers) (s : Station) (f : CanFrame) (write : CanFrame → ℕ)
    → is_permitted s.context.state ≡ false
    → s.context.write_function ≡ some write
    → station_frame bsearch h s f
      ≡ some (ok, (waiting_frame s f).1, map sends (waiting_frame s f).0)
unfolding station_frame incoming_frame check_collision waiting_frame
waiting_lem bsearch h s f write waits set = elim (Bool-cases (source f != s.context.node_alias)) [
  | inl e ↦ rw (e, waits) refl
  | inr e ↦ elim (Bool-cases (leb 4 (bit_and (shr f.can_id 24) 7))) [
    | inl k ↦ rw (e, k, set, waits) refl
    | inr k ↦ rw (e, k, waits, waits) refl
  ]
]

-- A message that names another node: a piece of a datagram, an answer to one, or another message to one
-- node. The alias of the destination is in the identifier, in 12 bits of the data, or in 16.
pub data ForAnother (alias : ℕ) (f : CanFrame) : Type 0 where
  piece : is_datagram_type (type f) ≡ true → field f ≢ alias → ForAnother alias f
  answer :
      is_datagram_type (type f) ≡ false
      → is_datagram_frame f ≡ true
      → bit_or (shl (bit_and (get_or f.bytes 0 0) 0x0F) 8) (get_or f.bytes 1 0) ≢ alias
      → ForAnother alias f
  message :
      is_datagram_frame f ≡ false
      → has_bits (field f) 16 ≡ false
      → has_bits (field f) 8 ≡ true
      → bit_or (shl (get_or f.bytes 0 0) 8) (get_or f.bytes 1 0) ≢ alias
      → ForAnother alias f

differ : (a b : ℕ) → a ≢ b → (a != b) ≡ true
differ a b h = ground (arith, h)

passes :
    (c : Context) (f : CanFrame)
    → is_permitted c.state ≡ true
    → source f ≢ c.node_alias
    → bit_and f.can_id 0x08000000 ≢ 0
    → incoming_frame c f ≡ passed_on (handler f) c []
unfolding incoming_frame check_collision
passes c f ready foreign is_message =
    let other : (source f != c.node_alias) ≡ true = differ _ _ foreign in
    let message_bit : (bit_and f.can_id 0x08000000 == 0) ≡ false = ground (arith, is_message) in
    rw (other, ready, message_bit) refl

piece_frame : (f : CanFrame) → is_datagram_type (type f) ≡ true → is_datagram_frame f ≡ true
unfolding is_datagram_type is_datagram_frame
piece_frame f h = ground (arith, h)

-- What the handler of datagrams leaves alone.
untouched :
    (h : Handlers) (s : Station) (f : CanFrame) (o : Option DatagramContext)
    → s.datagram_context ≡ o
    → ((d : DatagramContext) → handle_datagram h s.context d f ≡ result ok d [])
    → handle_datagram_in h s [] f o ≡ some (ok, s, [])
untouched h s f none e nothing_done = refl
untouched h s f (some d) e nothing_done =
    ap (of_result s []) (nothing_done d)
    ∙ ap (λ o. some (ok, record s { datagram_context = o }, [])) (sym e)

piece_lem :
    (h : Handlers) (c : Context) (d : DatagramContext) (f : CanFrame)
    → is_datagram_type (type f) ≡ true
    → field f ≢ c.node_alias
    → handle_datagram h c d f ≡ result ok d []
unfolding handle_datagram
piece_lem h c d f kind other = rw (kind, differ _ _ other) refl

answer_lem :
    (h : Handlers) (c : Context) (d : DatagramContext) (f : CanFrame)
    → is_datagram_type (type f) ≡ false
    → bit_or (shl (bit_and (get_or f.bytes 0 0) 0x0F) 8) (get_or f.bytes 1 0) ≢ c.node_alias
    → handle_datagram h c d f ≡ result ok d []
unfolding handle_datagram handle_response
answer_lem h c d f kind other = rw (kind, differ _ _ other) (ground arith)

message_lem :
    (c : Context) (p : Protocols) (i : SimpleInfo) (f : CanFrame)
    → bit_or (shl (get_or f.bytes 0 0) 8) (get_or f.bytes 1 0) ≢ c.node_alias
    → handle_addressed c p i f ≡ nothing
unfolding handle_addressed
message_lem c p i f other = rw (differ _ _ other) refl

-- A node that is permitted to take part does nothing with a message from another alias that names
-- another node: no frame is written, no client is called, and the node stays as it is.
pub others_lem :
    (bsearch : ℕ → List ℕ → Bool) (h : Handlers) (s : Station) (f : CanFrame)
    → is_permitted s.context.state ≡ true
    → source f ≢ s.context.node_alias
    → bit_and f.can_id 0x08000000 ≢ 0
    → ForAnother s.context.node_alias f
    → station_frame bsearch h s f ≡ some (ok, s, [])
unfolding station_frame handler
others_lem bsearch h s f ready foreign is_message (piece kind other) =
    ap (finish bsearch h s f) (passes s.context f ready foreign is_message)
    ∙ rw (piece_frame f kind)
        (untouched h s f s.datagram_context refl (λ d. piece_lem h s.context d f kind other))
others_lem bsearch h s f ready foreign is_message (answer kind frame other) =
    ap (finish bsearch h s f) (passes s.context f ready foreign is_message)
    ∙ rw frame
        (untouched h s f s.datagram_context refl (λ d. answer_lem h s.context d f kind other))
others_lem bsearch h s f ready foreign is_message (message frame plain to_one other) =
    ap (finish bsearch h s f) (passes s.context f ready foreign is_message)
    ∙ rw (frame, plain, to_one) (ap (of_reaction s []) (message_lem s.context _ s.info f other))
