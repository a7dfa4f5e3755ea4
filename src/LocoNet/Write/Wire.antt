-- ===== src/LocoNet/Write/Wire.antt =====
-- What is sent of a message of four bytes, and how it comes in at the other end.
use train_utils.Common.{
  ℕ, suc, ◌⊎◌, inl, inr, ◌≡◌, ◌≢◌, refl, ap, ◌∙◌, arith, Bool, true, ◌||◌, Option, none, some, List,
  [], ◌∷◌, ◌++◌,
}
use train_utils.LocoNet.Context.{
  Message, idle, tx, rx, Event, timer_start, write_byte, write_interlock, incoming_message, Context,
  incoming_byte, incoming_each,
}
use train_utils.LocoNet.Process.{process, deliver}
use train_utils.LocoNet.Process.Messages.{
  FourBytes, IsFourBytes, wire, seen, holding, class, one_message, result,
}
use train_utils.LocoNet.Write.{
  Written, returned, waits, null_call, overflows, write_message, write_now, write_four, back_off,
}

-- The bytes that the client's functions were given to send.
unfoldable pub sent : List Event → List ℕ
sent [] = []
sent (write_byte b ∷ es) = b ∷ sent es
sent (write_interlock bs ∷ es) = bs ++ sent es
sent (timer_start t ∷ es) = sent es
sent (incoming_message m ∷ es) = sent es

abbrev pub sends : Written → Option (List ℕ)
sends (returned c es) = some (sent es)
sends (waits es) = none
sends null_call = none
sends overflows = none

-- One of the two functions that write is there.
abbrev pub can_write : Context → Bool
can_write c = c.write_interlock_set || c.write_set

-- The message as a caller hands it over: `s` is what stands behind its two data bytes.
abbrev pub to_send : FourBytes → List ℕ → Message
to_send m s = record { opcode = m.opcode; bytes = m.first ∷ m.second ∷ s }

-- The bytes of a message that come in at an idle context with an empty buffer.
collected :
    (c : Context) (b0 b1 b2 b3 : ℕ) (rest : List ℕ) (m : FourBytes)
    → c.current_state ≡ idle
    → (incoming_each (holding c (b0 ∷ b1 ∷ b2 ∷ b3 ∷ rest) 0) (wire m)).0
      ≡ holding (record c { current_state = rx }) (wire m ++ rest) 4
unfolding incoming_each incoming_byte
collected c b0 b1 b2 b3 rest m h = rw h refl

abbrev pub arrives : ℕ → Message → Context → Option (List ℕ) → Option (ℕ × List Event)
arrives fuel stack c none = none
arrives fuel stack c (some bytes) = result (process fuel stack (some (incoming_each c bytes).0))

module _ (wait_idle wait_byte : Context → Option Context) where
  four-sent :
      (c : Context) (m : FourBytes) (s : List ℕ)
      → can_write c ≡ true
      → sends (write_four wait_idle wait_byte c (to_send m s)) ≡ some (wire m)
  unfolding write_four back_off sent
  four-sent c m s w = ground (arith, w)

  now-sent :
      (c : Context) (m : FourBytes) (s : List ℕ)
      → IsFourBytes m
      → can_write c ≡ true
      → sends (write_now wait_idle wait_byte c (to_send m s)) ≡ some (wire m)
  unfolding write_now
  now-sent c m s v w = ground (
    arith,
    class m.opcode (omega (arith, v.opcode_to)),
    v.opcode_from,
    v.opcode_to,
    four-sent c m s w,
  )

  -- A message of four bytes that is written while the state is idle or is ignored goes out as its
  -- opcode, its two data bytes and the checksum that makes the exclusive or of all four 0xFF,
  -- through the one of the two functions that the client has given, where it has given one; what the
  -- caller left behind the data bytes does not matter.
  pub write_message-sent :
      (c : Context) (m : FourBytes) (s : List ℕ)
      → IsFourBytes m
      → can_write c ≡ true
      → (c.current_state ≡ idle) ⊎ (c.ignore_state ≢ 0)
      → sends (write_message wait_idle wait_byte c (to_send m s)) ≡ some (wire m)
  unfolding write_message
  write_message-sent c m s v w (inl h) =
      rw h (ground (arith, now-sent (record c { current_state = tx }) m s v w))
  write_message-sent c m s v w (inr h) =
      ground (arith, now-sent (record c { current_state = tx }) m s v w, h)

  -- What one context with a function to write sends of a message of four bytes, while its state is idle
  -- or ignored, another that is idle, with nothing in its
  -- buffer of 4 or more bytes, takes in and hands to its callback, if there is one, with the same
  -- opcode and data bytes and the checksum behind them; the buffer is then empty again.
  pub write-process :
      (x c : Context) (m : FourBytes) (s : List ℕ)
      → IsFourBytes m
      → can_write x ≡ true
      → (x.current_state ≡ idle) ⊎ (x.ignore_state ≢ 0)
      → c.current_state ≡ idle
      → (fuel o s0 s1 s2 b0 b1 b2 b3 : ℕ) (t rest : List ℕ)
      → arrives
          (suc (suc fuel))
          (record { opcode = o; bytes = s0 ∷ s1 ∷ s2 ∷ t })
          (holding c (b0 ∷ b1 ∷ b2 ∷ b3 ∷ rest) 0)
          (sends (write_message wait_idle wait_byte x (to_send m s)))
        ≡ some (0, deliver c (seen m t))
  write-process x c m s v w free h fuel o s0 s1 s2 b0 b1 b2 b3 t rest =
      ap
        (arrives (suc (suc fuel)) (record { opcode = o; bytes = s0 ∷ s1 ∷ s2 ∷ t })
          (holding c (b0 ∷ b1 ∷ b2 ∷ b3 ∷ rest) 0))
        (write_message-sent x m s v w free)
      ∙ ap
          (λ d.
            result
              (process (suc (suc fuel)) (record { opcode = o; bytes = s0 ∷ s1 ∷ s2 ∷ t }) (some d)))
          (collected c b0 b1 b2 b3 rest m h)
      ∙ one_message m (record c { current_state = rx }) fuel o s0 s1 s2 t rest v
