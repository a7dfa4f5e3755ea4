-- ===== src/Dcc/Parser/Setup.antt =====
-- What the setters can make of a new parser.
use train_utils.Common.{
  ℕ, ◌≤◌, ◌≡◌, ◌≢◌, refl, arith, Bool, false, Option, none, some, List, [], ◌∷◌, All, ltb, subst,
  Bool-cases, inl, inr,
}
use train_utils.Dcc.Parser.{
  incoming_estop, PacketParser, new_parser, decode_short, decode_accessory, parse, set_userdata,
  set_short_address, set_speed_dir_cb, set_accessory_cb,
}

-- The setters of the library, as a client calls them.
pub data Setup : Type 0 where
  userdata short_address : ℕ → Setup
  speed_dir_cb accessory_cb : Bool → Setup

unfoldable pub setup : Option PacketParser → List Setup → Option PacketParser
setup p [] = p
setup p (userdata v ∷ cs) = setup (set_userdata p v).1 cs
setup p (short_address a ∷ cs) = setup (set_short_address p a).1 cs
setup p (speed_dir_cb b ∷ cs) = setup (set_speed_dir_cb p b).1 cs
setup p (accessory_cb b ∷ cs) = setup (set_accessory_cb p b).1 cs

abbrev NoStop : Option PacketParser → Type 0
NoStop none = Unit
NoStop (some p) = (p.estop_set ≡ false) × (p.short_addr ≤ 128)

setup-NoStop : (p : Option PacketParser) (cs : List Setup) → NoStop p → NoStop (setup p cs)
unfolding setup set_userdata set_short_address set_speed_dir_cb set_accessory_cb
setup-NoStop p [] h = h
setup-NoStop none (userdata v ∷ cs) h = setup-NoStop none cs tt
setup-NoStop (some p) (userdata v ∷ cs) h = setup-NoStop (some (record p { user_data = v })) cs h
setup-NoStop none (short_address a ∷ cs) h = setup-NoStop none cs tt
setup-NoStop (some p) (short_address a ∷ cs) h =
    setup-NoStop _ cs
      (elim (Bool-cases (ltb 128 a)) [ inl e ↦ rw e h | inr e ↦ rw e (h.0, ground arith) ])
setup-NoStop none (speed_dir_cb b ∷ cs) h = setup-NoStop none cs tt
setup-NoStop (some p) (speed_dir_cb b ∷ cs) h =
    setup-NoStop (some (record p { speed_dir_set = b })) cs h
setup-NoStop none (accessory_cb b ∷ cs) h = setup-NoStop none cs tt
setup-NoStop (some p) (accessory_cb b ∷ cs) h = setup-NoStop (some (record p { accy_set = b })) cs h

no_stop :
    (p : PacketParser) (bytes : List ℕ) (len : ℕ)
    → p.estop_set ≡ false
    → All (λ e. e ≢ incoming_estop) (parse p bytes len).1
unfolding parse decode_short decode_accessory
no_stop p bytes len h = ground arith

-- However a client sets a new parser up, no packet makes it call the emergency stop: no setter
-- of the library sets that callback. Its short address stays at most 128.
pub parse-new :
    (cs : List Setup) {p : PacketParser} (bytes : List ℕ) (len : ℕ)
    → setup (some new_parser) cs ≡ some p
    → All (λ e. e ≢ incoming_estop) (parse p bytes len).1 × (p.short_addr ≤ 128)
unfolding new_parser
parse-new cs {p} bytes len e =
    let kept : NoStop (some p) =
      subst NoStop e (setup-NoStop (some new_parser) cs (refl, omega arith)) in
    (no_stop p bytes len kept.0, kept.1)
