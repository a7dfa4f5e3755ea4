-- ===== src/Lcc/Cdi.antt =====
-- LCC/lcc-cdi-control.c: a configuration description that is made on demand.
-- A text is its characters before the 0. A list of segments, groups or inputs ends where the code's has
-- an entry with no name, and a NULL list is empty. This is the full build, with the node information at
-- hand. `tmp_buffer` cuts a text off at 63 characters. A description, a callback and a buffer that are
-- NULL are left out.
pub mod Chunks
pub mod Bytes
pub mod Offset
use train_utils.Common.{
  ℕ, ◌+◌, zero, suc, Bool, true, false, not, ◌&&◌, ◌||◌, Option, none, some, List, [], ◌∷◌, ◌++◌,
  if◌then◌else◌, ltb, ◌==◌, ◌!=◌, length, take, replicate, write_from,
}
use train_utils.Common.Decimal.{codes, decimal}
use train_utils.Lcc.Node.{Status, ok, error_generic}
use train_utils.Lcc.Addressed.{SimpleInfo}

-- `negsuc n` is -(n + 1).
pub data ℤ : Type 0 where
  pos : ℕ → ℤ
  negsuc : ℕ → ℤ

-- `struct lcc_cdi_input`. Of the relations there is a flag that they are not NULL.
pub record Input : Type 0 where
  pub name : List ℕ
  pub description : Option (List ℕ)
  pub relations_set : Bool
  pub min : ℤ
  pub max : ℤ
  pub input_type : ℕ
  pub size : ℕ
  pub offset : ℕ

-- `struct lcc_cdi_group`
pub record Group : Type 0 where
  pub name : List ℕ
  pub repname : Option (List ℕ)
  pub replication : ℕ
  pub offset : ℕ
  pub inputs : List Input

-- `struct lcc_cdi_segment`
pub record CdiSegment : Type 0 where
  pub segment_space : ℕ
  pub segment_name : List ℕ
  pub groups : List Group
  pub inputs : List Input

-- `struct lcc_cdi_control`
pub record Control : Type 0 where
  pub segments : List CdiSegment
  pub simple_info : Option SimpleInfo

abbrev printed : ℤ → List ℕ
printed (pos n) = decimal n
printed (negsuc n) = b'-' ∷ decimal (suc n)

abbrev is_unset : ℤ → Bool
is_unset (pos n) = n == 0
is_unset (negsuc n) = false

-- What `snprintf` leaves in `tmp_buffer`.
abbrev tmp_text : List ℕ → List ℕ
tmp_text text = take 63 text

-- The functions below give the texts that the code appends, in its order.
abbrev element : List ℕ → List ℕ → List ℕ → List (List ℕ)
element first text last = first ∷ text ∷ last ∷ []

abbrev optional : List ℕ → Option (List ℕ) → List ℕ → List (List ℕ)
optional first none last = []
optional first (some text) last = element first text last

unfoldable pub input_tag : ℕ → Option (List ℕ)
input_tag input_type =
    if input_type == 1
    then some (codes "int")
    else if input_type == 2
    then some (codes "eventid")
    else if input_type == 3
    then some (codes "string")
    else none

abbrev opening : List ℕ → Input → List (List ℕ)
opening tag i =
    if (i.offset != 0) && (i.size != 0)
    then tmp_text (
        codes "<"
        ++ (tag
            ++ (codes " offset='"
                ++ (decimal i.offset ++ (codes "' size='" ++ (decimal i.size ++ codes "'>"))))))
      ∷ []
    else if i.size != 0
    then tmp_text (codes "<" ++ (tag ++ (codes " size='" ++ (decimal i.size ++ codes "'>")))) ∷ []
    else element (codes "<") tag (codes ">")

abbrev bound : List ℕ → ℤ → List ℕ → List (List ℕ)
bound first value last =
    if is_unset value then [] else tmp_text (first ++ (printed value ++ last)) ∷ []

-- An input of another type is left out. `none` stands for relations: the loop over them moves a pointer
-- on until it is NULL, so it runs past the end of their array.
unfoldable pub input_strings : Input → Option (List (List ℕ))
input_strings i = elim (input_tag i.input_type) [
  | none ↦ some []
  | some tag ↦
      if i.relations_set
      then none
      else some (
          opening tag i
          ++ (element (codes "<name>") i.name (codes "</name>")
              ++ (optional (codes "<description>") i.description (codes "</description>")
                  ++ (bound (codes "<min>") i.min (codes "</min>")
                      ++ (bound (codes "<max>") i.max (codes "</max>")
                          ++ element (codes "</") tag (codes ">"))))))
]

abbrev and_also : Option (List (List ℕ)) → Option (List (List ℕ)) → Option (List (List ℕ))
and_also none second = none
and_also (some first) none = none
and_also (some first) (some second) = some (first ++ second)

abbrev collect {ℓ} : {A : Type ℓ} → (A → Option (List (List ℕ))) → List A → Option (List (List ℕ))
collect f [] = some []
collect f (x ∷ xs) = and_also (f x) (collect f xs)

unfoldable pub group_strings : Group → Option (List (List ℕ))
group_strings g =
    and_also
      (some (
        (if (g.offset != 0) || (g.replication != 0)
          then tmp_text (
              codes "<group offset='"
              ++ (decimal g.offset
                  ++ (codes "' replication='" ++ (decimal g.replication ++ codes "'>"))))
          else codes "<group>")
        ∷ (element (codes "<name>") g.name (codes "</name>")
            ++ optional (codes "<repname>") g.repname (codes "</repname>"))))
      (and_also (collect input_strings g.inputs) (some (codes "</group>" ∷ [])))

unfoldable pub segment_strings : CdiSegment → Option (List (List ℕ))
segment_strings s =
    and_also
      (some (
        tmp_text (codes "<segment space='" ++ (decimal s.segment_space ++ codes "'>"))
        ∷ element (codes "<name>") s.segment_name (codes "</name>")))
      (and_also (collect group_strings s.groups)
        (and_also (collect input_strings s.inputs) (some (codes "</segment>" ∷ []))))

abbrev info_strings : Option SimpleInfo → List (List ℕ)
info_strings none = []
info_strings (some i) =
    codes "<identification>"
    ∷ (element (codes "<manufacturer>") i.manufacturer_name (codes "</manufacturer>")
        ++ (element (codes "<model>") i.model_name (codes "</model>")
            ++ (element (codes "<hardwareVersion>") i.hw_version (codes "</hardwareVersion>")
                ++ (element (codes "<softwareVersion>") i.sw_version (codes "</softwareVersion>")
                    ++ codes "</identification>" ∷ []))))

unfoldable pub control_strings : Control → Option (List (List ℕ))
control_strings control =
    and_also
      (some (
        codes "<?xml version=\"1.0\"?>"
        ∷ codes
            "<cdi xmlns:xsi=\"http://www.w3.org/2001/XMLSchema-instance\" xsi:noNamespaceSchemaLocation=\"http://openlcb.org/schema/cdi/1/1/cdi.xsd\">"
        ∷ info_strings control.simple_info))
      (and_also (collect segment_strings control.segments) (some (codes "</cdi>" ∷ [])))

-- `cdi_buffer`, and what the callback has been given, call by call.
pub record Out : Type 0 where
  pub buffer : List ℕ
  pub chunks : List (List ℕ)

unfoldable pub append_char : ℕ → Out → Out
append_char c o =
    let full = o.buffer ++ c ∷ [] in
    if ltb (length full) 64
    then record o { buffer = full }
    else record { buffer = []; chunks = o.chunks ++ full ∷ [] }

unfoldable pub append_string : List ℕ → Out → Out
append_string [] o = o
append_string (c ∷ cs) o = append_string cs (append_char c o)

unfoldable pub append_strings : List (List ℕ) → Out → Out
append_strings [] o = o
append_strings (s ∷ ss) o = append_strings ss (append_string s o)

-- The rest of the text, if any, is a call too.
abbrev pub last_chunk : List ℕ → List (List ℕ)
last_chunk [] = []
last_chunk (c ∷ cs) = (c ∷ cs) ∷ []

unfoldable pub to_xml : List (List ℕ) → List (List ℕ)
to_xml strings =
    let o = append_strings strings record { buffer = []; chunks = [] } in
    o.chunks ++ last_chunk o.buffer

-- The callback called for each chunk, on what it is given.
unfoldable pub for_each {ℓ} : {S : Type ℓ} → (List ℕ → S → S) → List (List ℕ) → S → S
for_each f [] s = s
for_each f (c ∷ cs) s = for_each f cs (f c s)

abbrev data_count : List ℕ → ℕ → ℕ
data_count chunk i = i + length chunk

unfoldable pub xml_length : List (List ℕ) → ℕ
xml_length strings = for_each data_count (to_xml strings) 0

-- `struct OffsetParseState`
pub record OffsetParseState : Type 0 where
  pub current_offset : ℕ
  pub desired_offset : ℕ
  pub success : Bool
  pub buffer_output : List ℕ

unfoldable pub data_at_offset : List ℕ → OffsetParseState → OffsetParseState
data_at_offset chunk s =
    let hit = s.current_offset == s.desired_offset in
    record s {
      success = if hit then true else s.success;
      buffer_output = if hit then write_from s.buffer_output 0 chunk else s.buffer_output;
      current_offset = s.current_offset + length chunk;
    }

-- A chunk into a buffer of 64 bytes; the text is shorter than 2 ^ 31.
unfoldable pub to_xml_at_offset : List (List ℕ) → ℕ → Status × List ℕ
to_xml_at_offset strings offset =
    let s = for_each data_at_offset (to_xml strings) record {
      current_offset = 0;
      desired_offset = offset;
      success = false;
      buffer_output = replicate 64 0;
    } in
    (if s.success then ok else error_generic, s.buffer_output)
