-- ===== src/CabBus/Text.antt =====
-- The texts of CabBusCommunications/cabbus_cab.c, as the numbers of their characters: what
-- `snprintf` makes of the formats in use there, and the fixed texts.
use train_utils.Common.{ℕ, ◌-◌, List, [], ◌∷◌, ◌++◌, length, replicate}

abbrev pub pad_left : ℕ → ℕ → List ℕ → List ℕ
pad_left width c text = replicate (width - length text) c ++ text

abbrev pub pad_right : ℕ → ℕ → List ℕ → List ℕ
pad_right width c text = text ++ replicate (width - length text) c

abbrev pub blank : ℕ
blank = 0x20

-- "LOC:"
abbrev pub loc_text : List ℕ
loc_text = 76 ∷ 79 ∷ 67 ∷ 58 ∷ []

-- "ACC:"
abbrev pub acc_text : List ℕ
acc_text = 65 ∷ 67 ∷ 67 ∷ 58 ∷ []

abbrev pub fwd : List ℕ
fwd = 70 ∷ 87 ∷ 68 ∷ []

abbrev pub rev : List ℕ
rev = 82 ∷ 69 ∷ 86 ∷ []

abbrev pub am_text : List ℕ
am_text = 65 ∷ 77 ∷ []

abbrev pub pm_text : List ℕ
pm_text = 80 ∷ 77 ∷ []

-- "ENTER LOCO:     "
abbrev pub enter_loco_text : List ℕ
enter_loco_text = 69 ∷ 78 ∷ 84 ∷ 69 ∷ 82 ∷ 32 ∷ 76 ∷ 79 ∷ 67 ∷ 79 ∷ 58 ∷ 32 ∷ 32 ∷ 32 ∷ 32 ∷ 32 ∷ []

-- "CONTROL "
abbrev pub control_text : List ℕ
control_text = 67 ∷ 79 ∷ 78 ∷ 84 ∷ 82 ∷ 79 ∷ 76 ∷ 32 ∷ []

-- "ACC NUMBER: "
abbrev pub acc_number_text : List ℕ
acc_number_text = 65 ∷ 67 ∷ 67 ∷ 32 ∷ 78 ∷ 85 ∷ 77 ∷ 66 ∷ 69 ∷ 82 ∷ 58 ∷ 32 ∷ []

-- "1=N(ON) 2=R(OFF)"
abbrev pub on_off_text : List ℕ
on_off_text = 49 ∷ 61 ∷ 78 ∷ 40 ∷ 79 ∷ 78 ∷ 41 ∷ 32 ∷ 50 ∷ 61 ∷ 82 ∷ 40 ∷ 79 ∷ 70 ∷ 70 ∷ 41 ∷ []
