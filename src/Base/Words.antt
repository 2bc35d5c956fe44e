-- ===== src/Base/Words.antt =====
-- Flag words (`u32 port_status`, `u16 devstatus`) read bit by bit. The driver only combines them
-- with constant masks, so a word is the function from bit number to bit.
use Prim.Native.Nat.{ℕ}
use mathlib.Core.Bool.{Bool, false, ◌||◌}
use mathlib.Core.List.{List, [], ◌∷◌}
use fuzzusb.Base.Tests.{◌==◌, if◌then◌else◌}

abbrev pub Flags : Type 0
Flags = ℕ → Bool

-- Is the bit one of the mask's?
abbrev pub elem : ℕ → List ℕ → Bool
elem i [] = false
elem i (b ∷ bs) = i == b || elem i bs

-- `w |= mask`
abbrev pub raise : List ℕ → Flags → Flags
raise bs w i = elem i bs || w i

-- `w &= ~mask`
abbrev pub clear : List ℕ → Flags → Flags
clear bs w i = if elem i bs then false else w i

-- `w &= mask`
abbrev pub keep : List ℕ → Flags → Flags
keep bs w i = if elem i bs then w i else false

-- `w = 0`
abbrev pub no_flags : Flags
no_flags i = false

-- `(w & mask) != 0`
abbrev pub any_of : List ℕ → Flags → Bool
any_of [] w = false
any_of (b ∷ bs) w = w b || any_of bs w
