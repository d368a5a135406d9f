-- ===== src/Types/Effects.antt =====
-- src/types/mod.rs: `EffectSet`, a `u8` of six flags.
pub mod Laws
use Prim.Native.Nat.{bit_and, bit_or, bit_xor}
use yabumi.Common.{
  ℕ, ◌==◌, Bool, not, Option, some, none, if◌then◌else◌, List, [], ◌∷◌, Text, text, text_eq,
}

-- The bits of the `u8`.
abbrev pub EffectSet : Type 0
EffectSet = ℕ

abbrev pub fs : EffectSet
fs = 1

abbrev pub net : EffectSet
net = 2

abbrev pub env : EffectSet
env = 4

abbrev pub proc : EffectSet
proc = 8

abbrev pub time : EffectSet
time = 16

abbrev pub rand : EffectSet
rand = 32

abbrev pub empty : EffectSet
empty = 0

unfoldable pub union : EffectSet → EffectSet → EffectSet
union a b = bit_or a b

-- `self.0 & !superset.0 == 0`; `!` on a `u8` turns its eight bits.
unfoldable pub is_subset_of : EffectSet → EffectSet → Bool
is_subset_of a superset = bit_and a (bit_xor superset 0xff) == 0

unfoldable pub is_empty : EffectSet → Bool
is_empty a = a == 0

unfoldable pub from_name : Text → Option EffectSet
from_name name =
    if text_eq name (text "fs")
    then some fs
    else if text_eq name (text "net")
    then some net
    else if text_eq name (text "env")
    then some env
    else if text_eq name (text "proc")
    then some proc
    else if text_eq name (text "time")
    then some time
    else if text_eq name (text "rand")
    then some rand
    else none

-- The table of `names`, and the names of the flags that are in the set.
abbrev pub flags : List (Text × EffectSet)
flags =
    (text "fs", fs)
    ∷ (text "net", net)
    ∷ (text "env", env)
    ∷ (text "proc", proc)
    ∷ (text "time", time)
    ∷ (text "rand", rand)
    ∷ []

unfoldable pub names_in : List (Text × EffectSet) → EffectSet → List Text
names_in [] a = []
names_in ((n, f) ∷ rest) a = if not (bit_and a f == 0) then n ∷ names_in rest a else names_in rest a

unfoldable pub names : EffectSet → List Text
unfolding names_in
names a = names_in flags a
