-- ===== src/Reset.antt =====
-- ethtool.c, parse_reset and do_reset: the components of the device that are reset. `none` is
-- exit_bad_args.
pub mod Names
use ethtool.Base.{
  ℕ, ◌*◌, ◌%◌, ◌^◌, bit_and, bit_or, Bool, not, Option, none, some, List, [], ◌∷◌, ◌==◌,
  if◌then◌else◌, codes,
}
use ethtool.Base.Bits.{bit_not}
use ethtool.Base.Maybe.{◌>>=◌}
use ethtool.Clib.{str_eq}
use ethtool.Clib.Strto.{strtoull}

abbrev pub eth_reset_mgmt : ℕ
eth_reset_mgmt = 0x1

abbrev pub eth_reset_irq : ℕ
eth_reset_irq = 0x2

abbrev pub eth_reset_dma : ℕ
eth_reset_dma = 0x4

abbrev pub eth_reset_filter : ℕ
eth_reset_filter = 0x8

abbrev pub eth_reset_offload : ℕ
eth_reset_offload = 0x10

abbrev pub eth_reset_mac : ℕ
eth_reset_mac = 0x20

abbrev pub eth_reset_phy : ℕ
eth_reset_phy = 0x40

abbrev pub eth_reset_ram : ℕ
eth_reset_ram = 0x80

abbrev pub eth_reset_ap : ℕ
eth_reset_ap = 0x100

abbrev pub eth_reset_dedicated : ℕ
eth_reset_dedicated = 0xffff

abbrev pub eth_reset_all : ℕ
eth_reset_all = 0xffffffff

abbrev pub eth_reset_shared_shift : ℕ
eth_reset_shared_shift = 16

-- The component match: what stands behind it in the argument.
pub after_val : List ℕ → List ℕ → Option (List ℕ)
after_val [] arg = some arg
after_val (c ∷ val) [] = none
after_val (c ∷ val) (d ∷ arg) = let rest = after_val val arg in if not (d == c) then none else rest

pub bitval_of : ℕ → List ℕ → ℕ
bitval_of bitset [] = bitset
bitval_of bitset (c ∷ rest) =
    if str_eq (c ∷ rest) (codes "-shared") then bitset * 2 ^ eth_reset_shared_shift % 2 ^ 32 else 0

-- `*data` if it returned 1.
unfoldable pub parse_reset : List ℕ → ℕ → List ℕ → ℕ → Option ℕ
parse_reset val bitset arg value = after_val val arg >>= λ rest.
    if bitval_of bitset rest == 0 then none else some (bit_or value (bitval_of bitset rest))

infixr 3 ◌or_else◌
abbrev pub ◌or_else◌ {ℓ} : {A : Type ℓ} → Option A → Option A → Option A
none or_else o = o
(some a) or_else o = some a

-- The branches of the loop but the first.
unfoldable pub reset_arg : List ℕ → ℕ → Option ℕ
reset_arg arg value =
    parse_reset (codes "mgmt") eth_reset_mgmt arg value
    or_else parse_reset (codes "irq") eth_reset_irq arg value
    or_else parse_reset (codes "dma") eth_reset_dma arg value
    or_else parse_reset (codes "filter") eth_reset_filter arg value
    or_else parse_reset (codes "offload") eth_reset_offload arg value
    or_else parse_reset (codes "mac") eth_reset_mac arg value
    or_else parse_reset (codes "phy") eth_reset_phy arg value
    or_else parse_reset (codes "ram") eth_reset_ram arg value
    or_else parse_reset (codes "ap") eth_reset_ap arg value
    or_else (if str_eq arg (codes "dedicated")
        then some (bit_or value eth_reset_dedicated)
        else if str_eq arg (codes "all")
        then some (bit_or value eth_reset_all)
        else none)

-- strtoul, whose `unsigned long` has 64 bits, cut to a u32. What stands behind the number is not
-- looked at.
unfoldable pub reset_flags : List ℕ → ℕ
reset_flags arg = (strtoull arg).value % 2 ^ 32

-- The loop.
unfoldable pub reset_data : List (List ℕ) → ℕ → Option ℕ
reset_data [] value = some value
reset_data (arg ∷ []) value = if str_eq arg (codes "flags") then none else reset_arg arg value
reset_data (arg ∷ next ∷ rest) value =
    let skip : ℕ → Option ℕ = λ v. reset_data rest v in
    let one : ℕ → Option ℕ = λ v. reset_data (next ∷ rest) v in
    if str_eq arg (codes "flags")
    then if reset_flags next == 0 then none else skip (bit_or value (reset_flags next))
    else reset_arg arg value >>= one

-- The status, and what was printed: the components that were reset and those that were not.
pub record Resets : Type 0 where
  pub status : ℕ
  pub reset : ℕ
  pub left : ℕ

-- The kernel leaves in `data` the components that it did not reset, or fails.
abbrev pub report : ℕ → Option ℕ → Resets
report value none = record { status = 1; reset = 0; left = 0 }
report value (some left) = record {
  status = 0;
  reset = bit_and value (bit_not 32 left);
  left = left;
}

unfoldable pub do_reset : (ℕ → Option ℕ) → List (List ℕ) → Option Resets
do_reset send [] = none
do_reset send (arg ∷ rest) = reset_data (arg ∷ rest) 0 >>= λ value. some (report value (send value))
