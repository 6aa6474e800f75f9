-- ===== src/Rxclass/Value.antt =====
-- rxclass.c, rxclass_get_val and rxclass_get_mask: one option's value or mask into the rule.
-- `p` is the rule as bytes. inet_pton is not part of the program: `Inet` is its two uses, a text to
-- the 4 or 16 bytes of an address in network order, or failure.
pub mod Cookie
pub mod Width
pub mod Frame
pub mod Fields
pub mod Complement
pub mod Mask
use ethtool.Base.{
  ℕ, zero, suc, ◌+◌, ◌-◌, ◌*◌, ◌/◌, ◌%◌, ◌^◌, bit_and, bit_or, Bool, true, false, ◌&&◌, ◌||◌, not,
  Option, none, some, List, [], ◌∷◌, ◌==◌, ltb, leb, if◌then◌else◌, length, replicate,
}
use ethtool.Base.Bits.{bit_not}
use ethtool.Base.Bytes.{le_bytes, le_value, be_bytes, load, store}
use ethtool.Base.Int.{ℤ, pos, negsuc}
use ethtool.Base.Maybe.{◌>>=◌}
use ethtool.Clib.Strto.{strtoull, strtoll}
use ethtool.Clib.Scan.{scan_colons}
use ethtool.FlowSpec.{FlowSpec}
use ethtool.Rxclass.{
  RuleOpts, OptType, opt_none, opt_s32, opt_u8, opt_u16, opt_u32, opt_u64, opt_ring_vf,
  opt_ring_queue, opt_be16, opt_be32, opt_be64, opt_ip4, opt_ip6, opt_mac,
}

pub record Inet : Type 0 where
  pub pton4 : List ℕ → Option (List ℕ)
  pub pton6 : List ℕ → Option (List ℕ)

abbrev pub is_empty : List ℕ → Bool
is_empty [] = true
is_empty (c ∷ s) = false

-- The 32-bit pattern of an int.
abbrev pub pattern32 : ℤ → ℕ
pattern32 (pos n) = n % 2 ^ 32
pattern32 (negsuc n) = (2 ^ 32 - 1 - n % 2 ^ 32) % 2 ^ 32

-- `*val > max || *val < ~max`, with max the greatest number of `size` bits with a sign.
abbrev pub out_of_long : ℕ → ℤ → Bool
out_of_long size (pos n) = leb (2 ^ (size - 1)) n
out_of_long size (negsuc n) = leb (2 ^ (size - 1)) n

unfoldable pub rxclass_get_long : List ℕ → ℕ → Option ℤ
unfolding strtoll
rxclass_get_long str size =
    let r = strtoll str in
    if not (is_empty r.rest) || r.erange || out_of_long size r.value then none else some r.value

unfoldable pub rxclass_get_ulong : List ℕ → ℕ → Option ℕ
unfolding strtoull
rxclass_get_ulong str size =
    let r = strtoull str in
    if not (is_empty r.rest) || r.erange || leb (2 ^ size) r.value then none else some r.value

-- `strchr(str, ':')`
abbrev pub has_colon : List ℕ → Bool
has_colon [] = false
has_colon (c ∷ s) = if c == b':' then true else has_colon s

-- `val[count] = buf[count]`: the low byte of each number that was read.
abbrev pub low_bytes : List ℕ → List ℕ
low_bytes [] = []
low_bytes (n ∷ ns) = (n % 256) ∷ low_bytes ns

unfoldable pub rxclass_get_ether : List ℕ → Option (List ℕ)
unfolding scan_colons
rxclass_get_ether str =
    let buf = scan_colons 6 str in
    if has_colon str && (length buf == 6) then some (low_bytes buf) else none

-- The writes at `opt->offset`, and of all ones at `opt->moffset` where there is one.
abbrev pub put_ones : FlowSpec → Option ℕ → ℕ → FlowSpec
put_ones p none n = p
put_ones p (some moffset) n = store p moffset (replicate n 255)

abbrev pub put_value : FlowSpec → RuleOpts → List ℕ → FlowSpec
put_value p opt bytes = put_ones (store p opt.offset bytes) opt.moffset (length bytes)

abbrev pub map_bytes : List ℕ → List ℕ
map_bytes [] = []
map_bytes (b ∷ bs) = bit_not 8 b ∷ map_bytes bs

-- ETHTOOL_RX_FLOW_SPEC_RING_VF and ETHTOOL_RX_FLOW_SPEC_RING
abbrev pub ring_vf_mask : ℕ
ring_vf_mask = 0xff00000000

abbrev pub ring_mask : ℕ
ring_mask = 0xffffffff

unfoldable pub put_vf : ℕ → ℕ → ℕ
put_vf cookie val = bit_or (bit_and cookie (bit_not 64 ring_vf_mask)) ((val + 1) * 2 ^ 32)

unfoldable pub put_queue : ℕ → ℕ → ℕ
put_queue cookie val = bit_or (bit_and cookie (bit_not 64 ring_mask)) val

abbrev pub put_cookie : FlowSpec → RuleOpts → (ℕ → ℕ) → FlowSpec
put_cookie p opt f = store p opt.offset (le_bytes 8 (f (le_value (load p opt.offset 8))))

-- The bytes that the text of an option stands for, where the option is a plain field.
unfoldable pub field_bytes : Inet → OptType → List ℕ → Option (List ℕ)
field_bytes inet opt_s32 str = do v ← rxclass_get_long str 32; some (le_bytes 4 (pattern32 v))
field_bytes inet opt_u8 str = do v ← rxclass_get_ulong str 8; some (le_bytes 1 v)
field_bytes inet opt_u16 str = do v ← rxclass_get_ulong str 16; some (le_bytes 2 v)
field_bytes inet opt_u32 str = do v ← rxclass_get_ulong str 32; some (le_bytes 4 v)
field_bytes inet opt_u64 str = do v ← rxclass_get_ulong str 64; some (le_bytes 8 v)
field_bytes inet opt_be16 str = do v ← rxclass_get_ulong str 16; some (be_bytes 2 v)
field_bytes inet opt_be32 str = do v ← rxclass_get_ulong str 32; some (be_bytes 4 v)
field_bytes inet opt_be64 str = do v ← rxclass_get_ulong str 64; some (be_bytes 8 v)
field_bytes inet opt_ip4 str = inet.pton4 str
field_bytes inet opt_ip6 str = inet.pton6 str
field_bytes inet opt_mac str = rxclass_get_ether str
field_bytes inet opt_ring_vf str = none
field_bytes inet opt_ring_queue str = none
field_bytes inet opt_none str = none

-- The switch of rxclass_get_val.
unfoldable pub put_val : Inet → List ℕ → FlowSpec → RuleOpts → OptType → Option FlowSpec
put_val inet str p opt opt_ring_vf = do
  v ← rxclass_get_ulong str 8
  some (put_cookie p opt (λ c. put_vf c v))
put_val inet str p opt opt_ring_queue = do
  v ← rxclass_get_ulong str 32
  some (put_cookie p opt (λ c. put_queue c v))
put_val inet str p opt type = do bytes ← field_bytes inet type str; some (put_value p opt bytes)

-- The rule and the flags of the options seen.
pub record Filling : Type 0 where
  pub p : FlowSpec
  pub flags : ℕ

-- `none` is the return of -1.
unfoldable pub rxclass_get_val : Inet → List ℕ → Filling → RuleOpts → Option Filling
rxclass_get_val inet str f opt =
    if bit_and f.flags opt.flag == 0
    then (put_val inet str f.p opt opt.type >>= λ p'.
        some (record { p = p'; flags = bit_or f.flags opt.flag }))
    else none

-- The mask is given as the bits to ignore, and kept as the bits to match.
unfoldable pub put_mask : Inet → List ℕ → FlowSpec → RuleOpts → Option ℕ → Option FlowSpec
put_mask inet str p opt none = none
put_mask inet str p opt (some moffset) = do
  bytes ← field_bytes inet opt.type str
  some (store p moffset (map_bytes bytes))

unfoldable pub rxclass_get_mask : Inet → List ℕ → FlowSpec → RuleOpts → Option FlowSpec
rxclass_get_mask inet str p opt = put_mask inet str p opt opt.moffset
