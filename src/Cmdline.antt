-- ===== src/Cmdline.antt =====
-- ethtool.c, the numbers of the command line (get_int_range to get_mac_addr), parse_generic_cmdline
-- and do_generic_set. A variable that a table points to is a number, its name, and the store holds
-- its bytes, the least first; of a `char *` it holds the text that was copied. A result of `none`
-- is exit_bad_args. inet_aton is not part of the program: it is the parameter `aton`.
pub mod Writes
pub mod Laws
pub mod Merge
pub mod Ints
pub mod Given
pub mod Flags
use ethtool.Base.{
  ℕ, ◌+◌, ◌-◌, ◌*◌, ◌/◌, ◌%◌, ◌^◌, bit_or, Bool, true, false, ◌&&◌, ◌||◌, not, Option, none, some,
  List, [], ◌∷◌, ◌==◌, leb, ltb, if◌then◌else◌, codes, length,
}
use ethtool.Base.Bytes.{le_bytes, le_value}
use ethtool.Base.Int.{ℤ, pos, negsuc}
use ethtool.Base.Maybe.{◌>>=◌}
use ethtool.Clib.{str_eq}
use ethtool.Clib.Scan.{scan_colons}
use ethtool.Clib.Strto.{Signed, strtoull, strtoll, strtoll10}
use ethtool.Rxclass.Value.{is_empty, low_bytes, pattern32}

-- `a < b`
abbrev pub lt_int : ℤ → ℤ → Bool
lt_int (pos m) (pos n) = ltb m n
lt_int (pos m) (negsuc n) = false
lt_int (negsuc m) (pos n) = true
lt_int (negsuc m) (negsuc n) = ltb n m

-- `v`, where all of the text was read and the value is in the range.
abbrev pub in_range : Signed → ℤ → ℤ → Option ℤ
in_range r low high =
    if r.erange || not (is_empty r.rest) || lt_int r.value low || lt_int high r.value
    then none
    else some r.value

-- The base is 0: the text says which one it is.
unfoldable pub get_int_range : List ℕ → ℤ → ℤ → Option ℤ
unfolding strtoll
get_int_range str low high = in_range (strtoll str) low high

unfoldable pub get_uint_range : List ℕ → ℕ → Option ℕ
unfolding strtoull
get_uint_range str high =
    let r = strtoull str in
    if r.erange || not (is_empty r.rest) || ltb high r.value then none else some r.value

unfoldable pub get_int : List ℕ → Option ℤ
get_int str = get_int_range str (negsuc (2 ^ 31 - 1)) (pos (2 ^ 31 - 1))

-- The same in base 10.
unfoldable pub get_int10 : List ℕ → Option ℤ
unfolding strtoll10
get_int10 str = in_range (strtoll10 str) (negsuc (2 ^ 31 - 1)) (pos (2 ^ 31 - 1))

unfoldable pub get_u32 : List ℕ → Option ℕ
get_u32 str = get_uint_range str 0xffffffff

unfoldable pub get_mac_addr : List ℕ → Option (List ℕ)
unfolding scan_colons
get_mac_addr src =
    let buf = scan_colons 6 src in if length buf == 6 then some (low_bytes buf) else none

-- cmdline_type_t
pub data CmdlineType : Type 0 where
  cmdl_none : CmdlineType
  cmdl_bool : CmdlineType
  cmdl_s32 : CmdlineType
  cmdl_u8 : CmdlineType
  cmdl_u16 : CmdlineType
  cmdl_u32 : CmdlineType
  cmdl_u64 : CmdlineType
  cmdl_be16 : CmdlineType
  cmdl_ip4 : CmdlineType
  cmdl_str : CmdlineType
  cmdl_flag : CmdlineType
  cmdl_mac : CmdlineType

-- struct cmdline_info: the three pointers are names of variables.
pub record CmdlineInfo : Type 0 where
  pub name : List ℕ
  pub type : CmdlineType
  pub wanted_val : ℕ
  pub ioctl_val : ℕ
  pub flag_val : ℕ
  pub seen_val : Option ℕ

abbrev pub Store : Type 0
Store = ℕ → List ℕ

abbrev pub write : Store → ℕ → List ℕ → Store
write st v bytes w = if w == v then bytes else st w

-- `*p |= flag_val` on a u32.
abbrev pub or_into : Store → ℕ → ℕ → Store
or_into st v flag = write st v (le_bytes 4 (bit_or (le_value (st v)) flag))

-- cpu_to_be16 on a machine that keeps the low byte first.
abbrev pub swap16 : ℕ → ℕ
swap16 v = (v % 256) * 256 + v / 256

-- flag_to_cmdline_info
unfoldable pub flag_to_cmdline_info : List ℕ → ℕ → ℕ → ℕ → ℕ → CmdlineInfo
flag_to_cmdline_info name value wanted mask null = record {
  name = name;
  type = cmdl_flag;
  wanted_val = wanted;
  ioctl_val = null;
  flag_val = value;
  seen_val = some mask;
}

unfoldable pub find_info : List CmdlineInfo → List ℕ → Option CmdlineInfo
find_info [] name = none
find_info (i ∷ info) name = if str_eq i.name name then some i else find_info info name

-- The variables and `*changed`.
pub record Line : Type 0 where
  pub store : Store
  pub changed : ℕ

-- A flag's seen_val: a table whose flag has none would make the program write through a null
-- pointer, and no table does.
abbrev pub see_flag : Store → CmdlineInfo → Option ℕ → Option Store
see_flag st i none = none
see_flag st i (some v) = some (or_into st v i.flag_val)

unfoldable pub set_flag : CmdlineInfo → List ℕ → Store → Option Store
set_flag i arg st =
    if str_eq arg (codes "on")
    then some (or_into st i.wanted_val i.flag_val)
    else if str_eq arg (codes "off")
    then some st
    else none

unfoldable pub number : CmdlineInfo → Store → ℕ → Option ℕ → Option Store
number i st size n = n >>= λ v. some (write st i.wanted_val (le_bytes size v))

-- `*seen_val = 1`, where the option is no flag and has one.
unfoldable pub see : CmdlineInfo → CmdlineType → Option ℕ → Store → Store
see i cmdl_flag v st = st
see i type none st = st
see i type (some v) st = write st v (le_bytes 4 1)

module _ (aton : List ℕ → Option ℕ) where
  -- The switch: the value of an option into its variable.
  unfoldable pub set_wanted : CmdlineInfo → CmdlineType → List ℕ → Store → Option Store
  set_wanted i cmdl_none arg st = none
  set_wanted i cmdl_bool arg st =
      if str_eq arg (codes "on")
      then number i st 4 (some 1)
      else if str_eq arg (codes "off")
      then number i st 4 (some 0)
      else none
  set_wanted i cmdl_s32 arg st =
      number i st 4
        (get_int_range arg (negsuc (2 ^ 31 - 1)) (pos (2 ^ 31 - 1)) >>= λ v. some (pattern32 v))
  set_wanted i cmdl_u8 arg st = number i st 1 (get_uint_range arg 0xff)
  set_wanted i cmdl_u16 arg st = number i st 2 (get_uint_range arg 0xffff)
  set_wanted i cmdl_u32 arg st = number i st 4 (get_uint_range arg 0xffffffff)
  set_wanted i cmdl_u64 arg st = number i st 8 (get_uint_range arg 0xffffffffffffffff)
  set_wanted i cmdl_be16 arg st = number i st 2 (get_uint_range arg 0xffff >>= λ v. some (swap16 v))
  set_wanted i cmdl_ip4 arg st = number i st 4 (aton arg)
  set_wanted i cmdl_mac arg st = get_mac_addr arg >>= λ bytes. some (write st i.wanted_val bytes)
  set_wanted i cmdl_flag arg st = see_flag st i i.seen_val >>= set_flag i arg
  set_wanted i cmdl_str arg st = some (write st i.wanted_val arg)

  -- One option and its value.
  unfoldable pub take_pair : List CmdlineInfo → List ℕ → List ℕ → Line → Option Line
  take_pair info name arg line = do
    i ← find_info info name
    st ← set_wanted i i.type arg (see i i.type i.seen_val line.store)
    some (record { store = st; changed = 1 })

  unfoldable pub parse_generic_cmdline : List CmdlineInfo → List (List ℕ) → Line → Option Line
  parse_generic_cmdline info [] line = some line
  parse_generic_cmdline info (name ∷ []) line = none
  parse_generic_cmdline info (name ∷ arg ∷ rest) line =
      take_pair info name arg line >>= λ l. parse_generic_cmdline info rest l

-- `wanted < 0` of an int.
abbrev pub negative : ℕ → Bool
negative n = leb (2 ^ 31) n

unfoldable pub do_generic_set1 : CmdlineInfo → Line → Line
do_generic_set1 i line =
    let wanted : ℕ = le_value (line.store i.wanted_val) in
    if negative wanted
    then line
    else if wanted == le_value (line.store i.ioctl_val)
    then line
    else record { store = write line.store i.ioctl_val (le_bytes 4 wanted); changed = 1 }

unfoldable pub do_generic_set : List CmdlineInfo → Line → Line
do_generic_set [] line = line
do_generic_set (i ∷ info) line = do_generic_set info (do_generic_set1 i line)
