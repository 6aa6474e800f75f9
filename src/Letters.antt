-- ===== src/Letters.antt =====
-- ethtool.c, the options that are written as letters: parse_wolopts, unparse_wolopts,
-- parse_rxfhashopts and unparse_rxfhashopts.
pub mod Laws
use ethtool.Base.{
  ℕ, ◌^◌, bit_and, bit_or, Bool, true, false, not, Option, none, some, List, [], ◌∷◌, ◌++◌, ◌==◌,
  if◌then◌else◌, codes,
}
use ethtool.Base.Maybe.{◌>>=◌}

abbrev pub wake_phy : ℕ
wake_phy = 2 ^ 0

abbrev pub wake_ucast : ℕ
wake_ucast = 2 ^ 1

abbrev pub wake_mcast : ℕ
wake_mcast = 2 ^ 2

abbrev pub wake_bcast : ℕ
wake_bcast = 2 ^ 3

abbrev pub wake_arp : ℕ
wake_arp = 2 ^ 4

abbrev pub wake_magic : ℕ
wake_magic = 2 ^ 5

abbrev pub wake_magicsecure : ℕ
wake_magicsecure = 2 ^ 6

abbrev pub wake_filter : ℕ
wake_filter = 2 ^ 7

-- The switch of parse_wolopts: `*data` after one letter.
unfoldable pub wol_letter : ℕ → ℕ → Option ℕ
wol_letter c opts =
    if c == b'p'
    then some (bit_or opts wake_phy)
    else if c == b'u'
    then some (bit_or opts wake_ucast)
    else if c == b'm'
    then some (bit_or opts wake_mcast)
    else if c == b'b'
    then some (bit_or opts wake_bcast)
    else if c == b'a'
    then some (bit_or opts wake_arp)
    else if c == b'g'
    then some (bit_or opts wake_magic)
    else if c == b's'
    then some (bit_or opts wake_magicsecure)
    else if c == b'f'
    then some (bit_or opts wake_filter)
    else if c == b'd'
    then some 0
    else none

-- The loop from `*data` on; `none` is the return of -1.
unfoldable pub wol_letters : List ℕ → ℕ → Option ℕ
wol_letters [] opts = some opts
wol_letters (c ∷ s) opts = wol_letter c opts >>= wol_letters s

unfoldable pub parse_wolopts : List ℕ → Option ℕ
parse_wolopts optstr = wol_letters optstr 0

abbrev pub letter_if : ℕ → ℕ → ℕ → List ℕ
letter_if opts flag c = if bit_and opts flag == 0 then [] else c ∷ []

pub unparse_wolopts : ℕ → List ℕ
unparse_wolopts wolopts =
    if wolopts == 0
    then codes "d"
    else letter_if wolopts wake_phy b'p'
      ++ letter_if wolopts wake_ucast b'u'
      ++ letter_if wolopts wake_mcast b'm'
      ++ letter_if wolopts wake_bcast b'b'
      ++ letter_if wolopts wake_arp b'a'
      ++ letter_if wolopts wake_magic b'g'
      ++ letter_if wolopts wake_magicsecure b's'
      ++ letter_if wolopts wake_filter b'f'

abbrev pub rxh_l2da : ℕ
rxh_l2da = 2 ^ 1

abbrev pub rxh_vlan : ℕ
rxh_vlan = 2 ^ 2

abbrev pub rxh_l3_proto : ℕ
rxh_l3_proto = 2 ^ 3

abbrev pub rxh_ip_src : ℕ
rxh_ip_src = 2 ^ 4

abbrev pub rxh_ip_dst : ℕ
rxh_ip_dst = 2 ^ 5

abbrev pub rxh_l4_b_0_1 : ℕ
rxh_l4_b_0_1 = 2 ^ 6

abbrev pub rxh_l4_b_2_3 : ℕ
rxh_l4_b_2_3 = 2 ^ 7

abbrev pub rxh_discard : ℕ
rxh_discard = 2 ^ 31

-- The switch of parse_rxfhashopts.
pub rxfhash_letter : ℕ → ℕ → Option ℕ
rxfhash_letter c opts =
    if c == b'm'
    then some (bit_or opts rxh_l2da)
    else if c == b'v'
    then some (bit_or opts rxh_vlan)
    else if c == b't'
    then some (bit_or opts rxh_l3_proto)
    else if c == b's'
    then some (bit_or opts rxh_ip_src)
    else if c == b'd'
    then some (bit_or opts rxh_ip_dst)
    else if c == b'f'
    then some (bit_or opts rxh_l4_b_0_1)
    else if c == b'n'
    then some (bit_or opts rxh_l4_b_2_3)
    else if c == b'r'
    then some (bit_or opts rxh_discard)
    else none

pub rxfhash_letters : List ℕ → ℕ → Option ℕ
rxfhash_letters [] opts = some opts
rxfhash_letters (c ∷ s) opts = rxfhash_letter c opts >>= rxfhash_letters s

pub parse_rxfhashopts : List ℕ → Option ℕ
parse_rxfhashopts optstr = rxfhash_letters optstr 0

abbrev pub line_if : ℕ → ℕ → List ℕ → List ℕ
line_if opts flag line = if bit_and opts flag == 0 then [] else line ++ (10 ∷ [])

pub unparse_rxfhashopts : ℕ → List ℕ
unparse_rxfhashopts opts =
    if opts == 0
    then codes "None"
    else line_if opts rxh_l2da (codes "L2DA")
      ++ line_if opts rxh_vlan (codes "VLAN tag")
      ++ line_if opts rxh_l3_proto (codes "L3 proto")
      ++ line_if opts rxh_ip_src (codes "IP SA")
      ++ line_if opts rxh_ip_dst (codes "IP DA")
      ++ line_if opts rxh_l4_b_0_1 (codes "L4 bytes 0 & 1 [TCP/UDP src port]")
      ++ line_if opts rxh_l4_b_2_3 (codes "L4 bytes 2 & 3 [TCP/UDP dst port]")
