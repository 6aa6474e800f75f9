-- ===== src/FlowSpec.antt =====
-- ethtool-copy.h, struct ethtool_rx_flow_spec: the classification rule as the bytes of its struct,
-- laid out as a little-endian LP64 host does (`u64` aligned to 8). `rxclass.c` writes the struct
-- through `(unsigned char *)fsp`, so the bytes are the model and a field is a range of them.
pub mod Offsets
pub mod Laws
use Offsets.{spec_size, location, flow_type, ring_cookie}
use ethtool.Base.{ℕ, List, replicate}
use ethtool.Base.Bytes.{load, store, le_bytes, le_value}

abbrev pub FlowSpec : Type 0
FlowSpec = List ℕ

unfoldable pub get_u32 : FlowSpec → ℕ → ℕ
get_u32 fsp off = le_value (load fsp off 4)

unfoldable pub set_u32 : FlowSpec → ℕ → ℕ → FlowSpec
set_u32 fsp off v = store fsp off (le_bytes 4 v)

unfoldable pub get_location : FlowSpec → ℕ
unfolding get_u32
get_location fsp = get_u32 fsp location

unfoldable pub set_location : FlowSpec → ℕ → FlowSpec
unfolding set_u32
set_location fsp loc = set_u32 fsp location loc

unfoldable pub get_flow_type : FlowSpec → ℕ
unfolding get_u32
get_flow_type fsp = get_u32 fsp flow_type

unfoldable pub set_flow_type : FlowSpec → ℕ → FlowSpec
unfolding set_u32
set_flow_type fsp v = set_u32 fsp flow_type v

unfoldable pub get_ring_cookie : FlowSpec → ℕ
get_ring_cookie fsp = le_value (load fsp ring_cookie 8)

-- `memset(p, 0, sizeof(*fsp))`
abbrev pub zero_spec : FlowSpec
zero_spec = replicate spec_size 0
