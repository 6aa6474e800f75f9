-- ===== src/FlowSpec/Laws.antt =====
-- Reading and writing a field of a rule.
use ethtool.Base.{ℕ, ◌+◌, ◌^◌, ◌≤◌, ◌<◌, ◌≡◌, ap, ◌∙◌, length, arith}
use ethtool.Base.Bytes.{le_bytes, le_value, load-store, le_value-le_bytes}
use ethtool.FlowSpec.{FlowSpec, get_u32, set_u32, get_location, set_location}
use ethtool.FlowSpec.Offsets.{spec_size, location}

pub get_u32-set_u32 :
    (fsp : FlowSpec) (off v : ℕ)
    → off + 4 ≤ length fsp
    → v < 2 ^ 32
    → get_u32 (set_u32 fsp off v) off ≡ v
unfolding get_u32 set_u32
get_u32-set_u32 fsp off v fits h =
    ap le_value (load-store fsp off (le_bytes 4 v) fits) ∙ le_value-le_bytes 4 v h

pub get_location-set_location :
    (fsp : FlowSpec) (loc : ℕ)
    → length fsp ≡ spec_size
    → loc < 2 ^ 32
    → get_location (set_location fsp loc) ≡ loc
unfolding get_location set_location
get_location-set_location fsp loc len h = get_u32-set_u32 fsp location loc (omega (arith, len)) h
