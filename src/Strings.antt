-- ===== src/Strings.antt =====
-- ethtool.c, get_stringset: the names that a driver keeps, each of 32 bytes.
use ethtool.Base.{ℕ, ◌-◌, Bool, not, Option, none, some, List, [], ◌∷◌, ◌==◌, if◌then◌else◌, set}
use ethtool.Base.Maybe.{◌>>=◌}

abbrev pub eth_gstring_len : ℕ
eth_gstring_len = 32

-- The kernel's answer to ETHTOOL_GSSET_INFO: the mask that it leaves and the first length; or
-- EOPNOTSUPP, or another error.
pub data SsetReply : Type 0 where
  sset : ℕ → ℕ → SsetReply
  sset_unsupported : SsetReply
  sset_fails : SsetReply

-- `drvinfo` is the 32-bit number at an offset of the driver information; `strings` are the names of
-- a set, so many as asked for, or an error; `memory` is whether calloc succeeds for a length.
pub record StringDevice : Type 0 where
  pub sset_info : ℕ → SsetReply
  pub drvinfo : ℕ → Option ℕ
  pub strings : ℕ → ℕ → Option (List (List ℕ))
  pub memory : ℕ → Bool

module _ (dev : StringDevice) where
  unfoldable pub set_length : SsetReply → ℕ → Option ℕ
  set_length (sset mask len) drvinfo_offset = some (if mask == 0 then 0 else len)
  set_length sset_unsupported drvinfo_offset =
      if drvinfo_offset == 0 then none else dev.drvinfo drvinfo_offset
  set_length sset_fails drvinfo_offset = none

  -- The last byte of every name is cleared.
  unfoldable pub terminate : List (List ℕ) → List (List ℕ)
  terminate [] = []
  terminate (name ∷ names) = set name (eth_gstring_len - 1) 0 ∷ terminate names

  unfoldable pub read_strings : ℕ → Bool → ℕ → Option (List (List ℕ))
  read_strings set_id null_terminate len =
      if not (dev.memory len)
      then none
      else ((if len == 0 then some [] else dev.strings set_id len) >>= λ names.
          some (if null_terminate then terminate names else names))

  unfoldable pub get_stringset : ℕ → ℕ → Bool → Option (List (List ℕ))
  get_stringset set_id drvinfo_offset null_terminate =
      set_length (dev.sset_info set_id) drvinfo_offset >>= λ len.
      read_strings set_id null_terminate len

-- The text of a name, up to its NUL.
unfoldable pub name_text : List ℕ → List ℕ
name_text [] = []
name_text (c ∷ name) = let rest = name_text name in if c == 0 then [] else c ∷ rest
