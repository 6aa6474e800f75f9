-- ===== src/Letters/Laws.antt =====
-- The letters of Wake-on-LAN.
use ethtool.Base.{
  ℕ, ◌≤◌, ◌<◌, ◌≡◌, refl, ap, Bool, true, false, ◌&&◌, Option, none, some, ◌==◌, leb, ==_iff, arith,
  length,
}
use ethtool.Base.Bits.{all_below, all_below-true}
use ethtool.Letters.{wol_letter, wol_letters, parse_wolopts, unparse_wolopts}

abbrev reads : Option ℕ → ℕ → Bool
reads none n = false
reads (some m) n = m == n

reads-eq : (o : Option ℕ) (n : ℕ) → reads o n ≡ true → o ≡ some n
reads-eq none n h = cc
reads-eq (some m) n h = ap some ((==_iff m n).0 h)

wol_table :
    all_below 256
      (λ n. reads (parse_wolopts (unparse_wolopts n)) n && leb (length (unparse_wolopts n)) 15)
    ≡ true
unfolding all_below parse_wolopts unparse_wolopts wol_letters wol_letter
wol_table = refl

-- Every set of the eight Wake-on-LAN flags is read back from its letters, and they fit the buffer
-- of 16 characters with the NUL.
pub parse_wolopts-unparse_wolopts :
    (wolopts : ℕ)
    → wolopts < 256
    → (parse_wolopts (unparse_wolopts wolopts) ≡ some wolopts)
      × (length (unparse_wolopts wolopts) ≤ 15)
parse_wolopts-unparse_wolopts wolopts small =
    let t =
      all_below-true 256
        (λ n. reads (parse_wolopts (unparse_wolopts n)) n && leb (length (unparse_wolopts n)) 15)
        wolopts wol_table small in
    (reads-eq (parse_wolopts (unparse_wolopts wolopts)) wolopts (ground arith), ground arith)
