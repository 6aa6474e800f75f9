-- ===== src/Tests/Hash.antt =====
-- The indirection table of the receive hash, and the command that sets it.
use ethtool.Base.{
  ℕ, ◌<◌, ◌≡◌, refl, true, false, none, some, List, [], ◌∷◌, codes, arith, get_or, length,
}
use ethtool.Base.Int.{pos}
use ethtool.Base.Run.{done}
use ethtool.Clib.{str_eq}
use ethtool.Clib.Strto.{strtoull, strtoll, skip_space, magnitude, is_minus, skip_sign, read_digits}
use ethtool.Cmdline.{get_u32, get_uint_range, get_int_range}
use ethtool.Indir.{fills, fill_indir_table, fill_equal}
use ethtool.Indir.Weights.{IsProportional, fill_indir_table_weight}
use ethtool.Indir.Weights.Loop.{Reads}
use ethtool.Rss.{
  answers, RssRequest, RssDevice, choose_hfunc, choose_key, with_table, with_hfunc, build,
  send_built, with_head, with_args, do_srxfh,
}
use ethtool.Rss.Args.{
  RssArgs, no_args, a_word, read_args, read_arg, read_word, read_end, are_compatible,
}
use ethtool.Rss.Consistent.{Configures, do_srxfh-Configures}
use ethtool.Strings.{sset_fails}

-- `weight 1 3` over 8 entries.
abbrev weight_texts : List (List ℕ)
weight_texts = codes "1" ∷ codes "3" ∷ []

weights_read : Reads weight_texts (1 ∷ 3 ∷ [])
unfolding get_u32 get_uint_range strtoull skip_space magnitude is_minus skip_sign read_digits
weights_read = (refl, (refl, tt))

fill_indir_table_weight_example :
    (table : List ℕ) × (fill_indir_table 8 false 0 0 (some weight_texts) 2 ≡ fills 8 table)
    × (length table ≡ 8)
    × ((i : ℕ) → i < 8 → IsProportional 8 4 0 (1 ∷ 3 ∷ []) i (get_or table i 0))
fill_indir_table_weight_example =
    fill_indir_table_weight 8 false 0 weight_texts (1 ∷ 3 ∷ []) weights_read (omega arith)
      (omega arith) (omega arith) (omega arith)

-- A device that keeps the last request, with a table of 4 entries and a key of 3 bytes.
abbrev nothing : RssRequest
nothing = record {
  context = 0;
  hfunc = 0;
  indir_size = 0;
  key_size = 0;
  table = [];
  key_at = 0;
  key = none;
}

abbrev keeper : RssDevice RssRequest
keeper = record {
  rings = λ s. pos 0;
  head = λ s. answers (record { indir_size = 4; key_size = 3; hfunc = 1 });
  names = λ s. record {
    sset_info = λ id. sset_fails;
    drvinfo = λ off. none;
    strings = λ id len. none;
    memory = λ n. true;
  };
  indir_head = λ s. none;
  memory = λ n. true;
  set_rss = λ s r. record { err = pos 0; state = r };
  set_indir = λ s r. record { err = pos 0; state = s };
}

abbrev equal_request : RssRequest
equal_request = record {
  context = 0;
  hfunc = 0;
  indir_size = 4;
  key_size = 0;
  table = 0 ∷ 1 ∷ 0 ∷ 1 ∷ [];
  key_at = 16;
  key = none;
}

equal_2 :
    do_srxfh keeper nothing (codes "equal" ∷ codes "2" ∷ [])
    ≡ done (some (record { status = 0; state = equal_request }))
unfolding do_srxfh with_args with_head send_built build with_hfunc with_table choose_key
    choose_hfunc are_compatible read_args read_arg read_word read_end str_eq get_int_range strtoll
    skip_space magnitude is_minus skip_sign read_digits fill_indir_table fill_equal
equal_2 = refl

do_srxfh-Configures_example :
    (a : RssArgs) × (read_args (codes "equal" ∷ codes "2" ∷ []) a_word no_args ≡ done (some a))
    × Configures keeper nothing a (record { status = 0; state = equal_request })
do_srxfh-Configures_example =
    do_srxfh-Configures keeper nothing (codes "equal" ∷ codes "2" ∷ [])
      (record { status = 0; state = equal_request }) equal_2
