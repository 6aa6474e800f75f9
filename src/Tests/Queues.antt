-- ===== src/Tests/Queues.antt =====
-- The choice of a command, and the commands that send one request.
use ethtool.Base.{
  ℕ, ◌<◌, ◌≡◌, ◌≢◌, ◌↔◌, refl, true, Option, none, some, List, [], ◌∷◌, codes, length,
  if◌then◌else◌, replicate, length-replicate, ◌++◌, ap, ◌∙◌, sym,
}
use ethtool.Base.Bits.{bit}
use ethtool.Base.Bytes.{le_bytes}
use ethtool.Base.Maybe.{some_eq}
use ethtool.Clib.{str_eq}
use ethtool.Clib.Strto.{strtoll, skip_space, magnitude, is_minus, skip_sign, read_digits}
use ethtool.Cmdline.{
  Store, write, parse_generic_cmdline, take_pair, find_info, set_wanted, set_flag, see, number,
  get_int_range,
}
use ethtool.LinkMode.{Mask}
use ethtool.Main.{main, find_option, find_from, names_of, has_name, entry_at, args}
use ethtool.Main.Options.{Runs, main-Runs, names_at, find_option-names_at}
use ethtool.Perqueue.{
  QueueDevice, sends, merged_queue, do_perqueue, with_channels, all_queues, find_max_num_queues,
  mask_of_first, with_all, run_sub_command, sub_command, strstr, is_prefix, set_or_unread,
  set_per_queue_coalesce, set_per_queue, set_words, set_word, set_queue,
}
use ethtool.Perqueue.Ends.{QueuesEnd, do_perqueue-QueuesEnd}
use ethtool.Requests.{
  FlagsDevice, FlagsEnd, do_sprivflags, or_no_names, set_flags, send_flags, eth_ss_priv_flags,
  n_priv_flags_offset, do_sfec, fec_words, fecmode_str_to_type, str_case_eq,
}
use ethtool.Requests.Fec.{AfterKeyword, encoded, do_sfec-encoded}
use ethtool.Requests.Private.{private_bit, do_sprivflags-private_bit}
use ethtool.Settings.{unset_below}
use ethtool.Strings.{sset, get_stringset, set_length, read_strings, terminate, name_text}

find_option-names_at_example :
    (find_option (codes "--pause") ≡ some 2)
    ↔ (has_name (codes "--pause") (names_at (entry_at args 2)) ≡ true)
find_option-names_at_example = find_option-names_at (codes "--pause") 2

main-Runs_example :
    Runs true (codes "-A" ∷ codes "eth0" ∷ []) (main true (codes "-A" ∷ codes "eth0" ∷ []))
main-Runs_example = main-Runs true (codes "-A" ∷ codes "eth0" ∷ [])

abbrev no_inet_aton : List ℕ → Option ℕ
no_inet_aton s = none

abbrev blank : Store
blank v = []

abbrev all_ones : Store
all_ones v = le_bytes 4 1

-- Two channels, each queue with all settings 1.
abbrev queues : QueueDevice
queues = record { channels = some (2, 1, 0); coalescing = λ m n. some (replicate n all_ones) }

queues_read : (m : Mask) (n : ℕ) (es : List Store) → queues.coalescing m n ≡ some es → length es ≡ n
queues_read m n es h = ap length (sym (some_eq h)) ∙ length-replicate n all_ones

abbrev rx_usecs_5 : Store
rx_usecs_5 = write (unset_below 22 blank) 6 (le_bytes 4 5)

abbrev coalesce_5 : List (List ℕ)
coalesce_5 = codes "--coalesce" ∷ codes "rx-usecs" ∷ codes "5" ∷ []

queues_set :
    do_perqueue no_inet_aton blank queues coalesce_5
    ≡ some (sends (merged_queue rx_usecs_5 all_ones ∷ merged_queue rx_usecs_5 all_ones ∷ []))
unfolding do_perqueue str_eq with_channels all_queues find_max_num_queues mask_of_first with_all
    run_sub_command find_option find_from names_of has_name entry_at sub_command strstr is_prefix
    set_or_unread set_per_queue_coalesce set_per_queue set_words set_word set_queue
    parse_generic_cmdline take_pair find_info set_wanted see number get_int_range strtoll skip_space
    magnitude is_minus skip_sign read_digits
queues_set = refl

do_perqueue-QueuesEnd_example :
    QueuesEnd no_inet_aton blank queues coalesce_5
      (sends (merged_queue rx_usecs_5 all_ones ∷ merged_queue rx_usecs_5 all_ones ∷ []))
do_perqueue-QueuesEnd_example =
    do_perqueue-QueuesEnd no_inet_aton blank queues coalesce_5 queues_read queues_set

-- A driver with one private flag.
abbrev one_name : List (List ℕ)
one_name = (codes "legacy-rx" ++ replicate 23 0) ∷ []

abbrev flagged : FlagsDevice
flagged = record {
  names = record {
    sset_info = λ set_id. sset 4 1;
    drvinfo = λ offset. none;
    strings = λ set_id len. some one_name;
    memory = λ len. true;
  };
  gpflags = some 6;
  takes = λ v. true;
}

flag_names : get_stringset flagged.names eth_ss_priv_flags n_priv_flags_offset true ≡ some one_name
unfolding get_stringset set_length read_strings terminate
flag_names = refl

abbrev flags_7 : FlagsEnd
flags_7 = record { status = 0; sent = some 7 }

flag_set : do_sprivflags no_inet_aton flagged (codes "legacy-rx" ∷ codes "on" ∷ []) ≡ some flags_7
unfolding do_sprivflags or_no_names set_flags send_flags get_stringset set_length read_strings
    terminate name_text parse_generic_cmdline take_pair find_info set_wanted set_flag see str_eq
flag_set = refl

do_sprivflags-private_bit_example :
    (v : ℕ) × (flags_7.sent ≡ some v)
    × (flags_7.status ≡ (if true then 0 else 1))
    × ((j : ℕ) → j < 32 → bit v j ≡ private_bit one_name (codes "legacy-rx" ∷ codes "on" ∷ []) 6 j)
do_sprivflags-private_bit_example =
    do_sprivflags-private_bit no_inet_aton flagged (codes "legacy-rx" ++ replicate 23 0) []
      (codes "legacy-rx" ∷ codes "on" ∷ []) 6 flag_names refl flag_set

-- `encoding RS off`
abbrev rs_off : List (List ℕ)
rs_off = codes "encoding" ∷ codes "RS" ∷ codes "off" ∷ []

abbrev rs_and_off : ℕ
rs_and_off = 12

fec_set : do_sfec rs_off ≡ some rs_and_off
unfolding do_sfec fec_words fecmode_str_to_type str_case_eq str_eq
fec_set = refl

do_sfec-encoded_example :
    AfterKeyword rs_off × (rs_and_off ≢ 0) × ((j : ℕ) → bit rs_and_off j ≡ encoded rs_off j)
do_sfec-encoded_example = do_sfec-encoded rs_off fec_set
