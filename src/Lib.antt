-- ===== src/Lib.antt =====
-- ethtool: models of the parts of the command that decide what is sent to a network device, with
-- theorems on them.
--
-- The program turns a command line into one request to the kernel. Its receive classification
-- commands (rxclass.c) parse a rule, choose a location for it and send it; the other commands
-- (ethtool.c) parse their options by a table, read the device's settings, merge what was asked for
-- and write them back.
--
-- Parts, with the file that models each and the code it models:
--   Bitmap      internal.h, set_bit, clear_bit and test_bit on an array of 64-bit longs.
--   FlowSpec    ethtool-copy.h, struct ethtool_rx_flow_spec, as the 168 bytes that a little-endian
--               LP64 host lays out; FlowSpec/Offsets has the offsets of its fields.
--   Rmgr        rxclass.c, struct rmgr_ctrl, rmgr_ins and rmgr_find_empty_slot. Rmgr/Spec has the
--               plain search, Rmgr/Search the loops, Rmgr/Slots the outcomes.
--   Rules       rxclass.c, rxclass_get_dev_info, rmgr_init, rmgr_set_location and the commands
--               rxclass_rule_get, rxclass_rule_getall, rxclass_rule_ins and rxclass_rule_del. The
--               kernel's side of send_ioctl and the success of calloc are the record Device.
--               Rules.Insert.IsTable is a device that answers as the kernel documents.
--   Rxclass     rxclass.c, rule_opts; Rxclass/Tables the seven tables; Rxclass/Value
--               rxclass_get_val, rxclass_get_mask and the conversions below them, where inet_pton is
--               the record Inet; Rxclass/Parse rxclass_parse_ruleopts, whose loop is a step for
--               each argument. Rxclass/Value/Cookie also has the two readers of the ring cookie in
--               ethtool-copy.h.
--   Cmdline     ethtool.c, get_int_range, get_uint_range, get_int, get_u32, get_mac_addr,
--               parse_generic_cmdline, flag_to_cmdline_info and do_generic_set, over a store of
--               variables. inet_aton is the parameter aton.
--   Settings    ethtool.c, do_spause, do_sring, do_schannels, do_scoalesce and do_seee on top of
--               Cmdline: one function of a table and of the statuses that each returns.
--   Link        ethtool.c, do_ioctl_glinksettings, do_ioctl_slinksettings, do_ioctl_gset and
--               do_ioctl_sset, and do_sset on top of LinkMode, Letters and Cmdline: Link/Options its
--               options, Link/Sset the change and the requests. The kernel's side is the function
--               from a request to its answer, or the record Device; Link.Sset.Progress.Keeps is a
--               kernel that keeps the handshake which its header documents.
--   Letters     ethtool.c, parse_wolopts, unparse_wolopts, parse_rxfhashopts, unparse_rxfhashopts.
--   Hashkey     ethtool.c, convert_string_to_hashkey, parse_hkey and the loop of do_grxfh that prints
--               the key.
--   Ntuple      ethtool.c, flow_spec_to_ntuple and do_srxntuple: a rule for the older interface.
--   Classify    ethtool.c, rxflow_str_to_type and do_srxclass, on top of Rxclass, Ntuple and Rules.
--   Indir       ethtool.c, fill_indir_table. Indir/Equal and Indir/Weights say what is in the table,
--               Indir/Shape how long it is.
--   Strings     ethtool.c, get_stringset.
--   Rss         ethtool.c, do_srxfh and do_srxfhindir, on top of Indir, Hashkey and Strings. In
--               Rss/Args the loop over the arguments is a state machine; the kernel's side is the
--               record RssDevice.
--   Eeprom      ethtool.c, do_geeprom up to the call of dump_eeprom, and do_seeprom, on top of
--               Cmdline.
--   Feature     ethtool.c, get_feature_defs; Feature/Change get_features and the loops of do_sfeatures
--               over the features; Feature/Command do_sfeatures, on top of Cmdline and Strings.
--   LinkMode    internal.h, the bitmaps of link modes; ethtool.c, init_global_link_mode_masks,
--               parse_hex_u32_bitmap and the part of do_sset that decides what is advertised.
--   Main        ethtool.c, the table args without the texts of the usage, find_option and main.
--   Perqueue    ethtool.c, do_perqueue and set_per_queue_coalesce, on top of Main, LinkMode and
--               Settings. The kernel's side is the record QueueDevice.
--   Requests    ethtool.c, do_sfec, do_flash, do_phys_id, do_setfwdump, do_sprivflags and the flags
--               of do_test.
--   Reset       ethtool.c, parse_reset and do_reset.
--   Tunable     ethtool.c, parse_named_bool to do_set_phy_tunable.
--   Clib        The functions of the C library that these use: strcmp, strtoull and strtoll in base 0, strtoll in base 10
--               and the conversion %2x of sscanf.
--   Base        Helpers: native numbers, tests, lists, binary digits, bytes, failing computations.
--   Tests       Runs on concrete inputs.
--
-- Rxclass makes a rule, and its parser leaves the location unspecified unless the arguments give one.
-- Classify tries the rule as an ntuple and then hands it to Rules, where Rmgr chooses its location.
--
-- Text is a list of character codes without the NUL. A number of a fixed width is a natural number
-- with its wrap-around written out. A return of -1 or a call of exit_bad_args is `none`. A read
-- outside an array is `fault` in Rmgr, Rss and Eeprom, and a write outside of one in Rss and Eeprom;
-- a write outside a bitmap loses the bitmap, so that the next read of it is a fault. Rmgr's two loops run on fuel: one more than the
-- longs of the bitmap, and one more than the locations of the table, which each round of the loops
-- uses up one of.
-- The loops of Perqueue over the bits of a word run 32 rounds, which
-- are enough for a word of 32 bits. The messages that are printed are left out.
--
-- Not modelled: the dumps of registers and of module EEPROMs and the printing of rules, which only
-- print; the commands of ethtool.c that print what one
-- request returns, or copy a buffer between a file and a request.
pub mod Base
pub mod Bitmap
pub mod FlowSpec
pub mod Rmgr
pub mod Rules
pub mod Clib
pub mod Rxclass
pub mod Cmdline
pub mod Letters
pub mod Settings
pub mod Ntuple
pub mod Classify
pub mod Indir
pub mod Hashkey
pub mod Tests
pub mod Strings
pub mod Rss
pub mod Tunable
pub mod Reset
pub mod Eeprom
pub mod Feature
pub mod Link
pub mod LinkMode
pub mod Main
pub mod Perqueue
pub mod Requests
