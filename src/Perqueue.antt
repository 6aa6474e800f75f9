-- ===== src/Perqueue.antt =====
-- ethtool.c, do_perqueue and set_per_queue_coalesce: the coalescing settings of some queues. The
-- kernel's side is the record QueueDevice; the settings of a queue are a store of the variables of
-- COALESCE_CMDLINE_INFO. A pointer behind the last argument that is read is `fault`.
pub mod Count
pub mod Merge
pub mod Ends
use ethtool.Base.{
  ℕ, zero, suc, ◌+◌, ◌-◌, ◌*◌, ◌/◌, ◌%◌, ◌^◌, min, max, Bool, true, false, ◌&&◌, ◌||◌, not, Option,
  none, some, List, [], ◌∷◌, ◌==◌, ltb, leb, if◌then◌else◌, codes, length, set, get_or,
}
use ethtool.Base.Maybe.{◌>>=◌}
use ethtool.Clib.{str_eq}
use ethtool.Cmdline.{Store, Line, parse_generic_cmdline, do_generic_set}
use ethtool.LinkMode.{Mask, parse_hex_u32_bitmap}
use ethtool.Main.{OptionEntry, args, find_option, entry_at}
use ethtool.Settings.{Outcome, coalesce, start, current}

abbrev pub max_num_queue : ℕ
max_num_queue = 4096

-- __KERNEL_DIV_ROUND_UP(MAX_NUM_QUEUE, 32)
abbrev pub queue_words : ℕ
queue_words = 128

-- The mask of the queues and their number.
pub record Queues : Type 0 where
  pub queue_mask : Mask
  pub n_queues : ℕ

-- Of the mask of the first n queues: full words, the rest of n, and zeros.
unfoldable pub mask_of_first : ℕ → Mask
mask_of_first n i =
    if ltb i (n / 32) then 2 ^ 32 - 1 else if i == n / 32 then 2 ^ (n % 32) - 1 else 0

-- find_max_num_queues on the counts of receive, transmit and combined channels, as the bits of an int.
unfoldable pub find_max_num_queues : ℕ → ℕ → ℕ → ℕ
find_max_num_queues rx tx combined = (max rx tx + combined) % 2 ^ 32

-- The loop that counts the bits of a word; 32 rounds are enough for one of 32 bits.
unfoldable pub count_word : ℕ → ℕ → ℕ
count_word zero mask = 0
count_word (suc rounds) mask = if mask == 0 then 0 else mask % 2 + count_word rounds (mask / 2)

-- The loop over the words, of which so many are left, from word i on.
unfoldable pub count_queues : ℕ → ℕ → Mask → ℕ
count_queues zero i mask = 0
count_queues (suc left) i mask = count_word 32 (mask i) + count_queues left (i + 1) mask

-- The settings of the queues, and the place in them.
pub record Cursor : Type 0 where
  pub idx : ℕ
  pub ecoal_q : List Store

-- One queue: its settings merged with what the options ask for. An access behind the buffer is
-- `none`.
unfoldable pub merged_queue : Store → Store → Store
merged_queue wanted ecoal = (do_generic_set coalesce.table (current coalesce wanted ecoal)).store

abbrev pub no_settings : Store
no_settings v = []

unfoldable pub set_queue : Store → Cursor → Option Cursor
set_queue wanted c =
    if leb (length c.ecoal_q) c.idx
    then none
    else some (record {
      idx = c.idx + 1;
      ecoal_q = set c.ecoal_q c.idx (merged_queue wanted (get_or c.ecoal_q c.idx no_settings));
    })

-- The loop over the bits of a word.
unfoldable pub set_word : Store → ℕ → ℕ → Cursor → Option Cursor
set_word wanted zero mask c = some c
set_word wanted (suc rounds) mask c =
    if mask == 0
    then some c
    else if mask % 2 == 1
    then (set_queue wanted c >>= λ c'. set_word wanted rounds (mask / 2) c')
    else set_word wanted rounds (mask / 2) c

-- The loop over the words, which ends early once all queues are done.
unfoldable pub set_words : Store → ℕ → ℕ → Queues → Cursor → Option Cursor
set_words wanted zero i q c = some c
set_words wanted (suc left) i q c = set_word wanted 32 (q.queue_mask i) c >>= λ c'.
    if c'.idx == q.n_queues then some c' else set_words wanted left (i + 1) q c'

-- The counts of channels; the settings of the queues of a mask, of which so many are read.
pub record QueueDevice : Type 0 where
  pub channels : Option (ℕ × ℕ × ℕ)
  pub coalescing : Mask → ℕ → Option (List Store)

-- No number of queues, or a mask that is not read, or settings that are not, or another command:
-- nothing is sent. Otherwise the settings are printed, or these are sent.
pub data Ended : Type 0 where
  no_channels : Ended
  bad_mask : Ended
  unread : Ended
  unsupported : Ended
  shown : Ended
  sends : List Store → Ended
  fault : Ended

unfoldable pub is_prefix : List ℕ → List ℕ → Bool
is_prefix [] s = true
is_prefix (c ∷ p) [] = false
is_prefix (c ∷ p) (d ∷ s) = c == d && is_prefix p s

-- `strstr(s, p) != NULL`
unfoldable pub strstr : List ℕ → List ℕ → Bool
strstr [] p = is_prefix p []
strstr (c ∷ s) p = is_prefix p (c ∷ s) || strstr s p

abbrev pub sent_of : Option Cursor → Ended
sent_of none = fault
sent_of (some c) = sends c.ecoal_q

unfoldable pub set_per_queue : Store → Queues → List Store → Ended
set_per_queue wanted q ecoal_q =
    sent_of (set_words wanted queue_words 0 q (record { idx = 0; ecoal_q = ecoal_q }))

abbrev pub capped : ℕ → ℕ
capped n = if ltb max_num_queue n then max_num_queue else n

unfoldable pub all_queues : ℕ × ℕ × ℕ → Option Queues
all_queues (rx, tx, combined) =
    let n : ℕ = find_max_num_queues rx tx combined in
    if leb (2 ^ 31) n
    then none
    else some (record { queue_mask = mask_of_first (capped n); n_queues = capped n })

module _ (aton : List ℕ → Option ℕ) (stack : Store) (d : QueueDevice) where
  unfoldable pub set_per_queue_coalesce : Queues → List (List ℕ) → List Store → Option Ended
  set_per_queue_coalesce q argp ecoal_q =
      parse_generic_cmdline aton coalesce.table argp (start coalesce stack) >>= λ line.
      some (set_per_queue line.store q ecoal_q)

  unfoldable pub set_or_unread : Queues → List (List ℕ) → Option (List Store) → Option Ended
  set_or_unread q argp none = some unread
  set_or_unread q argp (some ecoal_q) = set_per_queue_coalesce q argp ecoal_q

  abbrev pub show_or_unread : Option (List Store) → Ended
  show_or_unread none = unread
  show_or_unread (some ecoal_q) = shown

  unfoldable pub sub_command : Queues → List (List ℕ) → List ℕ → Option Ended
  sub_command q argp opts =
      if strstr opts (codes "--show-coalesce")
      then some (show_or_unread (d.coalescing q.queue_mask q.n_queues))
      else if strstr opts (codes "--coalesce")
      then set_or_unread q argp (d.coalescing q.queue_mask q.n_queues)
      else some unsupported

  -- From find_option on; no option is exit_bad_args.
  unfoldable pub run_sub_command : Queues → List (List ℕ) → Option Ended
  run_sub_command q [] = some fault
  run_sub_command q (arg ∷ argp) =
      find_option arg >>= λ k. entry_at args k >>= λ o. sub_command q argp o.opts

  unfoldable pub with_all : List (List ℕ) → Option Queues → Option Ended
  with_all argp none = some no_channels
  with_all argp (some q) = run_sub_command q argp

  unfoldable pub with_channels : List (List ℕ) → Option (ℕ × ℕ × ℕ) → Option Ended
  with_channels argp none = some no_channels
  with_channels argp (some counts) = with_all argp (all_queues counts)

  unfoldable pub with_mask : List (List ℕ) → Option Mask → Option Ended
  with_mask argp none = some bad_mask
  with_mask argp (some mask) =
      run_sub_command (record { queue_mask = mask; n_queues = count_queues queue_words 0 mask })
        argp

  unfoldable pub after_queue_mask : List (List ℕ) → Option Ended
  after_queue_mask [] = some fault
  after_queue_mask (mask ∷ argp) = with_mask argp (parse_hex_u32_bitmap mask max_num_queue)

  unfoldable pub do_perqueue : List (List ℕ) → Option Ended
  do_perqueue [] = none
  do_perqueue (arg ∷ argp) =
      if str_eq arg (codes "queue_mask")
      then after_queue_mask argp
      else with_channels (arg ∷ argp) d.channels
