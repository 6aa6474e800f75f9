-- ===== src/Rxclass/Tables/Apart.antt =====
-- The options of one table: which of them write the same bytes of the rule.
use ethtool.Base.{
  ℕ, ◌+◌, ◌^◌, ◌≤◌, ◌<◌, ◌≡◌, ◌≢◌, ◌⊎◌, inl, inr, refl, ap, ◌∙◌, subst, bit_and, Bool, true, ◌&&◌,
  ◌||◌, not, Option, none, some, List, [], ◌∷◌, ◌==◌, leb, arith, length, get_or, Bool-cases,
}
use ethtool.Base.Bits.{bit, bit-bit_and, eq_zero_of_bits, bit_and-le, zero-bit}
use ethtool.Base.Maybe.{some_eq, none_absurd}
use ethtool.Clib.{str_eq}
use ethtool.FlowSpec.Offsets.{spec_size, ring_cookie}
use ethtool.Rxclass.{RuleOpts}
use ethtool.Rxclass.Tables.{
  rule_nfc_tcp_ip4, rule_nfc_esp_ip4, rule_nfc_usr_ip4, rule_nfc_tcp_ip6, rule_nfc_esp_ip6,
  rule_nfc_usr_ip6, rule_nfc_ether,
}
use ethtool.Rxclass.Tables.Every.{every_table}
use ethtool.Rxclass.Tables.Fit.{flow_of-find_opt-IsUsable}
use ethtool.Rxclass.Parse.{Flow, flow_of, find_opt}
use ethtool.Rxclass.Value.{Inet, Filling, rxclass_get_val}
use ethtool.Rxclass.Value.Frame.{rxclass_get_val-Written}
use ethtool.Rxclass.Value.Width.{width, IsInet, Outside, OutsideMask}

-- `n` bytes at `a` and `m` bytes at `b` share none.
abbrev pub apart? : ℕ → ℕ → ℕ → ℕ → Bool
apart? a n b m = leb (a + n) b || leb (b + m) a

abbrev pub apart_mask? : ℕ → ℕ → RuleOpts → Option ℕ → Bool
apart_mask? a n opt none = true
apart_mask? a n opt (some moffset) = apart? a n moffset (width opt.type)

-- `n` bytes at `a` are outside the option's field and mask.
abbrev pub apart_opt? : ℕ → ℕ → RuleOpts → Bool
apart_opt? a n opt = apart? a n opt.offset (width opt.type) && apart_mask? a n opt opt.moffset

abbrev pub mask_apart? : RuleOpts → Option ℕ → RuleOpts → Bool
mask_apart? opt none opt' = true
mask_apart? opt (some moffset) opt' = apart_opt? moffset (width opt.type) opt'

-- Two options share a flag, are both parts of the ring cookie, or write no byte in common.
abbrev pub pair? : RuleOpts → RuleOpts → Bool
pair? opt opt' =
    not (bit_and opt.flag opt'.flag == 0)
    || opt.offset == ring_cookie && opt'.offset == ring_cookie
    || apart_opt? opt.offset (width opt.type) opt' && mask_apart? opt opt.moffset opt'

abbrev pub all_pair : RuleOpts → List RuleOpts → Bool
all_pair opt [] = true
all_pair opt (o ∷ opts) = pair? opt o && all_pair opt opts

abbrev pub each_pair : List RuleOpts → List RuleOpts → Bool
each_pair [] all = true
each_pair (o ∷ opts) all = all_pair o all && each_pair opts all

abbrev pub pairs : List RuleOpts → Bool
pairs opts = each_pair opts opts

tcp_ip4_pairs : pairs rule_nfc_tcp_ip4 ≡ true
unfolding rule_nfc_tcp_ip4
tcp_ip4_pairs = refl

esp_ip4_pairs : pairs rule_nfc_esp_ip4 ≡ true
unfolding rule_nfc_esp_ip4
esp_ip4_pairs = refl

usr_ip4_pairs : pairs rule_nfc_usr_ip4 ≡ true
unfolding rule_nfc_usr_ip4
usr_ip4_pairs = refl

tcp_ip6_pairs : pairs rule_nfc_tcp_ip6 ≡ true
unfolding rule_nfc_tcp_ip6
tcp_ip6_pairs = refl

esp_ip6_pairs : pairs rule_nfc_esp_ip6 ≡ true
unfolding rule_nfc_esp_ip6
esp_ip6_pairs = refl

usr_ip6_pairs : pairs rule_nfc_usr_ip6 ≡ true
unfolding rule_nfc_usr_ip6
usr_ip6_pairs = refl

ether_pairs : pairs rule_nfc_ether ≡ true
unfolding rule_nfc_ether
ether_pairs = refl

flow_of-pairs : (s : List ℕ) {flow : Flow} → flow_of s ≡ some flow → pairs flow.options ≡ true
flow_of-pairs s =
    every_table pairs tcp_ip4_pairs esp_ip4_pairs usr_ip4_pairs tcp_ip6_pairs esp_ip6_pairs
      usr_ip6_pairs ether_pairs s

find-all_pair :
    (opt : RuleOpts) (opts : List RuleOpts) (name : List ℕ) {opt' : RuleOpts}
    → all_pair opt opts ≡ true
    → find_opt opts name ≡ some opt'
    → pair? opt opt' ≡ true
unfolding find_opt
find-all_pair opt [] name pass h = none_absurd h
find-all_pair opt (o ∷ opts) name pass h = elim (Bool-cases (str_eq name o.name)) [
  | inl same ↦ subst (λ q. pair? opt q ≡ true) (some_eq (rw same at h)) (ground arith)
  | inr other ↦ find-all_pair opt opts name (ground arith) (rw other at h)
]

find-each_pair :
    (opts all : List RuleOpts) (name : List ℕ) {opt : RuleOpts}
    → each_pair opts all ≡ true
    → find_opt opts name ≡ some opt
    → all_pair opt all ≡ true
unfolding find_opt
find-each_pair [] all name pass h = none_absurd h
find-each_pair (o ∷ opts) all name pass h = elim (Bool-cases (str_eq name o.name)) [
  | inl same ↦ subst (λ q. all_pair q all ≡ true) (some_eq (rw same at h)) (ground arith)
  | inr other ↦ find-each_pair opts all name (ground arith) (rw other at h)
]

-- The option writes byte i: it lies in its field or its mask.
abbrev pub MaskTouches : RuleOpts → Option ℕ → ℕ → Type 0
MaskTouches opt none i = ⊥
MaskTouches opt (some moffset) i = (moffset ≤ i) × (i < moffset + width opt.type)

abbrev pub Touches : RuleOpts → ℕ → Type 0
Touches opt i =
    ((opt.offset ≤ i) × (i < opt.offset + width opt.type)) ⊎ MaskTouches opt opt.moffset i

apart_mask-OutsideMask :
    (a n i : ℕ) (opt : RuleOpts) (m : Option ℕ)
    → apart_mask? a n opt m ≡ true
    → a ≤ i
    → i < a + n
    → OutsideMask opt i m
apart_mask-OutsideMask a n i opt none h p q = tt
apart_mask-OutsideMask a n i opt (some m) h p q = ground arith

apart_opt-Outside :
    (a n i : ℕ) (opt : RuleOpts) → apart_opt? a n opt ≡ true → a ≤ i → i < a + n → Outside opt i
apart_opt-Outside a n i opt h p q =
    (ground arith, apart_mask-OutsideMask a n i opt opt.moffset (ground arith) p q)

mask_apart-Outside :
    (i : ℕ) (opt opt' : RuleOpts) (m : Option ℕ)
    → mask_apart? opt m opt' ≡ true
    → MaskTouches opt m i
    → Outside opt' i
mask_apart-Outside i opt opt' none h t = elim t [ ]
mask_apart-Outside i opt opt' (some m) h t = apart_opt-Outside m (width opt.type) i opt' h t.0 t.1

pair-Outside :
    (opt opt' : RuleOpts) (i : ℕ)
    → pair? opt opt' ≡ true
    → bit_and opt.flag opt'.flag ≡ 0
    → (opt.offset ≢ ring_cookie) ⊎ (opt'.offset ≢ ring_cookie)
    → Touches opt i
    → Outside opt' i
pair-Outside opt opt' i h flags ring t =
    let both : (apart_opt? opt.offset (width opt.type) opt' && mask_apart? opt opt.moffset opt')
        ≡ true =
      ground arith in
    elim t [
      | inl field ↦
          apart_opt-Outside opt.offset (width opt.type) i opt' (ground arith) field.0 field.1
      | inr mask ↦ mask_apart-Outside i opt opt' opt.moffset (ground arith) mask
    ]

-- A seen flag and one that shares no bit with the flags share none.
flags_apart :
    (flags a b : ℕ) → a < 2 ^ 32 → bit_and flags a ≡ a → bit_and flags b ≡ 0 → bit_and a b ≡ 0
flags_apart flags a b small seen fresh =
    eq_zero_of_bits 32 (bit_and a b) (omega (arith, bit_and-le 32 a b small)) (λ i l.
      let s : bit (bit_and flags a) i ≡ bit a i = ap (λ n. bit n i) seen in
      let f : bit (bit_and flags b) i ≡ 0 = ap (λ n. bit n i) fresh ∙ zero-bit i in
      omega (arith, bit-bit_and a b i, bit-bit_and flags a i, bit-bit_and flags b i, s, f))

-- While the options of a rule are parsed, no accepted option overwrites one that was seen: in a rule
-- of 168 bytes, whatever the flow type, and with inet_pton giving 4 or 16 bytes, an option that is
-- accepted after the flag of another option of the table was set changes no byte of the other's
-- field or mask, unless both are parts of the ring cookie.
pub rxclass_get_val_keeps :
    (inet : Inet) (s name name' str : List ℕ) (f : Filling) {flow : Flow} {opt opt' : RuleOpts}
    {f' : Filling}
    → IsInet inet
    → flow_of s ≡ some flow
    → find_opt flow.options name ≡ some opt
    → find_opt flow.options name' ≡ some opt'
    → length f.p ≡ spec_size
    → bit_and f.flags opt.flag ≡ opt.flag
    → (opt.offset ≢ ring_cookie) ⊎ (opt'.offset ≢ ring_cookie)
    → rxclass_get_val inet str f opt' ≡ some f'
    → (i : ℕ) → Touches opt i
    → get_or f'.p i 0 ≡ get_or f.p i 0
rxclass_get_val_keeps inet s name name' str f {flow} {opt} {opt'} ok table found found' whole seen
      ring h i t =
    let usable = flow_of-find_opt-IsUsable s name table found in
    let usable' = flow_of-find_opt-IsUsable s name' table found' in
    let pair =
      find-all_pair opt flow.options name'
        (find-each_pair flow.options flow.options name (flow_of-pairs s table) found) found' in
    let (fresh, flags, (bytes, written, read)) =
      rxclass_get_val-Written inet ok str opt' f.p whole usable'.fits f.flags h in
    let apart = flags_apart f.flags opt.flag opt'.flag usable.flag_u32 seen fresh in
    written.frame i (pair-Outside opt opt' i pair apart ring t)
