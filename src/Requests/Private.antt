-- ===== src/Requests/Private.antt =====
-- do_sprivflags: the private flags that it sends.
use ethtool.Base.{
  ℕ, zero, suc, ◌+◌, ◌^◌, ◌≤◌, ◌<◌, ◌≡◌, refl, sym, ap, ◌∙◌, true, Option, some, List, [], ◌∷◌,
  ◌==◌, if◌then◌else◌, arith, length, take,
}
use ethtool.Base.Bits.{bit, pow-lt-pow}
use ethtool.Base.Bytes.{le_bytes, le_value}
use ethtool.Base.Maybe.{>>=-some, some_eq}
use ethtool.Cmdline.{CmdlineInfo, parse_generic_cmdline}
use ethtool.Cmdline.Flags.{turned_on, named, AreFlags, flags-Flagged}
use ethtool.Cmdline.Flags.Merged.{on-le-named, merged, none_before}
use ethtool.Requests.{
  flag_infos, eth_ss_priv_flags, n_priv_flags_offset, FlagsDevice, FlagsEnd, flags_line,
  merged_flags, send_flags, set_flags, or_no_names, do_sprivflags,
}
use ethtool.Strings.{get_stringset}

infos-AreFlags :
    (i : ℕ) (names : List (List ℕ)) → i + length names ≤ 32 → AreFlags (flag_infos i names)
infos-AreFlags i [] h = tt
infos-AreFlags i (name ∷ names) h =
    ((refl, refl, refl, pow-lt-pow i 32 (omega arith)), infos-AreFlags (i + 1) names (omega arith))

length-take {ℓ} : {A : Type ℓ} (n : ℕ) (xs : List A) → length (take n xs) ≤ n
length-take zero xs = omega arith
length-take (suc n) [] = omega arith
length-take (suc n) (x ∷ xs) = let le = length-take n xs in omega arith

-- Private flag j after the options: a flag that they name is on if one of its values is `on`, else
-- off, and any other is as the device has it. Only the first 32 names are there.
abbrev pub private_bit : List (List ℕ) → List (List ℕ) → ℕ → ℕ → ℕ
private_bit names argp flags j =
    if bit (named (flag_infos 0 (take 32 names)) argp) j == 1
    then bit (turned_on (flag_infos 0 (take 32 names)) argp) j
    else bit flags j

-- If the options of do_sprivflags are accepted, and the driver's names, at least one, and the
-- device's flags can be read: one word of flags is sent, whose bits are private_bit, and the status
-- is 0 exactly if the device takes it.
pub do_sprivflags-private_bit :
    (aton : List ℕ → Option ℕ) (d : FlagsDevice) (name : List ℕ) (names argp : List (List ℕ))
    (flags : ℕ) {r : FlagsEnd}
    → get_stringset d.names eth_ss_priv_flags n_priv_flags_offset true ≡ some (name ∷ names)
    → d.gpflags ≡ some flags
    → do_sprivflags aton d argp ≡ some r
    → (v : ℕ) × (r.sent ≡ some v)
      × (r.status ≡ (if d.takes v then 0 else 1))
      × ((j : ℕ) → j < 32 → bit v j ≡ private_bit (name ∷ names) argp flags j)
unfolding do_sprivflags or_no_names set_flags send_flags
do_sprivflags-private_bit aton d name names argp flags {r} known have h =
    let info : List CmdlineInfo = flag_infos 0 (take 32 (name ∷ names)) in
    let h1 : set_flags aton d (name ∷ names) argp ≡ some r =
      sym (ap (λ o. or_no_names aton d o argp) known) ∙ h in
    let (l, parsed, e) = >>=-some (parse_generic_cmdline aton info argp flags_line) _ h1 in
    let ok : (le_value (le_bytes 4 0) < 2 ^ 32) × (le_value (le_bytes 4 0) < 2 ^ 32) =
      (omega arith, omega arith) in
    let f =
      flags-Flagged aton info argp flags_line
        (infos-AreFlags 0 (take 32 (name ∷ names))
          (let le = length-take 32 (name ∷ names) in omega arith))
        ok parsed in
    let ends : send_flags aton d l.store (some flags) ≡ r =
      ap (send_flags aton d l.store) (sym have) ∙ some_eq e in
    (
      merged_flags flags l.store,
      sym (ap (λ (o : FlagsEnd). o.sent) ends),
      sym (ap (λ (o : FlagsEnd). o.status) ends),
      λ j small.
          merged flags (le_value (l.store 0)) (le_value (l.store 1)) (turned_on info argp)
            (named info argp) j small f.small.1 (f.wanted j ∙ none_before j (turned_on info argp))
            (f.mask j ∙ none_before j (named info argp)) (on-le-named info argp j),
    )
