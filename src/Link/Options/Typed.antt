-- ===== src/Link/Options/Typed.antt =====
-- do_sset: which values its variables can have after the options.
use ethtool.Base.{ℕ, ◌<◌, ◌≡◌, refl, subst, Option, some, List, [], ◌∷◌, arith, if_elim}
use ethtool.Base.Maybe.{◌>>=◌, >>=-some, some_eq, none_absurd}
use ethtool.Clib.Strto.{strtoll, strtoll10}
use ethtool.Cmdline.{
  parse_generic_cmdline, get_int, get_int10, get_int_range, get_u32, get_mac_addr,
}
use ethtool.Letters.{parse_wolopts}
use ethtool.Link.Options.{
  Wanted, nothing_wanted, Key, speed_key, duplex_key, port_key, mdix_key, autoneg_key,
  advertise_key, phyad_key, xcvr_key, wol_key, sopass_key, msglvl_key, key_of, duplex_of, port_of,
  mdix_of, autoneg_of, xcvr_of, set_option, takes_flags, read_flags, read_options, cmdline_msglvl,
}
use ethtool.LinkMode.{max_kernel_nbits, parse_hex_u32_bitmap}
use ethtool.Link.Options.Values.{
  UpTo, InInt, duplex_of-UpTo, xcvr_of-UpTo, autoneg_of-UpTo, mdix_of-UpTo, port_of-UpTo, in_int,
  wols-lt,
}

-- The variables have values that their fields can hold.
pub record IsTyped (w : Wanted) : Type 0 where
  pub speed : InInt w.speed
  pub duplex : UpTo 1 w.duplex
  pub port : UpTo 4 w.port
  pub mdix : UpTo 3 w.mdix
  pub autoneg : UpTo 1 w.autoneg
  pub phyad : InInt w.phyad
  pub xcvr : UpTo 1 w.xcvr
  pub wol : w.wol_wanted < 256

-- A result of a parser that is put into the variables.
put {ℓ} :
    {A : Type ℓ} (o : Option A) (f : A → Wanted) {w : Wanted}
    → ((v : A) → o ≡ some v → IsTyped (f v))
    → (o >>= λ v. some (f v)) ≡ some w
    → IsTyped w
put o f p h =
    let (v, read, e) = >>=-some o (λ v. some (f v)) h in subst IsTyped (some_eq e) (p v read)

option-IsTyped :
    (key : Key) (arg : List ℕ) (w : Wanted) {w' : Wanted}
    → IsTyped w
    → set_option key arg w ≡ some w'
    → IsTyped w'
unfolding set_option get_int get_int10 get_int_range parse_wolopts
option-IsTyped speed_key arg w t h =
    put (get_int10 arg) _
      (λ v e. record {
        speed = in_int (strtoll10 arg) e;
        duplex = t.duplex;
        port = t.port;
        mdix = t.mdix;
        autoneg = t.autoneg;
        phyad = t.phyad;
        xcvr = t.xcvr;
        wol = t.wol;
      })
      h
option-IsTyped duplex_key arg w t h =
    put (duplex_of arg) _
      (λ v e. record {
        speed = t.speed;
        duplex = duplex_of-UpTo arg e;
        port = t.port;
        mdix = t.mdix;
        autoneg = t.autoneg;
        phyad = t.phyad;
        xcvr = t.xcvr;
        wol = t.wol;
      })
      h
option-IsTyped port_key arg w t h =
    put (port_of arg) _
      (λ v e. record {
        speed = t.speed;
        duplex = t.duplex;
        port = port_of-UpTo arg e;
        mdix = t.mdix;
        autoneg = t.autoneg;
        phyad = t.phyad;
        xcvr = t.xcvr;
        wol = t.wol;
      })
      h
option-IsTyped mdix_key arg w t h =
    put (mdix_of arg) _
      (λ v e. record {
        speed = t.speed;
        duplex = t.duplex;
        port = t.port;
        mdix = mdix_of-UpTo arg e;
        autoneg = t.autoneg;
        phyad = t.phyad;
        xcvr = t.xcvr;
        wol = t.wol;
      })
      h
option-IsTyped autoneg_key arg w t h =
    put (autoneg_of arg) _
      (λ v e. record {
        speed = t.speed;
        duplex = t.duplex;
        port = t.port;
        mdix = t.mdix;
        autoneg = autoneg_of-UpTo arg e;
        phyad = t.phyad;
        xcvr = t.xcvr;
        wol = t.wol;
      })
      h
option-IsTyped advertise_key arg w t h =
    put (parse_hex_u32_bitmap arg max_kernel_nbits) _
      (λ v e. record {
        speed = t.speed;
        duplex = t.duplex;
        port = t.port;
        mdix = t.mdix;
        autoneg = t.autoneg;
        phyad = t.phyad;
        xcvr = t.xcvr;
        wol = t.wol;
      })
      h
option-IsTyped phyad_key arg w t h =
    put (get_int arg) _
      (λ v e. record {
        speed = t.speed;
        duplex = t.duplex;
        port = t.port;
        mdix = t.mdix;
        autoneg = t.autoneg;
        phyad = in_int (strtoll arg) e;
        xcvr = t.xcvr;
        wol = t.wol;
      })
      h
option-IsTyped xcvr_key arg w t h =
    put (xcvr_of arg) _
      (λ v e. record {
        speed = t.speed;
        duplex = t.duplex;
        port = t.port;
        mdix = t.mdix;
        autoneg = t.autoneg;
        phyad = t.phyad;
        xcvr = xcvr_of-UpTo arg e;
        wol = t.wol;
      })
      h
option-IsTyped wol_key arg w t h =
    put (parse_wolopts arg) _
      (λ v e. record {
        speed = t.speed;
        duplex = t.duplex;
        port = t.port;
        mdix = t.mdix;
        autoneg = t.autoneg;
        phyad = t.phyad;
        xcvr = t.xcvr;
        wol = wols-lt arg 0 (omega arith) e;
      })
      h
option-IsTyped sopass_key arg w t h =
    put (get_mac_addr arg) _
      (λ v e. record {
        speed = t.speed;
        duplex = t.duplex;
        port = t.port;
        mdix = t.mdix;
        autoneg = t.autoneg;
        phyad = t.phyad;
        xcvr = t.xcvr;
        wol = t.wol;
      })
      h
option-IsTyped msglvl_key arg w t h =
    put (get_u32 arg) _
      (λ v e. record {
        speed = t.speed;
        duplex = t.duplex;
        port = t.port;
        mdix = t.mdix;
        autoneg = t.autoneg;
        phyad = t.phyad;
        xcvr = t.xcvr;
        wol = t.wol;
      })
      h

flags-IsTyped :
    (aton : List ℕ → Option ℕ) (args : List (List ℕ)) (w : Wanted) {w' : Wanted}
    → IsTyped w
    → read_flags aton args w ≡ some w'
    → IsTyped w'
unfolding read_flags
flags-IsTyped aton args w t h =
    put (parse_generic_cmdline aton cmdline_msglvl args w.msglvl) _
      (λ l e. record {
        speed = t.speed;
        duplex = t.duplex;
        port = t.port;
        mdix = t.mdix;
        autoneg = t.autoneg;
        phyad = t.phyad;
        xcvr = t.xcvr;
        wol = t.wol;
      })
      h

options-IsTyped :
    (aton : List ℕ → Option ℕ) (args : List (List ℕ)) (w : Wanted) {w' : Wanted}
    → IsTyped w
    → read_options aton args w ≡ some w'
    → IsTyped w'
unfolding read_options
options-IsTyped aton [] w t h = subst IsTyped (some_eq h) t
options-IsTyped aton (name ∷ []) w t h = none_absurd h
options-IsTyped aton (name ∷ arg ∷ rest) w {w'} t h =
    let (key, known, next) = >>=-some (key_of name) _ h in
    if_elim (λ (o : Option Wanted). o ≡ some w' → IsTyped w') (takes_flags key arg)
      (λ e r. flags-IsTyped aton (arg ∷ rest) w t r)
      (λ e r.
        let (w1, one, more) = >>=-some (set_option key arg w) (λ w1. read_options aton rest w1) r in
        options-IsTyped aton rest w1 (option-IsTyped key arg w t one) more)
      next

-- Whatever options are accepted, each variable of do_sset has a value of its kind: -1 or a value
-- that the field of 8 bits holds for duplex, port, mdix, autoneg and xcvr, an int for speed and
-- phyad, and only the eight flags of Wake-on-LAN for wol.
pub read_options-IsTyped :
    (aton : List ℕ → Option ℕ) (args : List (List ℕ)) {w : Wanted}
    → read_options aton args nothing_wanted ≡ some w
    → IsTyped w
read_options-IsTyped aton args h =
    options-IsTyped aton args nothing_wanted
      (record {
        speed = omega arith;
        duplex = refl;
        port = refl;
        mdix = refl;
        autoneg = refl;
        phyad = omega arith;
        xcvr = refl;
        wol = omega arith;
      })
      h
