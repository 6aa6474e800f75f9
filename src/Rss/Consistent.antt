-- ===== src/Rss/Consistent.antt =====
-- do_srxfh: what the requests that it sends have in common.
pub mod Request
use ethtool.Base.{
  ℕ, zero, suc, ◌+◌, ◌*◌, ◌%◌, ◌^◌, ◌<◌, ◌≡◌, ◌≢◌, ◌⊎◌, inl, inr, refl, ap, subst, ◌∙◌, Bool, true,
  ◌&&◌, not, Option, none, some, List, [], ◌∷◌, ◌==◌, arith, length, take, Option-cases, if_elim,
}
use ethtool.Base.Int.{is_neg}
use ethtool.Base.Run.{Run, done, fault, out_of_fuel, and_then}
use ethtool.Hashkey.{parse_hkey}
use ethtool.Hashkey.Text.{parse_hkey-length}
use ethtool.Indir.{FillResult, exits, refuses, fills, indir_no_change}
use ethtool.Indir.Shape.{Shaped, fill_indir_table-Shaped}
use ethtool.Strings.{StringDevice}
use ethtool.Rss.{
  RssHead, HeadReply, answers, unsupported, fails, RssRequest, IndirRequest, RssDevice, Ended,
  choose_hfunc, choose_key, Built, sends, returns, leaves, indir_bytes, with_key, with_table,
  fill_for, with_hfunc, build, after_set, send_indir, do_srxfhindir, send_built, with_head,
  with_args, do_srxfh,
}
use ethtool.Rss.Args.{
  RssArgs, no_args, Expects, a_word, an_equal, a_start, more_weights, a_key, an_hfunc, a_context,
  int_max, eth_rxfh_context_alloc, natural, ranged, starts_with_digit, read_word, read_context,
  read_arg, read_end, read_args, is_given, are_compatible,
}
use Request.{
  HasKey, HasTable, IsConsistent, Compatible, Compatible-of, SendsConsistent, build-Sends,
}

module _ {S : Type 0} (dev : RssDevice S) (s : S) (a : RssArgs) where
  -- Nothing was sent and the status is not 0, or one request was, which is consistent with what the
  -- device said of its sizes, and the status tells whether the kernel took it.
  abbrev pub Configures : Ended S → Type 0
  Configures e =
      ((e.state ≡ s) × (e.status ≢ 0))
      ⊎ ((head : RssHead) × (r : RssRequest) × (dev.head s ≡ answers head)
          × IsConsistent a head r
          × (e ≡ after_set dev (dev.set_rss s r)))
      ⊎ ((size : ℕ) × (r : IndirRequest) × (dev.head s ≡ unsupported)
          × (dev.indir_head s ≡ some size)
          × (a.key ≡ none)
          × (a.hfunc ≡ none)
          × (a.context ≡ 0)
          × (((r.size ≡ size) × (length r.table ≡ size))
              ⊎ ((r.table ≡ []) × ((r.size ≡ 0) ⊎ (r.size ≡ indir_no_change))))
          × (e ≡ after_set dev (dev.set_indir s r)))

  abbrev ConfiguresIf : Option (Ended S) → Type 0
  ConfiguresIf none = Unit
  ConfiguresIf (some e) = Configures e

  failed : (status : ℕ) → status ≢ 0 → Configures (record { status = status; state = s })
  failed status h = inl (refl, h)

  send_built-Configures :
      (head : RssHead) (b : Built)
      → dev.head s ≡ answers head
      → SendsConsistent a head b
      → ConfiguresIf (send_built dev s b)
  unfolding send_built
  send_built-Configures head (sends r) e ok = inr (inl (head, r, e, ok, refl))
  send_built-Configures head (returns status) e ok = failed status ok
  send_built-Configures head leaves e ok = tt

  send_indir-Configures :
      (size : ℕ) (f : FillResult)
      → dev.head s ≡ unsupported
      → dev.indir_head s ≡ some size
      → a.key ≡ none
      → a.hfunc ≡ none
      → a.context ≡ 0
      → Shaped size a.default a.equal a.weights f
      → ConfiguresIf (send_indir dev s f)
  unfolding send_indir
  send_indir-Configures size exits h i k f c shaped = tt
  send_indir-Configures size refuses h i k f c shaped = failed 1 (λ z. omega arith)
  send_indir-Configures size (fills size' table) h i k f c (inl (size_eq, entries, asked)) = inr (
      inr
        (size, record { size = size'; table = table }, h, i, k, f, c, inl (size_eq, entries), refl))
  send_indir-Configures size (fills size' table) h i k f c
        (inr (empty, e, w, inl (zero_size, default))) =
      inr (
        inr (
          size,
          record { size = size'; table = table },
          h,
          i,
          k,
          f,
          c,
          inr (empty, inl zero_size),
          refl,
        ))
  send_indir-Configures size (fills size' table) h i k f c
        (inr (empty, e, w, inr (no_change, plain))) =
      inr (
        inr (
          size,
          record { size = size'; table = table },
          h,
          i,
          k,
          f,
          c,
          inr (empty, inr no_change),
          refl,
        ))

  do_srxfhindir-Configures :
      (o : Option ℕ)
      → dev.head s ≡ unsupported
      → dev.indir_head s ≡ o
      → a.key ≡ none
      → a.hfunc ≡ none
      → a.context ≡ 0
      → ConfiguresIf (do_srxfhindir dev s a o)
  unfolding do_srxfhindir
  do_srxfhindir-Configures none h i k f c = failed 1 (λ z. omega arith)
  do_srxfhindir-Configures (some size) h i k f c =
      if_elim ConfiguresIf (dev.memory (size * 4))
        (λ m.
          send_indir-Configures size (fill_for a size) h i k f c
            (fill_indir_table-Shaped size a.default a.start a.equal a.weights a.num_weights))
        (λ m. failed 1 (λ z. omega arith))

  with_head-Configures :
      (r : HeadReply) → Compatible a → dev.head s ≡ r → ConfiguresIf (with_head dev s a r)
  unfolding with_head
  with_head-Configures (answers head) ok h =
      send_built-Configures head (build (dev.names s) dev.memory a head) h
        (build-Sends (dev.names s) dev.memory a head ok)
  with_head-Configures unsupported ok h =
      if_elim ConfiguresIf (not (is_given a.key) && not (is_given a.hfunc) && a.context == 0)
        (λ e.
          do_srxfhindir-Configures (dev.indir_head s) h refl (ground arith) (ground arith)
            (ground arith))
        (λ e. failed 1 (λ z. omega arith))
  with_head-Configures fails ok h = failed 1 (λ z. omega arith)

  with_args-Configures : ConfiguresIf (with_args dev s (some a))
  unfolding with_args
  with_args-Configures =
      if_elim ConfiguresIf (not (are_compatible a)) (λ e. failed 1 (λ z. omega arith))
        (λ e.
          if_elim ConfiguresIf (is_neg (dev.rings s)) (λ e'. failed 1 (λ z. omega arith))
            (λ e'. with_head-Configures (dev.head s) (Compatible-of a (ground arith)) refl))

done_eq {ℓ} : {A : Type ℓ} {a b : A} → done a ≡ done b → a ≡ b
done_eq e = cc

after_read :
    {S : Type 0} (dev : RssDevice S) (s : S) (e : Ended S) (m : Run (Option RssArgs))
    → and_then m (λ a. done (with_args dev s a)) ≡ done (some e)
    → (a : RssArgs) × (m ≡ done (some a)) × Configures dev s a e
unfolding with_args
after_read dev s e (done none) h = absurd (cc)
after_read dev s e (done (some a)) h =
    (a, refl, subst (λ o. ConfiguresIf dev s a o) (done_eq h) (with_args-Configures dev s a))
after_read dev s e fault h = absurd (cc)
after_read dev s e out_of_fuel h = absurd (cc)

-- If the command ends, its arguments were read, and either nothing was sent and the status is not
-- 0, or one request was sent and the status is 1 if the kernel refused it and 0 if not. A request
-- to set the receive hash has a key of the size that the device gave or none, and a table of the
-- size that it gave, with the key behind it, or no table and the size 0 for the default table
-- (`default`, context 0) or for the deletion of a context that is not 0, or the size for no change.
-- The older request is sent only to a device without the newer one, without key, function and
-- context, and has a whole table of the size that the device gave, or none.
pub do_srxfh-Configures :
    {S : Type 0} (dev : RssDevice S) (s : S) (args : List (List ℕ)) (e : Ended S)
    → do_srxfh dev s args ≡ done (some e)
    → (a : RssArgs) × (read_args args a_word no_args ≡ done (some a)) × Configures dev s a e
unfolding do_srxfh
do_srxfh-Configures dev s [] e h = absurd (cc)
do_srxfh-Configures dev s (arg ∷ rest) e h =
    after_read dev s e (read_args (arg ∷ rest) a_word no_args) h
