-- ===== src/Rss/Consistent/Request.antt =====
-- build: what the requests have in common.
use ethtool.Base.{
  ℕ, zero, suc, ◌+◌, ◌*◌, ◌%◌, ◌^◌, ◌<◌, ◌≡◌, ◌≢◌, ◌⊎◌, inl, inr, refl, ap, ◌∙◌, Bool, true, not,
  Option, none, some, List, [], ◌∷◌, ◌==◌, arith, length, take, Option-cases, if_elim,
}
use ethtool.Hashkey.{parse_hkey}
use ethtool.Hashkey.Text.{parse_hkey-length}
use ethtool.Indir.{FillResult, exits, refuses, fills, indir_no_change}
use ethtool.Indir.Shape.{Shaped, fill_indir_table-Shaped}
use ethtool.Strings.{StringDevice}
use ethtool.Rss.{
  RssHead, RssRequest, choose_hfunc, choose_key, Built, sends, returns, leaves, indir_bytes,
  with_key, with_table, fill_for, with_hfunc, build,
}
use ethtool.Rss.Args.{RssArgs, are_compatible}

-- A key of the device's size, or none.
abbrev pub HasKey : RssHead → RssRequest → Type 0
HasKey head r =
    ((r.key ≡ none) × (r.key_size ≡ 0))
    ⊎ ((key : List ℕ) × (r.key ≡ some key)
        × (length key ≡ head.key_size)
        × (r.key_size ≡ head.key_size)
        × (0 < head.key_size))

-- A whole table of the device's size with the key behind it, or no table and a size that stands for
-- the default table, for none of a context that is deleted, or for no change.
abbrev pub HasTable : RssArgs → RssHead → RssRequest → Type 0
HasTable a head r =
    ((r.indir_size ≡ head.indir_size)
      × (length r.table ≡ head.indir_size)
      × (r.key_at ≡ head.indir_size * 4 % 2 ^ 32))
    ⊎ ((r.table ≡ [])
        × (r.key_at ≡ 0)
        × (((r.indir_size ≡ 0) × (a.default ≡ true) × (r.context ≡ 0))
            ⊎ ((r.indir_size ≡ 0) × (a.delete ≡ true) × (r.context ≢ 0))
            ⊎ (r.indir_size ≡ indir_no_change)))

abbrev pub IsConsistent : RssArgs → RssHead → RssRequest → Type 0
IsConsistent a head r = HasKey head r × HasTable a head r

-- What the tests behind the loop leave.
pub record Compatible (a : RssArgs) : Type 0 where
  pub default_context : a.default ≡ true → a.context ≡ 0
  pub delete_context : a.delete ≡ true → a.context ≢ 0
  pub delete_equal : a.delete ≡ true → a.equal ≡ 0
  pub delete_weights : a.delete ≡ true → a.weights ≡ none
  pub delete_key : a.delete ≡ true → a.key ≡ none

pub Compatible-of : (a : RssArgs) → are_compatible a ≡ true → Compatible a
unfolding are_compatible
Compatible-of a h = record {
  default_context = λ d. ground arith;
  delete_context = λ d z. ground arith;
  delete_equal = λ d. ground arith;
  delete_weights = λ d. ground arith;
  delete_key = λ d. ground arith;
}

take-all : (n : ℕ) (xs : List ℕ) → length xs ≡ n → take n xs ≡ xs
take-all zero [] h = refl
take-all zero (x ∷ xs) h = absurd (omega arith)
take-all (suc n) [] h = refl
take-all (suc n) (x ∷ xs) h = ap (λ t. x ∷ t) (take-all n xs (omega arith))

abbrev Sized : RssHead → Option (List ℕ) → Type 0
Sized head key =
    (key ≡ none)
    ⊎ ((k : List ℕ) × (key ≡ some k) × (length k ≡ head.key_size) × (0 < head.key_size))

choose_key-Sized : (head : RssHead) (text : Option (List ℕ)) → Sized head (choose_key head text).key
unfolding choose_key
choose_key-Sized head none = inl refl
choose_key-Sized head (some text) = elim (Option-cases (parse_hkey head.key_size text).key) [
  | inl e ↦ inl e
  | inr (k, e) ↦
      let (size, some_size, _) = parse_hkey-length head.key_size text k e in
      inr (k, e, size, some_size)
]

with_key-HasKey :
    (a : RssArgs) (head : RssHead) (key : Option (List ℕ)) (bit size : ℕ) (table : List ℕ)
    → Sized head key
    → HasKey head (with_key a head key bit size head.key_size table)
with_key-HasKey a head key bit size table (inl e) = rw e (inl (refl, refl))
with_key-HasKey a head key bit size table (inr (k, e, l, some_size)) =
    rw e (inr (k, ap some (take-all head.key_size k l), l, refl, some_size))

-- What is sent, if anything is.
abbrev pub SendsConsistent : RssArgs → RssHead → Built → Type 0
SendsConsistent a head (sends r) = IsConsistent a head r
SendsConsistent a head (returns status) = status ≢ 0
SendsConsistent a head leaves = Unit

whole_table :
    (a : RssArgs) (head : RssHead)
    → (a.equal ≢ 0) ⊎ ((ws : List (List ℕ)) × (a.weights ≡ some ws))
    → indir_bytes a head ≡ head.indir_size * 4 % 2 ^ 32
whole_table a head (inl e) = ground arith
whole_table a head (inr (ws, e)) = ground arith

no_table : (a : RssArgs) (head : RssHead) → a.equal ≡ 0 → a.weights ≡ none → indir_bytes a head ≡ 0
no_table a head e w = ground arith

with_key_table :
    (a : RssArgs) (head : RssHead) (key : Option (List ℕ)) (bit key_size size : ℕ) (table : List ℕ)
    → let r = with_key a head key bit size key_size table in
      (r.table ≡ table)
      × (r.indir_size ≡ size)
      × (r.key_at ≡ indir_bytes a head)
      × (r.context ≡ a.context)
with_key_table a head none bit key_size size table = (refl, refl, refl, refl)
with_key_table a head (some key) bit key_size size table = (refl, refl, refl, refl)

HasTable-of :
    (a : RssArgs) (head : RssHead) (key : Option (List ℕ)) (bit key_size size : ℕ) (table : List ℕ)
    → Compatible a
    → Shaped head.indir_size a.default a.equal a.weights (fills size table)
    → HasTable a head (with_key a head key bit size key_size table)
HasTable-of a head key bit key_size size table ok (inl (size_eq, entries, asked)) =
    let (t, s, k, c) = with_key_table a head key bit key_size size table in
    inl (s ∙ size_eq, ap length t ∙ entries, k ∙ whole_table a head asked)
HasTable-of a head key bit key_size size table ok (inr (empty, e, w, inl (zero_size, default))) =
    let (t, s, k, c) = with_key_table a head key bit key_size size table in
    inr (
      t ∙ empty,
      k ∙ no_table a head e w,
      inl (s ∙ zero_size, default, c ∙ ok.default_context default),
    )
HasTable-of a head key bit key_size size table ok (inr (empty, e, w, inr (no_change, plain))) =
    let (t, s, k, c) = with_key_table a head key bit key_size size table in
    inr (t ∙ empty, k ∙ no_table a head e w, inr (inr (s ∙ no_change)))

delete-IsConsistent :
    (a : RssArgs) (head : RssHead) (bit : ℕ)
    → Compatible a
    → a.delete ≡ true
    → IsConsistent a head (with_key a head none bit 0 0 [])
delete-IsConsistent a head bit ok d = (
  inl (refl, refl),
  inr (
    refl,
    no_table a head (ok.delete_equal d) (ok.delete_weights d),
    inr (inl (refl, d, ok.delete_context d)),
  ),
)

with_table-Sends :
    (a : RssArgs) (head : RssHead) (key : Option (List ℕ)) (bit : ℕ) (f : FillResult)
    → Compatible a
    → Sized head key
    → Shaped head.indir_size a.default a.equal a.weights f
    → SendsConsistent a head (with_table a head key bit f)
unfolding with_table
with_table-Sends a head key bit exits ok sized shaped = tt
with_table-Sends a head key bit refuses ok sized shaped = λ z. omega arith
with_table-Sends a head key bit (fills size table) ok sized shaped = (
  with_key-HasKey a head key bit size table sized,
  HasTable-of a head key bit head.key_size size table ok shaped,
)

with_hfunc-Sends :
    (memory : ℕ → Bool) (a : RssArgs) (head : RssHead) (key : Option (List ℕ)) (o : Option ℕ)
    → Compatible a
    → Sized head key
    → (a.delete ≡ true → key ≡ none)
    → SendsConsistent a head (with_hfunc memory a head key o)
unfolding with_hfunc
with_hfunc-Sends memory a head key none ok sized no_key = λ z. omega arith
with_hfunc-Sends memory a head key (some bit) ok sized no_key =
    if_elim (SendsConsistent a head) (not (memory (indir_bytes a head + head.key_size)))
      (λ e z. omega arith)
      (λ e.
        if_elim (SendsConsistent a head) a.delete
          (λ d. rw (no_key d) (delete-IsConsistent a head bit ok d))
          (λ d. with_table-Sends a head key bit (fill_for a head.indir_size) ok sized (
            fill_indir_table-Shaped head.indir_size a.default a.start a.equal a.weights
              a.num_weights)))

pub build-Sends :
    (names : StringDevice) (memory : ℕ → Bool) (a : RssArgs) (head : RssHead)
    → Compatible a
    → SendsConsistent a head (build names memory a head)
unfolding build choose_key
build-Sends names memory a head ok =
    if_elim (SendsConsistent a head) (not ((choose_key head a.key).status == 0))
      (λ e z. ground arith)
      (λ e.
        with_hfunc-Sends memory a head (choose_key head a.key).key (choose_hfunc names head a.hfunc)
          ok (choose_key-Sized head a.key)
          (λ d. ap (λ k. (choose_key head k).key) (ok.delete_key d)))
