-- ===== src/Reset/Names.antt =====
-- parse_reset: the prefix match of each component is a table of names.
use ethtool.Base.{
  ℕ, ◌*◌, ◌%◌, ◌^◌, ◌<◌, ◌≡◌, ◌≢◌, inl, inr, refl, ◌∙◌, bit_or, Option, none, some, List, [], ◌∷◌,
  ◌++◌, ◌==◌, if◌then◌else◌, codes, arith, drop, Bool-cases, ==_false,
}
use ethtool.Base.Maybe.{◌>>=◌}
use ethtool.Clib.{str_eq}
use ethtool.Reset.{after_val, bitval_of, parse_reset, ◌or_else◌, reset_arg, reset_data, reset_flags}

-- A component in the words of the manual page: its name, and its name with -shared.
abbrev pub component : List ℕ → ℕ → List (List ℕ × ℕ)
component name mask = (name, mask) ∷ (name ++ codes "-shared", mask * 2 ^ 16) ∷ []

abbrev pub reset_names : List (List ℕ × ℕ)
reset_names =
    component (codes "mgmt") 0x1
    ++ component (codes "irq") 0x2
    ++ component (codes "dma") 0x4
    ++ component (codes "filter") 0x8
    ++ component (codes "offload") 0x10
    ++ component (codes "mac") 0x20
    ++ component (codes "phy") 0x40
    ++ component (codes "ram") 0x80
    ++ component (codes "ap") 0x100
    ++ (codes "dedicated", 0xffff) ∷ (codes "all", 0xffffffff) ∷ []

abbrev pub mask_of : List (List ℕ × ℕ) → List ℕ → Option ℕ
mask_of [] arg = none
mask_of ((name, mask) ∷ names) arg = if str_eq arg name then some mask else mask_of names arg

-- The masks of all arguments, those behind `flags` read as numbers.
abbrev pub masks : List (List ℕ) → Option (List ℕ)
masks [] = some []
masks (arg ∷ []) =
    if str_eq arg (codes "flags") then none else (mask_of reset_names arg >>= λ m. some (m ∷ []))
masks (arg ∷ next ∷ rest) =
    let behind = masks rest in
    let tail = masks (next ∷ rest) in
    if str_eq arg (codes "flags")
    then if reset_flags next == 0 then none else (behind >>= λ ms. some (reset_flags next ∷ ms))
    else (mask_of reset_names arg >>= λ m. tail >>= λ ms. some (m ∷ ms))

abbrev pub union : ℕ → List ℕ → ℕ
union value [] = value
union value (m ∷ ms) = union (bit_or value m) ms

parse_reset-component :
    (val : List ℕ) (bitset : ℕ) (arg : List ℕ) (value : ℕ)
    → bitset ≢ 0
    → bitset * 2 ^ 16 % 2 ^ 32 ≢ 0
    → parse_reset val bitset arg value ≡ (
        if str_eq arg val
        then some (bit_or value bitset)
        else if str_eq arg (val ++ codes "-shared")
        then some (bit_or value (bitset * 2 ^ 16 % 2 ^ 32))
        else none)
unfolding parse_reset after_val bitval_of str_eq
parse_reset-component [] bitset [] value h h' = rw (==_false bitset 0 h) refl
parse_reset-component [] bitset (d ∷ arg) value h h' =
    elim (Bool-cases (str_eq (d ∷ arg) (codes "-shared"))) [
      | inl shared ↦ rw (shared, ==_false (bitset * 2 ^ 16 % 2 ^ 32) 0 h') refl
      | inr not_shared ↦ rw not_shared refl
    ]
parse_reset-component (c ∷ val) bitset [] value h h' = refl
parse_reset-component (c ∷ val) bitset (d ∷ arg) value h h' = elim (Bool-cases (d == c)) [
  | inl same ↦ rw same (parse_reset-component val bitset arg value h h')
  | inr other ↦ rw other refl
]

abbrev ored : ℕ → ℕ → Option ℕ
ored value m = some (bit_or value m)

component_or_else :
    (val : List ℕ) (bitset : ℕ) (names : List (List ℕ × ℕ)) (arg : List ℕ) (value : ℕ)
    (o : Option ℕ)
    → bitset ≢ 0
    → bitset * 2 ^ 16 < 2 ^ 32
    → o ≡ (mask_of names arg >>= ored value)
    → (parse_reset val bitset arg value or_else o)
      ≡ (mask_of (component val bitset ++ names) arg >>= ored value)
component_or_else val bitset names arg value o h small e =
    let fits : bitset * 2 ^ 16 % 2 ^ 32 ≡ bitset * 2 ^ 16 = omega arith in
    rw (parse_reset-component val bitset arg value h (λ z. omega arith), fits)
      (elim (Bool-cases (str_eq arg val)) [
        | inl same ↦ rw same refl
        | inr other ↦ rw other (elim (Bool-cases (str_eq arg (val ++ codes "-shared"))) [
          | inl shared ↦ rw shared refl
          | inr neither ↦ rw neither e
        ])
      ])

last_names :
    (arg : List ℕ) (value : ℕ)
    → (if str_eq arg (codes "dedicated")
        then some (bit_or value 0xffff)
        else if str_eq arg (codes "all")
        then some (bit_or value 0xffffffff)
        else none)
      ≡ (mask_of ((codes "dedicated", 0xffff) ∷ (codes "all", 0xffffffff) ∷ []) arg >>= ored value)
last_names arg value = elim (Bool-cases (str_eq arg (codes "dedicated"))) [
  | inl same ↦ rw same refl
  | inr other ↦ rw other (elim (Bool-cases (str_eq arg (codes "all"))) [
    | inl all ↦ rw all refl
    | inr neither ↦ rw neither refl
  ])
]

reset_arg-mask :
    (arg : List ℕ) (value : ℕ) → reset_arg arg value ≡ (mask_of reset_names arg >>= ored value)
unfolding reset_arg
reset_arg-mask arg value =
    component_or_else (codes "mgmt") 0x1 (drop 2 reset_names) arg value _ (λ z. omega arith)
      (omega arith)
      (component_or_else (codes "irq") 0x2 (drop 4 reset_names) arg value _ (λ z. omega arith)
        (omega arith)
        (component_or_else (codes "dma") 0x4 (drop 6 reset_names) arg value _ (λ z. omega arith)
          (omega arith)
          (component_or_else (codes "filter") 0x8 (drop 8 reset_names) arg value _
            (λ z. omega arith) (omega arith)
            (component_or_else (codes "offload") 0x10 (drop 10 reset_names) arg value _
              (λ z. omega arith) (omega arith)
              (component_or_else (codes "mac") 0x20 (drop 12 reset_names) arg value _
                (λ z. omega arith) (omega arith)
                (component_or_else (codes "phy") 0x40 (drop 14 reset_names) arg value _
                  (λ z. omega arith) (omega arith)
                  (component_or_else (codes "ram") 0x80 (drop 16 reset_names) arg value _
                    (λ z. omega arith) (omega arith)
                    (component_or_else (codes "ap") 0x100 (drop 18 reset_names) arg value _
                      (λ z. omega arith) (omega arith) (last_names arg value)))))))))

then_or :
    (ms : Option (List ℕ)) (m value : ℕ)
    → (ms >>= λ ms. some (union (bit_or value m) ms))
      ≡ ((ms >>= λ ms. some (m ∷ ms)) >>= λ ms. some (union value ms))
then_or none m value = refl
then_or (some ms) m value = refl

one_mask :
    (o : Option ℕ) (value : ℕ)
    → (o >>= ored value) ≡ ((o >>= λ m. some (m ∷ [])) >>= λ ms. some (union value ms))
one_mask none value = refl
one_mask (some m) value = refl

next_mask :
    (o : Option ℕ) (args : List (List ℕ)) (value : ℕ)
    → ((v : ℕ) → reset_data args v ≡ (masks args >>= λ ms. some (union v ms)))
    → ((o >>= ored value) >>= λ v. reset_data args v)
      ≡ ((o >>= λ m. masks args >>= λ ms. some (m ∷ ms)) >>= λ ms. some (union value ms))
next_mask none args value ih = refl
next_mask (some m) args value ih = ih (bit_or value m) ∙ then_or (masks args) m value

-- The loop over the arguments of a reset collects the masks of its words: each is one of the names
-- of the nine components, alone or with -shared, dedicated or all, or flags with a number behind it
-- that is not 0 in its low 32 bits, and every other word is refused.
pub reset_data-masks :
    (args : List (List ℕ)) (value : ℕ)
    → reset_data args value ≡ (masks args >>= λ ms. some (union value ms))
unfolding reset_data
reset_data-masks [] value = refl
reset_data-masks (arg ∷ []) value = elim (Bool-cases (str_eq arg (codes "flags"))) [
  | inl flags ↦ rw flags refl
  | inr word ↦ rw (word, reset_arg-mask arg value) (one_mask (mask_of reset_names arg) value)
]
reset_data-masks (arg ∷ next ∷ rest) value = elim (Bool-cases (str_eq arg (codes "flags"))) [
  | inl flags ↦ rw flags (elim (Bool-cases (reset_flags next == 0)) [
    | inl none_given ↦ rw none_given refl
    | inr given ↦ rw given (
        reset_data-masks rest (bit_or value (reset_flags next))
        ∙ then_or (masks rest) (reset_flags next) value)
  ])
  | inr word ↦
      rw (word, reset_arg-mask arg value)
        (next_mask (mask_of reset_names arg) (next ∷ rest) value
          (λ v. reset_data-masks (next ∷ rest) v))
]
