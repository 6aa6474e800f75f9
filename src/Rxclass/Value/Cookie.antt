-- ===== src/Rxclass/Value/Cookie.antt =====
-- The ring cookie: the options `vf` and `queue` write its two fields.
use ethtool.Base.{
  ℕ, ◌+◌, ◌*◌, ◌/◌, ◌^◌, ◌<◌, ◌≡◌, refl, min, max, bit_and, true, ◌&&◌, ◌==◌, ltb, leb,
  if◌then◌else◌, arith,
}
use ethtool.Base.Bits.{
  bit, bit-le, bit_not, bit_ext, bit-bit_and, bit-bit_or, bit_or-lt, bit_and-le, bit_high,
  bit-shift_low, all_below, all_below-true, zero-bit, bit-pow_ne,
}
use ethtool.Rxclass.Value.{put_vf, put_queue, ring_vf_mask, ring_mask}

-- ethtool_get_flow_spec_ring and ethtool_get_flow_spec_ring_vf, by which a driver reads the cookie.
unfoldable pub ethtool_get_flow_spec_ring : ℕ → ℕ
ethtool_get_flow_spec_ring cookie = bit_and ring_mask cookie

unfoldable pub ethtool_get_flow_spec_ring_vf : ℕ → ℕ
ethtool_get_flow_spec_ring_vf cookie = bit_and ring_vf_mask cookie / 2 ^ 32

-- The digits of the two masks.
vf_table :
    all_below 64 (λ i.
      bit ring_vf_mask i == (if leb 32 i && ltb i 40 then 1 else 0)
      && bit (bit_not 64 ring_vf_mask) i == (if leb 32 i && ltb i 40 then 0 else 1))
    ≡ true
unfolding all_below
vf_table = refl

ring_table :
    all_below 64 (λ i.
      bit ring_mask i == (if ltb i 32 then 1 else 0)
      && bit (bit_not 64 ring_mask) i == (if ltb i 32 then 0 else 1))
    ≡ true
unfolding all_below
ring_table = refl

module _ (i : ℕ) (l : i < 64) where
  vf_digits :
      (bit ring_vf_mask i ≡ (if leb 32 i && ltb i 40 then 1 else 0))
      × (bit (bit_not 64 ring_vf_mask) i ≡ (if leb 32 i && ltb i 40 then 0 else 1))
  vf_digits = ground (
    arith,
    all_below-true 64
        (λ i.
          bit ring_vf_mask i == (if leb 32 i && ltb i 40 then 1 else 0)
          && bit (bit_not 64 ring_vf_mask) i == (if leb 32 i && ltb i 40 then 0 else 1))
        i vf_table l,
  )

  ring_digits :
      (bit ring_mask i ≡ (if ltb i 32 then 1 else 0))
      × (bit (bit_not 64 ring_mask) i ≡ (if ltb i 32 then 0 else 1))
  ring_digits = ground (
    arith,
    all_below-true 64
        (λ i.
          bit ring_mask i == (if ltb i 32 then 1 else 0)
          && bit (bit_not 64 ring_mask) i == (if ltb i 32 then 0 else 1))
        i ring_table l,
  )

module _ (cookie val : ℕ) (small : cookie < 2 ^ 64) where
  pub vf_cookie-lt : val < 256 → put_vf cookie val < 2 ^ 64
  unfolding put_vf
  vf_cookie-lt h =
      bit_or-lt 64 _ _ (omega (arith, bit_and-le 64 cookie (bit_not 64 ring_vf_mask) small))
        (omega arith)

  pub queue_cookie-lt : val < 2 ^ 32 → put_queue cookie val < 2 ^ 64
  unfolding put_queue
  queue_cookie-lt h =
      bit_or-lt 64 _ _ (omega (arith, bit_and-le 64 cookie (bit_not 64 ring_mask) small))
        (omega arith)

  -- The digits of the cookie after `vf`.
  bit-put_vf :
      (i : ℕ)
      → bit (put_vf cookie val) i
        ≡ max (min (bit cookie i) (bit (bit_not 64 ring_vf_mask) i)) (bit ((val + 1) * 2 ^ 32) i)
  unfolding put_vf
  bit-put_vf i = rw (bit-bit_or, bit-bit_and)

  bit-put_queue :
      (i : ℕ)
      → bit (put_queue cookie val) i
        ≡ max (min (bit cookie i) (bit (bit_not 64 ring_mask) i)) (bit val i)
  unfolding put_queue
  bit-put_queue i = rw (bit-bit_or, bit-bit_and)

  -- In a 64-bit cookie, for every virtual function below 255, the option `vf` makes a driver read
  -- its number plus one and the queue that was there before.
  pub ring_vf-put_vf :
      val < 255
      → (ethtool_get_flow_spec_ring_vf (put_vf cookie val) ≡ val + 1)
        × (ethtool_get_flow_spec_ring (put_vf cookie val) ≡ ethtool_get_flow_spec_ring cookie)
  unfolding ethtool_get_flow_spec_ring_vf ethtool_get_flow_spec_ring
  ring_vf-put_vf h =
      let field : bit_and ring_vf_mask (put_vf cookie val) ≡ (val + 1) * 2 ^ 32 =
        bit_ext 64 _ _ (omega (arith, bit_and-le 64 ring_vf_mask (put_vf cookie val) (omega arith)))
          (omega arith)
          (λ i l. ground (
            arith,
            bit-bit_and ring_vf_mask (put_vf cookie val) i,
            bit-put_vf i,
            vf_digits i l,
            bit-shift_low 32 (val + 1) i,
            bit_high 40 ((val + 1) * 2 ^ 32) i,
            bit-le ((val + 1) * 2 ^ 32) i,
            bit-le cookie i,
          )) in
      (
        omega (arith, field),
        bit_ext 64 _ _ (omega (arith, bit_and-le 64 ring_mask (put_vf cookie val) (omega arith)))
            (omega (arith, bit_and-le 64 ring_mask cookie (omega arith)))
            (λ i l. ground (
              arith,
              bit-bit_and ring_mask (put_vf cookie val) i,
              bit-bit_and ring_mask cookie i,
              bit-put_vf i,
              vf_digits i l,
              ring_digits i l,
              bit-shift_low 32 (val + 1) i,
              bit-le cookie i,
            )),
      )

  -- In a 64-bit cookie, for every queue below 2 ^ 32, the option `queue` makes a driver read its
  -- number, and the virtual function that was there before.
  pub ring-put_queue :
      val < 2 ^ 32
      → (ethtool_get_flow_spec_ring (put_queue cookie val) ≡ val)
        × (ethtool_get_flow_spec_ring_vf (put_queue cookie val)
            ≡ ethtool_get_flow_spec_ring_vf cookie)
  unfolding ethtool_get_flow_spec_ring_vf ethtool_get_flow_spec_ring
  ring-put_queue h =
      let field : bit_and ring_vf_mask (put_queue cookie val) ≡ bit_and ring_vf_mask cookie =
        bit_ext 64 _ _
          (omega (arith, bit_and-le 64 ring_vf_mask (put_queue cookie val) (omega arith)))
          (omega (arith, bit_and-le 64 ring_vf_mask cookie (omega arith)))
          (λ i l. ground (
            arith,
            bit-bit_and ring_vf_mask (put_queue cookie val) i,
            bit-bit_and ring_vf_mask cookie i,
            bit-put_queue i,
            vf_digits i l,
            ring_digits i l,
            bit_high 32 val i,
            bit-le cookie i,
          )) in
      (
        bit_ext 64 _ _ (omega (arith, bit_and-le 64 ring_mask (put_queue cookie val) (omega arith)))
            (omega arith)
            (λ i l. ground (
              arith,
              bit-bit_and ring_mask (put_queue cookie val) i,
              bit-put_queue i,
              ring_digits i l,
              bit_high 32 val i,
              bit-le val i,
              bit-le cookie i,
            )),
        rw field,
      )

-- After `vf 255` a driver reads 0 in the field of the virtual function, the main function,
-- whatever the 64-bit cookie was, and bit 40, outside both fields, is set.
pub ring_vf-put_vf_255 :
    (cookie : ℕ)
    → cookie < 2 ^ 64
    → (ethtool_get_flow_spec_ring_vf (put_vf cookie 255) ≡ 0) × (bit (put_vf cookie 255) 40 ≡ 1)
unfolding ethtool_get_flow_spec_ring_vf
ring_vf-put_vf_255 cookie small =
    let field : bit_and ring_vf_mask (put_vf cookie 255) ≡ 0 =
      bit_ext 64 _ 0 (omega (arith, bit_and-le 64 ring_vf_mask (put_vf cookie 255) (omega arith)))
        (omega arith)
        (λ i l. ground (
          arith,
          bit-bit_and ring_vf_mask (put_vf cookie 255) i,
          bit-put_vf cookie 255 small i,
          vf_digits i l,
          zero-bit i,
          bit-pow_ne 40 i,
          bit-le cookie i,
        )) in
    (omega (arith, field), omega (arith, bit-put_vf cookie 255 small 40, bit-le cookie 40))
