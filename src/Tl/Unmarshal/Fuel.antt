-- ===== src/Tl/Unmarshal/Fuel.antt =====
-- The fuel of the reflective decoder: from 129 less the depth on, no amount of it matters.
use gogram.Common.{ℕ, zero, suc, ◌+◌, ◌<◌, ◌≡◌, some, arith}
use gogram.Tl.Defs.{reading_crc, in_interface, unknown_kind}
use gogram.Tl.Schema.{
  GoType, uint32, int32, int64, float64, boolean, str, byte_slice, int128, int256, unsupported,
  slice, pointer, interface, Value, word, long, truth, text, bytes, nil, object, zero_value,
}
use gogram.Tl.Decoder.{D, Decoder}
use gogram.Tl.Unmarshal.{Program}
use gogram.Tl.Unmarshal.Kinds.{decode_registered_object, decode_kind, decode_value}
use gogram.Tl.Unmarshal.Same.{
  Same, fail-Same, or_wrap-Same, nested-Same, bind-Same, pop_uint-Same, pop_long-Same,
  pop_bool-Same, pop_message-Same,
}
use gogram.Tl.Unmarshal.SameParts.{unmarshal128-Same, unmarshal256-Same, as-Same, object-Same}
use gogram.Tl.Unmarshal.SameKinds.{interface-Same, vector-Same, by_crc-Same}

weaker : {A : Type 0} (k : ℕ) (m n : D A) → Same k m n → Same (suc k) m n
weaker k m n alike d h = alike d (omega arith)

module _ (p : Program) where
  module _ (k : ℕ) (self self' : GoType → D Value)
      (agree : (t : GoType) → Same k (self t) (self' t)) where
    pub registered_object-Same :
        Same k (decode_registered_object p self) (decode_registered_object p self')
    unfolding decode_registered_object
    registered_object-Same = nested-Same k nil _ _ λ shallow.
        bind-Same (suc k) _ _ _ _ (pop_uint-Same (suc k)) λ crc.
          or_wrap-Same (suc k) reading_crc nil _ _
            (by_crc-Same p (suc k) self self' (λ t. weaker k (self t) (self' t) (agree t)) crc)

    kind-Same : (t : GoType) → Same k (decode_kind p self t) (decode_kind p self' t)
    unfolding decode_kind
    kind-Same uint32 = as-Same k word _ _ (pop_uint-Same k)
    kind-Same int32 = as-Same k word _ _ (pop_uint-Same k)
    kind-Same int64 = as-Same k long _ _ (pop_long-Same k)
    kind-Same float64 = as-Same k long _ _ (pop_long-Same k)
    kind-Same boolean = as-Same k truth _ _ (pop_bool-Same k)
    kind-Same str = as-Same k text _ _ (pop_message-Same k)
    kind-Same byte_slice = as-Same k (λ b. bytes (some b)) _ _ (pop_message-Same k)
    kind-Same int128 = unmarshal128-Same k
    kind-Same int256 = unmarshal256-Same k
    kind-Same unsupported = fail-Same k unknown_kind nil
    kind-Same (slice t) = vector-Same p k self self' agree t
    kind-Same (pointer n) = as-Same k (object n) _ _ (object-Same k self self' agree (p.types n))
    kind-Same (interface i) =
        bind-Same k _ _ _ _ registered_object-Same
          λ v. or_wrap-Same k in_interface nil _ _ (interface-Same p k i v)

  decode_value-Same :
      (f g k : ℕ) (t : GoType)
      → 128 < suc f + k
      → 128 < suc g + k
      → Same k (decode_value p (suc f) t) (decode_value p (suc g) t)
  unfolding decode_value
  decode_value-Same (suc f) (suc g) k t h h' = nested-Same k (zero_value t) _ _ λ shallow.
      kind-Same (suc k) (decode_value p (suc f)) (decode_value p (suc g))
        (λ u. decode_value-Same f g (suc k) u (omega arith) (omega arith)) t
  decode_value-Same zero g k t h h' =
      nested-Same k (zero_value t) _ _ λ shallow. absurd (omega arith)
  decode_value-Same f zero k t h h' =
      nested-Same k (zero_value t) _ _ λ shallow. absurd (omega arith)

  -- On any input, well formed or not, the limit of 128 levels bounds how often the decoder comes
  -- back to itself: with two amounts of fuel, each at least 129 less the depth and at least 1,
  -- it does the same, and it always comes back to the depth where it was called.
  pub decode_value_fuel :
      (f g : ℕ) (t : GoType) (d : Decoder)
      → 128 < suc f + d.depth
      → 128 < suc g + d.depth
      → (decode_value p (suc f) t d ≡ decode_value p (suc g) t d)
        × ((decode_value p (suc f) t d).0.depth ≡ d.depth)
  decode_value_fuel f g t d h h' =
      let q = decode_value-Same f g d.depth t h h' d (omega arith) in (q.same, q.back)
