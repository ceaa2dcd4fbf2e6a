-- ===== src/Runtime/Metadata/Parts.antt =====
-- A length, a string and a region in a buffer.
use rsocket_rpc_kotlin.Base.{
  ℕ, suc, ◌<◌, Bytes, [], ◌∷◌, ◌++◌, ◌≡◌, refl, arith, length, true, if◌then◌else◌,
}
use rsocket_rpc_kotlin.Runtime.Common.{ok, ◌^◌, short_to_int, is_positive}
use rsocket_rpc_kotlin.Runtime.Netty.{Netty, Documented, short_bytes_of, unread}

pub short_to_int-small : (k : ℕ) → k < 2 ^ 15 → short_to_int k ≡ k
short_to_int-small k h = ground arith

is_positive-suc : (k : ℕ) → suc k < 2 ^ 31 → is_positive (suc k) ≡ true
is_positive-suc k h = ground arith

module _ (n : Netty) (laws : Documented n) (b : n.ByteBuf) where
  pub short_at :
      (before after : Bytes) (offset i : ℕ)
      → offset ≡ length before
      → n.content b ≡ before ++ (short_bytes_of i ++ after)
      → i < 2 ^ 15
      → n.get_short b offset ≡ ok i
  short_at before after offset i o c h = rw o (laws.got_short b before after i c (omega arith))

  pub text_at :
      (before region after : Bytes) (offset size : ℕ)
      → offset ≡ length before
      → size ≡ length region
      → n.content b ≡ before ++ (region ++ after)
      → n.to_text b offset size ≡ ok (n.text region)
  text_at before region after offset size o s c = rw (o, s) (laws.got_text b before region after c)

  pub region_at :
      (before region after : Bytes) (offset size : ℕ)
      → offset ≡ length before
      → size ≡ length region
      → n.content b ≡ before ++ (region ++ after)
      → length region < 2 ^ 31
      → (r : n.ByteBuf) × ((if is_positive size then n.slice b offset size else ok n.empty_buffer)
          ≡ ok r)
        × (unread n r ≡ region)
  region_at before [] after offset size o s c h =
      (n.empty_buffer, rw s refl, rw (laws.empty_content, laws.empty_reader) refl)
  region_at before (x ∷ region) after offset size o s c h =
      let (r, e, cr, rr) = laws.sliced b before (x ∷ region) after c in
      (r, rw (o, s, is_positive-suc (length region) h) e, rw (rr, cr) refl)
