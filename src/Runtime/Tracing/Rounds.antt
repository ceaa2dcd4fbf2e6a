-- ===== src/Runtime/Tracing/Rounds.antt =====
-- One round of the loop that reads a map.
use rsocket_rpc_kotlin.Base.{ℕ, suc, ◌<◌, true, false, [], some, ◌≡◌, refl, arith, length}
use rsocket_rpc_kotlin.Runtime.Common.{ok, threw, ◌^◌, is_positive}
use rsocket_rpc_kotlin.Runtime.Netty.{Netty, Documented, unread}
use rsocket_rpc_kotlin.Runtime.Metadata.Frame.{readable_bytes-unread}
use rsocket_rpc_kotlin.Runtime.Tracing.{StringMap, put_text, read_entry, read_entries}

module _ (n : Netty) (laws : Documented n) where
  pub is_positive-readable_bytes :
      (b : n.ByteBuf)
      → length (unread n b) < 2 ^ 31
      → 0 < length (unread n b)
      → is_positive (n.readable_bytes b) ≡ true
  is_positive-readable_bytes b h l = rw (readable_bytes-unread n laws b) (ground arith)

  pub is_positive-nothing :
      (b : n.ByteBuf) → unread n b ≡ [] → is_positive (n.readable_bytes b) ≡ false
  is_positive-nothing b u = rw (readable_bytes-unread n laws b, u) refl

  pub read_entries-done :
      (fuel : ℕ) (b : n.ByteBuf) (map : StringMap n)
      → is_positive (n.readable_bytes b) ≡ false
      → read_entries n (suc fuel) b map ≡ some (ok map)
  unfolding read_entries
  read_entries-done fuel b map p = rw p refl

  pub read_entries-round :
      (fuel : ℕ) (b b' : n.ByteBuf) (key value : n.Text) (map : StringMap n)
      → is_positive (n.readable_bytes b) ≡ true
      → read_entry n b ≡ ok (key, value, b')
      → read_entries n (suc fuel) b map ≡ read_entries n fuel b' (put_text n key value map)
  unfolding read_entries read_entry
  read_entries-round fuel b b' key value map p e = rw (p, e) refl

  pub read_entries-threw :
      (fuel : ℕ) (b : n.ByteBuf) (t : n.Throwable) (map : StringMap n)
      → is_positive (n.readable_bytes b) ≡ true
      → read_entry n b ≡ threw t
      → read_entries n (suc fuel) b map ≡ some (threw t)
  unfolding read_entries read_entry
  read_entries-threw fuel b t map p e = rw (p, e) refl
