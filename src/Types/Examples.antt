-- ===== src/Types/Examples.antt =====
-- Keys at concrete values.
use Prim.Native.Nat.{Ordering}
use graphite_tsdb.Prelude.{◌≡◌, refl, [], ◌∷◌}
use graphite_tsdb.Prelude.Int.{pos, negsuc}
use graphite_tsdb.Prelude.Bytes.{to_be_bytes, u64_of}
use graphite_tsdb.Types.{Key, encode, cmp}

-- A time before 1970: one nanosecond.
abbrev old_key : Key
old_key = record { symbol_id = 258; timestamp = negsuc 0 }

old_key_bytes : encode old_key ≡ 1 ∷ 2 ∷ 255 ∷ 255 ∷ 255 ∷ 255 ∷ 255 ∷ 255 ∷ 255 ∷ 255 ∷ []
unfolding encode to_be_bytes u64_of
old_key_bytes = refl

old_key_first : cmp old_key (record { symbol_id = 258; timestamp = pos 0 }) ≡ Ordering.lt
unfolding cmp
old_key_first = refl
