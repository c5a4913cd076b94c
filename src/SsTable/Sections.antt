-- ===== src/SsTable/Sections.antt =====
-- Reading a known section of a file, and the numbers of a section, of the SSTable format.
use graphite_tsdb.Prelude.{
  ℕ, ◌+◌, ◌-◌, ◌^◌, ◌≤◌, ◌<◌, ◌≡◌, refl, ap, ◌∙◌, arith, false, List, ◌++◌, ltb, leb, ◌==◌, length,
  length-append, slice, slice-append, drop, length-take, length-drop,
}
use graphite_tsdb.Prelude.Bytes.{}
use graphite_tsdb.SsTable.{ok}
use graphite_tsdb.SsTable.Read.{read_at}

-- A read inside the file gives the slice.
pub read_at-slice :
    (file : List ℕ) (offset size : ℕ)
    → length file < 2 ^ 63
    → 0 < size
    → offset + size ≤ length file
    → read_at file offset size ≡ ok (slice offset (offset + size) file)
unfolding read_at
read_at-slice file offset size short nonempty inside =
    let a : leb (2 ^ 63) offset ≡ false = ground arith in
    let b : (size == 0) ≡ false = ground arith in
    let c : ltb (length file) (offset + size) ≡ false = ground arith in rw (a, b, c) refl

-- A read of the bytes between two known parts gives them.
pub read_at_section :
    (before part rest : List ℕ) (offset size : ℕ)
    → length (before ++ (part ++ rest)) < 2 ^ 63
    → 0 < size
    → length before ≡ offset
    → length part ≡ size
    → read_at (before ++ (part ++ rest)) offset size ≡ ok part
read_at_section before part rest offset size short nonempty hb hp =
    read_at-slice (before ++ (part ++ rest)) offset size short nonempty
      (omega (arith, length-append before (part ++ rest), length-append part rest))
    ∙ ap ok (slice-append size offset before part rest hb hp)

pub length-slice : (a b : ℕ) (xs : List ℕ) → a ≤ b → b ≤ length xs → length (slice a b xs) ≡ b - a
length-slice a b xs h k = length-take (b - a) (drop a xs) ∙ ground (arith, length-drop a xs)
