-- ===== src/Compression/Dictionary/Metadata.antt =====
-- The dictionary that `from_metadata` rebuilds from the bytes of `to_metadata`.
use native.Mathlib.Nat.{mod-eq_of_lt}
use graphite_tsdb.Prelude.{ℕ, suc, ◌%◌, ◌^◌, ◌<◌, ◌≡◌, refl, sym, ap, ◌∙◌, arith, inl, inr}
use graphite_tsdb.Prelude.{none, some, List, [], ◌∷◌, ◌++◌, append_assoc, append-nil, Option-cases}
use graphite_tsdb.Prelude.{length, length-append, get_elem?, take-append, drop-append, All}
use graphite_tsdb.Prelude.Bytes.{
  to_be_bytes, from_be_bytes, length-to_be_bytes, from_be_bytes-to_be_bytes,
}
use graphite_tsdb.Compression.Dictionary.{
  SymbolDictionary, Symbol, new, get_id, get_symbol, add_symbol, get_or_insert,
}
use graphite_tsdb.Compression.Dictionary.{
  symbols_to_bytes, to_metadata, from_metadata_loop, from_metadata,
}
use graphite_tsdb.Compression.Dictionary.Identifiers.{
  IsDictionary, new-IsDictionary, get_elem?-lt, get_elem?-append_lt, get_or_insert-of_none,
  add_symbol-IsDictionary,
}

-- Two dictionaries over the same symbols answer every lookup alike.
get_id-eq_of_symbols :
    (a b : SymbolDictionary) (s : Symbol)
    → IsDictionary a
    → IsDictionary b
    → a.id_to_symbol ≡ b.id_to_symbol
    → get_id a s ≡ get_id b s
unfolding get_symbol
get_id-eq_of_symbols a b s va vb e = elim (Option-cases (get_id a s)) [
  | inr (i, p) ↦
      p ∙ sym (vb.found s i (ap (λ (l : List Symbol). get_elem? l i) (sym e) ∙ va.named s i p))
  | inl p ↦ elim (Option-cases (get_id b s)) [
    | inl q ↦ p ∙ sym q
    | inr (i, q) ↦
        absurd (cc (va.found s i (ap (λ (l : List Symbol). get_elem? l i) e ∙ vb.named s i q)))
  ]
]

get_elem?-middle :
    (pre post : List Symbol) (s : Symbol) → get_elem? (pre ++ (s ∷ post)) (length pre) ≡ some s
get_elem?-middle [] post s = refl
get_elem?-middle (x ∷ pre) post s = get_elem?-middle pre post s

-- The symbol behind a prefix of the dictionary's symbols is not among them.
fresh_symbol :
    (d part : SymbolDictionary) (s : Symbol) (post : List Symbol)
    → IsDictionary d
    → IsDictionary part
    → part.id_to_symbol ++ (s ∷ post) ≡ d.id_to_symbol
    → get_id part s ≡ none
unfolding get_symbol
fresh_symbol d part s post v vp e = elim (Option-cases (get_id part s)) [
  | inl p ↦ p
  | inr (i, p) ↦
      let at = vp.named s i p in
      let below = get_elem?-lt part.id_to_symbol i s at in
      let first : get_id d s ≡ some i = v.found s i (
        ap (λ (l : List Symbol). get_elem? l i) (sym e)
        ∙ get_elem?-append_lt part.id_to_symbol (s ∷ post) i below
        ∙ at) in
      let second : get_id d s ≡ some (length part.id_to_symbol) = v.found s _ (
        ap (λ (l : List Symbol). get_elem? l (length part.id_to_symbol)) (sym e)
        ∙ get_elem?-middle part.id_to_symbol post s) in
      let same : i ≡ length part.id_to_symbol = cc (first, second) in
      absurd (omega (arith, same, below))
]

module _ (from_utf8_lossy : List ℕ → Symbol) where
  -- A symbol that is valid UTF-8, and whose length fits the 16 bits of its header.
  abbrev pub IsStorable : Symbol → Type 0
  IsStorable s = (from_utf8_lossy s ≡ s) × (length s < 2 ^ 16)

  loop_step :
      (n : ℕ) (dict : SymbolDictionary) (s rest : List ℕ)
      → IsStorable s
      → from_metadata_loop from_utf8_lossy
          (suc n)
          dict
          (to_be_bytes 2 (length s % 2 ^ 16) ++ (s ++ rest))
        ≡ from_metadata_loop from_utf8_lossy n (get_or_insert dict s).0 rest
  unfolding from_metadata_loop
  loop_step n dict s rest h =
      let head = to_be_bytes 2 (length s % 2 ^ 16) in
      let len : from_be_bytes head ≡ length s =
        from_be_bytes-to_be_bytes 2 (length s % 2 ^ 16) (omega arith) ∙ mod-eq_of_lt h.1 in
      rw
        (
          take-append 2 head (s ++ rest) (length-to_be_bytes 2 _),
          drop-append 2 head (s ++ rest) (length-to_be_bytes 2 _),
          len,
          take-append (length s) s rest refl,
          drop-append (length s) s rest refl,
          h.0,
        )
        (ground (
          arith,
          length-append head (s ++ rest),
          length-to_be_bytes 2 (length s % 2 ^ 16),
          length-append s rest,
        ))

  from_metadata_loop-symbols :
      (d part : SymbolDictionary) (post : List Symbol)
      → IsDictionary d
      → IsDictionary part
      → part.id_to_symbol ++ post ≡ d.id_to_symbol
      → All IsStorable post
      → IsDictionary (from_metadata_loop from_utf8_lossy (length post) part (symbols_to_bytes post))
        × ((from_metadata_loop from_utf8_lossy
              (length post)
              part
              (symbols_to_bytes post)).id_to_symbol
            ≡ d.id_to_symbol)
  unfolding symbols_to_bytes add_symbol
  from_metadata_loop-symbols d part [] v vp e h =
      unfold from_metadata_loop in (vp, sym (append-nil part.id_to_symbol) ∙ e)
  from_metadata_loop-symbols d part (s ∷ post) v vp e h =
      let fresh = fresh_symbol d part s post v vp e in
      let room : length part.id_to_symbol < 2 ^ 16 =
        omega (arith, v.small, ap length e, length-append part.id_to_symbol (s ∷ post)) in
      let grown : (add_symbol part s).0.id_to_symbol ++ post ≡ d.id_to_symbol =
        append_assoc part.id_to_symbol (s ∷ []) post ∙ e in
      rw
        (
          loop_step (length post) part s (symbols_to_bytes post) h.0,
          get_or_insert-of_none part s fresh,
        )
        (from_metadata_loop-symbols d (add_symbol part s).0 post v
          (add_symbol-IsDictionary part s vp room fresh) grown h.1)

  -- A well-formed dictionary whose symbols are valid UTF-8 of fewer than 2 ^ 16 bytes is rebuilt
  -- from its metadata: the symbols come back in their places, and every symbol has its
  -- identifier, or none, as before.
  pub from_metadata-to_metadata :
      (d : SymbolDictionary)
      → IsDictionary d
      → All IsStorable d.id_to_symbol
      → ((from_metadata from_utf8_lossy (to_metadata d)).id_to_symbol ≡ d.id_to_symbol)
        × ((s : Symbol) → get_id (from_metadata from_utf8_lossy (to_metadata d)) s ≡ get_id d s)
  from_metadata-to_metadata d v h =
      let head = to_be_bytes 4 (length d.id_to_symbol % 2 ^ 32) in
      let body = symbols_to_bytes d.id_to_symbol in
      let count : from_be_bytes head ≡ length d.id_to_symbol =
        from_be_bytes-to_be_bytes 4 (length d.id_to_symbol % 2 ^ 32) (omega arith)
        ∙ mod-eq_of_lt (omega (arith, v.small)) in
      let (w, same) = from_metadata_loop-symbols d new d.id_to_symbol v new-IsDictionary refl h in
      let whole : from_metadata from_utf8_lossy (to_metadata d)
          ≡ from_metadata_loop from_utf8_lossy (length d.id_to_symbol) new body =
        unfold from_metadata to_metadata in
        rw
          (
            take-append 4 head body (length-to_be_bytes 4 _),
            drop-append 4 head body (length-to_be_bytes 4 _),
            count,
          )
          (ground (
            arith,
            length-append head body,
            length-to_be_bytes 4 (length d.id_to_symbol % 2 ^ 32),
          )) in
      rw whole (same, λ s. get_id-eq_of_symbols _ d s w v same)
