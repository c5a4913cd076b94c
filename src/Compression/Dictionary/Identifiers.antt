-- ===== src/Compression/Dictionary/Identifiers.antt =====
-- Symbols and identifiers stay in one-to-one correspondence, up to 65536 symbols.
use graphite_tsdb.Prelude.{
  ℕ, zero, suc, ◌%◌, ◌^◌, ◌≤◌, ◌<◌, ◌≡◌, ◌≢◌, refl, sym, ap, ◌∙◌, arith, inl, inr,
}
use graphite_tsdb.Prelude.{none, some, List, [], ◌∷◌, ◌++◌, if◌then◌else◌, Bool-cases, Option-cases}
use graphite_tsdb.Prelude.{length, length-append, get_elem?}
use native.Mathlib.Nat.{mod-eq_of_lt}
use graphite_tsdb.Prelude.{ℕ_discrete}
use graphite_tsdb.Prelude.Bytes.{bytes_eq, bytes_eq_iff, bytes_eq_refl}
use graphite_tsdb.Compression.Dictionary.{
  SymbolDictionary, Symbol, new, lookup, get_id, get_symbol, add_symbol, get_or_insert,
}

-- The map and the vector are inverse to one another, and every identifier fits 16 bits.
pub record IsDictionary (d : SymbolDictionary) : Type 0 where
  pub small : length d.id_to_symbol ≤ 2 ^ 16
  pub named : (s : Symbol) (i : ℕ) → get_id d s ≡ some i → get_symbol d i ≡ some s
  pub found : (s : Symbol) (i : ℕ) → get_symbol d i ≡ some s → get_id d s ≡ some i

pub new-IsDictionary : IsDictionary new
unfolding get_id get_symbol lookup
new-IsDictionary = record { small = omega arith; named = λ s i e. cc; found = λ s i e. cc }

module _ {ℓ} {A : Type ℓ} where
  pub get_elem?-lt : (xs : List A) (i : ℕ) (x : A) → get_elem? xs i ≡ some x → i < length xs
  get_elem?-lt [] i x h = absurd (cc)
  get_elem?-lt (y ∷ xs) zero x h = omega arith
  get_elem?-lt (y ∷ xs) (suc i) x h = omega (arith, get_elem?-lt xs i x h)

  pub get_elem?-append_last :
      (xs : List A) (x : A) → get_elem? (xs ++ (x ∷ [])) (length xs) ≡ some x
  get_elem?-append_last [] x = refl
  get_elem?-append_last (y ∷ xs) x = get_elem?-append_last xs x

  pub get_elem?-append_lt :
      (xs ys : List A) (i : ℕ) → i < length xs → get_elem? (xs ++ ys) i ≡ get_elem? xs i
  get_elem?-append_lt [] ys i h = absurd (omega arith)
  get_elem?-append_lt (x ∷ xs) ys zero h = refl
  get_elem?-append_lt (x ∷ xs) ys (suc i) h = get_elem?-append_lt xs ys i (omega arith)

  get_elem?-append_inv :
      (xs : List A) (x y : A) (i : ℕ)
      → get_elem? (xs ++ (x ∷ [])) i ≡ some y
      → i ≢ length xs
      → get_elem? xs i ≡ some y
  get_elem?-append_inv [] x y zero h other = absurd (other refl)
  get_elem?-append_inv [] x y (suc i) h other = h
  get_elem?-append_inv (z ∷ xs) x y zero h other = h
  get_elem?-append_inv (z ∷ xs) x y (suc i) h other =
      get_elem?-append_inv xs x y i h (λ e. other (ap suc e))

module _ (d : SymbolDictionary) (s : Symbol) where
  pub get_or_insert-of_some : (i : ℕ) → get_id d s ≡ some i → get_or_insert d s ≡ (d, i)
  unfolding get_or_insert
  get_or_insert-of_some i e = rw (e, get_or_insert)

  pub get_or_insert-of_none : get_id d s ≡ none → get_or_insert d s ≡ add_symbol d s
  unfolding get_or_insert
  get_or_insert-of_none e = rw (e, get_or_insert)

  pub get_id-add :
      (t : Symbol)
      → get_id (add_symbol d s).0 t
        ≡ (if bytes_eq s t then some (length d.id_to_symbol % 2 ^ 16) else get_id d t)
  unfolding get_id lookup add_symbol
  get_id-add t = refl

  module _ (v : IsDictionary d) (room : length d.id_to_symbol < 2 ^ 16)
      (fresh : get_id d s ≡ none) where
    add_named :
        (t : Symbol) (i : ℕ)
        → get_id (add_symbol d s).0 t ≡ some i
        → get_elem? (d.id_to_symbol ++ (s ∷ [])) i ≡ some t
    add_named t i e = elim (Bool-cases (bytes_eq s t)) [
      | inl same ↦
          let here : length d.id_to_symbol ≡ i = ground (arith, get_id-add t, mod-eq_of_lt room) in
          let eq : s ≡ t = (bytes_eq_iff s t).0 same in
          rw (← here, ← eq) (get_elem?-append_last d.id_to_symbol s)
      | inr other ↦
          let old : get_id d t ≡ some i = ground (arith, get_id-add t) in
          let at : get_elem? d.id_to_symbol i ≡ some t = unfold get_symbol in v.named t i old in
          get_elem?-append_lt d.id_to_symbol (s ∷ []) i (get_elem?-lt d.id_to_symbol i t at) ∙ at
    ]

    add_found :
        (t : Symbol) (i : ℕ)
        → get_elem? (d.id_to_symbol ++ (s ∷ [])) i ≡ some t
        → get_id (add_symbol d s).0 t ≡ some i
    add_found t i e = elim (ℕ_discrete i (length d.id_to_symbol)) [
      | yes here ↦
          let eq : some s ≡ some t =
            sym (get_elem?-append_last d.id_to_symbol s)
            ∙ ap (get_elem? (d.id_to_symbol ++ (s ∷ []))) (sym here)
            ∙ e in
          ground
            (arith, eq, get_id-add t, bytes_eq_iff s t, bytes_eq_refl s, mod-eq_of_lt room, here)
      | no other ↦
          let at : get_elem? d.id_to_symbol i ≡ some t =
            get_elem?-append_inv d.id_to_symbol s t i e other in
          let old : get_id d t ≡ some i = v.found t i (unfold get_symbol in at) in
          elim (Bool-cases (bytes_eq s t)) [
            | inl same ↦
                let eq : s ≡ t = (bytes_eq_iff s t).0 same in absurd (cc (ap (get_id d) eq))
            | inr differs ↦ get_id-add t ∙ rw differs old
          ]
    ]

    pub add_symbol-IsDictionary : IsDictionary (add_symbol d s).0
    unfolding get_symbol
    add_symbol-IsDictionary = record {
      small = unfold add_symbol in omega (arith, length-append d.id_to_symbol (s ∷ []));
      named = λ t i e. unfold add_symbol in add_named t i e;
      found = λ t i e. add_found t i (unfold add_symbol in e);
    }

add_keeps :
    (d : SymbolDictionary) (s t : Symbol) (i : ℕ)
    → get_symbol d i ≡ some t
    → get_symbol (add_symbol d s).0 i ≡ some t
unfolding get_symbol add_symbol
add_keeps d s t i p =
    get_elem?-append_lt d.id_to_symbol (s ∷ []) i (get_elem?-lt d.id_to_symbol i t p) ∙ p

first_symbol :
    (d : SymbolDictionary)
    → 0 < length d.id_to_symbol
    → (first : Symbol) × (get_symbol d 0 ≡ some first)
unfolding get_symbol
first_symbol d h = first d.id_to_symbol h
  where
    first : (xs : List Symbol) → 0 < length xs → (x : Symbol) × (get_elem? xs 0 ≡ some x)
    first [] h = absurd (omega (arith, h))
    first (x ∷ xs) h = (x, refl)

-- With room for another identifier, `get_or_insert` keeps the dictionary well formed, the
-- identifier it returns stands for the symbol in both directions, every identifier that was
-- given before is kept, and a symbol that is already there changes nothing.
pub get_or_insert_lem :
    (d : SymbolDictionary) (s : Symbol)
    → IsDictionary d
    → length d.id_to_symbol < 2 ^ 16
    → IsDictionary (get_or_insert d s).0
      × (get_id (get_or_insert d s).0 s ≡ some (get_or_insert d s).1)
      × (get_symbol (get_or_insert d s).0 (get_or_insert d s).1 ≡ some s)
      × ((t : Symbol) (i : ℕ) → get_id d t ≡ some i → get_id (get_or_insert d s).0 t ≡ some i)
      × ((i : ℕ) → get_id d s ≡ some i → get_or_insert d s ≡ (d, i))
get_or_insert_lem d s v room = elim (Option-cases (get_id d s)) [
  | inr (i, e) ↦
      rw (get_or_insert-of_some d s i e) (v, e, v.named s i e, λ t j p. p, λ j p. ground arith)
  | inl e ↦
      let here : get_id (add_symbol d s).0 s ≡ some (add_symbol d s).1 =
        get_id-add d s s ∙ rw (bytes_eq_refl s) (unfold add_symbol in refl) in
      let v' = add_symbol-IsDictionary d s v room e in
      rw (get_or_insert-of_none d s e) (
        v',
        here,
        v'.named s _ here,
        λ t i p. v'.found t i (add_keeps d s t i (v.named t i p)),
        λ i p. absurd (cc),
      )
]

pub length-get_or_insert :
    (d : SymbolDictionary) (s : Symbol)
    → length (get_or_insert d s).0.id_to_symbol ≤ suc (length d.id_to_symbol)
length-get_or_insert d s = elim (Option-cases (get_id d s)) [
  | inr (i, e) ↦ rw (get_or_insert-of_some d s i e) (omega arith)
  | inl e ↦
      rw (get_or_insert-of_none d s e)
        (unfold add_symbol in omega (arith, length-append d.id_to_symbol (s ∷ [])))
]

-- The 65537th symbol gets the identifier 0, since the cast to `u16` wraps. The map has 0 for it, but
-- the vector still has the first symbol under 0, which is another one.
pub get_or_insert_wraps :
    (d : SymbolDictionary) (s : Symbol)
    → IsDictionary d
    → length d.id_to_symbol ≡ 2 ^ 16
    → get_id d s ≡ none
    → ((get_or_insert d s).1 ≡ 0)
      × ((get_id (get_or_insert d s).0 s ≡ some 0)
          × ((first : Symbol) × ((get_symbol d 0 ≡ some first)
                × ((get_symbol (get_or_insert d s).0 0 ≡ some first) × (first ≢ s)))))
get_or_insert_wraps d s v full e =
    let zero_id : length d.id_to_symbol % 2 ^ 16 ≡ 0 = omega arith in
    let (first, at) = first_symbol d (omega arith) in
    rw (get_or_insert-of_none d s e) (
      unfold add_symbol in zero_id,
      (
        get_id-add d s s ∙ rw (bytes_eq_refl s) (ap some zero_id),
        (
          first,
          (
            at,
            (
              add_keeps d s first 0 at,
              λ same. absurd (cc (v.found first 0 at, ap (get_id d) same)),
            ),
          ),
        ),
      ),
    )
