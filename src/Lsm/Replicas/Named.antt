-- ===== src/Lsm/Replicas/Named.antt =====
-- The identifiers that a replica gives to the ticks of a batch.
use graphite_tsdb.Prelude.{
  ℕ, ◌+◌, ◌≤◌, ◌^◌, ◌≡◌, refl, arith, Option, none, some, List, [], ◌∷◌, length,
}
use graphite_tsdb.Types.{Tick, WalRecord}
use graphite_tsdb.Compression.Dictionary.{Symbol, SymbolDictionary, get_id, get_or_insert}
use graphite_tsdb.Compression.Dictionary.Identifiers.{
  IsDictionary, get_or_insert_lem, length-get_or_insert,
}
use graphite_tsdb.Replication.{ReplicationEntry}
use graphite_tsdb.Lsm.Replicas.{resolve_symbol, resolve_entries}

-- The tick is the one of the entry, with the identifier that the dictionary has for the symbol of
-- the entry, or with its own if there is no symbol.
unfoldable pub IsNamed : SymbolDictionary → Option Symbol → Tick → Tick → Type 0
IsNamed d none tick t = t ≡ tick
IsNamed d (some symbol) tick t =
    (get_id d symbol ≡ some t.symbol_id) × (t ≡ record tick { symbol_id = t.symbol_id })

-- An insert has a tick, the other records have none.
unfoldable pub HasTick :
    SymbolDictionary → WalRecord → Option Symbol → (List Tick → Type 0) → List Tick → Type 0
unfolding IsNamed
HasTick d (WalRecord.insert tick) symbol Rest [] = ⊥
HasTick d (WalRecord.insert tick) symbol Rest (t ∷ ts) = IsNamed d symbol tick t × Rest ts
HasTick d (WalRecord.delete key) symbol Rest ts = Rest ts
HasTick d (WalRecord.checkpoint n) symbol Rest ts = Rest ts

-- The ticks are those of the inserts among the entries, in order.
unfoldable pub IsResolved : SymbolDictionary → List ReplicationEntry → List Tick → Type 0
unfolding HasTick
IsResolved d [] [] = Unit
IsResolved d [] (t ∷ ts) = ⊥
IsResolved d (e ∷ es) ts = HasTick d e.entry e.symbol (IsResolved d es) ts

-- The dictionary is well formed and keeps the identifiers that it had, and the ticks are resolved.
pub record IsExtended (d : SymbolDictionary) (es : List ReplicationEntry)
    (r : SymbolDictionary × List Tick) : Type 0 where
  pub valid : IsDictionary r.0
  pub kept : (s : Symbol) (i : ℕ) → get_id d s ≡ some i → get_id r.0 s ≡ some i
  pub resolved : IsResolved r.0 es r.1

-- With room in the dictionary for a symbol of each entry, the ticks are resolved.
pub resolve_entries_lem :
    (d : SymbolDictionary) (es : List ReplicationEntry)
    → IsDictionary d
    → length d.id_to_symbol + length es ≤ 2 ^ 16
    → IsExtended d es (resolve_entries d es)
unfolding resolve_entries resolve_symbol IsResolved IsNamed
resolve_entries_lem d [] v room = record { valid = v; kept = λ s i p. p; resolved = tt }
resolve_entries_lem d (e ∷ es) v room =
    one (λ d1 v1 room1. resolve_entries_lem d1 es v1 room1) e.sequence e.entry e.symbol
  where
    one :
        ((d1 : SymbolDictionary)
          → IsDictionary d1
          → length d1.id_to_symbol + length es ≤ 2 ^ 16
          → IsExtended d1 es (resolve_entries d1 es))
        → (sequence : ℕ) (r : WalRecord) (symbol : Option Symbol)
        → IsExtended d
            ((record { sequence = sequence; entry = r; symbol = symbol }) ∷ es)
            (resolve_entries d ((record { sequence = sequence; entry = r; symbol = symbol }) ∷ es))
    one more sequence (WalRecord.delete key) symbol =
        let rest = more d v (omega arith) in
        record { valid = rest.valid; kept = rest.kept; resolved = rest.resolved }
    one more sequence (WalRecord.checkpoint n) symbol =
        let rest = more d v (omega arith) in
        record { valid = rest.valid; kept = rest.kept; resolved = rest.resolved }
    one more sequence (WalRecord.insert tick) none =
        let rest = more d v (omega arith) in
        record { valid = rest.valid; kept = rest.kept; resolved = (refl, rest.resolved) }
    one more sequence (WalRecord.insert tick) (some s) =
        let (v1, here, there, keeps, same) = get_or_insert_lem d s v (omega arith) in
        let rest = more (get_or_insert d s).0 v1 (omega (arith, length-get_or_insert d s)) in
        record {
          valid = rest.valid;
          kept = λ t i p. rest.kept t i (keeps t i p);
          resolved = ((rest.kept s (get_or_insert d s).1 here, refl), rest.resolved);
        }
