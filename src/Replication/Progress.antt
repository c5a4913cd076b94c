-- ===== src/Replication/Progress.antt =====
-- The progress of a replica.
use graphite_tsdb.Prelude.{
  ℕ, ◌≡◌, refl, arith, max, Option, none, some, List, [], ◌∷◌, true, leb, Bool-cases, inl, inr, ap,
  ◌∙◌, tests,
}
use graphite_tsdb.Replication.{
  ReplicationState, ReplicationTracker, or_zero, last_primary_sequence, last_applied, advance,
}

-- `advance` for each sequence number in turn.
pub advance_all : ReplicationTracker → List ℕ → ReplicationTracker
advance_all t [] = t
advance_all t (s ∷ ss) = advance_all (advance t s) ss

-- The greatest of some numbers and of the one that is there before, if one is.
unfoldable pub greatest : Option ℕ → List ℕ → Option ℕ
greatest n [] = n
greatest none (s ∷ ss) = greatest (some s) ss
greatest (some n) (s ∷ ss) = greatest (some (max n s)) ss

module _ (t : ReplicationTracker) (s : ℕ) where
  pub last_primary_sequence-advance :
      last_primary_sequence (advance t s) ≡ max (last_primary_sequence t) s
  unfolding advance last_primary_sequence or_zero
  last_primary_sequence-advance =
      elim (Bool-cases (leb (or_zero t.state.last_primary_sequence) s)) [
        | inl forth ↦ rw forth (omega tests)
        | inr back ↦ rw back (ground arith)
      ]

pub last_applied-advance :
    (t : ReplicationTracker) (s : ℕ)
    → last_applied (advance t s) ≡ greatest (last_applied t) (s ∷ [])
unfolding advance last_applied or_zero greatest
last_applied-advance t s = at t.state_file t.state.last_primary_sequence
  where
    at :
        (file : Option ReplicationState) (n : Option ℕ)
        → last_applied
            (advance (record { state_file = file; state = record { last_primary_sequence = n } }) s)
          ≡ greatest n (s ∷ [])
    at file none = let forth : leb 0 s ≡ true = ground arith in rw forth refl
    at file (some n) = elim (Bool-cases (leb n s)) [
      | inl forth ↦ let top : s ≡ max n s = omega (tests, forth) in rw forth (ap some top)
      | inr back ↦ let top : n ≡ max n s = ground (arith, back) in rw back (ap some top)
    ]

greatest-front :
    (n : Option ℕ) (s : ℕ) (ss : List ℕ) → greatest (greatest n (s ∷ [])) ss ≡ greatest n (s ∷ ss)
unfolding greatest
greatest-front none s ss = refl
greatest-front (some n) s ss = refl

-- A replica advances to some sequence numbers in turn, in any order. The last one it has applied is
-- then the greatest of them and of the one it had applied before, if it had applied one. After any
-- number, 0 included, there is one.
pub advance_all_lem :
    (t : ReplicationTracker) (ss : List ℕ)
    → last_applied (advance_all t ss) ≡ greatest (last_applied t) ss
unfolding advance_all greatest
advance_all_lem t [] = refl
advance_all_lem t (s ∷ ss) =
    advance_all_lem (advance t s) ss
    ∙ ap (λ n. greatest n ss) (last_applied-advance t s)
    ∙ greatest-front (last_applied t) s ss
