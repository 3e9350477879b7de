-- ===== src/Execution/Outcome.antt =====
-- What `run_migration` leaves in a database with transactions.
use dbwarden.Common.{
  ℕ, ◌≡◌, refl, Bool, true, false, Option, none, List, [], ◌∷◌, ◌++◌, ◌&&◌, not, map, length,
  if◌then◌else◌, Text, inl, inr, ◌⊎◌, sym, ap, ◌∙◌, append_assoc, append-nil,
}
use dbwarden.Execution.Calls.{
  Effect, statement, Call, autocommit, Raised, ◌then◌, when, call, for_each,
}
use dbwarden.Execution.Run.{
  other_dialect, Settings, is_empty, txn_statements, autocommit_statements, run_on_connection,
  with_connection, run_migration, run_statements,
}
use dbwarden.Execution.Rules.{Ends, returns, then-Ends, Ends-weaken}
use dbwarden.Execution.Durable.{Database, after}
use dbwarden.Execution.Steps.{records, Has, Kept}
use dbwarden.Execution.Atomic.{in_transaction, run_on_connection-Ends}
use dbwarden.Execution.Connection.{with_connection-Ends, last_record, last_record-Ends}
use dbwarden.Execution.Autocommit.{Behind, loop-Ends}

nothing_left : (b : Bool) (es : List Effect) → [] ≡ (if b && false then es else [])
nothing_left true es = refl
nothing_left false es = refl

something_left :
    (b : Bool) (es : List Effect) → (if b then es else []) ≡ (if b && true then es else [])
something_left true es = refl
something_left false es = refl

joined_at : (d m f : List Effect) → (d ++ (m ++ [])) ++ f ≡ d ++ (m ++ f)
joined_at d m f =
    append_assoc d (m ++ []) f ∙ ap (λ (x : List Effect). d ++ (x ++ f)) (append-nil m)

module _ (raises : List Call → Call → Option Raised) (fence_holds : List Call → Bool)
    (settings : Settings) (db : Database) (other : settings.dialect ≡ other_dialect) where
  run_first-Ends :
      (has_connection : Bool) (d : List Effect) (total : ℕ) (txns autos : List Text)
      (calls : List Call)
      → Has db d [] calls
      → Ends
          (Has db (d ++ in_transaction raises fence_holds settings db txns autos) [])
          (Kept db d)
          ((if has_connection
              then run_on_connection raises fence_holds settings true total txns autos
              else with_connection raises fence_holds settings
                  (run_on_connection raises fence_holds settings false total txns autos))
            calls)
  run_first-Ends true d total txns autos calls h =
      run_on_connection-Ends raises fence_holds settings db txns autos true d total calls other h
  run_first-Ends false d total txns autos calls (h, k) =
      with_connection-Ends raises fence_holds settings db other
        (run_on_connection raises fence_holds settings false total txns autos) d
        (in_transaction raises fence_holds settings db txns autos) calls h
        (λ l i.
          run_on_connection-Ends raises fence_holds settings db txns autos false d total l other i)

  -- The result, from the statements of the two kinds.
  abbrev pub IsDone : Bool → List Effect → List Text → List Text → List Call → Type 0
  IsDone has_connection d txns autos calls =
      ((after db calls).durable ++ (after db calls).pending
        ≡ d ++ (map statement txns ++ (map statement autos ++ records settings settings.operation)))
      × ((after db calls).pending ≡ (
          if has_connection && not (is_empty autos)
          then records settings settings.operation
          else []))

  abbrev pub IsUndone : List Effect → List Text → List Text → Raised → List Call → Type 0
  IsUndone d txns autos e calls =
      ((after db calls).durable ≡ d)
      ⊎ ((front : List Text) × (rest : List Text) × (front ++ rest ≡ autos)
          × (is_empty autos ≡ false)
          × ((after db calls).durable ≡ d ++ (map statement txns ++ map statement front)))

  run_last-Ends :
      (has_connection : Bool) (d : List Effect) (txns autos : List Text) (calls : List Call)
      → Has db (d ++ in_transaction raises fence_holds settings db txns autos) [] calls
      → Ends (IsDone has_connection d txns autos) (IsUndone d txns autos) (
          (for_each (λ n s. call raises (autocommit s)) 0 autos
              then when
                  (not (is_empty autos))
                  (last_record raises fence_holds settings db other has_connection))
            calls)
  unfolding for_each
  run_last-Ends has_connection d txns [] calls (h, k) = returns calls (
    ap (λ (x : List Effect). (after db calls).durable ++ x) k
        ∙ append-nil ((after db calls).durable)
        ∙ h,
    k ∙ nothing_left has_connection (records settings settings.operation),
  )
  run_last-Ends has_connection d txns (t ∷ ts) calls h =
      let autos = t ∷ ts in
      let loop = for_each (λ n s. call raises (autocommit s)) 0 autos in
      let e = d ++ in_transaction raises fence_holds settings db txns autos in
      let M = map statement txns in
      then-Ends loop (when true (last_record raises fence_holds settings db other has_connection))
        calls (Behind raises db e autos [])
        (Ends-weaken (loop calls) (λ l i. i)
          (λ x l (front, rest, same, i).
            inr (front, rest, same, refl, i ∙ joined_at d M (map statement front)))
          (loop-Ends raises db e autos calls h))
        (λ l (front, same, i).
          Ends-weaken (last_record raises fence_holds settings db other has_connection l)
            (λ l' (j, k).
              let all_run : front ≡ autos = sym (append-nil front) ∙ same in
              (
                j
                    ∙ ap (λ (x : List Effect). x ++ records settings settings.operation)
                        (joined_at d M (map statement front))
                    ∙ append_assoc d (M ++ map statement front)
                        (records settings settings.operation)
                    ∙ ap (λ (x : List Effect). d ++ x)
                        (append_assoc M (map statement front) (records settings settings.operation)
                          ∙ ap
                              (λ (x : List Text).
                                M ++ (map statement x ++ records settings settings.operation))
                              all_run),
                k ∙ something_left has_connection (records settings settings.operation),
              ))
            (λ x l' j. inr (front, [], same, refl, j ∙ joined_at d M (map statement front)))
            (last_record-Ends raises fence_holds settings db other has_connection
              (e ++ map statement front) l i))

  -- What a run of a migration without a data plan leaves in a database with transactions, over a
  -- database without pending effects. If it returns, the statements of the transaction, then the
  -- autocommit statements and then the record of the version are durable; only, on a connection of the
  -- caller, the record behind autocommit statements is left in an open transaction. If it raises,
  -- nothing is durable, or the transaction with the first of the autocommit statements, and never the
  -- record.
  pub run_migration-Ends :
      (has_connection : Bool) (sqls : List Text) (d : List Effect)
      → Has db d [] []
      → Ends
          (IsDone has_connection d (txn_statements sqls) (autocommit_statements sqls))
          (IsUndone d (txn_statements sqls) (autocommit_statements sqls))
          (run_migration raises fence_holds settings none has_connection sqls [])
  unfolding run_migration run_statements
  run_migration-Ends has_connection sqls d h =
      let txns = txn_statements sqls in
      let autos = autocommit_statements sqls in
      then-Ends
        (if has_connection
          then run_on_connection raises fence_holds settings true (length sqls) txns autos
          else with_connection raises fence_holds settings
              (run_on_connection raises fence_holds settings false (length sqls) txns autos))
        (for_each (λ n s. call raises (autocommit s)) 0 autos
          then when (not (is_empty autos))
              (last_record raises fence_holds settings db other has_connection))
        [] (Has db (d ++ in_transaction raises fence_holds settings db txns autos) [])
        (Ends-weaken
          ((if has_connection
              then run_on_connection raises fence_holds settings true (length sqls) txns autos
              else with_connection raises fence_holds settings
                  (run_on_connection raises fence_holds settings false (length sqls) txns autos))
            [])
          (λ l i. i) (λ x l i. inl i)
          (run_first-Ends has_connection d (length sqls) txns autos [] h))
        (λ l i. run_last-Ends has_connection d txns autos l i)
