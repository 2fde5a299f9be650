-- ===== src/Examples/Log.antt =====
-- The end of a wait with a time limit in the text log, with its three arguments, and a call in the
-- binary log.
use min_smt.Prelude.{
  ℕ, List, ◌==◌, if◌then◌else◌, none, suc, arith, ◌≡◌, ◌⊎◌, true, false, some, [], ◌∷◌, refl, ok,
  err, assertion, length,
}
use min_smt.Prelude.Int.{pos, negsuc}
use min_smt.Log.{Line, pthread_cond_timedwait, log_sync, reads, passes}
use min_smt.Log.Known.{Unknown, log_sync-knows}
use min_smt.Log.Records.{
  Rec, FuncIds, has_id, log_call, read_back, num_extra_args_records, log_call-read_back,
}
use min_smt.Examples.Times.{before, after}

log_sync-knows_example :
    ((line : Line) × (log_sync false
          (negsuc 0)
          2
          (pos 1)
          pthread_cond_timedwait
          7
          31
          before
          before
          after
          true
          (500 ∷ 600 ∷ 110 ∷ [])
        ≡ ok line)
      × (reads pthread_cond_timedwait ≡ some (length line.args))
      × (line.op ≡ pthread_cond_timedwait)
      × (line.tid ≡ 2))
    ⊎ ((log_sync false
            (negsuc 0)
            2
            (pos 1)
            pthread_cond_timedwait
            7
            31
            before
            before
            after
            true
            (500 ∷ 600 ∷ 110 ∷ [])
          ≡ err assertion)
        × Unknown pthread_cond_timedwait)
unfolding passes
log_sync-knows_example =
    log_sync-knows (negsuc 0) 2 (pos 1) pthread_cond_timedwait 7 31 before before after true
      (500 ∷ 600 ∷ 110 ∷ []) refl

-- A call with six arguments: two, three and one.
-- The function at 4000 has the id 4.
abbrev one_function : FuncIds
one_function f = if f == 4000 then some 4 else none

log_call-read_back_example :
    (records : List Rec) × (funcs' : FuncIds) × (log_call false true one_function 1 9 4000
        (1 ∷ 2 ∷ 3 ∷ 4 ∷ 5 ∷ 6 ∷ [])
      ≡ ok (records, funcs'))
    × (read_back records ≡ 1 ∷ 2 ∷ 3 ∷ 4 ∷ 5 ∷ 6 ∷ [])
    × (length records ≡ suc (num_extra_args_records 6))
    × ((f : ℕ) → has_id (one_function f) ≡ true → funcs' f ≡ one_function f)
log_call-read_back_example =
    log_call-read_back false true one_function 1 9 4000 (1 ∷ 2 ∷ 3 ∷ 4 ∷ 5 ∷ 6 ∷ []) (ground arith)
      refl
