-- ===== src/Log/Records.antt =====
-- The records of a call in the binary log, `BinLogger::logCall` of lib/runtime/record-log.cpp, and how
-- many arguments a record has, of include/tern/logdefs.h. Where a record starts in the file is left
-- out.
use min_smt.Prelude.{
  ℕ, zero, suc, ◌+◌, ◌-◌, ◌*◌, ◌/◌, ◌%◌, ◌^◌, ◌≤◌, ◌<◌, ◌≡◌, refl, Bool, true, false, not, ◌&&◌,
  ◌||◌, ◌==◌, Option, none, some, update, Result, ok, assert, ◌>>◌, List, [], ◌∷◌, ◌++◌, length,
  arith, ltb, if◌then◌else◌, ap, Bool-cases, inl, inr,
}

-- `MAX_INLINE_ARGS` and `MAX_EXTRA_ARGS`.
abbrev pub max_inline_args : ℕ
max_inline_args = 2

abbrev pub max_extra_args : ℕ
max_extra_args = 3

abbrev pub min : ℕ → ℕ → ℕ
min a b = if ltb a b then a else b

-- `NumExtraArgsRecords`, in `unsigned`: the subtraction wraps and comes back.
unfoldable pub num_extra_args_records : (narg : ℕ) → ℕ
num_extra_args_records narg = (narg + max_extra_args - 1 - max_inline_args) / max_extra_args

-- A record, with the arguments that are written to it; `seq` is a `uint8_t`.
pub data Rec : Type 0 where
  call_rec : (insid flags narg funcid : ℕ) → (args : List ℕ) → Rec
  extra_rec : (insid seq narg : ℕ) → (args : List ℕ) → Rec

abbrev pub take : ℕ → List ℕ → List ℕ
take zero l = []
take (suc n) [] = []
take (suc n) (x ∷ l) = x ∷ take n l

abbrev pub drop : ℕ → List ℕ → List ℕ
drop zero l = l
drop (suc n) [] = []
drop (suc n) (x ∷ l) = drop n l

-- `numArgsInRec` of a record, and the arguments that a reader takes from it.
unfoldable pub args_in_rec : Rec → List ℕ
args_in_rec (call_rec insid flags narg funcid args) = take (min narg max_inline_args) args
args_in_rec (extra_rec insid seq narg args) =
    take (min (narg - max_inline_args - (seq - 1) * max_extra_args) max_extra_args) args

-- The loop over the extra records, from `seq` on; `i` arguments are written, `rest` are not.
unfoldable pub log_extra : (left seq i insid narg : ℕ) → (rest : List ℕ) → List Rec
log_extra zero seq i insid narg rest = []
log_extra (suc left) seq i insid narg rest =
    let n = min narg (max_inline_args + max_extra_args * seq) - i in
    extra_rec insid (seq % 256) narg (take n rest)
    ∷ log_extra left (seq + 1) (i + n) insid narg (drop n rest)

-- `CallIndirect` and `CallNoReturn`, as places of bits.
abbrev pub has_bit : (place flags : ℕ) → Bool
has_bit place flags = flags / 2 ^ place % 2 == 1

-- The flags of a record: an indirect call of `exit` or `pthread_exit` does not return.
unfoldable pub call_flags : (exits : Bool) → (flags : ℕ) → ℕ
call_flags exits flags =
    if has_bit 0 flags && exits && not (has_bit 1 flags) then flags + 2 else flags

-- `funcs`, the ids of the functions by their addresses.
abbrev pub FuncIds : Type 0
FuncIds = ℕ → Option ℕ

abbrev pub has_id : Option ℕ → Bool
has_id none = false
has_id (some i) = true

-- `funcs[func]`: a missing function is entered with 0.
unfoldable pub func_id : FuncIds → ℕ → ℕ × FuncIds
func_id funcs func = elim (funcs func) [
  | none ↦ (0, update funcs func (some 0))
  | some i ↦ (i, funcs)
]

-- The records of a call with the arguments `args`.
unfoldable pub call_records : (flags insid funcid : ℕ) → (args : List ℕ) → List Rec
unfolding log_extra num_extra_args_records
call_records flags insid funcid args =
    let narg = length args in
    let n = min narg max_inline_args in
    call_rec insid flags narg funcid (take n args)
    ∷ log_extra (num_extra_args_records narg) 1 n insid narg (drop n args)

-- `logCall` of `func` with the arguments `args`; `exits` says that it is `exit` or `pthread_exit`.
unfoldable pub log_call :
    (ndebug exits : Bool)
    → FuncIds
    → (flags insid func : ℕ) → (args : List ℕ) → Result (List Rec × FuncIds)
unfolding call_flags func_id call_records
log_call nd exits funcs flags insid func args = do
  assert nd (has_id (funcs func))
  let (i, funcs') = func_id funcs func
  ok (call_records (call_flags exits flags) insid i args, funcs')

-- The arguments of a call, read back from its records.
unfoldable pub read_back : List Rec → List ℕ
unfolding args_in_rec
read_back [] = []
read_back (r ∷ rs) = args_in_rec r ++ read_back rs

take-take : (n : ℕ) (l : List ℕ) → take n (take n l) ≡ take n l
take-take zero l = refl
take-take (suc n) [] = refl
take-take (suc n) (x ∷ l) = ap (λ t. x ∷ t) (take-take n l)

take-drop : (n : ℕ) (l : List ℕ) → take n l ++ drop n l ≡ l
take-drop zero l = refl
take-drop (suc n) [] = refl
take-drop (suc n) (x ∷ l) = ap (λ t. x ∷ t) (take-drop n l)

length-drop : (n : ℕ) (l : List ℕ) → length (drop n l) ≡ length l - n
length-drop zero l = omega arith
length-drop (suc n) [] = omega arith
length-drop (suc n) (x ∷ l) = omega (arith, length-drop n l)

-- A record of which the reader takes as many arguments as were written, and those behind it.
read_step : (n : ℕ) (rest back : List ℕ) → back ≡ drop n rest → take n (take n rest) ++ back ≡ rest
read_step n rest back h = rw (take-take n rest, h) (take-drop n rest)

min-left : (a b : ℕ) → a ≤ b → min a b ≡ a
min-left a b h = ground arith

min-right : (a b : ℕ) → b ≤ a → min a b ≡ b
min-right a b h = ground arith

-- What the writer counts in the record `seq` is what the reader counts.
same_count :
    (narg seq : ℕ)
    → 1 ≤ seq
    → max_extra_args * seq ≤ narg
    → narg < 768
    → (min (narg - max_inline_args - (seq % 256 - 1) * max_extra_args) max_extra_args
        ≡ min narg (max_inline_args + max_extra_args * seq) - min narg (max_extra_args * seq - 1))
      × (min narg (max_extra_args * seq - 1)
            + (min narg (max_inline_args + max_extra_args * seq)
                - min narg (max_extra_args * seq - 1))
          ≡ min narg (max_extra_args * (seq + 1) - 1))
same_count narg seq p le small =
    let m = min-right narg (max_extra_args * seq - 1) (omega (arith, le)) in
    let byte : seq % 256 ≡ seq = omega (arith, le, small) in
    elim (Bool-cases (ltb narg (max_inline_args + max_extra_args * seq))) [
      | inl e ↦
          let short : narg ≤ max_inline_args + max_extra_args * seq = ground (arith, e) in
          rw
            (
              byte,
              m,
              min-left narg (max_inline_args + max_extra_args * seq) short,
              min-left narg (max_extra_args * (seq + 1) - 1) (omega (arith, short)),
              min-left (narg - max_inline_args - (seq - 1) * max_extra_args) max_extra_args
                  (omega (arith, short, p)),
            )
            (omega (arith, short, p, le), omega (arith, short, p, le))
      | inr e ↦
          let long : max_inline_args + max_extra_args * seq ≤ narg = ground (arith, e) in
          rw
            (
              byte,
              m,
              min-right narg (max_inline_args + max_extra_args * seq) long,
              min-right narg (max_extra_args * (seq + 1) - 1) (omega (arith, long)),
              min-right (narg - max_inline_args - (seq - 1) * max_extra_args) max_extra_args
                  (omega (arith, long, p)),
            )
            (omega (arith, long, p, le), omega (arith, long, p, le))
    ]

-- The extra records hold what is not written yet.
log_extra-read_back :
    (left seq insid narg : ℕ) (rest : List ℕ)
    → seq + left ≡ narg / max_extra_args + 1
    → 1 ≤ seq
    → narg < 768
    → length rest ≡ narg - min narg (max_extra_args * seq - 1)
    → (read_back (log_extra left seq (min narg (max_extra_args * seq - 1)) insid narg rest) ≡ rest)
      × (length (log_extra left seq (min narg (max_extra_args * seq - 1)) insid narg rest) ≡ left)
unfolding log_extra read_back
log_extra-read_back zero seq insid narg [] s p small len = (refl, refl)
log_extra-read_back zero seq insid narg (x ∷ rest) s p small len =
    let all = min-left narg (max_extra_args * seq - 1) (omega (arith, s)) in
    absurd (omega (arith, all, len))
log_extra-read_back (suc left) seq insid narg rest s p small len =
    let i = min narg (max_extra_args * seq - 1) in
    let n = min narg (max_inline_args + max_extra_args * seq) - i in
    let (counted, on) = same_count narg seq p (omega (arith, s)) small in
    let (behind, many) =
      log_extra-read_back left (seq + 1) insid narg (drop n rest) (omega (arith, s)) (omega arith)
        small (omega (arith, length-drop n rest, len, on)) in
    (rw (counted, on) (read_step n rest _ behind), rw on (ap suc many))

call_records-read_back :
    (flags insid funcid : ℕ) (args : List ℕ)
    → length args < 768
    → (read_back (call_records flags insid funcid args) ≡ args)
      × (length (call_records flags insid funcid args) ≡ suc (num_extra_args_records (length args)))
unfolding call_records read_back num_extra_args_records
call_records-read_back flags insid funcid args small =
    let narg = length args in
    let n = min narg max_inline_args in
    let (behind, many) =
      log_extra-read_back (num_extra_args_records narg) 1 insid narg (drop n args) (omega arith)
        (omega arith) small (length-drop n args) in
    (read_step n args _ behind, ap suc many)

func_id-keeps :
    (funcs : FuncIds) (func f : ℕ) → has_id (funcs f) ≡ true → (func_id funcs func).1 f ≡ funcs f
unfolding func_id
func_id-keeps funcs func f h = ground (arith, h)

pub log_call-read_back :
    (nd exits : Bool) (funcs : FuncIds) (flags insid func : ℕ) (args : List ℕ)
    → length args < 768
    → nd || has_id (funcs func) ≡ true
    → (records : List Rec) × (funcs' : FuncIds) × (log_call nd exits funcs flags insid func args
        ≡ ok (records, funcs'))
      × (read_back records ≡ args)
      × (length records ≡ suc (num_extra_args_records (length args)))
      × ((f : ℕ) → has_id (funcs f) ≡ true → funcs' f ≡ funcs f)
unfolding log_call
log_call-read_back nd exits funcs flags insid func args small fine =
    let passed : assert nd (has_id (funcs func)) ≡ ok tt = ground (arith, fine) in
    let (i, funcs') = func_id funcs func in
    let (same, many) = call_records-read_back (call_flags exits flags) insid i args small in
    (
      call_records (call_flags exits flags) insid i args,
      funcs',
      rw passed refl,
      same,
      many,
      func_id-keeps funcs func,
    )
