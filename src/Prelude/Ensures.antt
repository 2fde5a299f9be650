-- ===== src/Prelude/Ensures.antt =====
-- Partial correctness of code that can fail: whatever it returns meets the postcondition.
use mathlib.Core.Path.{◌≡◌, refl, subst}
use mathlib.Core.Bool.{Bool, true, false}
use mathlib.Core.List.{List, [], ◌∷◌}
use min_smt.Prelude.Tests.{if◌then◌else◌}
use min_smt.Prelude.Results.{Fault, Result, ok, err, assert, ◌>>=◌, ◌>>◌}

pub data Ensures {A : Type 0} (P : A → Type 0) : Result A → Type 0 where
  ensured : {a : A} → P a → Ensures P (ok a)
  failed : {e : Fault} → Ensures P (err e)

abbrev Post : {A : Type 0} → (A → Type 0) → Result A → Type 0
Post P (ok a) = P a
Post P (err e) = Unit {0}

pub always : {A : Type 0} → (r : Result A) → Ensures (λ a. Unit {0}) r
always (ok a) = ensured tt
always (err e) = failed

module _ {A : Type 0} {P : A → Type 0} where
  pub bind :
      {B : Type 0} {Q : B → Type 0} {r : Result A} {k : A → Result B}
      → Ensures P r
      → ((a : A) → P a → Ensures Q (k a))
      → Ensures Q (r >>= k)
  bind (ensured p) next = next _ p
  bind failed next = failed

  pub mono : {Q : A → Type 0} {r : Result A} → Ensures P r → ((a : A) → P a → Q a) → Ensures Q r
  mono (ensured p) weaken = ensured (weaken _ p)
  mono failed weaken = failed

  -- The two branches of a test, each with what the test says.
  pub branch :
      {x y : Result A} (b : Bool)
      → (b ≡ true → Ensures P x)
      → (b ≡ false → Ensures P y)
      → Ensures P (if b then x else y)
  branch true f g = f refl
  branch false f g = g refl

  -- An assertion that holds, or that the build leaves out, lets the code go on.
  pub after_assert : (nd b : Bool) {r : Result A} → Ensures P r → Ensures P (assert nd b >> r)
  after_assert true b e = e
  after_assert false true e = e
  after_assert false false e = failed

  -- The two cases of a list.
  pub on_list :
      {B : Type 0} {x : Result A} {f : B → List B → Result A} (bs : List B)
      → Ensures P x
      → ((b : B) (rest : List B) → Ensures P (f b rest))
      → Ensures P (elim bs [ [] ↦ x | b ∷ rest ↦ f b rest ])
  on_list [] e g = e
  on_list (b ∷ rest) e g = g b rest

  to_Post : {r : Result A} → Ensures P r → Post P r
  to_Post (ensured p) = p
  to_Post failed = tt

  -- What a run that returns has reached.
  pub of_ok : {r : Result A} {a : A} → Ensures P r → r ≡ ok a → P a
  of_ok e h = subst (Post P) h (to_Post e)
