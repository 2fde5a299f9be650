-- ===== src/Hooks/Endings.antt =====
-- How a call ends that can fail: what its result meets, and what its fault meets.
use min_smt.Prelude.{
  Bool, true, false, ◌≡◌, refl, if◌then◌else◌, Result, Fault, ok, err, assert, ◌>>=◌, ◌>>◌,
}

pub data Ends {A : Type 0} (P : A → Type 0) (Q : Fault → Type 0) : Result A → Type 0 where
  returns : {a : A} → P a → Ends P Q (ok a)
  fails : {e : Fault} → Q e → Ends P Q (err e)

module _ {A : Type 0} {P : A → Type 0} {Q : Fault → Type 0} where
  pub bind :
      {B : Type 0} {R : B → Type 0} {r : Result A} {k : A → Result B}
      → Ends P Q r
      → ((a : A) → P a → Ends R Q (k a))
      → Ends R Q (r >>= k)
  bind (returns p) next = next _ p
  bind (fails q) next = fails q

  -- An assertion that holds is passed in both builds.
  pub after_assert :
      {x : Result A} (nd b : Bool) → b ≡ true → Ends P Q x → Ends P Q (assert nd b >> x)
  after_assert true b e x = x
  after_assert false true e x = x
  after_assert false false e x = cc

  pub branch :
      {x y : Result A} (b : Bool)
      → (b ≡ true → Ends P Q x)
      → (b ≡ false → Ends P Q y)
      → Ends P Q (if b then x else y)
  branch true f g = f refl
  branch false f g = g refl
