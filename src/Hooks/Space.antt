-- ===== src/Hooks/Space.antt =====
-- The two spaces of a thread, of lib/common/space.cpp, and `errno`: `Sys` is the runtime's own code,
-- `App` is the program.
use min_smt.Prelude.{
  ◌+◌, ◌-◌, ◌%◌, ◌^◌, Bool, true, false, not, ltb, if◌then◌else◌, Result, ok, assert, ◌>>◌,
}
use min_smt.Prelude.Int.{ℤ, pos, negsuc, up, down}

-- The variables `current_space` and `errno` of a thread.
pub record Caller : Type 0 where
  pub space : Bool
  pub errno : ℤ

abbrev pub sys : Bool
sys = false

abbrev pub app : Bool
app = true

-- What a thread starts with.
abbrev pub fresh : Caller
fresh = record { space = sys; errno = pos 0 }

abbrev pub cross : Caller → Caller
cross c = record c { space = not c.space }

-- `setSpace`, with the space that was left.
abbrev pub set_space : Bool → Caller → Bool × Caller
set_space s c = (c.space, record c { space = s })

abbrev pub get_space : Caller → Bool
get_space c = c.space

abbrev pub is_app : Caller → Bool
is_app c = c.space

abbrev pub is_sys : Caller → Bool
is_sys c = not c.space

unfoldable pub enter_sys : (ndebug : Bool) → Caller → Result Caller
enter_sys nd c = do assert nd (is_app c); ok (cross c)

unfoldable pub exit_sys : (ndebug : Bool) → Caller → Result Caller
exit_sys nd c = do assert nd (is_sys c); ok (cross c)

-- The conversion to an `int` of 32 bits.
unfoldable pub to_int : ℤ → ℤ
to_int a =
    let u = (up a + (2 ^ 32 - down a % 2 ^ 32)) % 2 ^ 32 in
    if ltb u (2 ^ 31) then pos u else negsuc (2 ^ 32 - 1 - u)

-- The conversion to an `unsigned` of 32 bits.
unfoldable pub to_unsigned : ℤ → ℤ
to_unsigned a = pos ((up a + (2 ^ 32 - down a % 2 ^ 32)) % 2 ^ 32)
