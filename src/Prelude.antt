-- ===== src/Prelude.antt =====
-- The names that the other modules share: the libraries', passed on, and those of the children.
mod Tests
mod Equality
mod Lists
pub mod Result
pub mod Int
pub mod Decimal
mod Texts
pub use Tests.{
  ltb, leb, lt→ltb, le→ltb, ltb→lt, ltb→le, le→leb, lt→leb, tests, if◌then◌else◌, Bool-cases,
  Option-cases, and_true,
}
pub use Equality.{
  Eq, ◌==◌, eq_iff, eq_refl, beq_comm, ne-beq, nat_eq, list_eq, contains-remove_self,
  contains-remove_ne,
}
unfoldable pub use Equality.{list_beq, contains, remove}
pub use Lists.{length, take, drop, length-append, take-append, drop-append, drop-append_more, All}
unfoldable pub use Lists.{any, all, find}
pub use Texts.{Text, Bytes}
unfoldable pub use Texts.{
  text, utf8, as_bytes, is_whitespace, trim, to_ascii_lowercase, before_first, split, rsplit_once,
  join_with,
}
pub use Prim.Native.Nat.{ℕ, zero, suc, ◌+◌, ◌-◌, ◌*◌, ◌/◌, ◌%◌, ◌^◌, ◌≤◌, ◌<◌}
pub use mathlib.Core.Path.{◌≡◌, refl, sym, ap, ◌∙◌, subst}
pub use mathlib.Core.Logic.{◌≢◌, ◌↔◌, ◌⊎◌, inl, inr}
pub use mathlib.Core.Bool.{Bool, true, false, not, ◌&&◌, ◌||◌}
pub use mathlib.Core.Option.{Option, none, some}
pub use mathlib.Core.List.{List, [], ◌∷◌, ◌++◌, map}
pub use native.Mathlib.Omega.{arith}
