-- ===== src/Prelude.antt =====
-- The names that the modules share: the libraries', passed on, and those of the children.
pub mod Tests
pub mod Lists
pub mod Strings
pub mod Tables
unfoldable pub use Lists.{
  length, is_empty, take, drop, select, find, update_where, any, all, count, All, In,
}
unfoldable pub use Strings.{
  Text, codes, text_beq, text_eq, starts_with, index_of, is_space, to_lower, lower, trim_left,
  trim_right, trim, trim_space,
}
unfoldable pub use Tests.{ltb, leb, nat_beq, if◌then◌else◌, ◌==◌, nat_eq}
pub use Strings.{text_beq_iff}
pub use Tests.{Eq, nat_beq_iff, ltb→lt, leb→le, Bool-cases, Option-cases, &&_iff, ||_iff}
pub use Prim.Native.Nat.{ℕ, zero, suc, ◌+◌, ◌-◌, ◌*◌, ◌/◌, ◌%◌, ◌^◌, ◌≤◌, ◌<◌}
pub use mathlib.Core.Path.{◌≡◌, refl, sym, ap, ◌∙◌, subst}
pub use mathlib.Core.Logic.{◌≢◌, ◌↔◌, ◌⊎◌, inl, inr}
pub use mathlib.Core.Bool.{Bool, true, false, ◌&&◌, ◌||◌, not}
pub use mathlib.Core.Option.{Option, none, some}
pub use mathlib.Core.List.{List, [], ◌∷◌, ◌++◌, map}
pub use native.Mathlib.Omega.{arith}
pub use Lists.{
  all_iff, any-of-In, any_witness, In-select, In-append, All-at, All-of-In, All-append, find-some,
  find-none, find-none_of_All, find-append, count-le-length, length-select, length-append,
  any-append, any-select_none, append_nil, append_assoc, any-of-find-none, any-of-find-some,
  find-snoc, find-select-none, find-select_same,
}
pub use Tables.{
  count-of-any-false, find-of-count_zero, count-select, count-snoc, any-select-false, any-snoc,
  any-update_where, count-of-find, find-none_of_any,
}
