-- ===== src/Base.antt =====
-- The names that the other modules share: the libraries', passed on, and those of the children
-- (tests on numbers and texts, lists, Go's maps with text keys, instants and durations, the order of
-- texts, sorting).
mod Tests
mod Lists
mod Maps
mod Clock
mod Order
mod Sort
pub use Tests.*
unfoldable pub use Tests.{str_eq}
pub use Lists.*
unfoldable pub use Maps.{lookup, insert, delete, contains_key}
pub use Maps.*
unfoldable pub use Order.{str_lt}
pub use Order.{str_lt_asymm, str_lt_negtrans, str_lt_total}
unfoldable pub use Sort.{insert_sorted, sort}
pub use Sort.*
pub use Clock.{
  ℤ, pos, negsuc, is_negative, exceeds, within, Time, zero_time, is_zero_time, max_duration,
  time_sub, second, minute, hour,
}
pub use Prim.Native.Nat.{ℕ, zero, suc, ◌+◌, ◌-◌, ◌*◌, ◌/◌, ◌%◌, ◌^◌, ◌≤◌, ◌<◌, min}
pub use Prim.Native.String.{String, len}
pub use mathlib.Core.Path.{◌≡◌, refl, sym, ap, subst, ◌∙◌}
pub use mathlib.Core.Logic.{◌≢◌, ◌↔◌, ◌⊎◌, inl, inr}
pub use mathlib.Core.Bool.{Bool, true, false, not, ◌&&◌, ◌||◌}
pub use mathlib.Core.Option.{Option, none, some}
pub use mathlib.Core.List.{List, [], ◌∷◌, ◌++◌, map}
pub use native.Mathlib.Omega.{arith}
