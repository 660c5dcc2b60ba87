-- ===== src/Base.antt =====
-- The names that the other modules share: the libraries', passed on, and those of the children.
mod Tests
mod Lists
mod Arrays
mod Bytes
mod Int
mod Text
mod Digits
mod Commas
pub use Tests.*
pub use Lists.*
pub use Arrays.*
unfoldable pub use Bytes.{codes, bytes_eq}
pub use Bytes.{bytes_eq_refl, bytes_eq_sound}
unfoldable pub use Text.{
  has_prefix, before, after, skip_spaces, is_space, is_digit, digits_from, atoi,
}
pub use Int.{ℤ, pos, negsuc}
pub use Prim.Native.Nat.{ℕ, zero, suc, ◌+◌, ◌-◌, ◌*◌, ◌/◌, ◌%◌, ◌^◌, ◌≤◌, ◌<◌, min}
pub use mathlib.Core.Path.{◌≡◌, refl, sym, ap, ap₂, ◌∙◌, fun_ext}
pub use mathlib.Core.Logic.{◌≢◌, ◌↔◌, ◌⊎◌, inl, inr}
pub use mathlib.Core.Bool.{Bool, true, false, not, ◌&&◌, ◌||◌}
pub use mathlib.Core.Option.{Option, none, some}
pub use mathlib.Core.List.{List, [], ◌∷◌, ◌++◌, map}
pub use mathlib.Core.List.{append-nil, append_assoc, map-append}
pub use native.Mathlib.Omega.{arith}
unfoldable pub use Digits.{show, show_before}
pub use Digits.{digits_from-show, all_digits, show-all_digits, show-length, show-some, atoi-show}
pub use Commas.*
