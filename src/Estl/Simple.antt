-- ===== src/Estl/Simple.antt =====
-- `simplevec::is_simple_enough` (src/estl.h): where the vector may move its objects as bytes.
use libptytty.Base.{Bool, false, ◌&&◌}

-- ECB_CPP11, a GCC or clang with the traits, and any other compiler.
pub data Compiler : Type 0 where
  cpp11 gcc_traits no_traits : Compiler

-- What the compiler says of the type, in the first two cases.
pub record Traits : Type 0 where
  pub assignable : Bool
  pub constructible : Bool
  pub copyable : Bool
  pub destructible : Bool
  pub has_trivial_assign : Bool
  pub has_trivial_constructor : Bool
  pub has_trivial_copy : Bool
  pub has_trivial_destructor : Bool

unfoldable pub is_simple_enough : Compiler → Traits → Bool
is_simple_enough cpp11 t = t.assignable && t.constructible && t.copyable && t.destructible
is_simple_enough gcc_traits t =
    t.has_trivial_assign && t.has_trivial_constructor && t.has_trivial_copy
    && t.has_trivial_destructor
is_simple_enough no_traits t = false
