-- ===== src/StackMap/Examples.antt =====
-- The stack map of a method with a long and a reference for parameters and two local variables.
use jdepends.Common.{List, ◌++◌, ◌≡◌, true, false, none, some, [], ◌∷◌, arith}
use jdepends.Common.Run.{ok, ◌>>=◌}
use jdepends.Descriptor.Defs.{FieldInfo, MethodInfo, empty_field, parse_method}
use jdepends.Descriptor.Grammar.{FieldType, base, object, array, int, long}
use jdepends.Descriptor.Method.{print_method, new_method}
use jdepends.StackMap.Parsed.{parse_method-set_up_locals}
use jdepends.StackMap.Defs.{CodeInfo, set_up_locals}

abbrev long_field : FieldInfo
long_field = record empty_field { is_base = true; width_in_words = 2 }

abbrev object_field : FieldInfo
object_field = record empty_field { is_object = true; width_in_words = 1 }

abbrev two_parameters : MethodInfo
two_parameters = record {
  parameter_fields = long_field ∷ object_field ∷ [];
  parameter_count = 2;
  params_width_in_words = 3;
  return_field = empty_field;
  returns = false;
  method_status = empty_field.status;
}

abbrev two_locals : CodeInfo
two_locals = record { local_vars = long_field ∷ object_field ∷ []; local_vars_width = 3 }

abbrev types : List FieldType
types = base long ∷ object (b'A' ∷ []) ∷ array (base int) ∷ []

-- `(JLA;[I)V`: the array of int is not marked.
parse_method-set_up_locals_example :
    (parse_method (print_method types none ++ (0 ∷ [])) new_method >>= λ p.
    set_up_locals p.1 (some two_locals))
    ≡ ok (0 ∷ 0 ∷ 0 ∷ 0 ∷ 0 ∷ 0 ∷ 0 ∷ 0 ∷ [], 1 ∷ 0 ∷ 0 ∷ 1 ∷ 0 ∷ 0 ∷ 1 ∷ 0 ∷ [])
parse_method-set_up_locals_example =
    parse_method-set_up_locals types none (0 ∷ []) two_locals (omega arith) tt (omega arith)
      (omega arith)
