-- ===== src/Descriptor/Examples.antt =====
-- The descriptors of `void main(String[], long)` and the like, and malformed ones.
use jdepends.Common.{
  ℕ, zero, suc, ◌≡◌, ◌≢◌, refl, Bool, true, none, some, List, [], ◌∷◌, ◌++◌, replicate, arith,
}
use jdepends.Common.Run.{Run, ok, fault, out_of_fuel}
use jdepends.Descriptor.Defs.{
  Stream, FieldInfo, empty_field, status_ok, max_name, base_type_loop, base_types, is_base_type,
  is_object_type, scan_name, is_array_type, set_object, set_base, add_dimension, parse_array,
  object_case, base_case, parse_field, field_fuel, parse_parameters, parse_return, cleanup_loop,
  cleanup_fields, params_width, return_case, close_parameters, parameters_case, parse_method,
  c_string,
}
use jdepends.Descriptor.Grammar.{FieldType, base, object, array, int, long, print, describe}
use jdepends.Descriptor.Method.{
  new_method, print_all, print_method, describe_method, left_over, parse_method-print,
}
use jdepends.Descriptor.RoundTrip.{parse_field-print}
use jdepends.Descriptor.Termination.{parse_method-ends}
use jdepends.Descriptor.Faults.{StartsNoType, HasNo, bad_parameter, parse_method-bad}

-- `[[LFoo;`
abbrev foo_matrix : FieldType
foo_matrix = array (array (object (b'F' ∷ b'o' ∷ b'o' ∷ [])))

abbrev parameters : List FieldType
parameters = foo_matrix ∷ base long ∷ []

-- The parser, run on a method descriptor.
run : Stream → Run (Bool × jdepends.Descriptor.Defs.MethodInfo × Stream)
unfolding base_type_loop is_base_type is_object_type scan_name is_array_type set_object set_base
    add_dimension parse_array object_case base_case parse_field parse_parameters parse_return
    cleanup_loop cleanup_fields params_width return_case close_parameters parameters_case
    parse_method c_string
run s = parse_method s new_method

reads_method :
    run (print_method parameters (some (base int)) ++ 0 ∷ [])
    ≡ ok (true, describe_method parameters (some (base int)), 0 ∷ [])
unfolding run
reads_method = refl

reads_behind_vector : run (b'(' ∷ b'I' ∷ b'X' ∷ b')' ∷ b'V' ∷ 0 ∷ []) ≡ fault
unfolding run
reads_behind_vector = refl

parse_field-print_example :
    parse_field
      (field_fuel (print foo_matrix ++ 0 ∷ []))
      (print foo_matrix ++ 0 ∷ [])
      (record empty_field { status = status_ok })
    ≡ ok (true, record (describe foo_matrix) { status = status_ok }, 0 ∷ [])
parse_field-print_example = parse_field-print foo_matrix status_ok (0 ∷ []) (omega arith)

parse_method-print_example :
    parse_method (print_method parameters none ++ 0 ∷ []) new_method
    ≡ ok (true, describe_method parameters none, left_over none (0 ∷ []))
parse_method-print_example = parse_method-print parameters none (0 ∷ []) (omega arith) tt

parse_method-ends_example : parse_method (b'(' ∷ b'I' ∷ b'X' ∷ 0 ∷ []) new_method ≢ out_of_fuel
parse_method-ends_example = parse_method-ends (b'(' ∷ b'I' ∷ b'X' ∷ 0 ∷ []) new_method (omega arith)

x-StartsNoType : StartsNoType b'X'
unfolding base_type_loop
x-StartsNoType = record {
  not_base = refl;
  not_object = omega arith;
  not_array = omega arith;
  not_closing = omega arith;
}

parse_method-bad_example :
    parse_method (b'(' ∷ (print_all parameters ++ b'X' ∷ 0 ∷ [])) new_method
    ≡ bad_parameter parameters (b'X' ∷ 0 ∷ [])
parse_method-bad_example = parse_method-bad parameters b'X' (0 ∷ []) (omega arith) x-StartsNoType

abbrev long_name : List ℕ
long_name = replicate 509 b'x'

long_name-HasNo : (n : ℕ) → HasNo b';' (replicate n b'x')
long_name-HasNo zero = tt
long_name-HasNo (suc n) = (omega arith, long_name-HasNo n)
