-- ===== src/Classes/Defs.antt =====
-- The searches in loaded classes of jvmloadr.c and Jvmrt.c. A class is known by its place in a list;
-- a string is a spring of Jvmsprng.c, with its hash. A class whose place is not in the list is
-- `fault`.
use jdepends.Common.{
  ℕ, zero, suc, Bool, true, false, ◌&&◌, ◌||◌, Option, none, some, List, [], ◌∷◌, ◌==◌,
  if◌then◌else◌, get_elem?,
}
use jdepends.Common.Run.{Run, ok, fault, out_of_fuel, ◌>>=◌}

-- _JVM_Spring_Node with the bytes behind it, as many as ju32Len says
pub record Spring : Type 0 where
  pub hash : ℕ
  pub text : List ℕ

-- JvmMemCmp over the shorter length
unfoldable pub same_start : List ℕ → List ℕ → Bool
same_start [] ys = true
same_start (x ∷ xs) [] = true
same_start (x ∷ xs) (y ∷ ys) = if x == y then same_start xs ys else false

-- `JvmSpringStrCmp(..) == 0`
unfoldable pub spring_equal : Spring → Spring → Bool
spring_equal a b = if a.hash == b.hash then same_start a.text b.text else false

-- The name and the descriptor of a _JVM_Method or a _JVM_Field, and what else it holds
pub record Member : Type 0 where
  pub member_name : Spring
  pub member_desc : Spring
  pub content : ℕ

-- _JVM_Class_Class: `super_object` is joSuperClassObject, with the place of its class where it has
-- one, and the interfaces are those of ppjoInterfaces.
pub record JavaClass : Type 0 where
  pub class_name : Spring
  pub methods : List Member
  pub fields : List Member
  pub super_object : Option (Option ℕ)
  pub interfaces : List ℕ

abbrev pub Classes : Type 0
Classes = List JavaClass

-- The loop that IsValidMethodOf, IsStrictValidFieldOf and GetFieldOfClass share
unfoldable pub find_member : List Member → Spring → Spring → Option Member
find_member [] name desc = none
find_member (m ∷ ms) name desc =
    let rest = find_member ms name desc in
    if spring_equal m.member_name name && spring_equal m.member_desc desc then some m else rest

-- IsValidMethodOf: the method that is stored is JVM_NULL where there is none.
unfoldable pub is_valid_method_of : JavaClass → Spring → Spring → Option Member
is_valid_method_of c name desc = find_member c.methods name desc

-- IsStrictValidFieldOf, with what is stored before: it stays for a class that is JVM_NULL.
unfoldable pub is_strict_valid_field_of :
    Option JavaClass → Spring → Spring → Option Member → Bool × Option Member
is_strict_valid_field_of none name desc before = (false, before)
is_strict_valid_field_of (some c) name desc before = outcome (find_member c.fields name desc)
  where
    outcome : Option Member → Bool × Option Member
    outcome none = (false, none)
    outcome (some field) = (true, some field)

-- IsValidFieldOf: the statement of its `if` is empty, so that it returns behind it.
unfoldable pub is_valid_field_of :
    Option JavaClass → Spring → Spring → Option Member → Bool × Option Member
is_valid_field_of c name desc before = (true, (is_strict_valid_field_of c name desc before).1)

-- GetFieldOfClass: nothing is stored where there is no field.
unfoldable pub kept : Option Member → Option Member → Bool × Option Member
kept none before = (false, before)
kept (some field) before = (true, some field)

unfoldable pub get_field_of_class :
    Option JavaClass → Spring → Spring → Option Member → Bool × Option Member
get_field_of_class none name desc before = (false, before)
get_field_of_class (some c) name desc before = kept (find_member c.fields name desc) before

-- GetFieldOfObject: the fields of the object for each of its classes
unfoldable pub first_of : Option Member → Option Member → Option Member
first_of none other = other
first_of (some field) other = some field

unfoldable pub find_in_all : List (List Member) → Spring → Spring → Option Member
find_in_all [] name desc = none
find_in_all (fields ∷ more) name desc =
    first_of (find_member fields name desc) (find_in_all more name desc)

unfoldable pub get_field_of_object :
    Option (List (List Member)) → Spring → Spring → Option Member → Bool × Option Member
get_field_of_object none name desc before = (false, before)
get_field_of_object (some all) name desc before = kept (find_in_all all name desc) before

abbrev pub class_at : Option JavaClass → Run JavaClass
class_at none = fault
class_at (some c) = ok c

abbrev pub Method : Type 0
Method = ℕ × Member

unfoldable pub method_case : ℕ → Option Member → Run (Option Method) → Run (Option Method)
method_case n none rest = rest
method_case n (some m) rest = ok (some (n, m))

-- A round of the loop of JvmGetNearestBaseMethod
unfoldable pub base_round :
    (JavaClass → Run (Option Method))
    → Classes
    → Spring
    → Spring
    → Option (Option ℕ)
    → Run (Option Method)
base_round next cs name desc none = ok none
base_round next cs name desc (some none) = ok none
base_round next cs name desc (some (some n)) = do
  c ← class_at (get_elem? cs n)
  method_case n (is_valid_method_of c name desc) (next c)

-- JvmGetNearestBaseMethod: the class and the method that it stores
unfoldable pub nearest_base_method : ℕ → Classes → JavaClass → Spring → Spring → Run (Option Method)
nearest_base_method zero cs c name desc = out_of_fuel
nearest_base_method (suc k) cs c name desc =
    base_round (λ d. nearest_base_method k cs d name desc) cs name desc c.super_object

-- The end of a round of the loop of IsCPClassType
unfoldable pub super_round : (JavaClass → Run Bool) → Classes → Option (Option ℕ) → Run Bool
super_round next cs none = ok false
super_round next cs (some none) = ok false
super_round next cs (some (some n)) = class_at (get_elem? cs n) >>= next

unfoldable pub class_loop : ℕ → Classes → Spring → JavaClass → Run Bool
class_loop zero cs name c = out_of_fuel
class_loop (suc k) cs name c =
    let rest = super_round (λ d. class_loop k cs name d) cs c.super_object in
    if spring_equal name c.class_name then ok true else rest

-- IsCPClassType
unfoldable pub is_cp_class_type : ℕ → Classes → Spring → Bool → JavaClass → Run Bool
is_cp_class_type fuel cs name check_subclass c =
    if check_subclass then class_loop fuel cs name c else ok (spring_equal name c.class_name)

-- IsSubclassOf
unfoldable pub is_subclass_of : ℕ → Classes → JavaClass → JavaClass → Run Bool
is_subclass_of fuel cs s t = is_cp_class_type fuel cs t.class_name true s

-- IsKindOfEx
unfoldable pub is_kind_of_ex : ℕ → Classes → JavaClass → JavaClass → Run Bool
is_kind_of_ex fuel cs subject target = is_cp_class_type fuel cs target.class_name true subject

-- IsSuperclassOf
unfoldable pub is_superclass_of : ℕ → Classes → JavaClass → JavaClass → Run Bool
is_superclass_of fuel cs s t = is_subclass_of fuel cs t s

-- IsInterfaceImplementedBy: the interfaces of the class itself
unfoldable pub is_interface_implemented_by : List ℕ → ℕ → Bool
is_interface_implemented_by [] t = false
is_interface_implemented_by (i ∷ is) t = (t == i) || is_interface_implemented_by is t
