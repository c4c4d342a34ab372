-- ===== src/Classes/Examples.antt =====
-- The searches in three classes, each the super class of the one before it.
use jdepends.Common.{ℕ, Option, ◌≡◌, ◌⊎◌, refl, true, false, none, some, List, [], ◌∷◌, arith}
use jdepends.Common.Run.{ok}
use jdepends.Classes.Defs.{
  Spring, Member, JavaClass, Classes, Method, nearest_base_method, base_round, method_case,
  is_valid_method_of, find_member, spring_equal, same_start, is_subclass_of, get_field_of_class,
  is_valid_field_of, is_strict_valid_field_of,
}
use jdepends.Classes.Ancestors.{
  Ancestors, root, above, FirstMethod, AnyNamed, nearest_base_method-FirstMethod,
  is_subclass_of-AnyNamed,
}
use jdepends.Classes.Springs.{FirstNamed}
use jdepends.Classes.Fields.{is_valid_field_of-get_field_of_class}

abbrev word : ℕ → Spring
word n = record { hash = n; text = n ∷ [] }

abbrev member : ℕ → ℕ → Member
member name content = record { member_name = word name; member_desc = word 7; content = content }

abbrev leaf_class : JavaClass
leaf_class = record {
  class_name = word 1;
  methods = member 20 1 ∷ [];
  fields = member 30 1 ∷ [];
  super_object = some (some 1);
  interfaces = [];
}

abbrev middle_class : JavaClass
middle_class = record {
  class_name = word 2;
  methods = [];
  fields = [];
  super_object = some (some 2);
  interfaces = [];
}

abbrev top_class : JavaClass
top_class = record {
  class_name = word 3;
  methods = member 20 3 ∷ [];
  fields = [];
  super_object = none;
  interfaces = [];
}

abbrev loaded : Classes
loaded = leaf_class ∷ middle_class ∷ top_class ∷ []

abbrev chain : List (ℕ × JavaClass)
chain = (1, middle_class) ∷ (2, top_class) ∷ []

leaf-Ancestors : Ancestors loaded leaf_class chain
leaf-Ancestors = above 1 refl refl (above 2 refl refl (root refl))

nearest_base_method-FirstMethod_example :
    (r : Option Method) × (nearest_base_method 3 loaded leaf_class (word 20) (word 7) ≡ ok r)
    × FirstMethod (word 20) (word 7) chain r
nearest_base_method-FirstMethod_example =
    nearest_base_method-FirstMethod loaded leaf_class chain (word 20) (word 7) 3 leaf-Ancestors
      (omega arith)

-- The method of the top class is found from the leaf.
nearest_base_method-top :
    nearest_base_method 3 loaded leaf_class (word 20) (word 7) ≡ ok (some (2, member 20 3))
unfolding nearest_base_method base_round method_case is_valid_method_of find_member spring_equal
    same_start
nearest_base_method-top = refl

is_subclass_of-AnyNamed_example :
    (is_subclass_of 3 loaded leaf_class top_class ≡ ok true) × AnyNamed (word 3) leaf_class chain
    ⊎ (is_subclass_of 3 loaded leaf_class top_class ≡ ok false)
      × ¬ AnyNamed (word 3) leaf_class chain
is_subclass_of-AnyNamed_example =
    is_subclass_of-AnyNamed loaded leaf_class top_class chain 3 leaf-Ancestors (omega arith)

is_valid_field_of-get_field_of_class_example :
    ((m : Member) × FirstNamed (word 31) (word 7) leaf_class.fields (some m)
      × (is_strict_valid_field_of (some leaf_class) (word 31) (word 7) none ≡ (true, some m))
      × (get_field_of_class (some leaf_class) (word 31) (word 7) none ≡ (true, some m))
      × (is_valid_field_of (some leaf_class) (word 31) (word 7) none ≡ (true, some m)))
    ⊎ (FirstNamed (word 31) (word 7) leaf_class.fields none
        × (is_strict_valid_field_of (some leaf_class) (word 31) (word 7) none ≡ (false, none))
        × (get_field_of_class (some leaf_class) (word 31) (word 7) none ≡ (false, none))
        × (is_valid_field_of (some leaf_class) (word 31) (word 7) none ≡ (true, none)))
is_valid_field_of-get_field_of_class_example =
    is_valid_field_of-get_field_of_class leaf_class (word 31) (word 7) none
