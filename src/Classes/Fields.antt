-- ===== src/Classes/Fields.antt =====
-- What the searches for a field of a class say and store.
use jdepends.Common.{true, false, ◌≡◌, refl, ◌⊎◌, Option, none, some, Option-cases, inl, inr}
use jdepends.Classes.Defs.{
  Spring, Member, JavaClass, find_member, is_valid_field_of, is_strict_valid_field_of,
  get_field_of_class, kept,
}
use jdepends.Classes.Springs.{FirstNamed, find_member-FirstNamed}

-- Where the class has a field with the name and the descriptor, IsStrictValidFieldOf, GetFieldOfClass
-- and IsValidFieldOf hold and store the first one. Where it has none, the first two fail, the first
-- after it has stored JVM_NULL and the second with what was stored before, while IsValidFieldOf holds
-- and has stored JVM_NULL. A name or descriptor counts as the same where the hashes are equal and one
-- text is a beginning of the other.
pub is_valid_field_of-get_field_of_class :
    (c : JavaClass) (name desc : Spring) (before : Option Member)
    → ((m : Member) × FirstNamed name desc c.fields (some m)
        × (is_strict_valid_field_of (some c) name desc before ≡ (true, some m))
        × (get_field_of_class (some c) name desc before ≡ (true, some m))
        × (is_valid_field_of (some c) name desc before ≡ (true, some m)))
      ⊎ (FirstNamed name desc c.fields none
          × (is_strict_valid_field_of (some c) name desc before ≡ (false, none))
          × (get_field_of_class (some c) name desc before ≡ (false, before))
          × (is_valid_field_of (some c) name desc before ≡ (true, none)))
unfolding is_strict_valid_field_of get_field_of_class is_valid_field_of kept
is_valid_field_of-get_field_of_class c name desc before =
    let first = find_member-FirstNamed name desc c.fields in
    elim (Option-cases (find_member c.fields name desc)) [
      | inl e ↦ inr (rw e at first, rw e refl, rw e refl, rw e refl)
      | inr (m, e) ↦ inl (m, rw e at first, rw e refl, rw e refl, rw e refl)
    ]
