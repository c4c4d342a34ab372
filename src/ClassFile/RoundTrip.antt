-- ===== src/ClassFile/RoundTrip.antt =====
-- Reading a whole class file (JvmLdrLoadNewClass of jvmloadr.c) as the format writes it.
use jdepends.Common.{
  ℕ, suc, ◌^◌, ◌<◌, ◌≡◌, ◌≢◌, refl, sym, true, false, Option, none, some, List, [], ◌∷◌, map,
  length, ◌==◌, bit_or, arith,
}
use jdepends.Common.Run.{ok, ◌>>=◌}
use jdepends.ConstPool.Defs.{Stream, Entry, loaded}
use jdepends.ConstPool.Format.{
  Bytes2, Constant, dummy, all_entries, total_slots, AreValidConstants, write_pool, write_head,
}
use jdepends.ConstPool.RoundTrip.{take-length, full, load_head-write, length-all_entries}
use jdepends.Names.Defs.{get_string_name, from_dictionary, Cache}
use jdepends.Names.Resolve.{c_string_of, load_name-class, inside}
use jdepends.ClassFile.Defs.{LoadedClass, class_host, class_string_name, advance}
use jdepends.ClassFile.Readers.{read_fields, read_methods}
use jdepends.ClassFile.Loader.{
  acc_super, new_class, save_cp_count, read_interfaces, counted, class_attributes, or_format_error,
  read_members_of, super_case, super_name, load_body, body_case, load_class,
}
use jdepends.ClassFile.Format.{
  word, OtherAttribute, write_others, AreOthers, FieldDecl, write_fields, MethodDecl, write_methods,
}
use jdepends.ClassFile.Skip.{load_word-word}
use jdepends.ClassFile.Fields.{AreFields, describe_field, read_fields-write, generic-others}
use jdepends.ClassFile.Methods.{AreMethods, loaded_method, read_methods-write}
use jdepends.ClassFile.Written.{
  Reference, ClassDecl, super_index, write_indices, write_members, write_class, HasClass, HasSuper,
  IsClass, super_text, names_kept, described_class,
}

class_string_name-class :
    (c : LoadedClass) (r : Reference)
    → c.cp_entry_count ≡ length c.pool
    → HasClass c.pool r
    → from_dictionary c.cache r.0 ≡ none
    → class_string_name c r.0
      ≡ ok (some (c_string_of r.1), record c { cache = (r.0, c_string_of r.1) ∷ c.cache })
unfolding class_string_name get_string_name
class_string_name-class c r whole h fresh =
    rw
      (
        whole,
        take-length c.pool,
        inside c.pool r.0 h.entry,
        fresh,
        load_name-class c.pool r.0 h.text_index r.1 h.entry h.has_text,
        sym whole,
      )
      refl

read_interfaces-write :
    (is : List ℕ) (s : Stream) → read_interfaces (length is) (write_indices is s) ≡ ok (is, s)
unfolding read_interfaces
read_interfaces-write [] s = refl
read_interfaces-write (i ∷ is) s = rw (load_word-word i _, read_interfaces-write is s) refl

counted-fields :
    (fs : List FieldDecl) (s : Stream) (c : LoadedClass)
    → AreFields c.pool fs
    → c.loaded_fields ≡ []
    → counted read_fields (word (length fs) (write_fields fs s)) c
      ≡ ok (true, s, record c { loaded_fields = map describe_field fs })
unfolding counted
counted-fields [] s c v e = rw (load_word-word 0 s, sym e) refl
counted-fields (f ∷ fs) s c v e =
    let n = length (f ∷ fs) in
    let present : (n == 0) ≡ false = ground arith in
    rw (load_word-word n (write_fields (f ∷ fs) s), present) (read_fields-write (f ∷ fs) s c v)

counted-methods :
    (ms : List MethodDecl) (s : Stream) (c : LoadedClass)
    → AreMethods c.pool ms
    → c.loaded_methods ≡ []
    → counted read_methods (word (length ms) (write_methods ms s)) c
      ≡ ok (true, s, record c { loaded_methods = map loaded_method ms })
unfolding counted
counted-methods [] s c v e = rw (load_word-word 0 s, sym e) refl
counted-methods (m ∷ ms) s c v e =
    let n = length (m ∷ ms) in
    let present : (n == 0) ≡ false = ground arith in
    rw (load_word-word n (write_methods (m ∷ ms) s), present) (read_methods-write (m ∷ ms) s c v)

counted-others :
    (more : List OtherAttribute) (s : Stream) (c : LoadedClass)
    → AreOthers c.pool more
    → counted class_attributes (word (length more) (write_others more s)) c ≡ ok (true, s, c)
unfolding counted class_attributes
counted-others [] s c v = rw (load_word-word 0 s) refl
counted-others (a ∷ more) s c v =
    let n = length (a ∷ more) in
    let present : (n == 0) ≡ false = ground arith in
    rw
      (
        load_word-word n (write_others (a ∷ more) s),
        present,
        generic-others 1 (a ∷ more) s class_host c v (omega arith),
      )
      refl

-- The members, from a class that has none so far
members-write :
    (d : ClassDecl) (s : Stream) (c : LoadedClass)
    → IsClass c.pool d
    → c.loaded_fields ≡ []
    → c.loaded_methods ≡ []
    → read_members_of (write_members d s) c
      ≡ ok (
          loaded (record c {
            loaded_fields = map describe_field d.fields;
            loaded_methods = map loaded_method d.methods;
          }))
unfolding read_members_of or_format_error
members-write d s c h no_fields no_methods =
    rw
      (
        counted-fields d.fields _ c h.are_fields no_fields,
        counted-methods d.methods _ (record c { loaded_fields = map describe_field d.fields })
            h.are_methods no_methods,
        counted-others d.attributes s
            (record c {
              loaded_fields = map describe_field d.fields;
              loaded_methods = map loaded_method d.methods;
            })
            h.others,
      )
      refl

fresh_name :
    (cache : Cache) (this : Reference) (i : ℕ)
    → cache ≡ (this.0, c_string_of this.1) ∷ []
    → this.0 ≢ i
    → from_dictionary cache i ≡ none
unfolding from_dictionary
fresh_name cache this i e other =
    let differs : (this.0 == i) ≡ false = ground (arith, other) in rw (e, differs) refl

-- What is read behind the name of the class
super-write :
    (d : ClassDecl) (super : Option Reference) (s : Stream) (c : LoadedClass)
    → IsClass c.pool d
    → HasSuper c.pool d.this_class super
    → c.cp_entry_count ≡ length c.pool
    → c.cache ≡ (d.this_class.0, c_string_of d.this_class.1) ∷ []
    → c.loaded_fields ≡ []
    → c.loaded_methods ≡ []
    → (super_name c (super_index super)
        >>= super_case
            (word (length d.interfaces) (write_indices d.interfaces (write_members d s)))
            (super_index super))
      ≡ ok (
          loaded (record c {
            cache = names_kept d.this_class super;
            super_class_name = super_text super;
            interfaces_cp_index = d.interfaces;
            loaded_fields = map describe_field d.fields;
            loaded_methods = map loaded_method d.methods;
          }))
unfolding super_name super_case
super-write d none s c h g whole kept no_fields no_methods =
    rw
      (
        load_word-word (length d.interfaces) _,
        read_interfaces-write d.interfaces _,
        members-write d s (record c { super_class_name = none; interfaces_cp_index = d.interfaces })
            h no_fields no_methods,
        sym kept,
      )
      refl
super-write d (some r) s c h g whole kept no_fields no_methods =
    let present : (r.0 == 0) ≡ false = ground (arith, g.1) in
    let fresh = fresh_name c.cache d.this_class r.0 kept g.2 in
    rw
      (
        present,
        class_string_name-class c r whole g.0 fresh,
        load_word-word (length d.interfaces) _,
        read_interfaces-write d.interfaces _,
        members-write d s
            (record c {
              cache = (r.0, c_string_of r.1) ∷ c.cache;
              super_class_name = some (c_string_of r.1);
              interfaces_cp_index = d.interfaces;
            })
            h no_fields no_methods,
        sym kept,
      )
      refl

load_body-write :
    (pool : List Entry) (d : ClassDecl) (s : Stream)
    → IsClass pool d
    → load_body (write_class d s) (new_class (full pool) (length pool))
      ≡ ok (loaded (described_class pool d))
unfolding load_body new_class from_dictionary
load_body-write pool d s h =
    let named : LoadedClass = record (new_class (full pool) (length pool)) {
      class_flags = bit_or (bit_or 0 d.flags) acc_super;
    } in
    rw
      (
        load_word-word d.flags _,
        load_word-word d.this_class.0 _,
        class_string_name-class named d.this_class refl h.has_this refl,
        load_word-word (super_index d.super_class) _,
      )
      (super-write d d.super_class s
        (record named {
          cache = (d.this_class.0, c_string_of d.this_class.1) ∷ [];
          class_name = some (c_string_of d.this_class.1);
        })
        h h.has_super refl refl refl refl)

save_cp_count-write :
    (minor major : Bytes2) (cs : List Constant) (s : Stream)
    → save_cp_count (write_head minor major (write_pool cs s)) ≡ ok (suc (total_slots cs))
unfolding save_cp_count advance
save_cp_count-write minor major cs s = rw (load_word-word (suc (total_slots cs)) _) refl

-- A whole class file as the format writes it is loaded, with any version and a constant pool of fewer
-- than 65535 slots, under these conditions: the names and descriptors stand in the pool as ASCII texts
-- of at most 256 characters; the attributes of the class and its fields are unknown to the loader,
-- those of a method are at most a code, which comes first, and unknown ones, and those of a code are
-- a line number table, which comes first and is always there, and unknown ones; the three places of
-- each exception range are bytes of the code that may be opcodes, its end included, and the range
-- holds for every exception. The class then has its flags with ACC_SUPER, its name and that of its
-- super class, and its interfaces, fields and methods with their types and codes in their order; a
-- field with an attribute is static. Of a class name in a descriptor, which has at most 509 bytes, the
-- text is kept that JVM_SPRING_CREATE is called with.
pub load_class-write :
    (minor major : Bytes2) (cs : List Constant) (d : ClassDecl) (s : Stream)
    → AreValidConstants cs
    → suc (total_slots cs) < 2 ^ 16
    → IsClass (dummy ∷ all_entries cs) d
    → load_class (write_head minor major (write_pool cs (write_class d s)))
      ≡ ok (loaded (described_class (dummy ∷ all_entries cs) d))
unfolding load_class body_case
load_class-write minor major cs d s v few h =
    let pool : List Entry = dummy ∷ all_entries cs in
    let count : suc (total_slots cs) ≡ length pool = omega (arith, length-all_entries cs) in
    rw
      (
        load_head-write minor major cs (write_class d s) v few,
        save_cp_count-write minor major cs (write_class d s),
        count,
      )
      (load_body-write pool d s h)
