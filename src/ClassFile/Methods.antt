-- ===== src/ClassFile/Methods.antt =====
-- Reading the methods of a class file (JvmLdrReadMethods of jvmloadr.c) as the format writes them.
use jdepends.Common.{
  suc, ◌≡◌, refl, ◌∙◌, true, false, Option, none, some, List, [], ◌∷◌, ◌++◌, append_assoc,
  append-nil, map, length, ◌==◌, arith,
}
use jdepends.Common.Run.{ok}
use jdepends.ConstPool.Defs.{Stream, Entry}
use jdepends.Descriptor.Method.{
  AreValid, IsValidReturn, describe_method, print_method, parse_method-print,
}
use jdepends.Names.Resolve.{HasText, c_string_of}
use jdepends.ClassFile.Defs.{ByteCodeInfo, LoadedMethod, LoadedClass, method_host}
use jdepends.ClassFile.Attributes.{code_attr}
use jdepends.ClassFile.Code.{call_handler, next_attribute, generic_attrib_handler}
use jdepends.ClassFile.Readers.{
  read_method, method_of, method_attributes, method_done, read_members, next_member, methods_case,
  read_methods,
}
use jdepends.ClassFile.Format.{
  OtherAttribute, write_others, AreOthers, CodeDecl, write_code, MethodDecl, write_attributes,
  write_method, write_methods,
}
use jdepends.ClassFile.Skip.{load_word-word, attribute_rounds-Selects, attribute_rounds-others}
use jdepends.ClassFile.Fields.{
  read_name-text, read_descriptor-text, spring_bytes-text, generic-others,
}
use jdepends.ClassFile.Codes.{IsCode, describe_code, handle_code-write}

abbrev pub IsBody : List Entry → Option CodeDecl → Type 0
IsBody pool none = Unit {0}
IsBody pool (some k) = IsCode pool k

-- The texts of a method stand in the pool; its attributes are at most a code and some that are
-- unknown to the loader.
pub record IsMethod (pool : List Entry) (m : MethodDecl) : Type 0 where
  pub has_name : HasText pool m.method_name_index m.method_name_text
  pub has_desc : HasText pool m.method_desc_index (print_method m.parameters m.result)
  pub valid : AreValid m.parameters
  pub valid_result : IsValidReturn m.result
  pub is_body : IsBody pool m.body
  pub others : AreOthers pool m.method_attributes

abbrev pub AreMethods : List Entry → List MethodDecl → Type 0
AreMethods pool [] = Unit {0}
AreMethods pool (m ∷ ms) = IsMethod pool m × AreMethods pool ms

abbrev pub described_body : Option CodeDecl → Option ByteCodeInfo
described_body none = none
described_body (some k) = some (describe_code k)

abbrev pub loaded_method : MethodDecl → LoadedMethod
loaded_method m = record {
  method_access_flags = m.method_flags;
  method_cp_index = m.method_name_index;
  method_name = some (c_string_of m.method_name_text);
  method_desc = some (c_string_of (print_method m.parameters m.result));
  method_info = describe_method m.parameters m.result;
  code_info = described_body m.body;
  exc_table_count = 0;
  exc_table = [];
}

code_first :
    (k : CodeDecl) (more : List OtherAttribute) (s : Stream) (m : LoadedMethod) (c : LoadedClass)
    → IsCode c.pool k
    → AreOthers c.pool more
    → generic_attrib_handler 2
        (suc (length more))
        (write_code k (write_others more s))
        (method_host m)
        c
      ≡ ok (true, s, method_host (record m { code_info = some (describe_code k) }), c)
unfolding generic_attrib_handler call_handler next_attribute
code_first k more s m c b v =
    let n = suc (length more) in
    let present : (n == 0) ≡ false = ground arith in
    rw present (
      attribute_rounds-Selects (generic_attrib_handler 1) (length more) k.code_name_index _
        (method_host m) c code_attr b.named_code
      ∙ rw (handle_code-write 0 k (write_others more s) m c b)
          (attribute_rounds-others (generic_attrib_handler 1) more s _ c v))

method_attributes-write :
    (body : Option CodeDecl) (more : List OtherAttribute) (s : Stream) (m : LoadedMethod)
    (c : LoadedClass)
    → IsBody c.pool body
    → AreOthers c.pool more
    → m.code_info ≡ none
    → method_attributes (write_attributes body more s) m c
      ≡ ok (some (record m { code_info = described_body body }), s, c)
unfolding method_attributes method_done
method_attributes-write none [] s m c b v e = rw (load_word-word 0 s, e) refl
method_attributes-write none (a ∷ more) s m c b v e =
    let n = length (a ∷ more) in
    let present : (n == 0) ≡ false = ground arith in
    rw
      (
        load_word-word n (write_others (a ∷ more) s),
        present,
        generic-others 1 (a ∷ more) s (method_host m) c v (omega arith),
        e,
      )
      refl
method_attributes-write (some k) more s m c b v e =
    let n = suc (length more) in
    let present : (n == 0) ≡ false = ground arith in
    rw (load_word-word n _, present, code_first k more s m c b v) refl

read_method-write :
    (m : MethodDecl) (s : Stream) (c : LoadedClass)
    → IsMethod c.pool m
    → read_method (write_method m s) c ≡ ok (some (loaded_method m), s, c)
unfolding read_method method_of
read_method-write m s c h =
    let text = print_method m.parameters m.result in
    rw
      (
        load_word-word m.method_flags _,
        load_word-word m.method_name_index _,
        read_name-text c m.method_name_index m.method_name_text h.has_name,
        load_word-word m.method_desc_index _,
        read_descriptor-text c m.method_desc_index text h.has_desc,
        spring_bytes-text text,
        parse_method-print m.parameters m.result (0 ∷ 0 ∷ 0 ∷ []) h.valid h.valid_result,
      )
      (method_attributes-write m.body m.method_attributes s _ c h.is_body h.others refl)

read_members-methods :
    (ms : List MethodDecl) (s : Stream) (c : LoadedClass) (found : List LoadedMethod)
    → AreMethods c.pool ms
    → read_members read_method (length ms) (write_methods ms s) c found
      ≡ ok (some (found ++ map loaded_method ms), s, c)
unfolding read_members next_member
read_members-methods [] s c found v = rw append-nil refl
read_members-methods (m ∷ ms) s c found v =
    rw
      (
        read_method-write m (write_methods ms s) c v.0,
        read_members-methods ms s c (found ++ (loaded_method m ∷ [])) v.1,
        append_assoc found (loaded_method m ∷ []) (map loaded_method ms),
      )
      refl

-- The methods of a class file as the format writes them are read in their order: each with its
-- flags, its name, its parsed descriptor, and, where it has one, its code with the exception table
-- and the line numbers. The stream is left behind them. The attributes are those that the loader
-- does not know and, for a method, at most one code; the ranges of a code hold for every exception.
pub read_methods-write :
    (ms : List MethodDecl) (s : Stream) (c : LoadedClass)
    → AreMethods c.pool ms
    → read_methods (length ms) (write_methods ms s) c
      ≡ ok (true, s, record c { loaded_methods = map loaded_method ms })
unfolding read_methods methods_case
read_methods-write ms s c v = rw (read_members-methods ms s c [] v) refl
