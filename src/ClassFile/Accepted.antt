-- ===== src/ClassFile/Accepted.antt =====
-- The methods that JvmLdrReadMethods of jvmloadr.c accepts.
use jdepends.Common.{ℕ, zero, suc, ◌≡◌, true, false, Option, none, some, List, [], ◌∷◌, ◌++◌, ◌==◌}
use jdepends.Common.Run.{Run, ok, Ensures, >>=-Ensures, then-Ensures, if-Ensures}
use jdepends.ConstPool.Defs.{Stream, load_word}
use jdepends.Descriptor.Defs.{parse_method}
use jdepends.Utf8.Defs.{Decoded}
use jdepends.ClassFile.Defs.{
  LoadedMethod, LoadedClass, Host, code_host, method_host, field_host, class_host, Handled,
  flag_deprecated, flag_synthetic,
}
use jdepends.ClassFile.Tables.{handle_deprecated, handle_synthetic}
use jdepends.ClassFile.Attributes.{
  Handler, default_attr, code_attr, constant_value_attr, exceptions_attr, line_number_table_attr,
  local_var_table_attr, source_file_attr, inner_classes_attr, synthetic_attr, deprecated_attr,
  get_attrib_handler,
}
use jdepends.ClassFile.Code.{
  Generic, call_handler, attribute_case, next_attribute, attribute_rounds, generic_attrib_handler,
  attribute_depth,
}
use jdepends.ClassFile.Readers.{
  Member, Result, spring_bytes, read_name, read_descriptor, method_done, method_attributes,
  method_of, read_method, next_member, read_members, methods_case, read_methods,
}
use jdepends.ClassFile.Sound.{SoundCode, SoundHost, SoundHandled, KeepsSound, handle_code-Ensures}
use jdepends.ClassFile.Handlers.{
  handle_default-Ensures, marked-Ensures, handle_source_file-Ensures, handle_inner_classes-Ensures,
  handle_exceptions-Ensures, handle_line_number_table-Ensures, handle_local_var_table-Ensures,
  handle_constant_value-Ensures,
}

call_handler-Ensures :
    (generic : Generic) (handler : Handler) (s : Stream) (h : Host) (c : LoadedClass)
    → KeepsSound generic
    → SoundHost h
    → Ensures SoundHandled (call_handler generic handler s h c)
unfolding call_handler handle_deprecated handle_synthetic
call_handler-Ensures generic default_attr s h c k v = handle_default-Ensures s h c v
call_handler-Ensures generic code_attr s h c k v = handle_code-Ensures generic s h c k v
call_handler-Ensures generic constant_value_attr s h c k v = handle_constant_value-Ensures s h c v
call_handler-Ensures generic exceptions_attr s h c k v = handle_exceptions-Ensures s h c v
call_handler-Ensures generic line_number_table_attr s h c k v =
    handle_line_number_table-Ensures s h c v
call_handler-Ensures generic local_var_table_attr s h c k v = handle_local_var_table-Ensures s h c v
call_handler-Ensures generic source_file_attr s h c k v = handle_source_file-Ensures s h c v
call_handler-Ensures generic inner_classes_attr s h c k v = handle_inner_classes-Ensures s h c v
call_handler-Ensures generic synthetic_attr s h c k v = marked-Ensures flag_synthetic s h c v
call_handler-Ensures generic deprecated_attr s h c k v = marked-Ensures flag_deprecated s h c v

attribute_rounds-Ensures :
    (generic : Generic) (left : ℕ) (s : Stream) (h : Host) (c : LoadedClass)
    → KeepsSound generic
    → SoundHost h
    → Ensures SoundHandled (attribute_rounds generic left s h c)
unfolding attribute_rounds attribute_case next_attribute
attribute_rounds-Ensures generic zero s h c k v = v
attribute_rounds-Ensures generic (suc left) s h c k v =
    then-Ensures SoundHandled (load_word s) _ (λ p.
      then-Ensures SoundHandled (get_attrib_handler c p.0) _ (λ handler.
        >>=-Ensures SoundHandled SoundHandled _ _ (called handler s p.1) (λ r w.
          if-Ensures SoundHandled r.0 _ _ (attribute_rounds-Ensures generic left r.1 r.2 r.3 k w)
            w)))
  where
    called :
        (handler : Option Handler) (before rest : Stream)
        → Ensures SoundHandled (attribute_case generic handler before rest h c)
    called none before rest = v
    called (some handler) before rest = call_handler-Ensures generic handler rest h c k v

generic_attrib_handler-KeepsSound : (depth : ℕ) → KeepsSound (generic_attrib_handler depth)
unfolding generic_attrib_handler
generic_attrib_handler-KeepsSound zero count s h c v = tt
generic_attrib_handler-KeepsSound (suc depth) count s h c v =
    attribute_rounds-Ensures (generic_attrib_handler depth) _ s h c
      (generic_attrib_handler-KeepsSound depth) v

abbrev pub AreSound : List LoadedMethod → Type 0
AreSound [] = Unit {0}
AreSound (m ∷ ms) = SoundCode m.code_info × AreSound ms

AreSound-append :
    (ms : List LoadedMethod) (m : LoadedMethod)
    → AreSound ms
    → SoundCode m.code_info
    → AreSound (ms ++ m ∷ [])
AreSound-append [] m h k = (k, tt)
AreSound-append (x ∷ ms) m h k = (h.0, AreSound-append ms m h.1 k)

abbrev SoundMember : Member LoadedMethod → Type 0
SoundMember (none, _, _) = Unit {0}
SoundMember (some m, _, _) = SoundCode m.code_info

abbrev SoundMembers : Option (List LoadedMethod) × Stream × LoadedClass → Type 0
SoundMembers (none, _, _) = Unit {0}
SoundMembers (some ms, _, _) = AreSound ms

method_done-Ensures : (r : Handled) → SoundHandled r → Ensures SoundMember (method_done r)
unfolding method_done
method_done-Ensures (true, s, method_host m, c) h = h
method_done-Ensures (false, s, method_host m, c) h = tt
method_done-Ensures (good, s, code_host m, c) h = tt
method_done-Ensures (good, s, field_host f, c) h = tt
method_done-Ensures (good, s, class_host, c) h = tt

method_attributes-Ensures :
    (s : Stream) (m : LoadedMethod) (c : LoadedClass)
    → SoundCode m.code_info
    → Ensures SoundMember (method_attributes s m c)
unfolding method_attributes
method_attributes-Ensures s m c v = then-Ensures SoundMember (load_word s) _ (λ p.
    if-Ensures SoundMember (p.0 == 0) _ _ v (
      >>=-Ensures SoundHandled SoundMember _ method_done
        (generic_attrib_handler-KeepsSound attribute_depth p.0 p.1 (method_host m) c v)
        method_done-Ensures))

method_of-Ensures :
    (s : Stream) (c : LoadedClass) (flags index : ℕ) (name : Option Decoded)
    (desc : Option (Option Decoded))
    → Ensures SoundMember (method_of s c flags index name desc)
unfolding method_of
method_of-Ensures s c flags index name none = tt
method_of-Ensures s c flags index name (some desc) =
    then-Ensures SoundMember (spring_bytes desc) _ (λ bytes.
      then-Ensures SoundMember (parse_method bytes _) _
        (λ p. if-Ensures SoundMember p.0 _ _ (method_attributes-Ensures s _ c tt) tt))

read_method-Ensures : (s : Stream) (c : LoadedClass) → Ensures SoundMember (read_method s c)
unfolding read_method
read_method-Ensures s c = then-Ensures SoundMember (load_word s) _ (λ p.
    then-Ensures SoundMember (load_word p.1) _ (λ q.
      then-Ensures SoundMember (read_name c q.0) _ (λ name.
        then-Ensures SoundMember (load_word q.1) _ (λ r.
          then-Ensures SoundMember (read_descriptor c r.0) _
            (λ desc. method_of-Ensures r.1 c p.0 q.0 name desc)))))

next_member-Ensures :
    (again : Stream
      → LoadedClass
      → List LoadedMethod
      → Run (Option (List LoadedMethod) × Stream × LoadedClass))
    (found : List LoadedMethod) (r : Member LoadedMethod)
    → ((s : Stream) (c : LoadedClass) (ms : List LoadedMethod)
        → AreSound ms
        → Ensures SoundMembers (again s c ms))
    → AreSound found
    → SoundMember r
    → Ensures SoundMembers (next_member again found r)
unfolding next_member
next_member-Ensures again found (none, s, c) keeps h k = tt
next_member-Ensures again found (some m, s, c) keeps h k =
    keeps s c (found ++ m ∷ []) (AreSound-append found m h k)

read_members-Ensures :
    (left : ℕ) (s : Stream) (c : LoadedClass) (found : List LoadedMethod)
    → AreSound found
    → Ensures SoundMembers (read_members read_method left s c found)
unfolding read_members
read_members-Ensures zero s c found h = h
read_members-Ensures (suc left) s c found h =
    >>=-Ensures SoundMember SoundMembers (read_method s c) _ (read_method-Ensures s c) (λ r k.
      next_member-Ensures (read_members read_method left) found r
        (λ s' c' ms v. read_members-Ensures left s' c' ms v) h k)

abbrev SoundResult : Result → Type 0
SoundResult (true, s, c) = AreSound c.loaded_methods
SoundResult (false, s, c) = Unit {0}

methods_case-Ensures :
    (r : Option (List LoadedMethod) × Stream × LoadedClass)
    → SoundMembers r
    → SoundResult (methods_case r)
unfolding methods_case
methods_case-Ensures (none, s, c) h = tt
methods_case-Ensures (some ms, s, c) h = h

read_methods-Ensures :
    (count : ℕ) (s : Stream) (c : LoadedClass) → Ensures SoundResult (read_methods count s c)
unfolding read_methods
read_methods-Ensures count s c =
    >>=-Ensures SoundMembers SoundResult (read_members read_method count s c []) _
      (read_members-Ensures count s c [] tt) methods_case-Ensures

-- Whatever bytes JvmLdrReadMethods accepts as methods, every range of every exception table that it
-- has read starts, ends and is handled at places below the length of the method's code, at bytes
-- that are opcodes of instructions.
pub read_methods-AreSound :
    (count : ℕ) (s rest : Stream) (c read : LoadedClass)
    → read_methods count s c ≡ ok (true, rest, read)
    → AreSound read.loaded_methods
read_methods-AreSound count s rest c read e = let h = read_methods-Ensures count s c in rw e at h
