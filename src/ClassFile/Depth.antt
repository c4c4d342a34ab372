-- ===== src/ClassFile/Depth.antt =====
-- How deep JvmGenericAttribHandler of jvmloadr.c and the handlers of attributes call one another.
use jdepends.Common.{ℕ, zero, suc, ◌+◌, ◌%◌, ◌^◌, ◌≡◌, refl, Option, none, some, [], ◌==◌}
use jdepends.Common.Run.{Run, Ensures, then-Ensures, if-Ensures, >>=-agree, then-agree}
use jdepends.ConstPool.Defs.{Stream, load_word, load_doubleword, copy_bytes}
use jdepends.ClassFile.Defs.{
  ByteCodeInfo, LoadedMethod, LoadedClass, Host, code_host, method_host, field_host, class_host,
  Handled, advance,
}
use jdepends.ClassFile.Tables.{
  handle_default, mark_case, flagged, handle_deprecated, handle_synthetic, handle_source_file,
  handle_inner_classes, handle_exceptions, read_lines, lines_of, handle_line_number_table,
}
use jdepends.ClassFile.Variables.{
  Variables, read_variables, variables_case, variables_of, handle_local_var_table,
}
use jdepends.ClassFile.Constants.{handle_constant_value}
use jdepends.ClassFile.Attributes.{
  Handler, default_attr, code_attr, constant_value_attr, exceptions_attr, line_number_table_attr,
  local_var_table_attr, source_file_attr, inner_classes_attr, synthetic_attr, deprecated_attr,
  get_attrib_handler,
}
use jdepends.ClassFile.Code.{
  Ranges, read_ranges, Generic, code_attributes, code_of, handle_code, call_handler, attribute_case,
  next_attribute, attribute_rounds, generic_attrib_handler, attribute_depth,
}

abbrev IsCodeHost : Host → Type 0
IsCodeHost (code_host m) = Unit {0}
IsCodeHost (method_host m) = ⊥
IsCodeHost (field_host f) = ⊥
IsCodeHost class_host = ⊥

abbrev IsCodeHandled : Handled → Type 0
IsCodeHandled r = IsCodeHost r.2

lines_of-IsCodeHost :
    (s : Stream) (m : LoadedMethod) (c : LoadedClass) (code : Option ByteCodeInfo)
    → Ensures IsCodeHandled (lines_of s m c code)
unfolding lines_of
lines_of-IsCodeHost s m c none = tt
lines_of-IsCodeHost s m c (some info) = then-Ensures IsCodeHandled (load_doubleword s) _ (λ p.
    then-Ensures IsCodeHandled (load_word p.1) _
      (λ q. then-Ensures IsCodeHandled (read_lines q.0 q.1) _ (λ r. tt)))

variables_case-IsCodeHost :
    (m : LoadedMethod) (c : LoadedClass) (info : ByteCodeInfo) (r : Variables)
    → IsCodeHandled (variables_case m c info r)
unfolding variables_case
variables_case-IsCodeHost m c info (none, s) = tt
variables_case-IsCodeHost m c info (some table, s) = tt

variables_of-IsCodeHost :
    (s : Stream) (m : LoadedMethod) (c : LoadedClass) (code : Option ByteCodeInfo)
    → Ensures IsCodeHandled (variables_of s m c code)
unfolding variables_of
variables_of-IsCodeHost s m c none = tt
variables_of-IsCodeHost s m c (some info) = then-Ensures IsCodeHandled (load_doubleword s) _ (λ p.
    then-Ensures IsCodeHandled (load_word p.1) _ (λ q. if-Ensures IsCodeHandled (q.0 == 0) _ _ tt (
      then-Ensures IsCodeHandled (read_variables q.0 c q.1 []) _
        (λ r. variables_case-IsCodeHost m c info r))))

call_handler-IsCodeHost :
    (generic : Generic) (handler : Handler) (s : Stream) (m : LoadedMethod) (c : LoadedClass)
    → Ensures IsCodeHandled (call_handler generic handler s (code_host m) c)
unfolding call_handler handle_default handle_code handle_constant_value handle_exceptions
    handle_line_number_table handle_local_var_table handle_source_file handle_inner_classes
    handle_synthetic handle_deprecated mark_case flagged
call_handler-IsCodeHost generic default_attr s m c =
    then-Ensures IsCodeHandled (load_doubleword s) _
      (λ p. then-Ensures IsCodeHandled (advance ((p.0 + 4) % 2 ^ 32) s) _ (λ rest. tt))
call_handler-IsCodeHost generic line_number_table_attr s m c = lines_of-IsCodeHost s m c m.code_info
call_handler-IsCodeHost generic local_var_table_attr s m c =
    variables_of-IsCodeHost s m c m.code_info
call_handler-IsCodeHost generic code_attr s m c = tt
call_handler-IsCodeHost generic constant_value_attr s m c = tt
call_handler-IsCodeHost generic exceptions_attr s m c = tt
call_handler-IsCodeHost generic source_file_attr s m c = tt
call_handler-IsCodeHost generic inner_classes_attr s m c = tt
call_handler-IsCodeHost generic synthetic_attr s m c = tt
call_handler-IsCodeHost generic deprecated_attr s m c = tt

-- Two handlers of attributes agree on the attributes of codes.
abbrev AgreeOnCode : Generic → Generic → Type 0
AgreeOnCode g h =
    (count : ℕ) (s : Stream) (m : LoadedMethod) (c : LoadedClass)
    → g count s (code_host m) c ≡ h count s (code_host m) c

-- Among the attributes of a code nothing depends on how attributes of codes are handled.
call_handler-on_code :
    (g h : Generic) (handler : Handler) (s : Stream) (m : LoadedMethod) (c : LoadedClass)
    → call_handler g handler s (code_host m) c ≡ call_handler h handler s (code_host m) c
unfolding call_handler handle_code
call_handler-on_code g h default_attr s m c = refl
call_handler-on_code g h _ s m c = refl

attribute_case-on_code :
    (g h : Generic) (handler : Option Handler) (before s : Stream) (m : LoadedMethod)
    (c : LoadedClass)
    → (attribute_case g handler before s (code_host m) c
        ≡ attribute_case h handler before s (code_host m) c)
      × Ensures IsCodeHandled (attribute_case h handler before s (code_host m) c)
unfolding attribute_case
attribute_case-on_code g h none before s m c = (refl, tt)
attribute_case-on_code g h (some handler) before s m c =
    (call_handler-on_code g h handler s m c, call_handler-IsCodeHost h handler s m c)

next_attribute-on_code :
    (f k : Stream → Host → LoadedClass → Run Handled) (r : Handled)
    → ((s : Stream) (m : LoadedMethod) (c : LoadedClass)
        → f s (code_host m) c ≡ k s (code_host m) c)
    → IsCodeHandled r
    → next_attribute f r ≡ next_attribute k r
unfolding next_attribute
next_attribute-on_code f k (good, s, code_host m, c) same h = rw (same s m c) refl
next_attribute-on_code f k (good, s, method_host m, c) same h = absurd h
next_attribute-on_code f k (good, s, field_host x, c) same h = absurd h
next_attribute-on_code f k (good, s, class_host, c) same h = absurd h

attribute_rounds-on_code :
    (g h : Generic) (left : ℕ) (s : Stream) (m : LoadedMethod) (c : LoadedClass)
    → attribute_rounds g left s (code_host m) c ≡ attribute_rounds h left s (code_host m) c
unfolding attribute_rounds
attribute_rounds-on_code g h zero s m c = refl
attribute_rounds-on_code g h (suc left) s m c = then-agree (load_word s) _ _ (λ p.
    then-agree (get_attrib_handler c p.0) _ _ (λ handler.
      let same = attribute_case-on_code g h handler s p.1 m c in
      rw same.0 (
        >>=-agree IsCodeHandled _ _ _ same.1 (λ r k.
          next_attribute-on_code (attribute_rounds g left) (attribute_rounds h left) r
            (λ s' m' c'. attribute_rounds-on_code g h left s' m' c') k))))

generic-AgreeOnCode :
    (d e : ℕ) → AgreeOnCode (generic_attrib_handler (suc d)) (generic_attrib_handler (suc e))
unfolding generic_attrib_handler
generic-AgreeOnCode d e count s m c =
    attribute_rounds-on_code (generic_attrib_handler d) (generic_attrib_handler e) _ s m c

code_attributes-agree :
    (g h : Generic) (m : LoadedMethod) (info : ByteCodeInfo) (r : Ranges)
    → AgreeOnCode g h
    → code_attributes g m info r ≡ code_attributes h m info r
unfolding code_attributes
code_attributes-agree g h m info (none, s, c) same = refl
code_attributes-agree g h m info (some table, s, c) same =
    then-agree (load_word s) _ _ (λ p. rw (same p.0 p.1 _ c) refl)

handle_code-agree :
    (g h : Generic) (s : Stream) (host : Host) (c : LoadedClass)
    → AgreeOnCode g h
    → handle_code g s host c ≡ handle_code h s host c
unfolding handle_code code_of
handle_code-agree g h s (code_host m) c same = refl
handle_code-agree g h s (field_host f) c same = refl
handle_code-agree g h s class_host c same = refl
handle_code-agree g h s (method_host m) c same = then-agree (load_doubleword s) _ _ (λ p1.
    then-agree (load_word p1.1) _ _ (λ p2. then-agree (load_word p2.1) _ _ (λ p3.
      then-agree (load_doubleword p3.1) _ _ (λ p4. then-agree (copy_bytes p4.0 p4.1) _ _ (λ p5.
        then-agree (load_word p5.1) _ _ (λ p6.
          then-agree (read_ranges p6.0 p5.0 p6.1 c []) _ _
            (λ r. code_attributes-agree g h m _ r same)))))))

call_handler-agree :
    (g h : Generic) (handler : Handler) (s : Stream) (host : Host) (c : LoadedClass)
    → AgreeOnCode g h
    → call_handler g handler s host c ≡ call_handler h handler s host c
unfolding call_handler
call_handler-agree g h code_attr s host c same = handle_code-agree g h s host c same
call_handler-agree g h _ s host c same = refl

attribute_case-agree :
    (g h : Generic) (handler : Option Handler) (before s : Stream) (host : Host) (c : LoadedClass)
    → AgreeOnCode g h
    → attribute_case g handler before s host c ≡ attribute_case h handler before s host c
unfolding attribute_case
attribute_case-agree g h none before s host c same = refl
attribute_case-agree g h (some handler) before s host c same =
    call_handler-agree g h handler s host c same

next_attribute-agree :
    (f k : Stream → Host → LoadedClass → Run Handled) (r : Handled)
    → ((s : Stream) (host : Host) (c : LoadedClass) → f s host c ≡ k s host c)
    → next_attribute f r ≡ next_attribute k r
unfolding next_attribute
next_attribute-agree f k (good, s, host, c) same = rw (same s host c) refl

attribute_rounds-agree :
    (g h : Generic) (left : ℕ) (s : Stream) (host : Host) (c : LoadedClass)
    → AgreeOnCode g h
    → attribute_rounds g left s host c ≡ attribute_rounds h left s host c
unfolding attribute_rounds
attribute_rounds-agree g h zero s host c same = refl
attribute_rounds-agree g h (suc left) s host c same = then-agree (load_word s) _ _ (λ p.
    then-agree (get_attrib_handler c p.0) _ _ (λ handler.
      rw (attribute_case-agree g h handler s p.1 host c same) (
        then-agree _ _ _ (λ (r : Handled).
          next_attribute-agree (attribute_rounds g left) (attribute_rounds h left) r
            (λ s' host' c'. attribute_rounds-agree g h left s' host' c' same)))))

-- The bound on the depth of attributes is enough: whatever the bytes are, a larger one gives the
-- same result.
pub generic_attrib_handler-deep :
    (more count : ℕ) (s : Stream) (host : Host) (c : LoadedClass)
    → generic_attrib_handler (suc (suc more)) count s host c
      ≡ generic_attrib_handler attribute_depth count s host c
unfolding generic_attrib_handler
generic_attrib_handler-deep more count s host c =
    attribute_rounds-agree (generic_attrib_handler (suc more)) (generic_attrib_handler 1) _ s host c
      (generic-AgreeOnCode more 0)
