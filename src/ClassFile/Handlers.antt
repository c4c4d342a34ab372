-- ===== src/ClassFile/Handlers.antt =====
-- The handlers of attributes of jvmloadr.c and the exception tables of the codes.
use jdepends.Common.{
  ℕ, ◌+◌, ◌%◌, ◌^◌, Option-cases, Option, none, some, List, [], ltb, ◌==◌, inl, inr,
}
use jdepends.Common.Run.{Ensures, then-Ensures, if-Ensures, if-holds}
use jdepends.ConstPool.Defs.{Stream, load_word, load_doubleword}
use jdepends.Utf8.Defs.{Decoded, get_utf8_bytes}
use jdepends.Names.Defs.{entry_at}
use jdepends.ClassFile.Defs.{
  ByteCodeInfo, LoadedMethod, LoadedClass, Host, code_host, method_host, field_host, class_host,
  Handled, advance,
}
use jdepends.ClassFile.Tables.{
  handle_default, flagged, mark_case, source_case, read_source_file, handle_source_file,
  read_nested, handle_inner_classes, read_exceptions, exceptions_case, exceptions_of,
  handle_exceptions, read_lines, lines_of, asserted, handle_line_number_table,
}
use jdepends.ClassFile.Variables.{
  read_variables, Variables, variables_case, variables_of, handle_local_var_table,
}
use jdepends.ClassFile.Constants.{constant_value, constant_of, handle_constant_value}
use jdepends.ClassFile.Sound.{SoundCode, SoundHost, SoundHandled}

pub handle_default-Ensures :
    (s : Stream) (h : Host) (c : LoadedClass)
    → SoundHost h
    → Ensures SoundHandled (handle_default s h c)
unfolding handle_default
handle_default-Ensures s h c v =
    then-Ensures SoundHandled (load_doubleword s) _
      (λ p. then-Ensures SoundHandled (advance ((p.0 + 4) % 2 ^ 32) s) _ (λ rest. v))

pub marked-Ensures :
    (flag : ℕ) (s : Stream) (h : Host) (c : LoadedClass)
    → SoundHost h
    → Ensures SoundHandled (mark_case s h c (flagged flag h c))
unfolding mark_case flagged
marked-Ensures flag s (code_host m) c v = v
marked-Ensures flag s (method_host m) c v =
    then-Ensures SoundHandled (load_doubleword s) _ (λ p. if-holds SoundHandled (p.0 == 0) _ _ v v)
marked-Ensures flag s (field_host f) c v =
    then-Ensures SoundHandled (load_doubleword s) _
      (λ p. if-holds SoundHandled (p.0 == 0) _ _ tt tt)
marked-Ensures flag s class_host c v =
    then-Ensures SoundHandled (load_doubleword s) _
      (λ p. if-holds SoundHandled (p.0 == 0) _ _ tt tt)

source-Ensures :
    (s : Stream) (c : LoadedClass) (before : Option Decoded)
    → Ensures SoundHandled (read_source_file s c before)
unfolding read_source_file source_case
source-Ensures s c (some name) = tt
source-Ensures s c none = then-Ensures SoundHandled (load_doubleword s) _ (λ p.
    then-Ensures SoundHandled (load_word p.1) _ (λ q.
      if-Ensures SoundHandled (ltb q.0 c.cp_entry_count) _ _
        (then-Ensures SoundHandled (entry_at c.pool q.0) _
          (λ e. then-Ensures SoundHandled (get_utf8_bytes e) _ (λ name. named q.1 name)))
        tt))
  where
    named : (rest : Stream) (name : Option Decoded) → SoundHandled (source_case rest c name)
    named rest none = tt
    named rest (some n) = tt

pub handle_source_file-Ensures :
    (s : Stream) (h : Host) (c : LoadedClass)
    → SoundHost h
    → Ensures SoundHandled (handle_source_file s h c)
unfolding handle_source_file
handle_source_file-Ensures s class_host c v = source-Ensures s c c.source_file_name
handle_source_file-Ensures s (code_host m) c v = v
handle_source_file-Ensures s (method_host m) c v = v
handle_source_file-Ensures s (field_host f) c v = v

pub handle_inner_classes-Ensures :
    (s : Stream) (h : Host) (c : LoadedClass)
    → SoundHost h
    → Ensures SoundHandled (handle_inner_classes s h c)
unfolding handle_inner_classes
handle_inner_classes-Ensures s class_host c v =
    then-Ensures SoundHandled (load_doubleword s) _ (λ p.
      then-Ensures SoundHandled (load_word p.1) _
        (λ q. then-Ensures SoundHandled (read_nested q.0 q.1 []) _ (λ r. tt)))
handle_inner_classes-Ensures s (code_host m) c v = v
handle_inner_classes-Ensures s (method_host m) c v = v
handle_inner_classes-Ensures s (field_host f) c v = v

pub handle_exceptions-Ensures :
    (s : Stream) (h : Host) (c : LoadedClass)
    → SoundHost h
    → Ensures SoundHandled (handle_exceptions s h c)
unfolding handle_exceptions exceptions_of exceptions_case
handle_exceptions-Ensures s class_host c v = tt
handle_exceptions-Ensures s (code_host m) c v = v
handle_exceptions-Ensures s (field_host f) c v = v
handle_exceptions-Ensures s (method_host m) c v =
    if-Ensures SoundHandled (m.exc_table_count == 0) _ _
      (then-Ensures SoundHandled (load_doubleword s) _ (λ p.
        then-Ensures SoundHandled (load_word p.1) _ (λ q.
          if-Ensures SoundHandled (q.0 == 0) _ _ v
            (then-Ensures SoundHandled (read_exceptions q.0 q.1 c []) _ (λ r. kept q.0 r.1 r.0)))))
      v
  where
    kept :
        (count : ℕ) (rest : Stream) (table : Option (List ℕ))
        → SoundHandled (exceptions_case rest (record m { exc_table_count = count }) c table)
    kept count rest none = v
    kept count rest (some t) = v

asserted-Ensures :
    (m : LoadedMethod) (r : Handled) → SoundHandled r → Ensures SoundHandled (asserted m r)
unfolding asserted
asserted-Ensures m r v = elim (Option-cases m.code_info) [
  | inl e ↦ rw (e, asserted) tt
  | inr (info, e) ↦ rw (e, asserted) v
]

lines-Ensures :
    (s : Stream) (m : LoadedMethod) (c : LoadedClass) (code : Option ByteCodeInfo)
    → SoundCode code
    → Ensures SoundHandled (lines_of s m c code)
unfolding lines_of
lines-Ensures s m c none v = tt
lines-Ensures s m c (some info) v = then-Ensures SoundHandled (load_doubleword s) _ (λ p.
    then-Ensures SoundHandled (load_word p.1) _
      (λ q. then-Ensures SoundHandled (read_lines q.0 q.1) _ (λ r. v)))

pub handle_line_number_table-Ensures :
    (s : Stream) (h : Host) (c : LoadedClass)
    → SoundHost h
    → Ensures SoundHandled (handle_line_number_table s h c)
unfolding handle_line_number_table
handle_line_number_table-Ensures s class_host c v = tt
handle_line_number_table-Ensures s (field_host f) c v = tt
handle_line_number_table-Ensures s (method_host m) c v = asserted-Ensures m _ v
handle_line_number_table-Ensures s (code_host m) c v = lines-Ensures s m c m.code_info v

variables-Ensures :
    (s : Stream) (m : LoadedMethod) (c : LoadedClass) (code : Option ByteCodeInfo)
    → SoundCode code
    → Ensures SoundHandled (variables_of s m c code)
unfolding variables_of variables_case
variables-Ensures s m c none v = tt
variables-Ensures s m c (some info) v = then-Ensures SoundHandled (load_doubleword s) _ (λ p.
    then-Ensures SoundHandled (load_word p.1) _ (λ q.
      if-Ensures SoundHandled (q.0 == 0) _ _ v
        (then-Ensures SoundHandled (read_variables q.0 c q.1 []) _ (λ r. kept r))))
  where
    kept : (r : Variables) → SoundHandled (variables_case m c info r)
    kept (none, rest) = tt
    kept (some table, rest) = v

pub handle_local_var_table-Ensures :
    (s : Stream) (h : Host) (c : LoadedClass)
    → SoundHost h
    → Ensures SoundHandled (handle_local_var_table s h c)
unfolding handle_local_var_table
handle_local_var_table-Ensures s class_host c v = tt
handle_local_var_table-Ensures s (field_host f) c v = tt
handle_local_var_table-Ensures s (method_host m) c v = asserted-Ensures m _ v
handle_local_var_table-Ensures s (code_host m) c v = variables-Ensures s m c m.code_info v

pub handle_constant_value-Ensures :
    (s : Stream) (h : Host) (c : LoadedClass)
    → SoundHost h
    → Ensures SoundHandled (handle_constant_value s h c)
unfolding handle_constant_value constant_of
handle_constant_value-Ensures s class_host c v = tt
handle_constant_value-Ensures s (code_host m) c v = v
handle_constant_value-Ensures s (method_host m) c v = v
handle_constant_value-Ensures s (field_host f) c v =
    if-Ensures SoundHandled f.field_type.is_array _ _ tt (
      then-Ensures SoundHandled (load_doubleword s) _ (λ p.
        if-Ensures SoundHandled (p.0 == 2) _ _
          (then-Ensures SoundHandled (load_word p.1) _ (λ q.
            then-Ensures SoundHandled (constant_value f c q.0) _
              (λ r. if-holds SoundHandled r.0 _ _ tt tt)))
          tt))
