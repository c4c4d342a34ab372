-- ===== src/ClassFile/Tables.antt =====
-- The handlers of the attributes that hold no others: JvmHdlAttrDefault, Deprecated, Synthetic,
-- SourceFile, InnerClasses, Exceptions and LineNumberTable of jvmloadr.c. Each starts behind the index
-- of the attribute's name.
use jdepends.Common.{
  ℕ, zero, suc, ◌+◌, ◌%◌, ◌^◌, Bool, true, false, Option, none, some, List, [], ◌∷◌, ◌++◌, ltb,
  ◌==◌, if◌then◌else◌, bit_or,
}
use jdepends.Common.Run.{Run, ok, fault, ◌>>=◌}
use jdepends.ConstPool.Defs.{Stream, load_word, load_doubleword}
use jdepends.Utf8.Defs.{Decoded, get_utf8_bytes}
use jdepends.Names.Defs.{entry_at, tag_class}
use jdepends.ClassFile.Defs.{
  LineNumber, ByteCodeInfo, LoadedMethod, NestedClass, LoadedClass, Host, code_host, method_host,
  field_host, class_host, Handled, advance, flag_synthetic, flag_deprecated,
}

-- JvmHdlAttrDefault: the attribute is passed over; the sum has 32 bits.
unfoldable pub handle_default : Stream → Host → LoadedClass → Run Handled
handle_default s h c = do
  (len, _) ← load_doubleword s
  rest ← advance ((len + 4) % 2 ^ 32) s
  ok (true, rest, h, c)

-- `... |= flag`, where the host has flags
unfoldable pub flagged : ℕ → Host → LoadedClass → Option (Host × LoadedClass)
flagged flag (code_host m) c = none
flagged flag (method_host m) c =
    some (method_host (record m { method_access_flags = bit_or m.method_access_flags flag }), c)
flagged flag (field_host f) c =
    some (field_host (record f { field_access_flags = bit_or f.field_access_flags flag }), c)
flagged flag class_host c = some (class_host, record c { class_flags = bit_or c.class_flags flag })

-- The test of the length, which stays unread where it is not 0
unfoldable pub mark_case : Stream → Host → LoadedClass → Option (Host × LoadedClass) → Run Handled
mark_case s h c none = ok (false, s, h, c)
mark_case s h c (some (h', c')) = do
  (len, rest) ← load_doubleword s
  ok (if len == 0 then (true, rest, h', c') else (false, s, h', c'))

-- JvmHdlAttrDeprecated
unfoldable pub handle_deprecated : Stream → Host → LoadedClass → Run Handled
handle_deprecated s h c = mark_case s h c (flagged flag_deprecated h c)

-- JvmHdlAttrSynthetic
unfoldable pub handle_synthetic : Stream → Host → LoadedClass → Run Handled
handle_synthetic s h c = mark_case s h c (flagged flag_synthetic h c)

-- The file name that JvmHdlAttrSourceFile stores
unfoldable pub source_case : Stream → LoadedClass → Option Decoded → Handled
source_case s c none = (false, s, class_host, c)
source_case s c (some name) = (true, s, class_host, record c { source_file_name = some name })

unfoldable pub read_source_file : Stream → LoadedClass → Option Decoded → Run Handled
read_source_file s c (some name) = ok (false, s, class_host, c)
read_source_file s c none = do
  (_, s') ← load_doubleword s
  (index, rest) ← load_word s'
  let decoded = (do
    e ← entry_at c.pool index
    name ← get_utf8_bytes e
    ok (source_case rest c name))
  if ltb index c.cp_entry_count then decoded else ok (false, rest, class_host, c)

-- JvmHdlAttrSourceFile
unfoldable pub handle_source_file : Stream → Host → LoadedClass → Run Handled
handle_source_file s class_host c = read_source_file s c c.source_file_name
handle_source_file s h c = ok (false, s, h, c)

-- The loop of JvmHdlAttrInnerClasses, which fills its table from the end
unfoldable pub read_nested : ℕ → Stream → List NestedClass → Run (List NestedClass × Stream)
read_nested zero s found = ok (found, s)
read_nested (suc left) s found = do
  (inner, s1) ← load_word s
  (outer, s2) ← load_word s1
  (name, s3) ← load_word s2
  (flags, s4) ← load_word s3
  read_nested left s4 (
      record {
        inner_class_info_index = inner;
        outer_class_info_index = outer;
        inner_name_index = name;
        inner_class_access_flags = flags;
      }
      ∷ found)

-- JvmHdlAttrInnerClasses
unfoldable pub handle_inner_classes : Stream → Host → LoadedClass → Run Handled
handle_inner_classes s class_host c = do
  (_, s1) ← load_doubleword s
  (count, s2) ← load_word s1
  (table, s3) ← read_nested count s2 []
  ok (true, s3, class_host, if count == 0 then c else record c { inner_classes = table })
handle_inner_classes s h c = ok (false, s, h, c)

-- IsCPElementType, with its assertion
unfoldable pub is_cp_element_type : ℕ → LoadedClass → ℕ → Run Bool
is_cp_element_type tag c index =
    let test = entry_at c.pool index >>= λ e. ok (e.tag == tag) in
    if ltb index c.cp_entry_count then test else fault

-- The loop of JvmHdlAttrExceptions; `none` where an index is not that of a class.
unfoldable pub read_exceptions : ℕ → Stream → LoadedClass → List ℕ → Run (Option (List ℕ) × Stream)
read_exceptions zero s c found = ok (some found, s)
read_exceptions (suc left) s c found = do
  (index, s') ← load_word s
  is_class ← is_cp_element_type tag_class c index
  let rest = read_exceptions left s' c (found ++ index ∷ [])
  if is_class then rest else ok (none, s')

-- A table that is freed stays behind as `exc_table`, which nothing reads then.
unfoldable pub exceptions_case : Stream → LoadedMethod → LoadedClass → Option (List ℕ) → Handled
exceptions_case s m c none = (false, s, method_host m, c)
exceptions_case s m c (some table) = (true, s, method_host (record m { exc_table = table }), c)

unfoldable pub exceptions_of : Stream → LoadedMethod → LoadedClass → Run Handled
exceptions_of s m c = do
  (_, s1) ← load_doubleword s
  (count, s2) ← load_word s1
  let table = (do
    (table, s3) ← read_exceptions count s2 c []
    ok (exceptions_case s3 (record m { exc_table_count = count }) c table))
  if count == 0
      then ok (true, s2, method_host (record m { exc_table_count = 0xffff }), c)
      else table

-- JvmHdlAttrExceptions: for a class the assertion on pjmMethod fails.
unfoldable pub handle_exceptions : Stream → Host → LoadedClass → Run Handled
handle_exceptions s (method_host m) c =
    let table = exceptions_of s m c in
    if m.exc_table_count == 0 then table else ok (false, s, method_host m, c)
handle_exceptions s (code_host m) c = ok (false, s, code_host m, c)
handle_exceptions s (field_host f) c = ok (false, s, field_host f, c)
handle_exceptions s class_host c = fault

-- The loop of JvmHdlAttrLineNumberTable
unfoldable pub read_lines : ℕ → Stream → Run (List LineNumber × Stream)
read_lines zero s = ok ([], s)
read_lines (suc left) s = do
  (start, s1) ← load_word s
  (line, s2) ← load_word s1
  (rest, s3) ← read_lines left s2
  ok (record { line_start_pc = start; line_number = line } ∷ rest, s3)

unfoldable pub lines_of : Stream → LoadedMethod → LoadedClass → Option ByteCodeInfo → Run Handled
lines_of s m c none = fault
lines_of s m c (some info) = do
  (_, s1) ← load_doubleword s
  (count, s2) ← load_word s1
  (table, s3) ← read_lines count s2
  ok (
    true,
    s3,
    code_host (record m { code_info = some (record info { line_num_table = table }) }),
    c,
  )

-- The assertion on pjciCodeInfo, before the test of the host
unfoldable pub asserted : LoadedMethod → Handled → Run Handled
asserted m outcome = elim m.code_info [ none ↦ fault | some info ↦ ok outcome ]

-- JvmHdlAttrLineNumberTable: a field or a class has no pjciCodeInfo that could be read.
unfoldable pub handle_line_number_table : Stream → Host → LoadedClass → Run Handled
handle_line_number_table s (code_host m) c = lines_of s m c m.code_info
handle_line_number_table s (method_host m) c = asserted m (false, s, method_host m, c)
handle_line_number_table s (field_host f) c = fault
handle_line_number_table s class_host c = fault
