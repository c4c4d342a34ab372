-- ===== src/ClassFile/Codes.antt =====
-- Reading codes (JvmHdlAttrCode of jvmloadr.c) as the format writes them.
use jdepends.Common.{
  ℕ, suc, ◌+◌, ◌*◌, ◌^◌, ◌<◌, ◌≡◌, refl, ◌∙◌, true, false, some, List, [], ◌∷◌, ◌++◌, append_assoc,
  append-nil, length, ◌==◌, arith,
}
use jdepends.Common.Run.{ok}
use jdepends.ConstPool.Defs.{Stream, Entry}
use jdepends.ConstPool.RoundTrip.{copy_bytes-append}
use jdepends.ClassFile.Defs.{
  ExceptionRange, LineNumber, ByteCodeInfo, LoadedMethod, LoadedClass, code_host, method_host,
}
use jdepends.ClassFile.Attributes.{code_attr, line_number_table_attr}
use jdepends.ClassFile.Tables.{read_lines, lines_of, handle_line_number_table}
use jdepends.ClassFile.Code.{
  is_code_place, catch_name, with_place, read_ranges, code_done, code_attributes, code_of,
  handle_code, call_handler, next_attribute, generic_attrib_handler,
}
use jdepends.ClassFile.Format.{
  word, dword, write_others, Selects, AreOthers, write_ranges, write_lines, CodeDecl,
  write_line_table, code_length,
}
use jdepends.ClassFile.Skip.{
  load_word-word, load_doubleword-dword, attribute_rounds-Selects, attribute_rounds-others,
}

-- The three places of a range lie in the code, at bytes that may be opcodes, and it holds for every
-- exception.
pub record IsRange (code : List ℕ) (r : ExceptionRange) : Type 0 where
  pub start : is_code_place code r.start_pc ≡ true
  pub end : is_code_place code r.end_pc ≡ true
  pub handler : is_code_place code r.handler_pc ≡ true
  pub any : r.catch_type ≡ 0

abbrev pub AreRanges : List ℕ → List ExceptionRange → Type 0
AreRanges code [] = Unit {0}
AreRanges code (r ∷ rs) = IsRange code r × AreRanges code rs

pub record IsCode (pool : List Entry) (k : CodeDecl) : Type 0 where
  pub named_code : Selects pool k.code_name_index code_attr
  pub named_lines : Selects pool k.lines_name_index line_number_table_attr
  pub in_code : AreRanges k.instructions k.ranges
  pub unknown : AreOthers pool k.code_attributes
  pub few : suc (length k.code_attributes) < 2 ^ 16

abbrev pub describe_code : CodeDecl → ByteCodeInfo
describe_code k = record {
  max_stack = k.stack;
  max_locals = k.locals;
  code = k.instructions;
  exception_table = k.ranges;
  line_num_table = k.lines;
  local_var_table = [];
  local_vars_width = 0;
}

read_ranges-write :
    (code : List ℕ) (rs : List ExceptionRange) (s : Stream) (c : LoadedClass)
    (found : List ExceptionRange)
    → AreRanges code rs
    → read_ranges (length rs) code (write_ranges rs s) c found ≡ ok (some (found ++ rs), s, c)
unfolding read_ranges with_place catch_name
read_ranges-write code [] s c found v = rw append-nil refl
read_ranges-write code (r ∷ rs) s c found v =
    let kept : ExceptionRange = record r { catch_type = 0 } in
    rw
      (
        load_word-word r.start_pc _,
        v.0.start,
        load_word-word r.end_pc _,
        v.0.end,
        load_word-word r.handler_pc _,
        v.0.handler,
        load_word-word r.catch_type _,
        v.0.any,
      )
      (read_ranges-write code rs s c (found ++ (kept ∷ [])) v.1
        ∙ rw (append_assoc found (kept ∷ []) rs) refl)

read_lines-write :
    (ls : List LineNumber) (s : Stream) → read_lines (length ls) (write_lines ls s) ≡ ok (ls, s)
unfolding read_lines
read_lines-write [] s = refl
read_lines-write (l ∷ ls) s =
    rw (load_word-word l.line_start_pc _, load_word-word l.line_number _, read_lines-write ls s)
      refl

line_table-write :
    (k : CodeDecl) (s : Stream) (m : LoadedMethod) (c : LoadedClass) (info : ByteCodeInfo)
    → m.code_info ≡ some info
    → handle_line_number_table
        (dword (2 + 4 * length k.lines) (word (length k.lines) (write_lines k.lines s)))
        (code_host m)
        c
      ≡ ok (
        true,
        s,
        code_host (record m { code_info = some (record info { line_num_table = k.lines }) }),
        c,
      )
unfolding handle_line_number_table lines_of
line_table-write k s m c info e =
    rw
      (
        e,
        load_doubleword-dword (2 + 4 * length k.lines) _,
        load_word-word (length k.lines) _,
        read_lines-write k.lines s,
      )
      refl

-- The attributes of a code: its LineNumberTable and those that the loader does not know
code_generic-write :
    (depth : ℕ) (k : CodeDecl) (s : Stream) (m : LoadedMethod) (c : LoadedClass)
    (info : ByteCodeInfo)
    → IsCode c.pool k
    → m.code_info ≡ some info
    → generic_attrib_handler
        (suc depth)
        (suc (length k.code_attributes))
        (write_line_table k (write_others k.code_attributes s))
        (code_host m)
        c
      ≡ ok (
        true,
        s,
        code_host (record m { code_info = some (record info { line_num_table = k.lines }) }),
        c,
      )
unfolding generic_attrib_handler call_handler next_attribute
code_generic-write depth k s m c info h e =
    let n = suc (length k.code_attributes) in
    let present : (n == 0) ≡ false = ground arith in
    rw present (
      attribute_rounds-Selects (generic_attrib_handler depth) (length k.code_attributes)
        k.lines_name_index _ (code_host m) c line_number_table_attr h.named_lines
      ∙ rw (line_table-write k (write_others k.code_attributes s) m c info e) (
          attribute_rounds-others (generic_attrib_handler depth) k.code_attributes s _ c h.unknown))

pub handle_code-write :
    (depth : ℕ) (k : CodeDecl) (s : Stream) (m : LoadedMethod) (c : LoadedClass)
    → IsCode c.pool k
    → handle_code
        (generic_attrib_handler (suc depth))
        (dword (code_length k) (
          word k.stack (
            word k.locals (
              dword (length k.instructions) (
                k.instructions
                ++ word (length k.ranges) (
                    write_ranges k.ranges (
                      word
                        (suc (length k.code_attributes))
                        (write_line_table k (write_others k.code_attributes s)))))))))
        (method_host m)
        c
      ≡ ok (true, s, method_host (record m { code_info = some (describe_code k) }), c)
unfolding handle_code code_of code_attributes code_done
handle_code-write depth k s m c h =
    let n = suc (length k.code_attributes) in
    let present : (n == 0) ≡ false = ground arith in
    let info : ByteCodeInfo = record (describe_code k) { line_num_table = [] } in
    rw
      (
        load_doubleword-dword (code_length k) _,
        load_word-word k.stack _,
        load_word-word k.locals _,
        load_doubleword-dword (length k.instructions) _,
        copy_bytes-append k.instructions _,
        load_word-word (length k.ranges) _,
        read_ranges-write k.instructions k.ranges _ c [] h.in_code,
        load_word-word n _,
        present,
        code_generic-write depth k s (record m { code_info = some info }) c info h refl,
      )
      refl
