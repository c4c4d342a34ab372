-- ===== src/ClassFile/Loader.antt =====
-- JvmLdrLoadNewClass from the magic number to the end of the class file. What follows there, the
-- loading of other classes and the objects of the class, is left out.
use jdepends.Common.{
  ℕ, zero, suc, true, Option, none, some, List, [], ◌∷◌, ◌==◌, if◌then◌else◌, bit_or,
}
use jdepends.Common.Run.{Run, ok, ◌>>=◌}
use jdepends.ConstPool.Defs.{
  Stream, Pool, load_word, Loaded, loaded, class_format_error, version_not_supported, load_head,
}
use jdepends.Utf8.Defs.{Decoded}
use jdepends.ClassFile.Defs.{LoadedClass, class_host, class_string_name, advance}
use jdepends.ClassFile.Code.{generic_attrib_handler, attribute_depth}
use jdepends.ClassFile.Readers.{Result, read_fields, read_methods}

abbrev pub acc_super : ℕ
acc_super = 0x0020

-- JvmGetNewClass, with its pool and jwSaveCPCount
unfoldable pub new_class : Pool → ℕ → LoadedClass
new_class p count = record {
  pool = p.entries;
  cp_entry_count = count;
  cache = [];
  class_flags = 0;
  class_name = none;
  super_class_name = none;
  interfaces_cp_index = [];
  loaded_fields = [];
  loaded_methods = [];
  source_file_name = none;
  inner_classes = [];
}

-- jwSaveCPCount, which stands behind the magic number and the version
unfoldable pub save_cp_count : Stream → Run ℕ
save_cp_count s = do s' ← advance 8 s; (count, _) ← load_word s'; ok count

-- The loop over the interfaces
unfoldable pub read_interfaces : ℕ → Stream → Run (List ℕ × Stream)
read_interfaces zero s = ok ([], s)
read_interfaces (suc left) s = do
  (index, s') ← load_word s
  (rest, s'') ← read_interfaces left s'
  ok (index ∷ rest, s'')

-- A count, and what it is a count of where it is not 0
unfoldable pub counted : (ℕ → Stream → LoadedClass → Run Result) → Stream → LoadedClass → Run Result
counted read s c = do
  (count, s') ← load_word s
  let members = read count s' c
  if count == 0 then ok (true, s', c) else members

unfoldable pub class_attributes : ℕ → Stream → LoadedClass → Run Result
class_attributes count s c = do
  (good, s', _, c') ← generic_attrib_handler attribute_depth count s class_host c
  ok (good, s', c')

-- A step of JvmLdrLoadNewClass: JvmFreeTheClass and EXC_JAVACLASSFORMATERROR where it fails
unfoldable pub or_format_error :
    (Stream → LoadedClass → Run (Loaded LoadedClass)) → Result → Run (Loaded LoadedClass)
or_format_error next (good, s, c) =
    let rest = next s c in if good then rest else ok class_format_error

unfoldable pub read_members_of : Stream → LoadedClass → Run (Loaded LoadedClass)
read_members_of s c =
    counted read_fields s c
    >>= or_format_error (λ s1 c1.
      counted read_methods s1 c1
      >>= or_format_error
          (λ s2 c2. counted class_attributes s2 c2 >>= or_format_error (λ s3 c3. ok (loaded c3))))

unfoldable pub super_case : Stream → ℕ → Option Decoded × LoadedClass → Run (Loaded LoadedClass)
super_case s index (name, c) = do
  (count, s1) ← load_word s
  (interfaces, s2) ← read_interfaces count s1
  let rest =
      read_members_of s2 (record c { super_class_name = name; interfaces_cp_index = interfaces })
  elim name [ none ↦ if index == 0 then rest else ok class_format_error | some n ↦ rest ]

-- The name of the super class, where there is one
unfoldable pub super_name : LoadedClass → ℕ → Run (Option Decoded × LoadedClass)
super_name c index =
    let named = class_string_name c index in if index == 0 then ok (none, c) else named

-- JvmLdrLoadNewClass behind the constant pool
unfoldable pub load_body : Stream → LoadedClass → Run (Loaded LoadedClass)
load_body s c = do
  (flags, s1) ← load_word s
  (this_index, s2) ← load_word s1
  (name, c1) ←
      class_string_name (record c { class_flags = bit_or (bit_or c.class_flags flags) acc_super })
        this_index
  (super_index, s3) ← load_word s2
  named ← super_name (record c1 { class_name = name }) super_index
  super_case s3 super_index named

unfoldable pub body_case : Stream → Loaded (Pool × Stream) → Run (Loaded LoadedClass)
body_case file class_format_error = ok class_format_error
body_case file version_not_supported = ok version_not_supported
body_case file (loaded (p, s)) = do count ← save_cp_count file; load_body s (new_class p count)

unfoldable pub load_class : Stream → Run (Loaded LoadedClass)
load_class s = load_head s >>= body_case s
