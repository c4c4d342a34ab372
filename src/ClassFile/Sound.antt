-- ===== src/ClassFile/Sound.antt =====
-- The exception tables that JvmHdlAttrCode of jvmloadr.c reads.
use jdepends.Common.{
  ℕ, zero, suc, ◌≤◌, ◌≡◌, true, false, Bool-cases, Option-cases, Option, none, some, List, [], ◌∷◌,
  ◌++◌, get_elem?, leb, ◌==◌, inl, inr, arith,
}
use jdepends.Common.Run.{Run, Ensures, >>=-Ensures, then-Ensures, if-Ensures}
use jdepends.ConstPool.Defs.{Stream, load_word, load_doubleword, copy_bytes}
use jdepends.ClassFile.Defs.{
  ExceptionRange, ByteCodeInfo, LoadedMethod, LoadedClass, Host, code_host, method_host, field_host,
  class_host, Handled,
}
use jdepends.ClassFile.Code.{
  is_jvm_opcode, is_code_place, catch_name, Ranges, with_place, read_ranges, abnormal_exit,
  code_done, Generic, code_attributes, code_of, handle_code,
}

-- A place in a code: below its length, at a byte that is the opcode of an instruction
pub record Place (code : List ℕ) (pc : ℕ) : Type 0 where
  pub byte : ℕ
  pub at : get_elem? code pc ≡ some byte
  pub opcode : byte ≤ 201

abbrev pub InCode : List ℕ → List ExceptionRange → Type 0
InCode code [] = Unit {0}
InCode code (r ∷ rs) =
    (Place code r.start_pc × Place code r.end_pc × Place code r.handler_pc) × InCode code rs

abbrev pub SoundCode : Option ByteCodeInfo → Type 0
SoundCode none = Unit {0}
SoundCode (some info) = InCode info.code info.exception_table

abbrev pub SoundHost : Host → Type 0
SoundHost (code_host m) = SoundCode m.code_info
SoundHost (method_host m) = SoundCode m.code_info
SoundHost (field_host f) = Unit {0}
SoundHost class_host = Unit {0}

abbrev pub SoundHandled : Handled → Type 0
SoundHandled r = SoundHost r.2

-- A handler of attributes keeps what it is given sound.
abbrev pub KeepsSound : Generic → Type 0
KeepsSound generic =
    (count : ℕ) (s : Stream) (h : Host) (c : LoadedClass)
    → SoundHost h
    → Ensures SoundHandled (generic count s h c)

is_code_place-Place : (code : List ℕ) (pc : ℕ) → is_code_place code pc ≡ true → Place code pc
unfolding is_code_place is_jvm_opcode
is_code_place-Place code pc e = elim (Option-cases (get_elem? code pc)) [
  | inl f ↦ let no : false ≡ true = rw (f, is_code_place) at e in absurd (cc)
  | inr (b, f) ↦
      let low : leb b 201 ≡ true = rw (f, is_code_place) at e in
      record { byte = b; at = f; opcode = ground arith }
]

InCode-append :
    (code : List ℕ) (rs : List ExceptionRange) (r : ExceptionRange)
    → InCode code rs
    → Place code r.start_pc × Place code r.end_pc × Place code r.handler_pc
    → InCode code (rs ++ r ∷ [])
InCode-append code [] r h p = (p, tt)
InCode-append code (x ∷ rs) r h p = (h.0, InCode-append code rs r h.1 p)

abbrev SoundRanges : List ℕ → Ranges → Type 0
SoundRanges code (none, _, _) = Unit {0}
SoundRanges code (some table, _, _) = InCode code table

with_place-Ensures :
    (code : List ℕ) (s : Stream) (c : LoadedClass) (next : ℕ → Stream → Run Ranges)
    → ((pc : ℕ) (s' : Stream) → Place code pc → Ensures (SoundRanges code) (next pc s'))
    → Ensures (SoundRanges code) (with_place code s c next)
unfolding with_place
with_place-Ensures code s c next k = then-Ensures (SoundRanges code) (load_word s) _ (λ p.
    elim (Bool-cases (is_code_place code p.0)) [
      | inl e ↦ rw e (k p.0 p.1 (is_code_place-Place code p.0 e))
      | inr e ↦ rw e tt
    ])

read_ranges-Ensures :
    (left : ℕ) (code : List ℕ) (s : Stream) (c : LoadedClass) (found : List ExceptionRange)
    → InCode code found
    → Ensures (SoundRanges code) (read_ranges left code s c found)
unfolding read_ranges
read_ranges-Ensures zero code s c found h = h
read_ranges-Ensures (suc left) code s c found h = with_place-Ensures code s c _ (λ start s1 p.
    with_place-Ensures code s1 c _ (λ end s2 q. with_place-Ensures code s2 c _ (λ handler s3 r.
      then-Ensures (SoundRanges code) (load_word s3) _ (λ w.
        then-Ensures (SoundRanges code) (catch_name c w.0) _ (λ c'.
          read_ranges-Ensures left code w.1 c' _ (InCode-append code found _ h (p, q, r)))))))

abnormal_exit-Ensures :
    (s : Stream) (m : LoadedMethod) (c : LoadedClass) → Ensures SoundHandled (abnormal_exit s m c)
unfolding abnormal_exit
abnormal_exit-Ensures s m c = elim (Option-cases m.code_info) [
  | inl e ↦ rw (e, abnormal_exit) tt
  | inr (info, e) ↦ rw (e, abnormal_exit) tt
]

code_done-Ensures : (r : Handled) → SoundHandled r → Ensures SoundHandled (code_done r)
unfolding code_done
code_done-Ensures (good, s, code_host m, c) h =
    if-Ensures SoundHandled good _ _ h (abnormal_exit-Ensures s m c)
code_done-Ensures (good, s, method_host m, c) h = tt
code_done-Ensures (good, s, field_host f, c) h = tt
code_done-Ensures (good, s, class_host, c) h = tt

code_attributes-Ensures :
    (generic : Generic) (m : LoadedMethod) (info : ByteCodeInfo) (r : Ranges)
    → KeepsSound generic
    → SoundRanges info.code r
    → Ensures SoundHandled (code_attributes generic m info r)
unfolding code_attributes
code_attributes-Ensures generic m info (none, s, c) keeps h =
    abnormal_exit-Ensures s (record m { code_info = some info }) c
code_attributes-Ensures generic m info (some table, s, c) keeps h =
    then-Ensures SoundHandled (load_word s) _ (λ w.
      if-Ensures SoundHandled (w.0 == 0) _ _ h
        (>>=-Ensures SoundHandled SoundHandled _ code_done (keeps w.0 w.1 _ c h) code_done-Ensures))

pub handle_code-Ensures :
    (generic : Generic) (s : Stream) (h : Host) (c : LoadedClass)
    → KeepsSound generic
    → SoundHost h
    → Ensures SoundHandled (handle_code generic s h c)
unfolding handle_code code_of
handle_code-Ensures generic s (code_host m) c keeps h = h
handle_code-Ensures generic s (field_host f) c keeps h = tt
handle_code-Ensures generic s class_host c keeps h = tt
handle_code-Ensures generic s (method_host m) c keeps h =
    then-Ensures SoundHandled (load_doubleword s) _ (λ a.
      then-Ensures SoundHandled (load_word a.1) _ (λ b.
        then-Ensures SoundHandled (load_word b.1) _ (λ d.
          then-Ensures SoundHandled (load_doubleword d.1) _ (λ e.
            then-Ensures SoundHandled (copy_bytes e.0 e.1) _ (λ f.
              then-Ensures SoundHandled (load_word f.1) _ (λ g.
                >>=-Ensures (SoundRanges f.0) SoundHandled (read_ranges g.0 f.0 g.1 c []) _
                  (read_ranges-Ensures g.0 f.0 g.1 c [] tt)
                  (λ r p. code_attributes-Ensures generic m _ r keeps p)))))))
