-- ===== src/Lib.antt =====
-- JDepends: the core of a class file analyser and Java virtual machine, written in C.
--
-- The program reads Java class files, shows what they depend on, and can interpret them. Its class
-- loader (jvmloadr.c) turns the bytes of a class file into a constant pool, fields and methods. It
-- hands each descriptor to the parser of Jvmparse.c, and finds the calls in a method's code by a
-- walk over the instructions, which goes by the table of bytecode.h. A hash table, a binary tree,
-- a linked list and a byte stream are shared by all parts.
--
-- Descriptor: Jvmparse.c. Descriptor/Defs.antt has one function per C function:
--   parse_method (JvmParseMethodDescriptor), parse_parameters (JvmParseParameterDescriptor),
--   parse_return (JvmParseReturnDescriptor), parse_field (JvmParseFieldDescriptor), is_base_type,
--   is_object_type and is_array_type (IsJvm...Type), cleanup_fields (JvmParseCleanupFields) and
--   params_width (JvmStoreParametersSize). The two parsers' tails are functions of their own
--   (base_case, object_case, parse_array; parameters_case, close_parameters, return_case). The
--   records FieldInfo and MethodInfo are those of Jvmrt.h; for the spring jsObjectName they hold the
--   text that JVM_SPRING_CREATE is called with (object_text), since the table of springs, which may
--   answer with an older spring in another spelling, is not modelled. Grammar.antt writes
--   descriptors as the class file format defines them; RoundTrip, Method, Termination and Faults are
--   about the parser.
-- Bytecode: bytecode.h, and skip_calc and LdrGetCallOffsets of jvmloadr.c, in Bytecode/Defs.antt.
--   Layout.antt says what a well-formed code array is, by the specification of the Java virtual
--   machine; Walk, Ends and Deviations are about the walk.
-- ConstPool: JvmLdrLoadNewClass of jvmloadr.c from the magic number to the end of the pool, with
--   JvmLdrCheckMagic, JvmLdrCheckVersion, JvmAddDummyCPEntry, JvmAddNewCPType and the functions
--   JvmCPTypeConst..., in ConstPool/Defs.antt; the loads of words are those of osapi.c. Format.antt
--   writes a pool as the format defines it.
-- Utf8: JvmLdrGetUtf8Bytes of jvmloadr.c, in Utf8/Defs.antt, on the entries of ConstPool. Its three
--   branches are functions of their own. Loop.antt follows the buffer.
-- Names: JvmLdrGetStringName, JvmResolveMethodRef and JvmDGetReferredClasses of jvmloadr.c, in
--   Names/Defs.antt, on the pool of ConstPool and the decoder of Utf8; the dictionary pdNCPDict is
--   a list (Cache).
-- HashTable: Hashtabl.c, in HashTable/Defs.antt: create, add, get, remove and destroy are the
--   hash_table_... functions; Keying holds what is_dict decides. stricmp of the C library is a
--   parameter, of which the laws use that it is an equivalence (Chain.IsKeying).
-- BinTree: bintree.c, in BinTree/Defs.antt: add_node, search_node, delete_node and the traversals
--   are those of the code; a freed node that stays linked is `dangling`. Reference.antt says what a
--   search tree is, and what adding and looking up are to do.
-- Stream: stream.c, in Stream/Defs.antt: open_stream, write, read, flush and get_buffer are the
--   stream_... functions, on a buffer whose cells may not have been written to yet.
-- Interpreter: the bytecode handlers of Jvmrt.c that work on the frame of the running method. The
--   frame and its execution environment are one record (Machine.Frame); a handler is a function of
--   its name, without JvmRtByteCode_ and __Handler, from a frame to a Step: a frame, an exception
--   that left the handler, or an access outside an array. Stack.antt, Arithmetic.antt, Locals.antt,
--   Branches.antt and Arrays.antt hold the handlers, Numbers.antt the machine integers and Memory.antt
--   numbers in the bytes of an array, low byte first. Arrays are those of primitive types in one
--   dimension, on a heap that numbers them; a handler reads and writes their bytes in elements of its
--   own size. Of a floating-point constant only its conversion to a word is modelled. The program
--   that shows dependencies is built without this file's handlers (__JDEPENDS__); the interpreter is
--   built with them.
-- Locks: JvmAcquireLock, JvmReleaseLock, JvmWait and JvmNotifyAll of Jvmrt.c, in Locks/Defs.antt, as
--   acquire_lock, release_lock, wait and notify_all on a Monitor, which holds the lock, the entry set
--   and the wait set of an object. Every call runs under one mutex, so a sequence of calls stands for
--   what the threads do (Reachable.Reach).
-- Classes: the searches in loaded classes of jvmloadr.c and Jvmrt.c, in Classes/Defs.antt: a class is
--   a record, known by its place in a list, and its super class may be missing in two ways: no object,
--   or an object without a class. Springs.antt says when two springs count as the same,
--   Ancestors.antt follows the super classes, Fields.antt compares the searches for a field.
-- StackMap: JvmCreateStackMap of Jvmrt.c and the part of JvmRtSetUpStackFrame that calls it, in
--   StackMap/Defs.antt, on the fields of Descriptor. Allocation does not fail.
--   Parsed.antt starts from the parser of descriptors.
-- ClassFile: the rest of JvmLdrLoadNewClass of jvmloadr.c, from the constant pool to the end of the
--   class file. Defs.antt has the structures of Jvmrt.h; Tables.antt, Variables.antt, Constants.antt
--   and Code.antt the handlers of attributes, each handle_... for JvmHdlAttr..., on a Host, which is
--   the object that an attribute belongs to; Attributes.antt the table of handlers; Readers.antt
--   JvmLdrReadFields and JvmLdrReadMethods (read_fields, read_methods); Loader.antt the class
--   (load_class). Format.antt and Written.antt say what a class file is, by its format.
-- LinkList: linklist.c. LinkList/Defs.antt adds, finds and deletes (add_data, find_data, delete_data
--   for link_list_...), Cursor.antt walks and moves nodes. A node is an address on a heap that has a
--   map for each field. A search takes a round for each node, and a walk one call more, which the
--   bounds allow. Lists of doubles or of variants over four bytes and rundown functions are left out.
--   Circle.antt says what a well-formed list is.
-- Pool: pool.c without threads, on LinkList: create_pool, get_entry (pool_get_data), return_data and
--   destroy_data in Pool/Defs.antt. What the callback pfn_create_data returns is an argument.
-- Common: tests, lists on native numbers, and Run, the outcome of a call: a result, a fault (a read
--   outside an object, or a failed assert), or a bound of the model used up.
--
-- Loops and recursions that are not structural run on fuel: the length of the input and one more,
-- since each round or level takes a byte. A stream of a parser is the list of the bytes that are
-- left. The 16-bit dimension count and pool size wrap around; other counters can not reach 2^32 on
-- an input that lies in memory, and are plain numbers.
--
-- Not modelled: of the loader the linking of a class to its ancestors, the tables of the class
-- loaders and the listing of a call graph; the loader that ClassFile models and the classes that
-- Classes searches are not joined; of the interpreter the handlers of floating-point numbers, which
-- convert values as the compiler does, and those of fields, calls, new objects and arrays of
-- references, which stand on loaded classes; JvmNotify, which picks a priority at random behind an
-- assertion that fails; exceptions, the table of springs, strings and native methods; memory that
-- runs out, which the C code asserts; what the code logs; the MFC user interface; and the copy of
-- Info-ZIP's UnZip.
pub mod Common
pub mod BinTree
pub mod Bytecode
pub mod ClassFile
pub mod Classes
pub mod ConstPool
pub mod Descriptor
pub mod HashTable
pub mod Interpreter
pub mod LinkList
pub mod Locks
pub mod Names
pub mod Pool
pub mod StackMap
pub mod Stream
pub mod Utf8
