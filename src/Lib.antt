-- ===== src/Lib.antt =====
-- litetvm-ffi: the map container, the table of object types, the reference counts, and the text codecs of
-- the library: JSON, Base64 and the names of data types.
--
-- The JSON code is a parser (src/ffi/extra/json_parser.cpp) and a writer (src/ffi/extra/json_writer.cpp)
-- over `json::Value`, which is `Any`. The writer escapes strings by `EscapeString` of
-- include/ffi/string.h. The Base64 code (include/ffi/extra/base64.h) stands alone; the serialization of
-- object graphs stores byte arrays by it. The names of data types (src/ffi/dtype.cpp, include/ffi/dtype.h)
-- are printed and read by a pair of functions behind the C interface.
--
-- The map (include/ffi/container/map.h) has two layouts behind one interface, `MapObj`: an array of at
-- most four entries, and a hash table whose slots are linked twice, by the jumps in their metadata from
-- the home slot of a hash on, and by the iterator list in the order of insertion. A JSON object is such a
-- map.
--
-- The type table (src/ffi/object.cpp) gives each class of objects its index, from the slots that its
-- parent reserved or behind the end of the table, and keeps what the reflection registers of it.
-- IsObjectInstance (include/ffi/object.h) decides by an index whether an object is of a class or of one
-- below it.
--
-- Files and the code that they are about:
--   Prelude           shared names, the tests on numbers, lists of bytes, integers and bit operations
--   Base64            Base64Encode (base64_encode) and Base64Decode (base64_decode); Base64/RoundTrip
--                     and Base64/Bounds have the proofs
--   Json/Value        json::Value, json::Array, json::Object; the records of what the code takes from
--                     elsewhere
--   Json/Context      JSONParserContext: Peek, SkipSpaces, MatchLiteral, GetSyntaxErrorContext,
--                     the SetError methods (set_error with a text), FinalizeErrorMsg
--   Json/Strings      NextString, NextStringWithFullHandling, Parse4Hex
--   Json/Object       the constructor of json::Object from a range, by MapObj::CreateFromRange;
--                     Json/Object/Small has objects of at most three entries
--   Json/Number       NextNumber; Json/Decimal has the decimal text of integers, which "%" PRId64 and
--                     std::to_string print and strtoimax reads
--   Json/Parser       JSONParser: Parse, ParseTail, ParseValue, ParseArray, ParseObject
--   Json/Writer       JSONWriter; Json/Writer/Text has the text that it is to write
--   Json/Escape       EscapeString
--   Dtype             DLDataTypeToString_, StringViewToDLDataType_ and ParseCustomDataTypeCode;
--                     Dtype/Scan, Dtype/RoundTrip, Dtype/BoolCode and Dtype/Custom have the proofs
--   RefCount          the counts of Object (include/ffi/object.h): IncRef, DecRef, IncWeakRef, DecWeakRef,
--                     TryPromoteWeakPtr, use_count
--   TypeTable         TypeTable::GetOrAllocTypeIndex with the constructor of Entry, TypeKeyToIndex and
--                     GetTypeEntry; TypeTable/Result has how they end, TypeTable/Valid the
--                     well-formed tables, TypeTable/Allocate, Pool, Install, Growth and Invariant
--                     the proofs about them, TypeTable/New and Registered those about a new type
--   TypeTable/Instance
--                     IsObjectInstance; TypeTable/Ancestry and Derives have its proof
--   TypeTable/Members TypeTable::RegisterTypeField, RegisterTypeMethod, RegisterTypeMetadata,
--                     RegisterTypeAttr, GetTypeAttrColumn, and the reading of a column by
--                     TypeAttrColumn (include/ffi/reflection/accessor.h); the proofs are in
--                     TypeTable/Attributes, RegisterAttr and Revise
--   TypeTable/Start   the constructor of TypeTable; TypeTable/Start/Rooted has its proof
--   Map/Assoc         a map as a list of entries: what the layouts are compared with; KeyApi
--   Map/Outcome       how an operation on a map ends
--   Map/Small         SmallMapObj: find, at, count, Erase, CreateFromRange, CopyFrom, InsertMaybeReHash
--   Map/Dense/Links   the iterator list of DenseMapObj: IterListUnlink, IterListPushBack,
--                     IterListReplaceNodeBy, IncItr, DecItr
--   Map/Dense/Probe   NextProbeLocation, FibHash, CalcTableSize
--   Map/Dense/Node    the state of DenseMapObj, and ListNode: MoveToNext, GetNextEmpty, FindPrev
--   Map/Dense/Table   Search, At, TryInsert, TrySpareListHead, Erase; its child modules have the lists of
--                     slots (Chains) and the proofs about search and insertion
--   Map/Dense/Rehash  DenseMapObj::InsertMaybeReHash, CopyFrom
--   Map/Object        MapObj: CreateFromRange, InsertMaybeReHash, CopyFrom, count, at, erase
--   Map/Handle        Map: CopyOnWrite, Set, erase, clear, size, count; Merge
--
-- A slot of the dense map is its index. The blocks of memory are functions of the index: the bytes of
-- the metadata, the key and value or nothing, and the links of the item. ListNode's null block is the
-- option `none`. The handles of a map are addresses in a heap of objects with their reference counts.
-- An insertion reports a full table as TryInsert does, with the state that it leaves. The fuel of a
-- loop along a list of slots is the number of the slots, which is enough since the slots of a list are
-- different; the fuel of InsertMaybeReHash bounds how often the table is doubled, and of the small
-- map's, which calls itself once, two is enough. `IsFull` compares with a product of doubles, which is
-- exact for a number of slots that is a power of two; it is written as a comparison of products of
-- integers.
--
-- A type index is a natural number, and an argument that is negative is `none`. A pointer to an entry
-- of the type table is the place of the entry, which is the index of its type; the pointers to its
-- ancestors are read in the table. The entry of a type is a record that is written back where the code
-- changes it. An int32_t sum of an allocation that does not fit ends as `int_overflow`, and so does a
-- `type_counter_` that leaves the range of the indices; RegisterTypeAttr is modelled for an index from
-- zero on. A failed check ends as `check_failed`, a throw as `runtime_error`, and a read outside of a
-- vector or of null as `bad_access`. The map of type keys, `Map<String, int64_t>`, is its list of
-- entries, and a String that is a key is compared by the parameter KeyApi. A column of attributes has
-- its values and the size that the C interface reads; its pointer `data` is to those values. Where a
-- message needs the key of a type without an entry, TVMFFIGetTypeInfo ends the process, which is
-- `exited`.
--
-- A byte is a native natural number and a text a list of them. A pointer of the parser is the text from
-- it to the end with its distance from the beginning; at the end it reads the NUL that `String` keeps
-- behind its bytes. A method that returns `false` with a message set is the constructor `failed` or
-- `error`, a failed TVM_FFI_ICHECK is `check_failed`, a TVM_FFI_THROW is a constructor of the result.
-- The parser passes its context and its two stacks on from call to call. An object is made by the model
-- of the map, with the texts of its keys as the keys of the map; where CreateFromRange does not return,
-- Parse ends as `no_object`.
--
-- Loops are structural recursion where the source moves over the text by one step at a time. The loop of
-- NextStringWithFullHandling and those of ParseArray and ParseObject run on fuel that is one more than
-- the bytes left, and so does the recursion of ParseValue, which goes one level into the text's
-- brackets each time: every round and every level reads at least one byte. The fuel of an object's map is
-- 64, since a table cannot be doubled more often than its number of slots has bits.
--
-- Taken as parameters: `double` with what the C library computes for it (printf's "%.1f" and "%.17g",
-- strtod, isnan, isinf), as the record Doubles; whether `char` is signed; the codes of dlpack.h, of
-- which it is assumed that they come in that header's order, as the record Dlpack; and the registered
-- functions that name custom types, as the record CustomTypes; AnyEqual and AnyHash on the keys of a
-- map, of which it is assumed that the first tells whether two keys are the same value, as the record
-- KeyApi. strtoimax and strtoul are modelled, for texts in the C locale.
--
-- Not modelled: of the map the release of memory, its iterator class and the conversions between maps
-- of other types; arrays, tuples and shapes; threads that change a reference count at the same time;
-- of the type table Dump, which prints, and the C functions around it; `Any`, functions, errors with
-- their tracebacks, tensors, the templates of the reflection, structural equality and hashing, the
-- serialization of object graphs, modules and libraries. The indentation of
-- the writer is an `int` that does not overflow here, and memory does not run out.
mod Prelude
pub mod Base64
pub mod Json
pub mod Dtype
pub mod Map
pub mod RefCount
pub mod TypeTable
