-- ===== src/Lib.antt =====
-- Fizzy is a WebAssembly interpreter in C++ (lib/fizzy). `parse` reads a binary into a `Module` and
-- validates it; `parse_expr` validates each function and writes its bytecode; `instantiate` makes an
-- instance of a module; `execute` runs a function of an instance. The modules of this library are named
-- for the files of lib/fizzy:
--
-- Common        numbers, lists and results shared by all parts; the errors of exceptions.hpp.
-- Leb128        leb128.hpp: leb128u_decode and leb128s_decode, for any width in bits. Leb128.Encode
--               has the encoder of test/utils/leb128_encode.cpp.
-- Utf8          utf8.cpp: utf8_validate.
-- Types, Module types.hpp and module.hpp: the entries of a module, the module and its accessors.
-- Parser        parser.hpp and parser.cpp. Parser.Basic has bytes, words, vectors and strings,
--               Parser.Entries the entries of each section, Parser.Sections the loop over the sections,
--               Parser.Validate the validation checks in their order, Parser.Code the function bodies
--               and the whole of parse.
-- Instr, Instructions
--               the opcodes of types.hpp and the tables of instructions.cpp.
-- Parser.Expr   parser_expr.cpp: Parser.Expr.Stacks has the control frames and the operand types,
--               Parser.Expr.State the local variables of parse_expr, Parser.Expr.Blocks and
--               Parser.Expr.Handlers the cases of its switch, Parser.Expr its loop.
--
-- Stack         stack.hpp: OperandStack, with its storage and the indices of its two pointers.
--               Stack.Refines and Stack.Meaning have the lists that it stands for. The template Stack
--               is in Parser.Expr.Stacks.
-- Instance      instantiate.hpp: instances and what they share.
-- Execute       execute.cpp: Execute.Integers, Execute.Floats and Execute.Memory have its operations on
--               values and on the memory, Execute.Operators the templates that apply them to the stack,
--               Execute.Numeric the cases of the switch that use the stack alone, Execute.Control and
--               Execute.Globals the other cases, Execute.State the local variables of `execute`, branch
--               and invoke_function, Execute the loop and `execute` itself. Execute.Depth compares two
--               sets of host functions, Execute.Alignment the accesses with the table of
--               instructions.cpp.
-- Instantiate   instantiate.cpp: Instantiate.Matching has the comparison of the imports,
--               Instantiate.Allocate the globals, the table, the memory and the segments,
--               Instantiate.Exports the search of imports and exports by name. Instantiate.Segments and
--               Instantiate.Elements say what the segments leave in the memory and the table.
--
-- A pointer pair `pos`, `end` is the list of the bytes between the two, and a returned position is the
-- list of the bytes from it on; two positions in one input are compared by their distances to its end.
-- An exception is a `Result` with the class of the exception and its message as a constructor. A
-- vector, a string and a byte buffer are lists, an unsigned integer is a number below the power of its
-- width, a signed one is its bit pattern. Native byte order is little-endian. An `assert` that fails
-- is an error of its own, assertion_failed, and so is a pop from an empty stack or a write outside of
-- the code. The heights of stacks and the offsets into the code, int and size_t in the source, are
-- numbers without a bound, and so is the count of locals in find_local_type.
--
-- Loops recur on the list of bytes or items where each round takes one. Three loops have fuel, the
-- length of the input: the loop of utf8_validate, the loop over the sections, and, with one more, the
-- loop of parse_expr; each round takes a byte or more. Leb128.Encode runs ten rounds, which a 64-bit
-- value never exceeds.
--
-- A value on the stack is a number below 2 ^ 64; reading it at a type of 32 bits takes its lower half,
-- and writing such a type writes zeros above it, which the union Value leaves open. A floating-point
-- number is its bit pattern. Comparisons, minimum and maximum, signs, truncation, ceiling and floor
-- and the conversion to integers are defined on patterns; what rounds (sum, difference, product,
-- quotient, square root, remainder, the conversions from integers and between the two formats) is a
-- parameter, as it depends on the rounding mode and on the NaN of the processor. Host functions,
-- whether there is storage for a memory or a table, the counts of bits that the compiler provides, and
-- the contents of storage before it is written are parameters too: the record Platform of
-- Execute.State.
--
-- Objects that the source shares by pointers stand in a Store: instances, memories, tables and the
-- values of imported globals. A pointer is an index there, a null pointer none. A step of the
-- interpreter gives a new machine, or a trap with the store as it is then, or a failure, where an
-- assert of the source fails or an access leaves the objects of the program. `execute` has fuel, which
-- bounds the depth of the calls and the rounds of each loop, since code may run for ever.
--
-- Not modelled: the shared_ptr in a table element that keeps an instance alive after a trap of its
-- start function, and the deleters of tables and memories, which only concern the lifetime of objects;
-- and the C API (capi.cpp), the tools, bindings and tests, which call the library.
pub mod Common
pub mod Instr
pub mod Instructions
pub mod Leb128
pub mod Utf8
pub mod Types
pub mod Module
pub mod Stack
pub mod Parser
pub mod Instance
pub mod Execute
pub mod Instantiate
