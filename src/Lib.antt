-- ===== src/Lib.antt =====
-- MemoryPackCpp: the C++ library that reads and writes the wire format of MemoryPack for C#.
--
-- The program. MemoryPackWriter appends the encoding of values to one of three buffers, and
-- MemoryPackReader reads them back off a span of bytes (include/memorypack/core.hpp). The template
-- MemoryPackFormatter<T> says how a type is written and read: core.hpp has it for numbers, strings
-- and for the classes that the macro MEMORYPACK_DEFINE describes, include/memorypack/containers.hpp
-- for containers, std::optional and smart pointers. The functions Serialize, Deserialize and their
-- variants at the end of core.hpp run a formatter on a fresh writer or reader. On top of them
-- include/memorypack/packet.hpp puts a length before each message, and cuts a byte stream back into
-- messages.
--
-- The files.
--   Base: what all modules share: the library's names, Boolean tests (Base/Tests), lists
--     (Base/Lists) and little-endian bytes (Base/Bytes).
--   Outcome: MemoryPackError, and how a call ends in either build of the library.
--   Wire: the encodings, as byte lists, on their own.
--   Endian: byteswap and endian_convert, on hosts of either byte order.
--   Text: utf16_length_from_utf8, append_utf8_codepoint, the transcoder of std::u16string;
--     Text/Units compares the fast path with the byte loop, Text/Transcode: UTF-16 text through
--     UTF-8 and back.
--   Writer: MemoryPackWriter, its buffers, AppendByte, AppendBytes, GrowOwned, TakeBuffer;
--     Writer/Buffers and Writer/Appends (with its Room and Branches): what an append leaves;
--     Writer/Headers: headers and lengths, Writer/Headers/Writes: the bytes they write;
--     Writer/Strings: strings; Writer/Overflows: writes that do not fit the caller's buffer;
--     Writer/Handover: Reserve, GetBuffer and moved writers.
--   Reader: MemoryPackReader, its bounds check EnsureBytes, position, depth, errors; Reader/Safe:
--     what every read keeps on any input; Reader/Yields: what its results satisfy on any input;
--     Reader/Reads: what it is to read one encoding;
--     Reader/Headers and Reader/Strings: the read functions, each with its Safe and Reads;
--     Reader/Strings/Utf16: ReadUtf16String.
--   Format: MemoryPackFormatter<T> as a record of the two functions, with its laws (Lawful) and its
--     safety (IsSafe); Format/Primitives: bool, arithmetic types, enums, std::string;
--     Format/Wide: std::u16string; Format/Collections: WriteCollection, ReadCollection,
--     SequenceFormatter; Format/Vectors: the vectors and arrays that are copied as one block;
--     Format/Objects: MEMORYPACK_DEFINE (with Overflows);
--     Format/Arrays: WriteArray, the arrays that ReadArray fills, std::array (Arrays/Laws: what
--     ReadArray takes and stores, Arrays/Cells: the arrays);
--     Format/Unions: std::variant; Format/Maps: std::pair and maps; Format/Sets: sets;
--     Format/Tuples: std::tuple; Format/Nullable: std::optional and smart pointers;
--     Format/Optionals: std::optional of a collection and of std::u16string, nullable objects;
--     Format/Unmanaged: WriteUnmanaged and the MEMORYPACK_UNMANAGED macros (with Padding), and
--     Unmanaged/Collections. The Laws below them fill the interface. Format/Steady: formatters whose
--     writing always ends, over the appends of Writer/Steady.
--   Dotnet: include/memorypack/dotnet.hpp; Dotnet/Guid (its text in Dotnet/Guid/Text), Dotnet/Times:
--     DateTime, TimeSpan, DateTimeOffset, Dotnet/Chrono: their conversions from and to std::chrono,
--     whose units are a parameter, Dotnet/Half (with RoundTrip), Dotnet/Formatters (with
--     Laws), Dotnet/Vectors: the vectors of System.Numerics.
--   Api: Serialize, SerializeTo, Deserialize, DeserializeExact, TryDeserialize, TrySerializeTo;
--     Api/RoundTrip, Api/Untrusted and Api/Into, on buffers that have room and that have not.
--   Packet: packet.hpp; Packet/Stream: the packets of a byte stream, however it is cut;
--     Packet/Feed: the parser against it; Packet/Written: WritePacket; Packet/Delivered: a parser
--     that is fed written packets.
--   VersionTolerant: VersionTolerantReader and VersionTolerantWriter; VersionTolerant/Truncated:
--     an object that breaks off, Defined: one that opened without a failure, Grown: members that
--     the sender writes longer.
--   Samples/Server: the server of samples/CppServer; Packets: packets.hpp, Sending: SendAll,
--     Connection: class Connection of main.cpp, with what it answers (Answers), what each handler
--     keeps (Calm) and that it is defined on any input (Defined). The server is a client of Packet and Format: the parser's
--     packets go to the handlers, which read and write through formatters.
--   Samples/Chat: the client of samples/ChatClientConsole; Packets: packets.hpp, Words: Trim,
--     StartsWith and find (Words/Trimmed and Words/Laws), Commands: what a typed line asks for,
--     Client: class ChatClient and the loop of main, as steps of its two threads (Client/Calm and
--     Client/Ends: what all steps keep, Client/Sent: what a line sends).
--   Samples/Client: the client of samples/CppClient; Packets: packets.hpp (Packets/Types: the structs,
--     Packets/Fixed: their array members), Network: recv_exact, send_packet, recv_packet.
--   Samples/Window: the network code of samples/ChatClient, over the packets of Samples/Chat and the
--     steps of Samples/Client/Network.
--   Examples: runs on concrete input.
--
-- The model. A byte is a number, a buffer a list of them. A reader or writer is a record of the
-- members of its class, and an operation takes it to an Outcome: a result with the state afterwards,
-- an exception with the state it leaves, or a fault, which stands for undefined behaviour (a memory
-- access outside its bounds, or an endless loop). The field has_exceptions is the build's
-- MEMORYPACK_HAS_EXCEPTIONS, so each statement about a reader or writer is about both builds, unless
-- it fixes the field. Integers of w bits are numbers below 2^w: a signed or floating value is its bit
-- pattern, an int32 is negative from 2^31 on, and wrap-around is written out where the source has it.
-- The host is little-endian, with a size_t of 64 bits. A std::string is the list of its bytes.
--
-- Bounds and fuel. The doubling of GrowOwned runs on 65 rounds: from one byte on, 64 doublings pass
-- every target of 64 bits. The loop of Feed runs on one round more than the buffer has bytes, since a
-- round that goes on consumes six bytes at least. The transcoder of std::u16string runs on one round
-- per byte. A growable buffer is taken to hold at most 2^62 bytes; input is shorter than 2^64 bytes.
-- ToFloat shifts a fraction of ten bits at most ten times. SendAll runs on one round more than there
-- are bytes, since a round that goes on sends one at least; so does recv_exact on the bytes that it
-- is asked for, and RecvThread on the bytes that can arrive. The other loops run over a list or a
-- count.
--
-- Parameters. Of the surroundings of the server and the clients, the system's `send` and `recv` are
-- functions that say how many bytes a call moves, 0 standing for an error too. They are given the count
-- as the bits of the int that the source casts it to; what they do with a negative count is not assumed.
-- The clock is a function of the number of readings to microseconds, as an int64_t with 2^63 added,
-- and the ticks computed of them are undefined where they overflow. Where a program reads into a buffer of its own size, what `recv`
-- gives is a list of chunks, whose end is its failure. The threads of the console client take steps in
-- an order that is a parameter as well: a step runs from one blocking call to the next.
--
-- Not modelled: big-endian hosts beyond Endian; clocks whose units are not whole parts of a tick of
-- 100 ns; vectors with an allocator of their own; the order of the iterators of maps and sets; other
-- header policies than the default of packet.hpp; a callback of Feed that calls the parser. The server's
-- callback may throw: Samples/Server/Connection runs it packet by packet, with the parser where the
-- loop of Feed has it at that packet. The padding of an
-- unmanaged struct is part of its bytes. The texts of exceptions, of log lines and of printed lines are
-- left out, as are the opening of sockets, the arguments of the programs, the main function and the
-- threads of the server, which share only the console and a counter, the windows of
-- samples/ChatClient and the test functions of samples/CppClient. The examples, benchmarks, tests and
-- tools use the library or stand beside it.
pub mod Base
pub mod Outcome
pub mod Wire
pub mod Text
pub mod Writer
pub mod Reader
pub mod Format
pub mod Api
pub mod Packet
pub mod VersionTolerant
pub mod Dotnet
pub mod Samples
pub mod Endian
mod Examples
