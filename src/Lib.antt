-- ===== src/Lib.antt =====
-- LardOS, an educational 64-bit operating system in C: models of its kernel components and the
-- theorems about them. Paths are from the repository's root.
--
-- The parts and their files here:
-- RingBuf.antt: os/kernel/ringbuf.c, the byte ring.
-- Lipc.antt: os/kernel/lipc.c, the message ports that user programs and BOSL send through.
-- VmMon.antt: os/kernel/vmmon.c, the monitor that every language VM reports its runs to.
-- OsVm.antt: os/kernel/os_vm.c, the stack VM. It asks the monitor for its budget and reports each
--   run to it. OsVm/Parse.antt is its number reader, Vm/Decimal.antt its number printer.
-- GasmVm.antt: os/kernel/gasm_vm.c, the interpreter of the accumulator machine with objects, which
--   reports to the monitor too (Vm/Accounts.antt is that contract).
-- Heap.antt: os/kernel/mem.c, the kernel heap that the rest allocates from. Heap/Blocks.antt is its
--   view as a list of blocks that tile the heap.
-- Lvcs.antt: os/kernel/lvcs.c, the version control service. Lvcs/Model.antt is the repository that it
--   promises, Lvcs/View.antt reads one out of the C state.
-- Lar.antt: os/kernel/lar.c, the LAR archives; Lar/Extract.antt, Lar/Create.antt and Lar/Cipher.antt are
--   its extraction, its creation and the cipher of its password method. It checksums with Hash.
-- TaskPrio.antt: os/kernel/taskprio.c, the queue of prioritized tasks; TaskPrio/Dequeue.antt is the
--   choice of the next task, TaskPrio/Admin.antt the calls that change what is queued.
-- Hash.antt: os/kernel/hash.c, CRC-32 and FNV-1a. Lvcs hashes its files with an FNV-1a of its own.
-- CString.antt: os/kernel/string.c, the functions that write memory, on a memory that is a
--   function; CString/Compare.antt is those that read.
-- Container.antt: os/kernel/lcontainer.c, the containers that limit the capabilities of programs; names are
--   compared with strcmp. Container/Created.antt is a creation, Container/Confined.antt any calls.
-- Printf.antt: os/kernel/lard_printf.c, formatted printing; Printf/Format.antt is the loop over the format,
--   Printf/Render.antt the text that a format stands for.
-- Gc.antt: os/kernel/gc.c, the mark-and-sweep collector, over kmalloc as a parameter; Gc/Pure.antt is the
--   marking of payloads whose counter does not wrap, Gc/Ends.antt that it is the marking of the code,
--   Gc/Trace.antt the marking as a search, Gc/Sweep.antt the collection.
-- Base64.antt: os/kernel/base64.c; an index of 32 bits that wraps around gives no result. Unicode.antt:
--   os/kernel/unicode.c, with its table in Unicode/Table.antt; Unicode/Encode.antt is the encoding of code
--   points in UTF-8, Unicode/Accept.antt the sequences that the reader takes.
-- Lfs.antt: os/kernel/lfs.c, the reader of Lard File System images; Lfs/Listing.antt is its listing,
--   Lfs/Reads.antt the ways in which its functions end, Lfs/Directory.antt a written image.
-- Inflate.antt: os/kernel/lard_inflate.c, the DEFLATE decoder: bits and symbols; Inflate/Tree.antt builds
--   the tables, Inflate/Counts.antt bounds the places of their symbols,
--   Inflate/Blocks.antt and Inflate/Dynamic.antt decode the blocks.
-- Vm.antt: the loop that the VMs share, with one rule for its total correctness. Circular.antt: the
--   queue in a circular array, which the ring and the ports share. Base.antt and the files below it
--   hold lists, arrays, words, bits and signed integers.
--
-- State and operations: a static variable or an object of the C code is a record or a list, and a
-- function that changes it returns it anew beside its result. A function keeps its name, less the
-- prefix that its module already says. A C array is a list, a pointer that may be null an Option.
-- `uint32_t` arithmetic is written out with its remainder by 2 ^ 32, and an `int32_t` is its bit
-- pattern; signed overflow is taken to wrap, as in the code that the compiler emits for it.
--
-- Bounds: the VM loops run on fuel, two more than the budget of steps; every round counts a step
-- and stops behind the budget, so the fuel is never used up, and the theorems say so. The walks of
-- the heap run on fuel too; more than the number of blocks is enough. The loops of the UTF-8
-- printer and of the version 2 reader run on one more than the number of bytes, since every round
-- reads a byte; the marking on one more than the blocks, its scans on one more than the words; that
-- of formatted printing on the length of the format; those of the DEFLATE decoder on one more than the bits that are left, since a
-- symbol takes a bit; those of strlen and strcmp on more than the characters of the text.
--
-- Not modelled: os_vm_asm_eval (the assembler's two passes), the assembler of gasm_vm.c, the other
-- language VMs, the file system, networking and TLS, the shells, the graphical interface, and all
-- code that drives hardware.
pub mod Base
pub mod Base64
pub mod CString
pub mod Circular
pub mod Lvcs
pub mod GasmVm
pub mod Gc
pub mod TaskPrio
pub mod Unicode
pub mod Inflate
pub mod Lar
pub mod Lfs
pub mod Printf
pub mod Container
pub mod RingBuf
pub mod Hash
pub mod Heap
pub mod Lipc
pub mod VmMon
pub mod Vm
pub mod OsVm
