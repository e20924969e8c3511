-- ===== src/Lib.antt =====
-- A verification library for the kernel and the C library of this repository.
--
-- The kernel keeps its memory in pages of 4MB. `Pmm` models kernel/pmm.cpp, the bitmap of physical
-- pages; `Paging` models kernel/paging.cpp, the page directories, and under it `Paging.Machine` the
-- copy between two address spaces, which maps pages for a moment into the current directory.
-- `String` models libc/string.cpp, which all of them use. `Task` models the class Task of
-- kernel/include/kernel/scheduler.h and kernel/scheduler.cpp, with the signals between tasks and the
-- physical pages that a task owns, which it marks in the bitmap of `Pmm`; `Scheduler` models the rest
-- of kernel/scheduler.cpp and kernel/include/kernel/linkedlist.h, the queue and the switch between
-- tasks. `Channel` models the endpoints of kernel/channel.cpp.
-- `Malloc` models libc/malloc.cpp, the allocator of the kernel and of the programs, and `Kmalloc`
-- kernel/kmalloc.cpp, which gives it the kernel's pages. `Syscalls` models kernel/syscalls.cpp, the
-- calls on pages and processes, which compose the parts above: a handler takes the scheduler, the
-- page directories and the registers of the caller.
--
-- `Descriptors` models the tables that the processor reads: the segments of kernel/gdt.cpp and the
-- interrupt gates of kernel/idt.cpp, kernel/isr.cpp and kernel/irq.cpp.
--
-- Of the C library that programs link, `ResizableBuffer` models the class of
-- libc/include/libc/resizable_buffer.h, `Environment` the environment variables of
-- libc/include/libc/startup/globalstate.h, libc/globalstate.cpp and libc/getenv.cpp, which a process
-- packs into such a buffer for its children, `StartParams` the page of libc/startparams.cpp with
-- the parameters of a process, which is packed in one address space and unpacked in another, and
-- `Printf` models libc/printf.cpp, where what is put is a list of characters, and a format or a string
-- is the list of those before its terminator. `Archive` models libc/ustar.cpp and
-- libc/include/libc/ustar.h, the walk over an archive in memory. `Vfs` models the cleaning of paths in libc/vfs.cpp, with `isspace` of
-- libc/ctype.cpp.
--
-- `Base` holds what they share: the tests on numbers, lists, the results of code that can stop at an
-- assertion, copies between buffers, bits, and signed numbers.
--
-- The state of a component is a record, a class or a global variable of the source is a field of
-- it, and a function of the source is the definition with the same name in antt's spelling
-- (`SetPageUsed` is `set_page_used`, `getPDE` is `get_pde`). An assertion that fails, `abort` and a
-- trap are the outcome `abort`; what follows them is not run. Numbers are natural numbers, and an
-- operation on a 32-bit word is followed by `% 2 ^ 32` where it can wrap around.
--
-- A loop over a bound that is known runs on that number of rounds. A loop over a string runs on
-- fuel and is `abort` when the fuel runs out; the theorems on such a function say that more fuel
-- than characters is enough. The walk over the allocator's headers runs on fuel too, and as many
-- rounds as there are arenas and blocks, and one more, are enough.
--
-- Memory is a function from addresses to bytes. The processor's translation of an address through
-- the current page directory is a parameter, and what it does with an entry is a hypothesis:
-- an entry that is present gives the page that the entry names.
--
-- Where another part calls the allocator, `malloc` and `free` are arguments, since they keep their
-- data in the memory of whoever links them. `memmove` and `UpdateEnviron` take them as functions on
-- the memory (`Allocator`), and what they do at other addresses than those of the heap is a
-- hypothesis. For the buffers of an endpoint and of `ResizableBuffer` a call of `malloc` is a function
-- from the size to a buffer or to none, which is a null pointer; calls in a row have a function each.
--
-- Pointers to tasks are numbers, and a task that was deleted is `none`; an access to it is `abort`.
-- The queue of tasks is a list, and no bound is set on it.
--
-- Not modelled: the dumps of the state that only print, port input and output, the instructions that
-- load CR0, CR3 and CR4, the pages that `new` takes for a task while a process is created, the
-- handling of interrupts, the ELF loader, and the programs of userboot/.
pub mod Archive
pub mod Base
pub mod Channel
pub mod Descriptors
pub mod Environment
pub mod Kmalloc
pub mod Malloc
pub mod Paging
pub mod Pmm
pub mod Printf
pub mod ResizableBuffer
pub mod Scheduler
pub mod StartParams
pub mod String
pub mod Syscalls
pub mod Task
pub mod Vfs
