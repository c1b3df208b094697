-- ===== src/Lib.antt =====
-- Finux: the kernel of a small operating system for 32-bit x86 processors.
--
-- The kernel (kernel/, lib/, include/) is entered by the loader (boot/) at kernel_start. It sets up
-- descriptors, page tables, interrupts and the timer, and then runs kernel threads round robin. The
-- threads share intrusive circular lists: the ready list, which the timer interrupt and the yield
-- system call rotate, and the waiters of locks and semaphores.
--
-- Prelude has what the other modules share: Boolean tests, lists over native numbers, memories as
-- functions with `update`, signed counts, 8, 16 and 32 bit words with their wrap-around written out
-- (u8, u16, u32, sub32), and bit operations.
--
--   Links      lib/list.c, include/list.h. A node is its address; `next` and `prev` are two
--              memories. Ring says what a circular list is, Insert and Remove what each operation
--              does to one.
--   Strings    lib/string.c, on a memory of bytes. Copies is about memcpy and memset, Compare about
--              strlen and strcmp.
--   Sched      kernel/interrupt/timer.c (timer_handler), kernel/syscall/sys_call.c (yield_thread,
--              syscall_handler), and thread_yield of kernel/thread/init.c. Kernel is the state that
--              the threads share. Queue has the abstract scheduler, a running thread and a queue;
--              Rotate, Slices and Yield say what a switch, whole time slices and a yield do to it.
--   Sync       kernel/sync/sync.c. The loop of an acquire is split into its rounds, since the thread
--              gives the processor away in each. Queue adds the waiters to the abstract scheduler,
--              Semaphore and Count are about the waiters and the count of a semaphore. Mutex has the
--              threads that share a lock as a step relation, Race has what an interrupt inside of an
--              acquire can do.
--   Thread     kernel/thread/init.c: thread_creat, init_thread, creat_init. Creation is about one
--              thread, Start about the state in which the scheduler begins. Bodies has test_lock1 and
--              test_lock2 as programs that take a step when their thread runs.
--   MemInfo    kernel/mm/mm.c, the memory map that the loader leaves.
--   Page       kernel/mm/page.c: init_page_bit_map, get_pages, free_pages.
--   Paging     kernel/mm/page.c: set_page with its counts, and the tables that it fills.
--   Desc       include/sys/desc_struct.h, include/sys/gdt.h, kernel/desc/gdt.c.
--   Idt        kernel/desc/idt.c, include/sys/idt.h, and init_timer of kernel/interrupt/timer.c.
--   Exception  kernel/interrupt/exception.c, and PANIC of kernel/debug.h.
--   Pic        kernel/8259a/8259a.c and kernel/8259a/8253.c. Setup reads the initialisation as the
--              documentation of the chip does, Mask and Irq are about the masks.
--   Display    kernel/echo/display.c.
--   Disk       boot/hd.c. Command is about the commands, Transfer has the interrupt handler and the
--              functions that wait for it, Setup has init_hd and boot/init_idt.c.
--   Fs         boot/fs.c, boot/fs.h, the file system of the loader. Fs itself has the super block,
--              the inodes, the root directory and the loading of the kernel; Partition has the
--              partition tables, Format has make_fs. A disk is its sectors, and reading or writing
--              one is a step; Disk.Transfer.Sector and Disk.Transfer.Write say why the driver's
--              functions are such steps.
--   Boot       the first half of Cstart, boot/loader.c, with boot/init_idt.c and boot/timer.c, and the
--              interrupts of the loader, boot/interrupt.c. Master is about the masks while a handler
--              runs, Ticks about what the timer shows, Ready about the state after the set-up.
--   Cstart     the second half of Cstart, boot/loader.c: from the partition tables to the kernel. Whole
--              has both halves.
--   OldLoader  boot/bak/loader.c, the loader that the current one replaced, which is not built. Counts
--              and Tables are about its memory and its page tables, Start about its descriptors,
--              interrupts and the command to the drive.
--   Switch     the switch between threads in assembly: kernel/interrupt/interrupt.S (irq00_handler),
--              kernel/switch.S (switch_to, yield) and kernel/syscall/sys_entry.S. Stack is about the
--              pushes, Frames about the frame of a thread that does not run, Interrupt, Yield and
--              Syscall about the three entries, Begin about the first run of a thread, Rotation about
--              the timer interrupt with the scheduler of Sched.
--   Startup    kernel/kernel.c, which calls the components above in turn.
--   Tests      each theorem with hypotheses at a concrete input.
--
-- Addresses that the linker chooses, the port instructions and what the memory holds at the start
-- are parameters. `set_page-translate` and the descriptor theorems read the structures back as the
-- processor's manual says it does.
--
-- Loops are structural on the rounds that are left. `strlen` and `strcmp` run until they meet a byte,
-- so they get fuel, and the theorems about them give the rounds that suffice: the length, and for
-- `strlen` one more. Polling the drive has fuel too, one poll more than the drive stays busy. The
-- chain of logical partitions is as long as the disk says, and fuel beyond its length is enough; so is
-- fuel beyond the sectors of the kernel for the loop that reads its inode again in each round.
-- The loops that wait for the drive's interrupt take a list of events, one for each test. The endless
-- loops of the test threads are steps of a relation, one for each round.
--
-- The page tables and the page map that set_page clears stand in one memory, as do the tables, the
-- buffers and the image of the loader. The structures of the threads, their saved registers and the
-- list nodes are memories of their own, which is what the machine does while they stand apart. A
-- write outside of primary[4] or logical[10] ends the model of get_part_information.
--
-- Not modelled: the registers that boot/interrupt.c saves, and an interrupt that comes while the
-- handlers of Switch run; interrupts that arrive in the middle of a function, but for the acquire of
-- a lock; the text that PANIC shows when get_pages is asked for more than 8 pages; what else the page
-- tables overwrite when there are 256 of them or more. Of the loader (boot/): the boot sector and the
-- entry in assembly, and the jump to the kernel. Of the old loader: the handlers idt_test and
-- test_call_hd and the code for ring 3, which are assembly and endless loops. The disk images' scripts
-- (finux_tool/) and the experiments (test/) are left out, as are the listings obj.S and boot/obj.s and
-- the stubs of kernel/interrupt/interrupt.c, which is not built.
mod Prelude
pub mod Links
pub mod Sched
pub mod Display
pub mod MemInfo
pub mod Page
pub mod Paging
pub mod Desc
pub mod Exception
pub mod Pic
pub mod Idt
pub mod Sync
pub mod Tests
pub mod Strings
pub mod Thread
pub mod Disk
pub mod Fs
pub mod Boot
pub mod OldLoader
pub mod Cstart
pub mod Switch
pub mod Startup
