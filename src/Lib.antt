-- ===== src/Lib.antt =====
-- The C programs of the course on Linux drivers, threads and I/O, and what their code guarantees.
--
-- The drivers of driver/globalmem and driver/globalfifo keep 4096 bytes behind a char device, as a
-- memory and as a queue, and programs beside them use the queue; driver/vmem_disk keeps four disks
-- behind the block layer; driver/proc keeps a number behind an entry of /proc;
-- multi-thread/libthreadpool is a pool of worker threads; io/io-models holds servers that send back
-- capitals, and programs that read; tools/ptrace traces a child; multi-thread/helgrind/test.c is a
-- deadlock; virt/mytun.c reads from a tun device. Each driver is called by many tasks through its file
-- operations, and its mutex is all that orders them. The programs on the queue run over the handlers
-- of its driver, and the two servers do the same for each client; the other parts share nothing.
--
-- Where what is:
--   Base      numbers, lists of bytes and integers of 64 bits.
--   Kernel    what the char drivers see of the kernel. A handler is a function on the device and a
--             trace of its calls; Kernel/Locks says when a trace keeps the discipline of a mutex.
--   Fifo      driver/globalfifo/ch12/globalfifo.c: read, write, ioctl, poll, fasync and release are
--             globalfifo_read and so on. A read or a write is its wait loop (wait_while), the code
--             under the mutex (read_ready, write_ready) and the labels out and out2 (leave_out).
--             Fifo/Requests is the table of file operations, Fifo/Stream runs many calls,
--             Fifo/Ch8 and Fifo/Ch9 are ch8/globalfifo.c and ch9/globalfifo.c, Fifo/Clients the main
--             functions of ch8/globalfifo_poll.c, ch8/globalfifo_epoll.c, ch9/globalfifo_test.c and
--             io/io-models/sigio.c over them.
--   Mem       driver/globalmem/ch6/globalmem.c: read, write, ioctl and llseek are globalmem_read and
--             so on. Mem/Ch7 is ch7/globalmem.c, Mem/Multi is ch6/multi_globalmem.c.
--   Chrdev    the init and exit functions of these drivers, over one skeleton (load, unload);
--             Chrdev/Platform is the platform driver and device of driver/globalfifo/ch12.
--   Disk      driver/vmem_disk/vmem_disk.c: transfer, xfer_bio, request, make_request and getgeo are
--             vmem_disk_transfer and so on; Disk/Setup is setup_device, vmem_disk_init, vmem_disk_exit.
--   Proc      driver/proc/proc.c, its functions under their names.
--   Pool      multi-thread/libthreadpool/src/thread-pool.c: the operations under their names,
--             give_idle and give_new are the two halves of tp_process_job, manage_round is a round of
--             tp_manage_thread. Pool/System is submitters, manager and workers side by side, a call a
--             step; Pool/Calls is submitters and workers with a step for each access to what they
--             share, to which Pool/Calls/Manager adds tp_delete_thread; Pool/Close is the life of a
--             pool up to tp_close.
--   Select    io/io-models/select-model.c: a round of its loop is `round`, with accept_client and scan
--             for the new connection and for the loop over the clients.
--   Echo      io/io-models/multi-process-model.c: `parent` and `child` are the two loops.
--   Threads   multi-thread/helgrind/test.c: main, lock and thread_routine as lists of calls, and a step
--             that makes the next call of a task.
--   Ptrace    tools/ptrace/trace2.c (trace) and tools/ptrace/debugger.c (main, run_target, run_debugger).
--   Tun       virt/mytun.c.
--   Aio       main of io/io-models/aio.c and of driver/globalfifo/ch9/aior.c.
--   Eintr     main of io/io-models/eintr.c.
--
-- The kernel, the C library and libaio are arguments: each answer that the code depends on (a fault
-- of a copy, a wake-up and what it finds, memory, a thread, what select reports) is one, so a theorem
-- holds for all of them, or for those that a hypothesis with a name allows (Honest for select and
-- accept, Stops for PTRACE_SYSCALL, Enlists for fasync_helper, Decimal for the numbers of proc.c).
-- A copy from the user that faults may leave any bytes in the space that it was to fill. A memcpy of
-- overlapping ranges copies in the order of rising addresses. A mutex is taken at once: what the
-- other tasks did meanwhile is what the wake-up finds. In Threads it blocks, and every order of the
-- calls is a run.
--
-- Loops are recursion on the list that they walk or on the number of rounds left. A wait loop runs
-- over the list of its wake-ups; when the list ends the task sleeps on, and the result is none. A loop
-- over what reads return stops where the list does, with the program still in it. The loop of the
-- manager of the pool has one unit of fuel more than there are threads; each round of it deletes a
-- thread. The search of Threads has fuel for nine steps; no run has more than eight.
--
-- Not modelled: log messages; the fields of a device that only the kernel reads; waits that
-- end without a signal; tp_get_tp_status of the pool in the middle of other calls. Runs of the pool
-- stop where C defines nothing any more: behind a pthread_create that fails in tp_add_thread, which
-- frees a pointer into its array, and, in Pool/System, behind a thread that the manager gives up,
-- which kill does not stop. In the pool int and unsigned int are numbers without bound, since the
-- code only counts threads. The servers' socket, bind and listen are left out, whose results the code
-- does not look at. The other programs under io, mem, multi-thread, perf, proc, tools and virt, the
-- small modules of driver/hello,
-- driver/param and driver/export, and the generated *.mod.c are left out: they print what arrives, or
-- show a tool.
pub mod Base
pub mod Kernel
pub mod Fifo
pub mod Mem
pub mod Chrdev
pub mod Aio
pub mod Select
pub mod Echo
pub mod Threads
pub mod Ptrace
pub mod Proc
pub mod Tun
pub mod Eintr
pub mod Pool
pub mod Disk
