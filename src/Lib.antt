-- ===== src/Lib.antt =====
-- The verification library of the practice programs under practice/practice_device_bd: small C
-- programs for embedded Linux, most of them servers and threads.
--
-- Programs of one process (Posix, Tcp, Ftp, Ftp2, Udp, Files, Gpio, Device, Screen, Camera, Mgrep,
-- Fifo). Posix.Prog is a program as the system calls that it makes and what it does with each
-- answer; `fault` is undefined behaviour, such as a store outside an array. `run` gives the events
-- of a program for a list of answers. The system itself is not defined: answers are arbitrary, and
-- what the manual pages promise of them (a new descriptor is not open, read() stores at most what
-- it was given room for, select() marks descriptors that it was given) is the `conforms` of a
-- Monitor (Posix/Safety), under which a program is judged. Four monitors are used: Posix/Handles
-- (which descriptors and streams are open), Tcp/Ledger (also which block is owed to which client,
-- and whether the process is a child),
-- Files/Ledger (what has been read and written) and Camera/Protocol (the camera and its buffers).
-- The other theorems about programs give the events and the end of `run` for the answers that they
-- name.
--   Tcp: EX07-01_tcp, EX07-03_tcp_timeout, EX07-05_tcp_fork; Tcp/Multi: EX07-04_tcp_multi. `echo`
--     is the inner loop of each, `serve` and its variants the outer loops, `open_server` the calls
--     from socket() to listen(), which all mains share word for word.
--   Ftp: EX07-02_tcp_myftp, process_command and get_pwd.
--   Gpio: EX06-02_gpiotest, with the runs of its main in Gpio/Runs. Device: EX07-08_device_control.
-- An endless loop `for(;;)` takes a number of rounds, and ends in `spin` when they are used up:
-- what is said of every run holds for every number of rounds. Where a theorem says that a session
-- ends, more rounds than blocks are enough, since each round reads one block. printf and perror to
-- the terminal are left out everywhere; the servers do not look at the result of write(), as in the
-- code.
--
-- Programs of several threads (Threads). A thread is a place in its function with its live
-- variables, one step is one access to what is shared, and the scheduler picks the thread: data
-- types Move, Step and Reach. A mutex is the number of its owner (0 if free), a semaphore its
-- count. Race is EX04-02_pthread_multi, Bounded EX04-04_pthread_mutex2, Semaphore
-- EX04-05_pthread_sem, Bread EX04-06_pthread_bread. Process is the main that they share: the
-- creation and the join of each thread of a Group, and their failures; each has its group in its
-- Main. Process.Ends has the laws that a group obeys and what they give for main; its EndsWith
-- says that a step which is not a failure is possible, or that main has failed, or that it has
-- joined every thread and something holds. Mutex is EX04-03_pthread_mutex with its own main,
-- whose calls do not fail, and Clients EX07-06_tcp_thread. usleep and printf are left out.
--
-- Ftp2 is EX07-07_tcp_myftp2: the commands of myftp, LS and GET over a data connection, a process for
-- each client. Ftp2.Data is about the attempts at a data server, Ftp2.Runs about the commands. The
-- hundred attempts are counted down as in the code.
--
-- The UDP servers (Udp): EX07-09_udp, with its theorem in Udp.Echo, and EX07-10_udp_log, in Udp.Log.
-- Their loops are given a number of rounds, one for each recvfrom(). The log server's state is its
-- buffer, in which old bytes stay; the client's address is left out.
--
-- The file programs (Files): cpfile and mkfile of EX01-07_file_copy and cpfile_block of
-- EX01-08_file_copy_block, as programs of calls. Files.Ledger is what has been read and written;
-- Files.Safety and Files.Runs are about cpfile, Files.Digits about mkfile, Files.Blocks about
-- cpfile_block. Their loops are given a number of rounds; more rounds than bytes are enough for cpfile,
-- and mkfile counts its bytes down. The size and the block size are what atoi() gives, not negative.
--
-- The servers on a message queue (Msg): Msg has the steps of EX03-12_cal_server and
-- EX03-13_file_server, one server and a client for each process number, over one queue; Msg.Cal and
-- Msg.File are the messages, requests and answers of the two. stat() is a parameter. The invariants
-- are in Msg.Invariant and below Msg.Cal and Msg.File.
--
-- Shared memory (Shm): the loops of shmput and shmget of EX03-10_shm_sem as steps over the memory
-- and the semaphore, with the release of the semaphore when a process ends; Shm.Unlocked is
-- EX03-09_shm, without the semaphore. Rw has the processes of EX03-08_sem and EX03-07_rw that write
-- and read back one file, with the semaphore (Rw.Invariant) and without (Rw.Unlocked).
--
-- The frame buffer (Screen): draw_rect of EX06-03_fbtest on the bytes of a mapping, a store outside
-- of it being undefined behaviour, and main in Screen.Main. Screen.Pixel says where a pixel is,
-- Screen.Rect what draw_rect paints, Screen.Overrun when it leaves the mapping, Screen.Bits how a
-- color is packed. Coordinates are not negative and below 2^31.
--
-- The camera (Camera): v4l2test of EX06-04_v4l2test. Camera has the conversion of a frame and
-- capture_to_fb, Camera.Color and Camera.Blit what is shown of a frame; Setup, Devices and Program
-- have the options, the calls on the two devices and the loop, Options what a list of options comes
-- to, Protocol the state of the devices that the program is judged by. A structure that an ioctl fills is the list of the fields that are
-- read. getopt_long() is a list of options and strtol() a parameter; xpos and ypos are kept modulo
-- 2^32. The loops that may go on for ever, on EINTR or EAGAIN, take a number of rounds. usage()
-- prints and is left out. The floating-point sum of the red part is kept in ten thousandths: it is
-- a whole number only where V is 128, and there it is exact, so that its integer part is the same.
--
-- Mgrep is EX02-06_mgrep, in the parent and in each child. An element of the array of process numbers
-- that the child never stored is `none`, and reading it is undefined behaviour.
--
-- Fifo has the programs of EX03-05_fifo and EX03-06_fifo_nb, and EX03-04_pipe_fork; it gives back the
-- strings that they print. What the array of a reader holds before the first read is an argument, and
-- the loop of rfifo_nb takes a number of rounds. Fifo.Runs is about the two readers.
--
-- FdSet and Text are the library functions that the code uses: fd_set, C strings, strcmp. Common holds
-- shared helpers, Tests concrete runs.
--
-- Not modelled: the programs of EX02 but mgrep and those of EX05, those of EX01 and EX03 that are
-- not named above.
pub mod Common
pub mod Posix
pub mod FdSet
pub mod Text
pub mod Tcp
pub mod Ftp
pub mod Gpio
pub mod Device
pub mod Udp
pub mod Files
pub mod Ftp2
pub mod Msg
pub mod Shm
pub mod Screen
pub mod Rw
pub mod Mgrep
pub mod Fifo
pub mod Camera
pub mod Threads
mod Tests
