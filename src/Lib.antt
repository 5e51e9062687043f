-- ===== src/Lib.antt =====
-- A verification library for the Seventh Edition Unix system brought up to ISO C: models of parts of
-- its kernel, its C library and its commands, with the theorems that make them correct.
--
-- The kernel is a program that system calls and interrupts enter. Its parts share tables of fixed
-- size. The allocators stand at the bottom: the core and swap maps (usr/sys/sys/malloc.c), the pages
-- of core and the page maps of processes (the same file), the free block list of each file system
-- (usr/sys/sys/alloc.c), the blocks of character lists (usr/sys/sys/prim.c) and the descriptors and
-- open files (usr/sys/sys/fio.c). Time enters through the callout table (usr/sys/sys/clock.c).
-- Processes meet at pipes (usr/sys/sys/pipe.c), through signals (usr/sys/sys/sig.c) and on the sleep
-- queues (usr/sys/sys/slp.c). Files are i-nodes (usr/sys/sys/iget.c), whose blocks `bmap` finds
-- (usr/sys/sys/subr.c) and which take blocks from the free block list and give them back.
--
-- Which file models which part:
--   Bmap       `bmap` of usr/sys/sys/subr.c; Space: the free block list as the `alloc` it calls
--   Callout    `timeout`, and the part of `clock` that serves the callout table; usr/sys/h/callo.h
--   SwapMap    `malloc`, `mfree` and usr/sys/h/map.h, and `swapfits` of usr/sys/sys/slp.c
--   PageMap    `pgalloc`, `pgfree`, `mapent`, `mapneed`, `mapalloc`, `mapfree`, `maprev`, `maprot`
--   FreeList   `alloc`, `free`, `badblock`; usr/sys/h/filsys.h and usr/sys/h/fblk.h. Spare: `getfs`
--              and `ifree`
--   Clist      `getc`, `putc`, `q_to_b`, `b_to_q`, `getw`, `putw`; usr/sys/h/tty.h. Init: `cinit`
--              and `ndqb`
--   Files      `getf`, `access`, `suser`, `ufalloc`, `falloc`; usr/sys/h/file.h
--   Pipe       `readp`, `writep`, `plock`, `prele`
--   Signal     `signal`, `psignal`, `issig`, `fsig`; usr/sys/h/proc.h
--   SleepQueue `sleep` up to its call of `swtch`, `wakeup`, `setrq` and `setrun` of usr/sys/sys/slp.c
--   Sched      `setpri` and `roomfor` of usr/sys/sys/slp.c
--   Inode      `itrunc` and `tloop` of usr/sys/sys/iget.c; Space: the free block list as the `free`
--              they call. Table: `iget` and `iput`
--   Cal        `jan1` and a part of `cal` of usr/src/cmd/cal.c
--   Rotor      `setup` and the loop of `main` of usr/src/cmd/crypt.c
--   Libc       Str: strlen.c, strcpy.c, strncpy.c, strcat.c, strncat.c, strcmp.c, strncmp.c, index.c
--              and rindex.c of usr/src/libc/gen. Convert: atoi.c, atol.c, l3.c, swab.c and rand.c
--              there, and `printn` of usr/sys/sys/prf.c. Crypt: crypt.c.
--              Time: `gmtime`, `localtime`, `sunday` and `dysize` of ctime.c.
--              Sort: qsort.c
--   Base       tests on numbers, arrays as lists, and integers with a sign
-- Each part's file holds its state and its operations, named as in the code; its child modules hold
-- what is proved of them, and Tests runs them on small inputs.
--
-- State is passed explicitly: an operation takes the state and returns its result with the new state.
-- `none` is an access outside an array, or the result that stands for failure; each file says which.
-- Numbers are natural; where the code wraps around, the modulus is written out (Libc.Convert, Rotor),
-- and elsewhere the values are far from the limits of an int. Loops over arrays are recursion on the
-- list of what is left. Fuel appears in nine places: `maprev`, where the upper bound of the range is
-- enough; `issig`, where 17 rounds are; `printn`, where the number of digits is; `cinit`, where
-- the number of blocks is; `iget`, where two passes are if no device is mounted on the root of a
-- mounted device; `gmtime`, whose loops over the years take 400 rounds at most; the search of the
-- command crypt, where the number of places is; `qsort`, where twice the number of elements is for
-- the loop and their number for the parts; and `wakeup`, whose loops take one round for each
-- process, and which one call of `setrun` enters again at most. The pipe is a relation of steps from
-- one sleep to the next, since a process gives up the processor only there.
--
-- Not modelled: device drivers, page tables, traps and start-up, which are bound to the machine; the
-- buffer cache, in whose place the disk is a function from block numbers to blocks; path names and
-- the system calls; terminals; the commands but crypt and cal, the games and the mathematical library.
-- Messages on the console are left out.
pub mod Base
pub mod Bmap
pub mod Cal
pub mod Callout
pub mod Clist
pub mod Pipe
pub mod Rotor
pub mod Sched
pub mod Signal
pub mod SleepQueue
pub mod SwapMap
pub mod Files
pub mod FreeList
pub mod Inode
pub mod PageMap
pub mod Libc
