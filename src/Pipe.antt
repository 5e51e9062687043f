-- ===== src/Pipe.antt =====
-- Pipes: `readp`, `writep`, `plock` and `prele` of usr/sys/sys/pipe.c, as the steps of several
-- processes that read and write one pipe.
--
-- A process of the kernel gives up the processor only where it sleeps, so a step is the code from one
-- sleep to the next. `readi` and `writei` can sleep inside, with the pipe locked: the code before
-- them is one step, and they with the code behind them another. `writei` writes all that it is given.
-- Signals that interrupt a sleep on ip+1 or ip+2 are left out, and i_count does not change.
pub mod Lock
pub mod Kept
pub mod Reader
pub mod Writer
pub mod Sleepers
pub mod Deadlock
pub mod Fifo
mod Tests
use unix_v7_c.Base.{
  ℕ, zero, suc, ◌+◌, ◌-◌, Bool, true, false, ◌&&◌, List, [], ◌∷◌, ◌++◌, ltb, leb, ◌==◌,
  if◌then◌else◌, length, take, drop,
}

-- PIPSIZ
abbrev pub pipsiz : ℕ
pipsiz = 4096

-- The i-node of the pipe and f_offset of the reading end. i_lock and i_want are the bits ILOCK and
-- IWANT of i_flag, i_read and i_write the bits IREAD and IWRITE of i_mode, and `content` the bytes of
-- the file, as many as i_size. `given` and `taken` record what was written and read since the
-- beginning.
pub record Pipe : Type 0 where
  pub i_lock : Bool
  pub i_want : Bool
  pub i_read : Bool
  pub i_write : Bool
  pub i_count : ℕ
  pub content : List ℕ
  pub f_offset : ℕ
  pub given : List ℕ
  pub taken : List ℕ

-- Where a process stands. A reader has the count n, a writer the bytes c that are left.
pub data Proc : Type 0 where
  -- at the label `loop`
  read_loop : ℕ → Proc
  write_loop : List ℕ → Proc
  -- asleep on ip in `plock`
  read_locked : ℕ → Proc
  write_locked : List ℕ → Proc
  -- asleep on ip+2, and on ip+1
  read_wait : ℕ → Proc
  write_wait : List ℕ → Proc
  -- in `readi`, and in `writei` with these bytes, at an offset
  reading : ℕ → ℕ → Proc
  writing : List ℕ → List ℕ → ℕ → Proc
  -- returned
  read_done : List ℕ → Proc
  write_done : Proc
  write_epipe : Proc

-- The calls of `wakeup` in a step.
pub record Wakes : Type 0 where
  pub on_lock : Bool
  pub on_write : Bool
  pub on_read : Bool

abbrev pub silent : Wakes
silent = record { on_lock = false; on_write = false; on_read = false }

-- `wakeup` of ip, ip+1 and ip+2, for a process
pub wake : Wakes → Proc → Proc
wake w (read_locked n) = if w.on_lock then read_loop n else read_locked n
wake w (write_locked c) = if w.on_lock then write_loop c else write_locked c
wake w (read_wait n) = if w.on_read then read_loop n else read_wait n
wake w (write_wait c) = if w.on_write then write_loop c else write_wait c
wake w p = p

-- `prele`: whether it calls `wakeup`, and the pipe
pub prele : Pipe → Bool × Pipe
prele k = (k.i_want, record k { i_lock = false; i_want = false })

-- `if (fp->f_un.f_offset == ip->i_size)` in `readp`: whether it calls `wakeup`, and the pipe
pub caught_up : Pipe → Bool × Pipe
caught_up k =
    if k.f_offset == length k.content
    then (k.i_write, record k { f_offset = 0; content = []; i_write = false })
    else (false, k)

-- `if(ip->i_mode&IREAD)` in `writep`
pub tell_reader : Pipe → Bool × Pipe
tell_reader k = (k.i_read, record k { i_read = false })

-- `readp` from the label on, until it sleeps, reads or returns
pub read_try : ℕ → Pipe → Proc × Pipe × Wakes
unfolding prele
read_try n k =
    if k.i_lock
    then (read_locked n, record k { i_want = true }, silent)
    else if length k.content == 0
    then (let (woken, k') = prele (record k { i_lock = true }) in
        let w = record silent { on_lock = woken } in
        if ltb k.i_count 2
        then (read_done [], k', w)
        else (read_wait n, record k' { i_read = true }, w))
    else (reading n k.f_offset, record k { i_lock = true }, silent)

-- `readi`, and the code of `readp` behind it
pub read_end : ℕ → ℕ → Pipe → Proc × Pipe × Wakes
unfolding prele caught_up
read_end n offset k =
    let got = take n (drop offset k.content) in
    let (to_write, k') =
      caught_up (record k { f_offset = offset + length got; taken = k.taken ++ got }) in
    let (to_lock, k'') = prele k' in
    (read_done got, k'', record { on_lock = to_lock; on_write = to_write; on_read = false })

-- `writep` from the label on, until it sleeps, writes or returns
pub write_try : List ℕ → Pipe → Proc × Pipe × Wakes
unfolding prele
write_try c k =
    let (woken, k') = prele (record k { i_lock = true }) in
    let w = record silent { on_lock = woken } in
    if k.i_lock
    then (write_locked c, record k { i_want = true }, silent)
    else if length c == 0
    then (write_done, k', w)
    else if ltb k.i_count 2
    then (write_epipe, k', w)
    else if leb pipsiz (length k.content)
    then (write_wait c, record k' { i_write = true }, w)
    else (
      writing (take pipsiz c) (drop pipsiz c) (length k.content),
      record k { i_lock = true },
      silent,
    )

-- The bytes b written at an offset into a file.
pub store : ℕ → List ℕ → List ℕ → List ℕ
store offset b file = take offset file ++ (b ++ drop (offset + length b) file)

-- `writei`, and the code of `writep` behind it
pub write_end : List ℕ → List ℕ → ℕ → Pipe → Proc × Pipe × Wakes
unfolding prele tell_reader store
write_end b c offset k =
    let (to_lock, k') =
      prele (record k { content = store offset b k.content; given = k.given ++ b }) in
    let (to_read, k'') = tell_reader k' in
    (write_loop c, k'', record { on_lock = to_lock; on_write = false; on_read = to_read })

-- The step of a process; one that sleeps or has returned does nothing.
pub act : Proc → Pipe → Proc × Pipe × Wakes
unfolding read_try read_end write_try write_end
act (read_loop n) k = read_try n k
act (write_loop c) k = write_try c k
act (reading n offset) k = read_end n offset k
act (writing b c offset) k = write_end b c offset k
act p k = (p, k, silent)

abbrev pub wake_all : Wakes → List Proc → List Proc
wake_all w [] = []
wake_all w (p ∷ ps) = wake w p ∷ wake_all w ps

-- One process of the list takes a step, and wakes others.
pub data Step : List Proc → Pipe → List Proc → Pipe → Type 0 where
  step :
      (l r : List Proc) (p : Proc) (k : Pipe)
      → Step
          (l ++ (p ∷ r))
          k
          (wake_all (act p k).2 l ++ ((act p k).0 ∷ wake_all (act p k).2 r))
          (act p k).1

-- Steps in any order.
pub data Steps (ps : List Proc) (k : Pipe) : List Proc → Pipe → Type 0 where
  stay : Steps ps k ps k
  more :
      {qs rs : List Proc} {k' k'' : Pipe} → Steps ps k qs k' → Step qs k' rs k'' → Steps ps k rs k''
