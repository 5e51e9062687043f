-- ===== src/Pipe/Tests.antt =====
-- A writer and a reader of one pipe.
use unix_v7_c.Base.{
  ℕ, ◌*◌, ◌≡◌, ◌≤◌, ◌<◌, ◌⊎◌, true, false, refl, List, [], ◌∷◌, ◌++◌, length, drop,
}
use unix_v7_c.Pipe.{
  Pipe, Proc, read_loop, write_loop, read_wait, reading, read_done, write_done, Steps, Step, step,
  writing, wake, stay, more, act, pipsiz,
}
use unix_v7_c.Pipe.Lock.{count, lock_count, AllGood}
use unix_v7_c.Pipe.Sleepers.{
  IsFresh, AreCalls, nobody_calls, reader, writer, steps_order, steps_bounds, steps_exclude,
  steps_sleepers,
}
use unix_v7_c.Pipe.Deadlock.{Each, IsAtRest, IsReader, IsWriter, steps_deadlock}

abbrev new_pipe : Pipe
new_pipe = record {
  i_lock = false;
  i_want = false;
  i_read = false;
  i_write = false;
  i_count = 2;
  content = [];
  f_offset = 0;
  given = [];
  taken = [];
}

abbrev procs : List Proc
procs = read_loop 2 ∷ write_loop (7 ∷ 8 ∷ 9 ∷ []) ∷ []

-- The reader sleeps, the writer writes and wakes it, the reader reads two bytes, the writer returns.
abbrev after : Pipe
after = record new_pipe {
  content = 7 ∷ 8 ∷ 9 ∷ [];
  f_offset = 2;
  given = 7 ∷ 8 ∷ 9 ∷ [];
  taken = 7 ∷ 8 ∷ [];
}

abbrev ended : List Proc
ended = read_done (7 ∷ 8 ∷ []) ∷ write_done ∷ []

abbrev text : List ℕ
text = 7 ∷ 8 ∷ 9 ∷ []

abbrev asleep : Pipe
asleep = record new_pipe { i_read = true }

abbrev full : Pipe
full = record new_pipe { content = text; given = text }

-- The reader finds nothing and sleeps.
reader_sleeps : Step procs new_pipe (read_wait 2 ∷ write_loop text ∷ []) asleep
unfolding act wake
reader_sleeps = step [] (write_loop text ∷ []) (read_loop 2) new_pipe

writer_locks :
    Step
      (read_wait 2 ∷ write_loop text ∷ [])
      asleep
      (read_wait 2 ∷ writing text [] 0 ∷ [])
      (record asleep { i_lock = true })
unfolding act wake
writer_locks = step (read_wait 2 ∷ []) [] (write_loop text) asleep

writer_stores :
    Step
      (read_wait 2 ∷ writing text [] 0 ∷ [])
      (record asleep { i_lock = true })
      (read_loop 2 ∷ write_loop [] ∷ [])
      full
unfolding act wake
writer_stores = step (read_wait 2 ∷ []) [] (writing text [] 0) (record asleep { i_lock = true })

reader_locks :
    Step
      (read_loop 2 ∷ write_loop [] ∷ [])
      full
      (reading 2 0 ∷ write_loop [] ∷ [])
      (record full { i_lock = true })
unfolding act wake
reader_locks = step [] (write_loop [] ∷ []) (read_loop 2) full

reader_takes :
    Step
      (reading 2 0 ∷ write_loop [] ∷ [])
      (record full { i_lock = true })
      (read_done (7 ∷ 8 ∷ []) ∷ write_loop [] ∷ [])
      after
unfolding act wake
reader_takes = step [] (write_loop [] ∷ []) (reading 2 0) (record full { i_lock = true })

writer_returns : Step (read_done (7 ∷ 8 ∷ []) ∷ write_loop [] ∷ []) after ended after
unfolding act wake
writer_returns = step (read_done (7 ∷ 8 ∷ []) ∷ []) [] (write_loop []) after

run : Steps procs new_pipe ended after
run =
    more
      (more (more (more (more (more stay reader_sleeps) writer_locks) writer_stores) reader_locks)
        reader_takes)
      writer_returns

fresh : IsFresh new_pipe
fresh = (refl, refl, refl, refl, refl)

calls : AreCalls procs
calls = reader 2 _ (writer _ _ nobody_calls)

ended-IsAtRest : Each IsAtRest ended
unfolding IsAtRest
ended-IsAtRest = (tt, (tt, tt))

steps_order_example : after.taken ++ drop 2 text ≡ text
steps_order_example = steps_order procs new_pipe ended after fresh calls run

steps_bounds_example : (length text < 2 * pipsiz) × (2 ≤ length text)
steps_bounds_example = steps_bounds procs new_pipe ended after fresh calls run

steps_exclude_example : count ended ≡ lock_count false
steps_exclude_example = steps_exclude procs new_pipe ended after fresh calls run

steps_sleepers_example : AllGood asleep (read_wait 2 ∷ write_loop text ∷ [])
steps_sleepers_example =
    steps_sleepers procs new_pipe (read_wait 2 ∷ write_loop text ∷ []) asleep fresh calls
      (more stay reader_sleeps)

steps_deadlock_example :
    ((length text ≡ 0) × Each IsReader ended) ⊎ ((1 ≤ length text) × Each IsWriter ended)
steps_deadlock_example = steps_deadlock procs new_pipe ended after fresh calls run ended-IsAtRest
