-- ===== src/Clist.antt =====
-- The character lists of usr/sys/sys/prim.c: `getc`, `putc`, `q_to_b`, `b_to_q`, `getw` and `putw`,
-- with h/tty.h.
--
-- Pointers are addresses. A block of 16 bytes begins at a multiple of 16, with its link in the first
-- 4 and its characters in the other 12. `next` holds the links, at the addresses of the blocks, and
-- `byte` the characters; 0 is NULL. Interrupts are off during each call. A count c_cc
-- below 0 is not modelled, so c_cc is a number.
pub mod Chunks
pub mod Get
pub mod Put
pub mod Write
pub mod Init
pub mod Append
pub mod Apart
mod Tests
use unix_v7_c.Base.{
  ℕ, zero, suc, ◌+◌, ◌-◌, ◌*◌, ◌/◌, ◌%◌, Bool, true, false, ◌||◌, Option, none, some, List, [], ◌∷◌,
  ltb, leb, ◌==◌, if◌then◌else◌,
}
use unix_v7_c.Base.{length}

-- CROUND + 1
abbrev pub block_size : ℕ
block_size = 16

-- The address of c_info in the block at an address.
abbrev pub info : ℕ → ℕ
info bp = bp + 4

-- addr & ~CROUND
abbrev pub round_down : ℕ → ℕ
round_down a = a - a % block_size

-- The memory of the blocks, and cfreelist.
pub record Blocks : Type 0 where
  pub byte : ℕ → ℕ
  pub next : ℕ → ℕ
  pub cfreelist : ℕ

-- `struct clist`
pub record Clist : Type 0 where
  pub c_cc : ℕ
  pub c_cf : ℕ
  pub c_cl : ℕ

abbrev pub update : (ℕ → ℕ) → ℕ → ℕ → ℕ → ℕ
update f i v j = if i == j then v else f j

-- `bp->c_next = cfreelist; cfreelist = bp;`
pub release : ℕ → Blocks → Blocks
release bp m = record m { next = update m.next bp m.cfreelist; cfreelist = bp }

abbrev pub empty : Clist
empty = record { c_cc = 0; c_cf = 0; c_cl = 0 }

-- Taking one character off a list that is not empty: the body that `getc` and `q_to_b` share.
pub take_char : Clist → Blocks → ℕ × Clist × Blocks
unfolding release
take_char p m =
    let c = m.byte p.c_cf % 256 in
    let cf = p.c_cf + 1 in
    let cc = p.c_cc - 1 in
    if leb cc 0
    then (c, empty, release (round_down (cf - 1)) m)
    else if cf % block_size == 0
    then (let bp = cf - block_size in
        (c, record p { c_cc = cc; c_cf = info (m.next bp) }, release bp m))
    else (c, record p { c_cc = cc; c_cf = cf }, m)

-- `getc`; `none` is the result -1.
pub getc : Clist → Blocks → Option ℕ × Clist × Blocks
unfolding take_char
getc p m =
    if leb p.c_cc 0 then (none, empty, m) else (let (c, p', m') = take_char p m in (some c, p', m'))

-- The loop of `q_to_b`, at most n characters.
pub take_chars : ℕ → Clist → Blocks → List ℕ × Clist × Blocks
unfolding take_char
take_chars zero q m = ([], q, m)
take_chars (suc n) q m =
    let (c, q', m') = take_char q m in
    let (cs, q'', m'') = take_chars n q' m' in
    if leb q'.c_cc 0 then (c ∷ [], q', m') else (c ∷ cs, q'', m'')

-- `q_to_b`: the characters that it copies
pub q_to_b : ℕ → Clist → Blocks → List ℕ × Clist × Blocks
unfolding take_chars
q_to_b cc q m =
    if leb cc 0 then ([], q, m) else if leb q.c_cc 0 then ([], empty, m) else take_chars cc q m

-- Where `putc` writes: the address, the list and the memory, or `none` without a free block.
pub make_room : Clist → Blocks → Option (ℕ × Clist × Blocks)
make_room p m =
    let bp = m.cfreelist in
    if p.c_cl == 0
    then (if bp == 0
        then none
        else some (
          info bp,
          record p { c_cf = info bp },
          record m { cfreelist = m.next bp; next = update m.next bp 0 },
        ))
    else if p.c_cl % block_size == 0
    then (let last = p.c_cl - block_size in
        if bp == 0
        then none
        else some (
          info bp,
          p,
          record m { cfreelist = m.next bp; next = update (update m.next last bp) bp 0 },
        ))
    else some (p.c_cl, p, m)

-- `*cp++ = c; p->c_cc++; p->c_cl = cp;`
pub put_at : ℕ → ℕ × Clist × Blocks → Clist × Blocks
put_at c (cp, p, m) =
    (record p { c_cc = p.c_cc + 1; c_cl = cp + 1 }, record m { byte = update m.byte cp (c % 256) })

-- What the failing call leaves: in the second case the link of the last block is NULL.
pub no_block : Clist → Blocks → Blocks
no_block p m = if p.c_cl == 0 then m else record m { next = update m.next (p.c_cl - block_size) 0 }

-- `putc`: whether it returns 0 and not -1, and the state
pub putc : ℕ → Clist → Blocks → Bool × Clist × Blocks
unfolding make_room put_at no_block
putc c p m = elim (make_room p m) [
  | none ↦ (false, p, no_block p m)
  | some room ↦ (let (p', m') = put_at c room in (true, p', m'))
]

-- `getw`; `none` is -1.
pub getw : Clist → Blocks → Option ℕ × Clist × Blocks
unfolding getc
getw p m =
    if leb p.c_cc 1
    then (none, p, m)
    else (let (lo, p', m') = getc p m in
        let (hi, p'', m'') = getc p' m' in
        (
          elim lo [ none ↦ none | some a ↦ elim hi [ none ↦ none | some b ↦ some (a + b * 256) ] ],
          p'',
          m'',
        ))

-- `putw`
pub putw : ℕ → Clist → Blocks → Bool × Clist × Blocks
unfolding putc
putw c p m =
    if m.cfreelist == 0
    then (false, p, m)
    else (let (_, p', m') = putc c p m in
        let (_, p'', m'') = putc (c / 256) p' m' in (true, p'', m''))

-- `b_to_q` before its loop: where it writes, or `none` without a free block
pub open_queue : Clist → Blocks → Option (ℕ × Clist × Blocks)
open_queue q m =
    let bp = m.cfreelist in
    if q.c_cl == 0
    then (if bp == 0
        then none
        else some (
          info bp,
          record q { c_cf = info bp },
          record m { cfreelist = m.next bp; next = update m.next bp 0 },
        ))
    else some (q.c_cl, q, m)

-- The loop of `b_to_q` on the bytes that are left: where it ends, how many it leaves, and the memory
pub copy_in : List ℕ → ℕ → Blocks → ℕ × ℕ × Blocks
copy_in [] cq m = (cq, 0, m)
copy_in (c ∷ cs) cq m =
    let bp = m.cfreelist in
    let last = cq - block_size in
    let in_new = copy_in cs (info bp + 1) (record m {
      byte = update m.byte (info bp) (c % 256);
      cfreelist = m.next bp;
      next = update (update m.next last bp) bp 0;
    }) in
    let in_same = copy_in cs (cq + 1) (record m { byte = update m.byte cq (c % 256) }) in
    if cq % block_size == 0
    then (if bp == 0
        then (cq, suc (length cs), record m { next = update m.next last 0 })
        else in_new)
    else in_same

-- `b_to_q`: how many bytes it leaves, and the state
pub b_to_q : List ℕ → Clist → Blocks → ℕ × Clist × Blocks
unfolding open_queue copy_in
b_to_q cs q m = if length cs == 0 then (0, q, m) else elim (open_queue q m) [
  | none ↦ (length cs, q, m)
  | some (cq, q', m') ↦
      let (end, left, m'') = copy_in cs cq m' in
      (left, record q' { c_cl = end; c_cc = q'.c_cc + (length cs - left) }, m'')
]
