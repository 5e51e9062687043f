-- ===== src/Clist/Write.antt =====
-- `b_to_q` puts its bytes one by one.
use unix_v7_c.Base.{
  ℕ, suc, ◌+◌, ◌-◌, ◌%◌, ◌≤◌, ◌≡◌, ◌≢◌, true, false, inl, inr, refl, sym, ap, ◌∙◌, List, [], ◌∷◌,
  arith, length, ◌==◌, if◌then◌else◌, Bool-cases,
}
use unix_v7_c.Clist.{Blocks, Clist, update, block_size, info, putc, b_to_q, copy_in, open_queue}
use unix_v7_c.Clist.Put.{putc-none, putc-first, putc-inside, putc-full, putc-block}

-- Calls of `putc` until one fails: how many bytes are left, and the state.
pub puts : List ℕ → Clist → Blocks → ℕ × Clist × Blocks
puts [] p m = (0, p, m)
puts (c ∷ cs) p m =
    let (ok, p', m') = putc c p m in
    let rest = puts cs p' m' in if ok then rest else (suc (length cs), p', m')

-- What the loop of `b_to_q` makes of a list.
abbrev copied : List ℕ → Clist → Blocks → ℕ × Clist × Blocks
copied cs p m =
    let (end, left, m') = copy_in cs p.c_cl m in
    (left, record p { c_cl = end; c_cc = p.c_cc + (length cs - left) }, m')

copy_in_le : (cs : List ℕ) (cq : ℕ) (m : Blocks) → (copy_in cs cq m).1 ≤ length cs
unfolding copy_in
copy_in_le [] cq m = omega arith
copy_in_le (c ∷ cs) cq m =
    let f = m.cfreelist in
    let in_new = copy_in_le cs (info f + 1) (record m {
      byte = update m.byte (info f) (c % 256);
      cfreelist = m.next f;
      next = update (update m.next (cq - block_size) f) f 0;
    }) in
    let in_same = copy_in_le cs (cq + 1) (record m { byte = update m.byte cq (c % 256) }) in
    elim (Bool-cases (cq % 16 == 0)) [
      | inl full ↦ elim (Bool-cases (m.cfreelist == 0)) [
        | inl none ↦ rw (full, none) (omega arith)
        | inr some ↦ rw (full, some) (omega (arith, in_new))
      ]
      | inr room ↦ rw room (omega (arith, in_same))
    ]

-- One more byte was put.
counted :
    (cs : List ℕ) (p : Clist) (cq : ℕ) (m : Blocks)
    → copied cs (record p { c_cc = p.c_cc + 1; c_cl = cq }) m ≡ (
        let (end, left, m') = copy_in cs cq m in
        (left, record p { c_cl = end; c_cc = p.c_cc + (suc (length cs) - left) }, m'))
counted cs p cq m =
    let le = copy_in_le cs cq m in
    let sum : p.c_cc + 1 + (length cs - (copy_in cs cq m).1)
        ≡ p.c_cc + (suc (length cs) - (copy_in cs cq m).1) =
      omega (arith, le) in
    ap
      (λ n. (
        (copy_in cs cq m).1,
        record p { c_cl = (copy_in cs cq m).0; c_cc = n },
        (copy_in cs cq m).2,
      ))
      sum

puts-copy_in : (cs : List ℕ) (p : Clist) (m : Blocks) → p.c_cl ≢ 0 → puts cs p m ≡ copied cs p m
unfolding puts copy_in
puts-copy_in [] p m ne = ap (λ n. (0, record p { c_cc = n }, m)) (omega arith)
puts-copy_in (c ∷ cs) p m ne = elim (Bool-cases (p.c_cl % 16 == 0)) [
  | inl full ↦
      let edge : p.c_cl % 16 ≡ 0 = ground (arith, full) in
      elim (Bool-cases (m.cfreelist == 0)) [
        | inl none ↦
            let free : m.cfreelist ≡ 0 = ground (arith, none) in
            rw (putc-full c p m ne edge free, full, none)
              (ap
                (λ n. (
                  suc (length cs),
                  record p { c_cc = n },
                  record m { next = update m.next (p.c_cl - block_size) 0 },
                ))
                (omega arith))
        | inr some ↦
            let free : m.cfreelist ≢ 0 = ground (arith, some) in
            rw (putc-block c p m m.cfreelist ne edge refl free, full, some)
              (puts-copy_in cs _ _ (λ z. absurd (omega (arith, z)))
                ∙ counted cs p (info m.cfreelist + 1) _)
      ]
  | inr room ↦
      let edge : p.c_cl % 16 ≢ 0 = ground (arith, room) in
      rw (putc-inside c p m ne edge, room)
        (puts-copy_in cs _ _ (λ z. absurd (omega (arith, z))) ∙ counted cs p (p.c_cl + 1) _)
]

b_to_q-old :
    (c : ℕ) (cs : List ℕ) (q : Clist) (m : Blocks)
    → (q.c_cl == 0) ≡ false
    → b_to_q (c ∷ cs) q m ≡ copied (c ∷ cs) q m
unfolding b_to_q
b_to_q-old c cs q m old =
    let some : (suc (length cs) == 0) ≡ false = ground arith in
    rw (b_to_q, open_queue, some, old) refl

b_to_q-none :
    (c : ℕ) (cs : List ℕ) (q : Clist) (m : Blocks)
    → (q.c_cl == 0) ≡ true
    → (m.cfreelist == 0) ≡ true
    → b_to_q (c ∷ cs) q m ≡ (suc (length cs), q, m)
unfolding b_to_q
b_to_q-none c cs q m new none =
    let some : (suc (length cs) == 0) ≡ false = ground arith in
    rw (b_to_q, open_queue, some, new, none) refl

b_to_q-first :
    (c : ℕ) (cs : List ℕ) (q : Clist) (m : Blocks)
    → (q.c_cl == 0) ≡ true
    → (m.cfreelist == 0) ≡ false
    → m.cfreelist % 16 ≡ 0
    → b_to_q (c ∷ cs) q m ≡ (
        let f = m.cfreelist in
        let (end, left, m') = copy_in cs (info f + 1) (record {
          byte = update m.byte (info f) (c % 256);
          next = update m.next f 0;
          cfreelist = m.next f;
        }) in
        (left, record { c_cf = info f; c_cl = end; c_cc = q.c_cc + (suc (length cs) - left) }, m'))
unfolding b_to_q
b_to_q-first c cs q m new found block =
    let some : (suc (length cs) == 0) ≡ false = ground arith in
    let room : ((m.cfreelist + 4) % 16 == 0) ≡ false = ground arith in
    rw (b_to_q, open_queue, some, new, found, room) refl

-- `b_to_q` does what one call of `putc` for each byte does, up to the first that fails, if blocks are
-- aligned: it leaves as many bytes, and the same list and memory.
pub b_to_q-puts :
    (cs : List ℕ) (q : Clist) (m : Blocks) → m.cfreelist % 16 ≡ 0 → b_to_q cs q m ≡ puts cs q m
unfolding b_to_q puts
b_to_q-puts [] q m block = refl
b_to_q-puts (c ∷ cs) q m block = elim (Bool-cases (q.c_cl == 0)) [
  | inr old ↦ b_to_q-old c cs q m old ∙ sym (puts-copy_in (c ∷ cs) q m (ground (arith, old)))
  | inl new ↦
      let cl : q.c_cl ≡ 0 = ground (arith, new) in
      elim (Bool-cases (m.cfreelist == 0)) [
        | inl none ↦
            let free : m.cfreelist ≡ 0 = ground (arith, none) in
            rw (putc-none c q m cl free) (b_to_q-none c cs q m new none)
        | inr some ↦
            let free : m.cfreelist ≢ 0 = ground (arith, some) in
            let f = m.cfreelist in
            rw (putc-first c q m f cl refl free) (
              b_to_q-first c cs q m new some block
              ∙ sym (
                  puts-copy_in cs _ _ (λ z. absurd (omega (arith, z)))
                  ∙ counted cs (record q { c_cf = info f }) (info f + 1) _))
      ]
]
