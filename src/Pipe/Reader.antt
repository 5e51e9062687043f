-- ===== src/Pipe/Reader.antt =====
-- The steps of `readp`.
use unix_v7_c.Base.{
  ℕ, ◌+◌, ◌≤◌, ◌≡◌, inl, inr, refl, sym, ap, ◌∙◌, true, List, [], ◌++◌, length, take, drop, arith,
  Bool-cases, ltb, ◌==◌,
}
use unix_v7_c.Pipe.{Pipe, read_loop, reading, read_try, read_end}
use unix_v7_c.Pipe.Lock.{inside, Good}
use mathlib.Core.List.{append_assoc}
use unix_v7_c.Pipe.Fifo.{drop-end, take-drop}
use unix_v7_c.Pipe.Kept.{IsPipe, Kept, same_pipe, told, nobody}

pub read_try-Kept :
    (n : ℕ) (k : Pipe) → IsPipe k → let (p', k', w) = read_try n k in Kept (read_loop n) k p' k' w
unfolding read_try Good inside
read_try-Kept n k pipe = elim (Bool-cases k.i_lock) [
  | inl locked ↦ rw locked (record {
    safe = record {
      on_ip = inr (λ a b. (refl, refl));
      readers = inr (λ a b. (a, b));
      writers = inr (λ a b. (a, b));
    };
    good = (refl, refl);
    pipe = same_pipe k _ refl refl refl refl pipe;
    lock = refl;
    others = inr (refl, refl);
  })
  | inr free ↦ elim (Bool-cases (length k.content == 0)) [
    | inl none ↦ elim (Bool-cases (ltb k.i_count 2)) [
      | inl few ↦
          rw (free, none, few)
            (record {
              safe = record {
                on_ip = nobody _ _;
                readers = inr (λ a b. (a, b));
                writers = inr (λ a b. (a, b));
              };
              good = tt;
              pipe = same_pipe k _ refl refl refl refl pipe;
              lock = refl;
              others = inr (refl, refl);
            })
      | inr both ↦
          rw (free, none, both)
            (record {
              safe = record {
                on_ip = nobody _ _;
                readers = inr (λ a b. (a, refl));
                writers = inr (λ a b. (a, b));
              };
              good = (ground (arith, none), refl);
              pipe = same_pipe k _ refl refl refl refl pipe;
              lock = refl;
              others = inr (refl, refl);
            })
    ]
    | inr some ↦
        rw (free, some)
          (record {
            safe = record {
              on_ip = nobody _ _;
              readers = inr (λ a b. (a, b));
              writers = inr (λ a b. (a, b));
            };
            good = refl;
            pipe = same_pipe k _ refl refl refl refl pipe;
            lock = refl;
            others = inr (refl, refl);
          })
  ]
]

-- The bytes at the offset are read.
read_bytes :
    (n o : ℕ) (content taken given : List ℕ)
    → o ≤ length content
    → taken ++ drop o content ≡ given
    → let got = take n (drop o content) in (taken ++ got) ++ drop (o + length got) content ≡ given
read_bytes n o content taken given le order =
    let (_, eq) = take-drop n o content le in
    append_assoc taken (take n (drop o content))
      (drop (o + length (take n (drop o content))) content)
    ∙ (ap (λ b. taken ++ b) eq ∙ order)

pub read_end-Kept :
    (n o : ℕ) (k : Pipe)
    → IsPipe k
    → o ≡ k.f_offset
    → k.i_lock ≡ true
    → let (p', k', w) = read_end n o k in Kept (reading n o) k p' k' w
unfolding read_end Good inside
read_end-Kept n o k pipe at locked =
    let size = pipe.size in
    let le : o ≤ length k.content = rw at pipe.offset in
    let order : k.taken ++ drop o k.content ≡ k.given = rw at pipe.order in
    let got = take n (drop o k.content) in
    let behind = take-drop n o k.content le in
    let next = read_bytes n o k.content k.taken k.given le order in
    elim (Bool-cases (o + length got == length k.content)) [
      | inl all ↦
          let eq : o + length got ≡ length k.content = ground (arith, all) in
          let none : drop (o + length got) k.content ≡ [] =
            drop-end (o + length got) k.content (omega (arith, eq)) in
          rw all (record {
            safe = record {
              on_ip = told k.i_want;
              readers = inr (λ a b. (refl, b));
              writers = told k.i_write;
            };
            good = tt;
            pipe = record {
              offset = omega arith;
              order = ap (λ b. (k.taken ++ got) ++ b) (sym none) ∙ next;
              size = omega arith;
            };
            lock = rw locked refl;
            others = inl refl;
          })
      | inr some ↦ rw some (record {
        safe = record {
          on_ip = told k.i_want;
          readers = inr (λ a b. (a, b));
          writers = inr (λ a b. (a, b));
        };
        good = tt;
        pipe = record { offset = behind.0; order = next; size = size };
        lock = rw locked refl;
        others = inl refl;
      })
    ]
