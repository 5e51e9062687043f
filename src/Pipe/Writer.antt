-- ===== src/Pipe/Writer.antt =====
-- The steps of `writep`.
use unix_v7_c.Base.{
  ℕ, ◌+◌, ◌≤◌, ◌<◌, ◌≡◌, inl, inr, refl, sym, ap, ◌∙◌, true, List, ◌++◌, length, drop, arith,
  Bool-cases, ltb, leb, ◌==◌, length-append,
}
use unix_v7_c.Pipe.{Pipe, write_loop, writing, write_try, write_end, store}
use unix_v7_c.Pipe.Lock.{inside, Good}
use mathlib.Core.List.{append_assoc}
use unix_v7_c.Pipe.Fifo.{drop-append, store-end, length-take_le}
use unix_v7_c.Pipe.Kept.{IsPipe, Kept, same_pipe, told, nobody}

pub write_try-Kept :
    (c : List ℕ) (k : Pipe)
    → IsPipe k
    → let (p', k', w) = write_try c k in Kept (write_loop c) k p' k' w
unfolding write_try Good inside
write_try-Kept c k pipe = elim (Bool-cases k.i_lock) [
  | inl locked ↦ rw locked (record {
    safe = record {
      on_ip = inr (λ a b. (refl, refl));
      readers = inr (λ a b. (a, b));
      writers = inr (λ a b. (a, b));
    };
    good = (refl, refl);
    pipe = same_pipe k _ refl refl refl refl pipe;
    lock = refl;
    others = inr (refl, refl);
  })
  | inr free ↦ elim (Bool-cases (length c == 0)) [
    | inl none ↦
        rw (free, none)
          (record {
            safe = record {
              on_ip = nobody _ _;
              readers = inr (λ a b. (a, b));
              writers = inr (λ a b. (a, b));
            };
            good = tt;
            pipe = same_pipe k _ refl refl refl refl pipe;
            lock = refl;
            others = inr (refl, refl);
          })
    | inr some ↦ elim (Bool-cases (ltb k.i_count 2)) [
      | inl few ↦
          rw (free, some, few)
            (record {
              safe = record {
                on_ip = nobody _ _;
                readers = inr (λ a b. (a, b));
                writers = inr (λ a b. (a, b));
              };
              good = tt;
              pipe = same_pipe k _ refl refl refl refl pipe;
              lock = refl;
              others = inr (refl, refl);
            })
      | inr both ↦ elim (Bool-cases (leb 4096 (length k.content))) [
        | inl full ↦
            rw (free, some, both, full)
              (record {
                safe = record {
                  on_ip = nobody _ _;
                  readers = inr (λ a b. (a, b));
                  writers = inr (λ a b. (a, refl));
                };
                good = (ground (arith, full), refl);
                pipe = same_pipe k _ refl refl refl refl pipe;
                lock = refl;
                others = inr (refl, refl);
              })
        | inr room ↦
            rw (free, some, both, room)
              (record {
                safe = record {
                  on_ip = nobody _ _;
                  readers = inr (λ a b. (a, b));
                  writers = inr (λ a b. (a, b));
                };
                good = (refl, ground (arith, room), length-take_le 4096 c);
                pipe = same_pipe k _ refl refl refl refl pipe;
                lock = refl;
                others = inr (refl, refl);
              })
      ]
    ]
  ]
]

pub write_end-Kept :
    (b c : List ℕ) (o : ℕ) (k : Pipe)
    → IsPipe k
    → (o ≡ length k.content) × (o < 4096) × (length b ≤ 4096)
    → k.i_lock ≡ true
    → let (p', k', w) = write_end b c o k in Kept (writing b c o) k p' k' w
unfolding write_end Good inside
write_end-Kept b c o k pipe (at, small, chunk) locked =
    let le = pipe.offset in
    let file : store o b k.content ≡ k.content ++ b =
      ap (λ i. store i b k.content) at ∙ store-end b k.content in
    let len : length (store o b k.content) ≡ length k.content + length b =
      ap length file ∙ length-append k.content b in
    let behind : drop k.f_offset (store o b k.content) ≡ drop k.f_offset k.content ++ b =
      ap (drop k.f_offset) file ∙ drop-append k.f_offset k.content b le in
    record {
      safe = record {
        on_ip = told k.i_want;
        readers = told k.i_read;
        writers = inr (λ a b. (omega (arith, a, len), b));
      };
      good = tt;
      pipe = record {
        offset = omega (arith, le, len);
        order =
            ap (λ r. k.taken ++ r) behind
            ∙ (sym (append_assoc k.taken (drop k.f_offset k.content) b)
                ∙ ap (λ r. r ++ b) pipe.order);
        size = omega (arith, at, small, chunk, len);
      };
      lock = rw locked refl;
      others = inl refl;
    }
