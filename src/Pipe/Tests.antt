-- ===== src/Pipe/Tests.antt =====
-- Concrete pipes of pipe.c.
use test_ascii.Common.{
  ℕ, ◌-◌, ◌≡◌, ◌≤◌, ◌⊎◌, ◌^◌, refl, arith, true, false, some, [], ◌∷◌, ◌++◌, length, take, drop,
  replicate, length-replicate, if◌then◌else◌,
}
use test_ascii.Pipe.{Pipe, init, pipewrite, piperead, got, read_sleeps, read_failed, writers}
use test_ascii.Pipe.Queue.{IsPipe, used, contents}
use test_ascii.Pipe.Write.{Wrote}
use test_ascii.Pipe.Stream.{
  Traffic, opened, after_write, after_read, writes, reads, Reach, starts, goes_on,
}
use test_ascii.Pipe.Delivery.{in_order, sleepers_wait, killed_writer, piperead_lem, pipewrite_lem}

-- A fresh pipe, beside which a reader goes to sleep.
abbrev fresh : Traffic
fresh = opened (λ _. 0)

abbrev waiting : Traffic
waiting = after_read fresh (piperead false fresh.pipe 10)

Reach-waiting : Reach waiting
unfolding opened init
Reach-waiting = goes_on _ _ (starts (λ _. 0)) (reads fresh false 10 refl)

-- Then three bytes are written.
abbrev woken : Traffic
woken = after_write waiting (7 ∷ 8 ∷ 9 ∷ []) (pipewrite false waiting.pipe (7 ∷ 8 ∷ 9 ∷ []))

Reach-woken : Reach woken
unfolding opened init after_read piperead
Reach-woken = goes_on _ _ Reach-waiting (writes waiting false (7 ∷ 8 ∷ 9 ∷ []) refl)

in_order_example :
    (woken.written ≡ woken.received ++ contents woken.pipe) × (length (contents woken.pipe) ≤ 512)
in_order_example = in_order Reach-woken

sleepers_wait_example :
    ((waiting.reader_asleep ≡ false)
      ⊎ ((used waiting.pipe ≡ 0)
          × (waiting.pipe.writeopen ≡ true)
          × (waiting.pipe.readopen ≡ true)))
    × ((waiting.writer_asleep ≡ false)
        ⊎ ((used waiting.pipe ≡ 512)
            × (waiting.pipe.readopen ≡ true)
            × (waiting.pipe.writeopen ≡ true)))
unfolding opened init after_read piperead
sleepers_wait_example = sleepers_wait Reach-waiting refl

killed_writer_example :
    let t = after_write waiting (replicate 600 7) (pipewrite true waiting.pipe (replicate 600 7)) in
    (t.reader_asleep ≡ true) × (used t.pipe ≡ 512)
unfolding opened init after_read piperead
killed_writer_example =
    killed_writer Reach-waiting (replicate 600 7) refl refl
      (omega (arith, length-replicate {A = ℕ} 600 7))

-- A pipe whose write counter has wrapped: four bytes are in it.
abbrev wrapped : Pipe
wrapped = record { buf = λ i. i; nread = 2 ^ 32 - 2; nwrite = 2; readopen = true; writeopen = true }

wrapped-IsPipe : IsPipe wrapped
wrapped-IsPipe = record { nread_word = omega arith; nwrite_word = omega arith; fits = omega arith }

piperead_lem_example :
    let (how, woke, p') = piperead false wrapped 3 in
    ((used wrapped ≡ 0)
      × (wrapped.writeopen ≡ true)
      × (p' ≡ wrapped)
      × (how ≡ (if false then read_failed else read_sleeps)))
    ⊎ ((how ≡ got (take 3 (contents wrapped)))
        × (woke ≡ some writers)
        × (contents p' ≡ drop 3 (contents wrapped))
        × (used wrapped ≡ 0 → wrapped.writeopen ≡ false))
piperead_lem_example = piperead_lem false wrapped 3 wrapped-IsPipe

pipewrite_lem_example : Wrote false wrapped (1 ∷ 2 ∷ []) (pipewrite false wrapped (1 ∷ 2 ∷ []))
pipewrite_lem_example = pipewrite_lem false wrapped (1 ∷ 2 ∷ []) wrapped-IsPipe
