-- ===== src/Agents/Feed/Waiters.antt =====
-- `waitForMessage` of the controllers: listeners that the next message or a timer takes off. The
-- waiters are numbered as they come.
use cordyceps.Common.{
  ltb, ◌==◌, if◌then◌else◌, Bool-cases, ℕ, ◌+◌, ◌<◌, ◌≡◌, refl, inl, inr, true, false, Option, none,
  some, List, [], ◌∷◌, ◌++◌, arith,
}
use cordyceps.Agents.Types.{AssistantMessage}
use cordyceps.Agents.Exec.{mem, erase}

-- `answers` holds what the promises were settled with: a message, or `none` by the timer.
pub record Waiters : Type 0 where
  pub pending : List ℕ
  pub next : ℕ
  pub answers : List (ℕ × Option AssistantMessage)

abbrev pub no_waiters : Waiters
no_waiters = record { pending = []; next = 0; answers = [] }

unfoldable pub wait : Waiters → Waiters
wait w = record w { pending = w.pending ++ w.next ∷ []; next = w.next + 1 }

abbrev pub answer_all : AssistantMessage → List ℕ → List (ℕ × Option AssistantMessage)
answer_all m [] = []
answer_all m (k ∷ ks) = (k, some m) ∷ answer_all m ks

-- Messages are emitted one by one: the first settles all.
unfoldable pub deliver : List AssistantMessage → Waiters → Waiters
deliver [] w = w
deliver (m ∷ ms) w = record w { pending = []; answers = w.answers ++ answer_all m w.pending }

unfoldable pub expire : ℕ → Waiters → Waiters
expire k w =
    if mem k w.pending
    then record w { pending = erase k w.pending; answers = w.answers ++ (k, none) ∷ [] }
    else w

-- How often a waiter is in a list.
abbrev pub count_in : ℕ → List ℕ → ℕ
count_in k [] = 0
count_in k (j ∷ l) = (if j == k then 1 else 0) + count_in k l

abbrev pub count_answers : ℕ → List (ℕ × Option AssistantMessage) → ℕ
count_answers k [] = 0
count_answers k ((j, a) ∷ l) = (if j == k then 1 else 0) + count_answers k l

-- Every waiter there was waits or was answered, and no waiter twice.
abbrev pub IsFair : Waiters → Type 0
IsFair w =
    (k : ℕ) → count_in k w.pending + count_answers k w.answers ≡ (if ltb k w.next then 1 else 0)

count_in-append : (k : ℕ) (l m : List ℕ) → count_in k (l ++ m) ≡ count_in k l + count_in k m
count_in-append k [] m = omega arith
count_in-append k (j ∷ l) m = ground (arith, count_in-append k l m)

count_answers-append :
    (k : ℕ) (l m : List (ℕ × Option AssistantMessage))
    → count_answers k (l ++ m) ≡ count_answers k l + count_answers k m
count_answers-append k [] m = omega arith
count_answers-append k ((j, a) ∷ l) m = ground (arith, count_answers-append k l m)

count_answers-answer_all :
    (k : ℕ) (m : AssistantMessage) (l : List ℕ) → count_answers k (answer_all m l) ≡ count_in k l
count_answers-answer_all k m [] = refl
count_answers-answer_all k m (j ∷ l) = ground (arith, count_answers-answer_all k m l)

count_in-erase :
    (k j : ℕ) (l : List ℕ) → count_in k (erase j l) ≡ (if j == k then 0 else count_in k l)
count_in-erase k j [] = ground arith
count_in-erase k j (i ∷ l) = ground (arith, count_in-erase k j l)

mem_count : (k : ℕ) (l : List ℕ) → mem k l ≡ true → 0 < count_in k l
mem_count k [] h = absurd (ground (arith, h))
mem_count k (j ∷ l) h = ground (arith, h, mem_count k l)

pub not_mem_count : (k : ℕ) (l : List ℕ) → mem k l ≡ false → count_in k l ≡ 0
not_mem_count k [] h = refl
not_mem_count k (j ∷ l) h = ground (arith, h, not_mem_count k l)

pub no_waiters-IsFair : IsFair no_waiters
no_waiters-IsFair k = ground arith

pub wait-IsFair : (w : Waiters) → IsFair w → IsFair (wait w)
unfolding wait
wait-IsFair w f k = ground (arith, count_in-append k w.pending (w.next ∷ []), f k)

pub deliver-IsFair : (ms : List AssistantMessage) (w : Waiters) → IsFair w → IsFair (deliver ms w)
unfolding deliver
deliver-IsFair [] w f k = f k
deliver-IsFair (m ∷ ms) w f k = omega (
  arith,
  count_answers-append k w.answers (answer_all m w.pending),
  count_answers-answer_all k m w.pending,
  f k,
)

pub expire-IsFair : (k : ℕ) (w : Waiters) → IsFair w → IsFair (expire k w)
unfolding expire
expire-IsFair j w f = elim (Bool-cases (mem j w.pending)) [
  | inl e ↦ rw e (λ k. ground (
    arith,
    f k,
    f j,
    mem_count j w.pending e,
    count_in-erase k j w.pending,
    count_answers-append k w.answers ((j, none) ∷ []),
  ))
  | inr e ↦ rw e f
]

-- Behind its timer a waiter does not wait.
pub expire_answered :
    (k : ℕ) (w : Waiters)
    → IsFair w
    → ltb k w.next ≡ true
    → count_answers k (expire k w).answers ≡ 1
unfolding expire
expire_answered k w f l = elim (Bool-cases (mem k w.pending)) [
  | inl e ↦ rw e (
      ground
        (arith, f k, l, mem_count k w.pending e, count_answers-append k w.answers ((k, none) ∷ [])))
  | inr e ↦ rw e (ground (arith, f k, l, not_mem_count k w.pending e))
]
