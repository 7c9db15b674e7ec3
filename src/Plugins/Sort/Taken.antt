-- ===== src/Plugins/Sort/Taken.antt =====
-- The invariant of the loop.
use cordyceps.Common.{
  ◌==◌, if◌then◌else◌, ==_iff, Bool-cases, str_eq_refl, ℕ, zero, suc, ◌+◌, ◌<◌, String, ◌≡◌, refl,
  sym, ap, ◌∙◌, ◌⊎◌, inl, inr, true, false, not, ◌&&◌, ◌||◌, none, some, List, [], ◌∷◌, ◌++◌, arith,
  str_eq, eq_iff,
}
use cordyceps.Common.Map.{includes-append, Map, get, includes, keys}
use cordyceps.Plugins.Sort.{Edges, targets, lower_all, take_all}
use cordyceps.Plugins.Sort.Waits.{Uniq, UniqTargets, waits, waits-append}
use cordyceps.Plugins.Sort.Round.{
  Ordered, Ordered-append, Uniq-append, targets-Uniq, remaining, remaining-append, degree_lem,
  queue_lem,
}
use cordyceps.Plugins.Sort.Loop.{is_zero, AreZero, lower_all-get, lower_all-queue, lower_all-Uniq}

module _ (names : List String) (m : Edges) (uniq : Uniq (keys m)) (tidy : UniqTargets m) where
  -- The queue holds the nodes that are not taken and that nothing waits in front of.
  pub record Taken (d : Map ℕ) (queue result : List String) : Type 0 where
    pub degrees :
        (n : String) → get n d ≡ (if includes n names then some (waits n m result) else none)
    pub uniq_queue : Uniq queue
    pub queued :
        (n : String)
        → includes n queue ≡ includes n names && (waits n m result == 0 && not (includes n result))
    pub uniq_result : Uniq result
    pub known : (n : String) → includes n result ≡ true → includes n names ≡ true
    pub settled : (n : String) → includes n result ≡ true → waits n m result ≡ 0
    pub ordered : Ordered m [] result

  -- What the loop leaves.
  pub record IsComplete (result : List String) : Type 0 where
    pub uniq_result : Uniq result
    pub known : (n : String) → includes n result ≡ true → includes n names ≡ true
    pub ordered : Ordered m [] result
    pub stuck :
        (n : String) → includes n names ≡ true → includes n result ≡ false → 0 < waits n m result

  Taken-AreZero : (d : Map ℕ) (queue result : List String) → Taken d queue result → AreZero queue d
  Taken-AreZero d queue result t n i =
      let q = sym (t.queued n) ∙ i in
      elim (Bool-cases (includes n names)) [
        | inl a ↦ ap is_zero (t.degrees n) ∙ ground (arith, q, a)
        | inr a ↦ absurd (ground (arith, q, a))
      ]

  module _ (d : Map ℕ) (a : String) (queue result : List String)
      (t : Taken d (a ∷ queue) result) where
    head_queued : includes a names && (waits a m result == 0 && not (includes a result)) ≡ true
    head_queued = sym (t.queued a) ∙ ground (arith, str_eq_refl a)

    head_new : includes a result ≡ false
    head_new = ground (arith, head_queued)

    head_known : includes a names ≡ true
    head_known = ground (arith, head_queued)

    head_free : waits a m result ≡ 0
    head_free = (==_iff (waits a m result) 0).0 (ground (arith, head_queued))

    after : Map ℕ × List String
    after = lower_all (targets a m) d queue

    drop_one :
        (n : String)
        → waits n m (result ++ a ∷ []) + (if includes n (targets a m) then 1 else 0)
          ≡ waits n m result
    drop_one n = waits-append n a m result uniq head_new

    degrees_after :
        (n : String)
        → get n after.0 ≡ (if includes n names then some (waits n m (result ++ a ∷ [])) else none)
    unfolding after
    degrees_after n =
        lower_all-get n (targets a m) d queue (targets-Uniq a m tidy)
        ∙ degree_lem (includes n (targets a m)) (includes n names) (waits n m result)
            (waits n m (result ++ a ∷ [])) (get n d) (t.degrees n) (drop_one n)

    result_after : (n : String) → includes n (result ++ a ∷ []) ≡ includes n result || str_eq a n
    result_after n = includes-append n result (a ∷ []) ∙ ground arith

    not_twice : (n : String) → not (str_eq a n && includes n queue) ≡ true
    not_twice n = elim (Bool-cases (str_eq a n)) [
      | inl s ↦
          let x : includes n queue ≡ false =
            ap (λ x. includes x queue) (sym ((eq_iff a n).0 s)) ∙ t.uniq_queue.0 in
          rw (s, x) refl
      | inr s ↦ rw s refl
    ]

    free_before : (n : String) → (includes n result || str_eq a n ≡ false) ⊎ (waits n m result ≡ 0)
    free_before n = elim (Bool-cases (includes n result)) [
      | inl h ↦ inr (t.settled n h)
      | inr h ↦ elim (Bool-cases (str_eq a n)) [
        | inl s ↦ inr (ap (λ x. waits x m result) (sym ((eq_iff a n).0 s)) ∙ head_free)
        | inr s ↦ inl (rw (h, s) refl)
      ]
    ]

    queued_after :
        (n : String)
        → includes n after.1
          ≡ includes n names
            && (waits n m (result ++ a ∷ []) == 0 && not (includes n (result ++ a ∷ [])))
    unfolding after
    queued_after n =
        lower_all-queue n (targets a m) d queue (targets-Uniq a m tidy)
        ∙ rw (result_after n) (
            queue_lem (includes n queue) (includes n (targets a m)) (includes n names)
              (includes n result) (str_eq a n) (waits n m result) (waits n m (result ++ a ∷ []))
              (get n d) (t.degrees n) (drop_one n) (t.queued n) (not_twice n) (free_before n))

    uniq_after : Uniq after.1
    unfolding after
    uniq_after =
        lower_all-Uniq (targets a m) d queue
          (λ n i. Taken-AreZero d (a ∷ queue) result t n (ground (arith, i))) t.uniq_queue.1

    known_after : (n : String) → includes n (result ++ a ∷ []) ≡ true → includes n names ≡ true
    known_after n i = elim (Bool-cases (includes n result)) [
      | inl h ↦ t.known n h
      | inr h ↦
          ap (λ x. includes x names) (sym ((eq_iff a n).0 (ground (arith, result_after n, i, h))))
          ∙ head_known
    ]

    settled_after :
        (n : String) → includes n (result ++ a ∷ []) ≡ true → waits n m (result ++ a ∷ []) ≡ 0
    settled_after n i = elim (Bool-cases (includes n result)) [
      | inl h ↦ omega (arith, drop_one n, t.settled n h)
      | inr h ↦
          let same : a ≡ n =
            (eq_iff a n).0 (ground (arith, includes-append n result (a ∷ []), i, h)) in
          omega (arith, drop_one n, ap (λ x. waits x m result) (sym same) ∙ head_free)
    ]

    pub Taken-after :
        Taken
          (lower_all (targets a m) d queue).0
          (lower_all (targets a m) d queue).1
          (result ++ a ∷ [])
    unfolding after
    Taken-after = record {
      degrees = degrees_after;
      uniq_queue = uniq_after;
      queued = queued_after;
      uniq_result = Uniq-append result a t.uniq_result head_new;
      known = known_after;
      settled = settled_after;
      ordered = Ordered-append m [] result a t.ordered head_free;
    }

  -- With a round of fuel for every name left, and one more, the loop ends with an empty queue.
  pub take_all-IsComplete :
      (fuel : ℕ) (d : Map ℕ) (queue result : List String)
      → Taken d queue result
      → remaining names result < fuel
      → IsComplete (take_all fuel m d queue result)
  unfolding take_all
  take_all-IsComplete zero d queue result t f = absurd (omega arith)
  take_all-IsComplete (suc fuel) d [] result t f = record {
    uniq_result = t.uniq_result;
    known = t.known;
    ordered = t.ordered;
    stuck = λ n h g. elim (Bool-cases (waits n m result == 0)) [
      | inl z ↦ absurd (ground (arith, t.queued n, h, g, z))
      | inr z ↦ ground (arith, z)
    ];
  }
  take_all-IsComplete (suc fuel) d (a ∷ queue) result t f =
      take_all-IsComplete fuel (lower_all (targets a m) d queue).0
        (lower_all (targets a m) d queue).1 (result ++ a ∷ []) (Taken-after d a queue result t)
        (omega (
          arith,
          f,
          remaining-append names result a (head_known d a queue result t)
              (head_new d a queue result t),
        ))
