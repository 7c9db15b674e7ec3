-- ===== src/Core/Bus/Handles.antt =====
-- What subscriptions do to the callbacks that an event reaches.
use cordyceps.Common.{
  ◌==◌, if◌then◌else◌, Bool-cases, Option-cases, ℕ, ◌+◌, ◌<◌, String, ◌≡◌, refl, sym, ap, ◌∙◌, inl,
  inr, Bool, true, false, ◌&&◌, none, some, List, [], ◌∷◌, arith, str_eq, eq_iff,
}
use cordyceps.Common.Map
use cordyceps.Common.Map.{Map, get-put, get-delete, get-put_self, get-put_ne}
use cordyceps.Core.Bus.{
  ServiceBus, add_callback, delete_callback, content, set_content, emitted, is_empty, add_to, on,
  drop_from, off,
}

-- The events have sets of their own, all of them made before.
pub record IsSeparate (b : ServiceBus) : Type 0 where
  pub made : (e : String) (i : ℕ) → Map.get e b.listeners ≡ some i → i < b.next_set
  pub apart :
      (e f : String) (i : ℕ)
      → Map.get e b.listeners ≡ some i
      → Map.get f b.listeners ≡ some i
      → e ≡ f

content-set_content :
    (i j : ℕ) (l : List ℕ) (sets : List (ℕ × List ℕ))
    → content j (set_content i l sets) ≡ (if i == j then l else content j sets)
unfolding content set_content
content-set_content i j l [] = ground arith
content-set_content i j l ((k, m) ∷ sets) = ground (arith, content-set_content i j l sets)

emitted-some :
    (e : String) (b : ServiceBus) (i : ℕ)
    → Map.get e b.listeners ≡ some i
    → emitted e b ≡ content i b.sets
unfolding emitted
emitted-some e b i h = ground (arith, h)

emitted-none : (e : String) (b : ServiceBus) → Map.get e b.listeners ≡ none → emitted e b ≡ []
unfolding emitted
emitted-none e b h = ground (arith, h)

is_empty-nil : (l : List ℕ) → is_empty l ≡ true → l ≡ []
is_empty-nil [] h = refl
is_empty-nil (c ∷ l) h = absurd (ground (arith, h))

get-if :
    (x : Bool) (e f : String) (m : Map ℕ)
    → Map.get f (if x then Map.delete e m else m) ≡ (if x && str_eq e f then none else Map.get f m)
get-if true e f m = get-delete e f m
get-if false e f m = refl

emitted-drop_from :
    (e f : String) (i cb : ℕ) (b : ServiceBus)
    → IsSeparate b
    → Map.get e b.listeners ≡ some i
    → emitted f (drop_from e i cb b)
      ≡ (if str_eq e f then delete_callback cb (emitted f b) else emitted f b)
unfolding drop_from
emitted-drop_from e f i cb b s h =
    let left = delete_callback cb (content i b.sets) in
    let after = drop_from e i cb b in
    let found = get-if (is_empty left) e f b.listeners in
    elim (Bool-cases (str_eq e f)) [
      | inl q ↦
          let same : Map.get f b.listeners ≡ some i =
            ap (λ x. Map.get x b.listeners) (sym ((eq_iff e f).0 q)) ∙ h in
          elim (Bool-cases (is_empty left)) [
            | inl x ↦
                emitted-none f after (found ∙ ground (arith, x, q))
                ∙ sym (is_empty-nil left x)
                ∙ sym (rw (q, emitted-some f b i same) refl)
            | inr x ↦
                emitted-some f after i (found ∙ ground (arith, x, q, same))
                ∙ content-set_content i i left b.sets
                ∙ ground (arith, emitted-some f b i same, q)
          ]
      | inr q ↦ elim (Option-cases (Map.get f b.listeners)) [
        | inl n ↦
            emitted-none f after (found ∙ ground (arith, q, n))
            ∙ sym (rw (q, emitted-none f b n) refl)
        | inr (j, n) ↦
            emitted-some f after j (found ∙ ground (arith, q, n))
            ∙ content-set_content i j left b.sets
            ∙ ground (arith, emitted-some f b j n, q, eq_iff e f, s.apart e f i h, n)
      ]
    ]

delete_callback-nil : (cb : ℕ) → delete_callback cb [] ≡ []
unfolding delete_callback
delete_callback-nil cb = refl

pub off-none :
    (e : String) (cb : ℕ) (b : ServiceBus) → Map.get e b.listeners ≡ none → off e cb b ≡ b
unfolding off
off-none e cb b h = ground (arith, h)

pub off-some :
    (e : String) (i cb : ℕ) (b : ServiceBus)
    → Map.get e b.listeners ≡ some i
    → off e cb b ≡ drop_from e i cb b
unfolding off
off-some e i cb b h = ground (arith, h)

-- Where the events have sets of their own, `off` takes the callback off its event and leaves the
-- callbacks of all other events.
pub emitted-off :
    (e f : String) (cb : ℕ) (b : ServiceBus)
    → IsSeparate b
    → emitted f (off e cb b)
      ≡ (if str_eq e f then delete_callback cb (emitted f b) else emitted f b)
emitted-off e f cb b s = elim (Option-cases (Map.get e b.listeners)) [
  | inr (i, h) ↦ rw (off-some e i cb b h) (emitted-drop_from e f i cb b s h)
  | inl h ↦ rw (off-none e cb b h) (elim (Bool-cases (str_eq e f)) [
    | inr q ↦ rw q refl
    | inl q ↦
        let n : emitted f b ≡ [] =
          emitted-none f b (ap (λ x. Map.get x b.listeners) (sym ((eq_iff e f).0 q)) ∙ h) in
        rw (q, n, delete_callback-nil cb) refl
  ])
]

emitted-add_to :
    (e f : String) (i cb : ℕ) (b : ServiceBus)
    → IsSeparate b
    → Map.get e b.listeners ≡ some i
    → emitted f (add_to e i cb b).0
      ≡ (if str_eq e f then add_callback cb (emitted f b) else emitted f b)
unfolding add_to
emitted-add_to e f i cb b s h =
    let new = add_callback cb (content i b.sets) in
    let after = (add_to e i cb b).0 in
    elim (Option-cases (Map.get f b.listeners)) [
      | inl n ↦ elim (Bool-cases (str_eq e f)) [
        | inl q ↦
            absurd (ground (arith, n, ap (λ x. Map.get x b.listeners) (sym ((eq_iff e f).0 q)) ∙ h))
        | inr q ↦ emitted-none f after n ∙ sym (rw (q, emitted-none f b n) refl)
      ]
      | inr (j, n) ↦ elim (Bool-cases (str_eq e f)) [
        | inl q ↦
            let same : Map.get f b.listeners ≡ some i =
              ap (λ x. Map.get x b.listeners) (sym ((eq_iff e f).0 q)) ∙ h in
            emitted-some f after i same
            ∙ content-set_content i i new b.sets
            ∙ ground (arith, emitted-some f b i same, q)
        | inr q ↦
            emitted-some f after j n
            ∙ content-set_content i j new b.sets
            ∙ ground (arith, emitted-some f b j n, q, eq_iff e f, s.apart e f i h, n)
      ]
    ]

-- The bus with a new, empty set for an event.
abbrev pub with_set : String → ServiceBus → ServiceBus
with_set e b = record {
  next_set = b.next_set + 1;
  sets = set_content b.next_set [] b.sets;
  listeners = Map.put e b.next_set b.listeners;
}

pub on-some :
    (e : String) (i cb : ℕ) (b : ServiceBus)
    → Map.get e b.listeners ≡ some i
    → on e cb b ≡ add_to e i cb b
unfolding on
on-some e i cb b h = ground (arith, h)

pub on-none :
    (e : String) (cb : ℕ) (b : ServiceBus)
    → Map.get e b.listeners ≡ none
    → on e cb b ≡ add_to e b.next_set cb (with_set e b)
unfolding on
on-none e cb b h = ground (arith, h)

pub with_set-IsSeparate : (e : String) (b : ServiceBus) → IsSeparate b → IsSeparate (with_set e b)
with_set-IsSeparate e b s = record {
  made = λ f i h. elim (Bool-cases (str_eq e f)) [
    | inl q ↦ ground (arith, q, get-put e f b.next_set b.listeners, h)
    | inr q ↦ ground (arith, q, get-put e f b.next_set b.listeners, h, s.made f i)
  ];
  apart = λ f g i h k. ground (
    arith,
    h,
    k,
    get-put e f b.next_set b.listeners,
    get-put e g b.next_set b.listeners,
    eq_iff e f,
    eq_iff e g,
    s.made f i,
    s.made g i,
    s.apart f g i,
  );
}

emitted-with_set :
    (e f : String) (b : ServiceBus)
    → IsSeparate b
    → Map.get e b.listeners ≡ none
    → emitted f (with_set e b) ≡ emitted f b
emitted-with_set e f b s h = elim (Bool-cases (str_eq e f)) [
  | inl q ↦
      emitted-some f (with_set e b) b.next_set
        (get-put e f b.next_set b.listeners ∙ ground (arith, q))
      ∙ content-set_content b.next_set b.next_set [] b.sets
      ∙ ground
          (arith, emitted-none f b (ap (λ x. Map.get x b.listeners) (sym ((eq_iff e f).0 q)) ∙ h))
  | inr q ↦ elim (Option-cases (Map.get f b.listeners)) [
    | inl n ↦
        emitted-none f (with_set e b) (get-put e f b.next_set b.listeners ∙ ground (arith, q, n))
        ∙ sym (emitted-none f b n)
    | inr (j, n) ↦
        emitted-some f (with_set e b) j (get-put e f b.next_set b.listeners ∙ ground (arith, q, n))
        ∙ content-set_content b.next_set j [] b.sets
        ∙ ground (arith, emitted-some f b j n, s.made f j n)
  ]
]

-- Where the events have sets of their own, `on` adds the callback to its event, once, behind the
-- others, and leaves the callbacks of all other events.
pub emitted-on :
    (e f : String) (cb : ℕ) (b : ServiceBus)
    → IsSeparate b
    → emitted f (on e cb b).0 ≡ (if str_eq e f then add_callback cb (emitted f b) else emitted f b)
emitted-on e f cb b s = elim (Option-cases (Map.get e b.listeners)) [
  | inr (i, h) ↦ rw (on-some e i cb b h) (emitted-add_to e f i cb b s h)
  | inl h ↦ rw (on-none e cb b h) (
      emitted-add_to e f b.next_set cb (with_set e b) (with_set-IsSeparate e b s)
        (get-put_self e b.next_set b.listeners)
      ∙ ap (λ l. if str_eq e f then add_callback cb l else l) (emitted-with_set e f b s h))
]
